-- ===== src/Webm/Ids.antt =====
-- portal/static/spice-html5/webm.js: the identifiers of EBML and Webm elements.
use vm_automation_deployment.Common.{ℕ, List, [], ◌∷◌}

abbrev pub ebml_header : List ℕ
ebml_header = 0x1a ∷ 0x45 ∷ 0xdf ∷ 0xa3 ∷ []

abbrev pub ebml_header_version : List ℕ
ebml_header_version = 0x42 ∷ 0x86 ∷ []

abbrev pub ebml_header_read_version : List ℕ
ebml_header_read_version = 0x42 ∷ 0xf7 ∷ []

abbrev pub ebml_header_max_id_length : List ℕ
ebml_header_max_id_length = 0x42 ∷ 0xf2 ∷ []

abbrev pub ebml_header_max_size_length : List ℕ
ebml_header_max_size_length = 0x42 ∷ 0xf3 ∷ []

abbrev pub ebml_header_doc_type : List ℕ
ebml_header_doc_type = 0x42 ∷ 0x82 ∷ []

abbrev pub ebml_header_doc_type_version : List ℕ
ebml_header_doc_type_version = 0x42 ∷ 0x87 ∷ []

abbrev pub ebml_header_doc_type_read_version : List ℕ
ebml_header_doc_type_read_version = 0x42 ∷ 0x85 ∷ []

abbrev pub webm_segment_header : List ℕ
webm_segment_header = 0x18 ∷ 0x53 ∷ 0x80 ∷ 0x67 ∷ []

abbrev pub webm_segment_information : List ℕ
webm_segment_information = 0x15 ∷ 0x49 ∷ 0xA9 ∷ 0x66 ∷ []

abbrev pub webm_timecode_scale : List ℕ
webm_timecode_scale = 0x2A ∷ 0xD7 ∷ 0xB1 ∷ []

abbrev pub webm_muxing_app : List ℕ
webm_muxing_app = 0x4D ∷ 0x80 ∷ []

abbrev pub webm_writing_app : List ℕ
webm_writing_app = 0x57 ∷ 0x41 ∷ []

abbrev pub webm_seek_head : List ℕ
webm_seek_head = 0x11 ∷ 0x4D ∷ 0x9B ∷ 0x74 ∷ []

abbrev pub webm_seek : List ℕ
webm_seek = 0x4D ∷ 0xBB ∷ []

abbrev pub webm_seek_id : List ℕ
webm_seek_id = 0x53 ∷ 0xAB ∷ []

abbrev pub webm_seek_position : List ℕ
webm_seek_position = 0x53 ∷ 0xAC ∷ []

abbrev pub webm_tracks : List ℕ
webm_tracks = 0x16 ∷ 0x54 ∷ 0xAE ∷ 0x6B ∷ []

abbrev pub webm_track_entry : List ℕ
webm_track_entry = 0xAE ∷ []

abbrev pub webm_track_number : List ℕ
webm_track_number = 0xD7 ∷ []

abbrev pub webm_track_uid : List ℕ
webm_track_uid = 0x73 ∷ 0xC5 ∷ []

abbrev pub webm_track_type : List ℕ
webm_track_type = 0x83 ∷ []

abbrev pub webm_flag_enabled : List ℕ
webm_flag_enabled = 0xB9 ∷ []

abbrev pub webm_flag_default : List ℕ
webm_flag_default = 0x88 ∷ []

abbrev pub webm_flag_forced : List ℕ
webm_flag_forced = 0x55 ∷ 0xAA ∷ []

abbrev pub webm_flag_lacing : List ℕ
webm_flag_lacing = 0x9C ∷ []

abbrev pub webm_min_cache : List ℕ
webm_min_cache = 0x6D ∷ 0xE7 ∷ []

abbrev pub webm_max_block_addition_id : List ℕ
webm_max_block_addition_id = 0x55 ∷ 0xEE ∷ []

abbrev pub webm_codec_decode_all : List ℕ
webm_codec_decode_all = 0xAA ∷ []

abbrev pub webm_seek_pre_roll : List ℕ
webm_seek_pre_roll = 0x56 ∷ 0xBB ∷ []

abbrev pub webm_codec_delay : List ℕ
webm_codec_delay = 0x56 ∷ 0xAA ∷ []

abbrev pub webm_codec_private : List ℕ
webm_codec_private = 0x63 ∷ 0xA2 ∷ []

abbrev pub webm_codec_id : List ℕ
webm_codec_id = 0x86 ∷ []

abbrev pub webm_video : List ℕ
webm_video = 0xE0 ∷ []

abbrev pub webm_flag_interlaced : List ℕ
webm_flag_interlaced = 0x9A ∷ []

abbrev pub webm_pixel_width : List ℕ
webm_pixel_width = 0xB0 ∷ []

abbrev pub webm_pixel_height : List ℕ
webm_pixel_height = 0xBA ∷ []

abbrev pub webm_audio : List ℕ
webm_audio = 0xE1 ∷ []

abbrev pub webm_sampling_frequency : List ℕ
webm_sampling_frequency = 0xB5 ∷ []

abbrev pub webm_channels : List ℕ
webm_channels = 0x9F ∷ []

abbrev pub webm_cluster : List ℕ
webm_cluster = 0x1F ∷ 0x43 ∷ 0xB6 ∷ 0x75 ∷ []

abbrev pub webm_time_code : List ℕ
webm_time_code = 0xE7 ∷ []

abbrev pub webm_simple_block : List ℕ
webm_simple_block = 0xA3 ∷ []
