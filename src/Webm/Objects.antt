-- ===== src/Webm/Objects.antt =====
-- webm.js: the objects, which write themselves and tell their size. The part behind an object's own
-- identifier and size is its body. Numbers are natural numbers; a keyframe is a Boolean.
use vm_automation_deployment.Common.{
  ℕ, ◌+◌, ◌-◌, ◌/◌, ◌%◌, Bool, List, [], ◌∷◌, ◌++◌, length, if◌then◌else◌,
}
use vm_automation_deployment.Wire.{Bytes}
use vm_automation_deployment.Webm.{
  write_u1_data_len, write_array, write_u8_value, write_u16_value, write_u32_value,
  write_float_value, write_u64_data_len, write_data,
}
use vm_automation_deployment.Webm.Ids.{
  ebml_header, ebml_header_version, ebml_header_read_version, ebml_header_max_id_length,
  ebml_header_max_size_length, ebml_header_doc_type, ebml_header_doc_type_version,
  ebml_header_doc_type_read_version, webm_segment_header, webm_segment_information,
  webm_timecode_scale, webm_muxing_app, webm_writing_app, webm_seek_head, webm_seek, webm_seek_id,
  webm_seek_position, webm_video, webm_flag_interlaced, webm_pixel_width, webm_pixel_height,
  webm_audio, webm_sampling_frequency, webm_channels, webm_cluster, webm_time_code,
  webm_simple_block,
}

-- The identifier, the size of the body and the body.
abbrev pub write_master : List ℕ → ℕ → Bytes → Bytes
write_master id size body = write_array id ++ (write_u64_data_len (size - 8 - length id) ++ body)

pub record EbmlHeader : Type 0 where
  pub version : ℕ
  pub read_version : ℕ
  pub max_id_length : ℕ
  pub max_size_length : ℕ
  pub doc_type : List ℕ
  pub doc_type_version : ℕ
  pub doc_type_read_version : ℕ

abbrev pub new_ebml_header : EbmlHeader
new_ebml_header = record {
  version = 1;
  read_version = 1;
  max_id_length = 4;
  max_size_length = 8;
  doc_type = b'w' ∷ b'e' ∷ b'b' ∷ b'm' ∷ [];
  doc_type_version = 2;
  doc_type_read_version = 2;
}

abbrev pub header_body : EbmlHeader → Bytes
header_body h =
    write_u8_value ebml_header_version h.version
    ++ (write_u8_value ebml_header_read_version h.read_version
        ++ (write_u8_value ebml_header_max_id_length h.max_id_length
            ++ (write_u8_value ebml_header_max_size_length h.max_size_length
                ++ (write_data ebml_header_doc_type h.doc_type
                    ++ (write_u8_value ebml_header_doc_type_version h.doc_type_version
                        ++ write_u8_value ebml_header_doc_type_read_version
                            h.doc_type_read_version)))))

unfoldable pub header_to_buffer : EbmlHeader → Bytes
header_to_buffer h = write_array ebml_header ++ (write_u64_data_len 0x1f ++ header_body h)

unfoldable pub header_buffer_size : EbmlHeader → ℕ
header_buffer_size h = 0x1f + 8 + length ebml_header

unfoldable pub segment_to_buffer : Bytes
segment_to_buffer = write_array webm_segment_header ++ (0xff ∷ [])

unfoldable pub segment_buffer_size : ℕ
segment_buffer_size = length webm_segment_header + 1

pub record SegmentInformation : Type 0 where
  pub timecode_scale : ℕ
  pub muxing_app : List ℕ
  pub writing_app : List ℕ

abbrev pub new_segment_information : SegmentInformation
new_segment_information = record {
  timecode_scale = 1000000;
  muxing_app = b's' ∷ b'p' ∷ b'i' ∷ b'c' ∷ b'e' ∷ [];
  writing_app = b's' ∷ b'p' ∷ b'i' ∷ b'c' ∷ b'e' ∷ b'-' ∷ b'h' ∷ b't' ∷ b'm' ∷ b'l' ∷ b'5' ∷ [];
}

unfoldable pub information_buffer_size : SegmentInformation → ℕ
information_buffer_size s =
    length webm_segment_information
    + 8
    + (length webm_timecode_scale + 1 + 4)
    + (length webm_muxing_app + 1 + length s.muxing_app)
    + (length webm_writing_app + 1 + length s.writing_app)

abbrev pub information_body : SegmentInformation → Bytes
information_body s =
    write_u32_value webm_timecode_scale s.timecode_scale
    ++ (write_data webm_muxing_app s.muxing_app ++ write_data webm_writing_app s.writing_app)

unfoldable pub information_to_buffer : SegmentInformation → Bytes
unfolding information_buffer_size
information_to_buffer s =
    write_master webm_segment_information (information_buffer_size s) (information_body s)

pub record Audio : Type 0 where
  pub sampling_frequency : ℕ
  pub channels : ℕ

unfoldable pub audio_buffer_size : ℕ
audio_buffer_size =
    length webm_audio
    + 8
    + (length webm_sampling_frequency + 1 + 4)
    + (length webm_channels + 1 + 1)

abbrev pub audio_body : (ℕ → Bytes) → Audio → Bytes
audio_body float32 a =
    write_u8_value webm_channels a.channels
    ++ write_float_value float32 webm_sampling_frequency a.sampling_frequency

unfoldable pub audio_to_buffer : (ℕ → Bytes) → Audio → Bytes
unfolding audio_buffer_size
audio_to_buffer float32 a = write_master webm_audio audio_buffer_size (audio_body float32 a)

pub record Video : Type 0 where
  pub flag_interlaced : ℕ
  pub width : ℕ
  pub height : ℕ

unfoldable pub video_buffer_size : ℕ
video_buffer_size =
    length webm_video
    + 8
    + (length webm_flag_interlaced + 1 + 1)
    + (length webm_pixel_width + 1 + 2)
    + (length webm_pixel_height + 1 + 2)

abbrev pub video_body : Video → Bytes
video_body v =
    write_u8_value webm_flag_interlaced v.flag_interlaced
    ++ (write_u16_value webm_pixel_width v.width ++ write_u16_value webm_pixel_height v.height)

unfoldable pub video_to_buffer : Video → Bytes
unfolding video_buffer_size
video_to_buffer v = write_master webm_video video_buffer_size (video_body v)

pub record Seek : Type 0 where
  pub seekid : List ℕ
  pub pos : ℕ

unfoldable pub seek_buffer_size : Seek → ℕ
seek_buffer_size s =
    length webm_seek
    + 1
    + (length webm_seek_id + 1 + length s.seekid)
    + (length webm_seek_position + 1 + 2)

abbrev pub seek_body : Seek → Bytes
seek_body s = write_data webm_seek_id s.seekid ++ write_u16_value webm_seek_position s.pos

unfoldable pub seek_to_buffer : Seek → Bytes
unfolding seek_buffer_size
seek_to_buffer s =
    write_array webm_seek
    ++ (write_u1_data_len (seek_buffer_size s - 1 - length webm_seek) ++ seek_body s)

pub record SeekHead : Type 0 where
  pub info : Seek
  pub track : Seek

unfoldable pub seek_head_buffer_size : SeekHead → ℕ
seek_head_buffer_size h =
    length webm_seek_head + 8 + seek_buffer_size h.info + seek_buffer_size h.track

unfoldable pub seek_head_to_buffer : SeekHead → Bytes
unfolding seek_head_buffer_size
seek_head_to_buffer h =
    write_master webm_seek_head (seek_head_buffer_size h)
      (seek_to_buffer h.info ++ seek_to_buffer h.track)

-- The objects of a block and of a cluster's start.
unfoldable pub cluster_to_buffer : ℕ → Bytes
cluster_to_buffer timecode =
    write_array webm_cluster ++ (0xff ∷ write_u32_value webm_time_code timecode)

unfoldable pub cluster_buffer_size : ℕ
cluster_buffer_size = length webm_cluster + 1 + (length webm_time_code + 1 + 4)

pub record SimpleBlock : Type 0 where
  pub timecode : ℕ
  pub body : Bytes
  pub keyframe : Bool

-- The track's number, the timecode relative to the cluster, the flags and the frame.
abbrev pub block_payload : SimpleBlock → Bytes
block_payload b =
    write_u1_data_len 1
    ++ (b.timecode / 256 % 256
        ∷ b.timecode % 256
        ∷ (if b.keyframe then 128 else 0)
        ∷ write_array b.body)

unfoldable pub block_to_buffer : SimpleBlock → Bytes
block_to_buffer b =
    write_array webm_simple_block ++ (write_u64_data_len (length b.body + 4) ++ block_payload b)

unfoldable pub block_buffer_size : SimpleBlock → ℕ
block_buffer_size b = length webm_simple_block + 8 + (1 + 2 + 1) + length b.body
