-- ===== src/Webm/Tracks.antt =====
-- webm.js: the track entries, the tracks and the header of a file.
use vm_automation_deployment.Common.{ℕ, ◌+◌, List, [], ◌∷◌, ◌++◌, length}
use vm_automation_deployment.Wire.{Bytes}
use vm_automation_deployment.Webm.{write_u8_value, write_u32_value, write_data}
use vm_automation_deployment.Webm.Ids.{
  webm_segment_information, webm_tracks, webm_track_entry, webm_track_number, webm_track_uid,
  webm_track_type, webm_flag_enabled, webm_flag_default, webm_flag_forced, webm_flag_lacing,
  webm_min_cache, webm_max_block_addition_id, webm_codec_decode_all, webm_seek_pre_roll,
  webm_codec_delay, webm_codec_private, webm_codec_id,
}
use vm_automation_deployment.Webm.Objects.{
  write_master, EbmlHeader, SegmentInformation, Audio, Video, SeekHead, new_ebml_header,
  new_segment_information, audio_to_buffer, audio_buffer_size, video_to_buffer, video_buffer_size,
  header_to_buffer, header_buffer_size, segment_to_buffer, segment_buffer_size,
  information_to_buffer, information_buffer_size, seek_head_buffer_size,
}

-- The fields that both kinds of track have.
pub record Track : Type 0 where
  pub number : ℕ
  pub uid : ℕ
  pub type : ℕ
  pub flag_enabled : ℕ
  pub flag_default : ℕ
  pub flag_forced : ℕ
  pub flag_lacing : ℕ
  pub min_cache : ℕ
  pub max_block_addition_id : ℕ
  pub codec_id : List ℕ
  pub codec_decode_all : ℕ
  pub seek_pre_roll : ℕ

-- The values up to codec_decode_all, which both write in the same order, with what follows.
abbrev pub common_body : Track → Bytes → Bytes
common_body t rest =
    write_u8_value webm_track_number t.number
    ++ (write_u8_value webm_track_uid t.uid
        ++ (write_u8_value webm_flag_enabled t.flag_enabled
            ++ (write_u8_value webm_flag_default t.flag_default
                ++ (write_u8_value webm_flag_forced t.flag_forced
                    ++ (write_u8_value webm_flag_lacing t.flag_lacing
                        ++ (write_data webm_codec_id t.codec_id
                            ++ (write_u8_value webm_min_cache t.min_cache
                                ++ (write_u8_value webm_max_block_addition_id
                                      t.max_block_addition_id
                                    ++ (write_u8_value webm_codec_decode_all t.codec_decode_all
                                        ++ rest)))))))))

pub record AudioTrackEntry : Type 0 where
  pub track : Track
  pub codec_delay : ℕ
  pub codec_private : List ℕ
  pub audio : Audio

abbrev pub new_audio_track_entry : AudioTrackEntry
new_audio_track_entry = record {
  track = record {
    number = 1;
    uid = 2;
    type = 2;
    flag_enabled = 1;
    flag_default = 1;
    flag_forced = 1;
    flag_lacing = 0;
    min_cache = 0;
    max_block_addition_id = 0;
    codec_id = b'A' ∷ b'_' ∷ b'O' ∷ b'P' ∷ b'U' ∷ b'S' ∷ [];
    codec_decode_all = 0;
    seek_pre_roll = 0;
  };
  codec_delay = 80000000;
  codec_private =
      0x4f ∷ 0x70 ∷ 0x75 ∷ 0x73 ∷ 0x48 ∷ 0x65 ∷ 0x61 ∷ 0x64 ∷ 0x01 ∷ 2 ∷ 0x00 ∷ 0x0F ∷ 0x80 ∷ 0xbb
      ∷ 0x00 ∷ 0x00 ∷ 0x00 ∷ 0x00 ∷ 0x00 ∷ [];
  audio = record { sampling_frequency = 48000; channels = 2 };
}

unfoldable pub audio_track_buffer_size : AudioTrackEntry → ℕ
unfolding audio_buffer_size
audio_track_buffer_size e =
    length webm_track_entry
    + 8
    + (length webm_track_number + 1 + 1)
    + (length webm_track_uid + 1 + 1)
    + (length webm_track_type + 1 + 1)
    + (length webm_flag_enabled + 1 + 1)
    + (length webm_flag_default + 1 + 1)
    + (length webm_flag_forced + 1 + 1)
    + (length webm_flag_lacing + 1 + 1)
    + (length webm_min_cache + 1 + 1)
    + (length webm_max_block_addition_id + 1 + 1)
    + (length webm_codec_decode_all + 1 + 1)
    + (length webm_seek_pre_roll + 1 + 4)
    + (length webm_codec_delay + 1 + 4)
    + (length webm_codec_id + length e.track.codec_id + 1)
    + (length webm_codec_private + 1 + length e.codec_private)
    + audio_buffer_size

abbrev pub audio_track_body : (ℕ → Bytes) → AudioTrackEntry → Bytes
audio_track_body float32 e = common_body e.track (
    write_u32_value webm_codec_delay e.codec_delay
    ++ (write_u32_value webm_seek_pre_roll e.track.seek_pre_roll
        ++ (write_u8_value webm_track_type e.track.type
            ++ (write_data webm_codec_private e.codec_private ++ audio_to_buffer float32 e.audio))))

unfoldable pub audio_track_to_buffer : (ℕ → Bytes) → AudioTrackEntry → Bytes
unfolding audio_track_buffer_size
audio_track_to_buffer float32 e =
    write_master webm_track_entry (audio_track_buffer_size e) (audio_track_body float32 e)

pub record VideoTrackEntry : Type 0 where
  pub track : Track
  pub video : Video

abbrev pub new_video_track_entry : ℕ → ℕ → VideoTrackEntry
new_video_track_entry width height = record {
  track = record {
    number = 1;
    uid = 1;
    type = 1;
    flag_enabled = 1;
    flag_default = 1;
    flag_forced = 1;
    flag_lacing = 1;
    min_cache = 0;
    max_block_addition_id = 0;
    codec_id = b'V' ∷ b'_' ∷ b'V' ∷ b'P' ∷ b'8' ∷ [];
    codec_decode_all = 1;
    seek_pre_roll = 0;
  };
  video = record { flag_interlaced = 0; width = width; height = height };
}

unfoldable pub video_track_buffer_size : VideoTrackEntry → ℕ
unfolding video_buffer_size
video_track_buffer_size e =
    length webm_track_entry
    + 8
    + (length webm_track_number + 1 + 1)
    + (length webm_track_uid + 1 + 1)
    + (length webm_flag_enabled + 1 + 1)
    + (length webm_flag_default + 1 + 1)
    + (length webm_flag_forced + 1 + 1)
    + (length webm_flag_lacing + 1 + 1)
    + (length webm_codec_id + length e.track.codec_id + 1)
    + (length webm_min_cache + 1 + 1)
    + (length webm_max_block_addition_id + 1 + 1)
    + (length webm_codec_decode_all + 1 + 1)
    + (length webm_seek_pre_roll + 1 + 4)
    + (length webm_track_type + 1 + 1)
    + video_buffer_size

abbrev pub video_track_body : VideoTrackEntry → Bytes
video_track_body e = common_body e.track (
    write_u32_value webm_seek_pre_roll e.track.seek_pre_roll
    ++ (write_u8_value webm_track_type e.track.type ++ video_to_buffer e.video))

unfoldable pub video_track_to_buffer : VideoTrackEntry → Bytes
unfolding video_track_buffer_size
video_track_to_buffer e =
    write_master webm_track_entry (video_track_buffer_size e) (video_track_body e)

-- webm_Tracks of an entry, given by its bytes and its size.
unfoldable pub tracks_buffer_size : ℕ → ℕ
tracks_buffer_size entry = length webm_tracks + 8 + entry

unfoldable pub tracks_to_buffer : ℕ → Bytes → Bytes
unfolding tracks_buffer_size
tracks_to_buffer size entry = write_master webm_tracks (tracks_buffer_size size) entry

pub record Header : Type 0 where
  pub ebml : EbmlHeader
  pub seek_head : SeekHead
  pub info : SegmentInformation

abbrev pub new_header : Header
new_header =
    let at : ℕ → ℕ → SeekHead = λ info track. record {
      info = record { seekid = webm_segment_information; pos = info };
      track = record { seekid = webm_tracks; pos = track };
    } in
    let info_pos = segment_buffer_size + seek_head_buffer_size (at 0 0) in
    record {
      ebml = new_ebml_header;
      seek_head = at info_pos (info_pos + information_buffer_size new_segment_information);
      info = new_segment_information;
    }

unfoldable pub file_header_to_buffer : Header → Bytes
file_header_to_buffer h =
    header_to_buffer h.ebml ++ (segment_to_buffer ++ information_to_buffer h.info)

unfoldable pub file_header_buffer_size : Header → ℕ
file_header_buffer_size h =
    header_buffer_size h.ebml + segment_buffer_size + information_buffer_size h.info
