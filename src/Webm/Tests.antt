-- ===== src/Webm/Tests.antt =====
-- Runs of the objects, and the witnesses.
use vm_automation_deployment.Common.{ℕ, ◌≡◌, refl, true, [], ◌∷◌, ◌++◌, some, length, arith}
use vm_automation_deployment.Wire.{Bytes}
use vm_automation_deployment.Webm.{write_array, bytes_u32, write_u1_data_len, write_u64_data_len}
use vm_automation_deployment.Webm.Ids.{
  webm_track_entry, webm_track_type, webm_seek_pre_roll, webm_codec_delay, webm_codec_private,
  webm_audio, webm_sampling_frequency, webm_channels,
}
use vm_automation_deployment.Webm.Reader.{element, elements}
use vm_automation_deployment.Webm.Objects.{
  SimpleBlock, audio_body, block_to_buffer, block_buffer_size, cluster_to_buffer,
  cluster_buffer_size,
}
use vm_automation_deployment.Webm.Tracks.{
  audio_track_to_buffer, audio_track_body, audio_track_buffer_size, video_track_to_buffer,
  video_track_buffer_size, new_audio_track_entry, new_video_track_entry, new_header,
  tracks_to_buffer, tracks_buffer_size, file_header_to_buffer, file_header_buffer_size,
  AudioTrackEntry, VideoTrackEntry,
}
use vm_automation_deployment.Webm.Sizes.{to_buffer-fills}
use vm_automation_deployment.Webm.Parses.{leaf}
use vm_automation_deployment.Webm.Elements.{common_elements, one_byte, audio_track_elements}

abbrev float32 : ℕ → Bytes
float32 n = 0x47 ∷ 0x3b ∷ 0x80 ∷ 0 ∷ []

abbrev frame : SimpleBlock
frame = record { timecode = 300; body = 1 ∷ 2 ∷ []; keyframe = true }

abbrev sound : AudioTrackEntry
sound = new_audio_track_entry

abbrev screen : VideoTrackEntry
screen = new_video_track_entry 640 480

key_block :
    block_to_buffer frame ≡ 0xa3 ∷ 1 ∷ 0 ∷ 0 ∷ 0 ∷ 0 ∷ 0 ∷ 0 ∷ 6 ∷ 0x81 ∷ 1 ∷ 44 ∷ 128 ∷ 1 ∷ 2 ∷ []
unfolding block_to_buffer write_array write_u1_data_len write_u64_data_len
key_block = refl

to_buffer-fills_example :
    (length (file_header_to_buffer new_header) ≡ file_header_buffer_size new_header)
    × (length
          (tracks_to_buffer (audio_track_buffer_size sound) (audio_track_to_buffer float32 sound))
        ≡ tracks_buffer_size (audio_track_buffer_size sound))
    × (length (tracks_to_buffer (video_track_buffer_size screen) (video_track_to_buffer screen))
        ≡ tracks_buffer_size (video_track_buffer_size screen))
    × (length (cluster_to_buffer 20) ≡ cluster_buffer_size)
    × (length (block_to_buffer frame) ≡ block_buffer_size frame)
to_buffer-fills_example = to_buffer-fills float32 640 480 20 frame (λ n. refl)

audio_track_elements_example :
    (element (audio_track_to_buffer float32 sound ++ (7 ∷ []))
      ≡ some (leaf webm_track_entry (audio_track_body float32 sound), 7 ∷ []))
    × (elements 15 (audio_track_body float32 sound)
        ≡ some (
            common_elements sound.track (
              leaf webm_codec_delay (bytes_u32 80000000)
              ∷ leaf webm_seek_pre_roll (bytes_u32 0)
              ∷ one_byte webm_track_type 2
              ∷ leaf webm_codec_private (write_array sound.codec_private)
              ∷ leaf webm_audio (audio_body float32 sound.audio)
              ∷ [])))
    × (elements 2 (audio_body float32 sound.audio)
        ≡ some (one_byte webm_channels 2 ∷ leaf webm_sampling_frequency (float32 48000) ∷ []))
audio_track_elements_example =
    audio_track_elements float32 sound (7 ∷ []) refl (omega arith) (omega arith)
