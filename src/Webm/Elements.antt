-- ===== src/Webm/Elements.antt =====
-- webm.js: the elements of the tracks, as a reader of EBML finds them.
use vm_automation_deployment.Common.{
  if◌then◌else◌, ℕ, suc, ◌+◌, ◌/◌, ◌%◌, ◌<◌, ◌≡◌, refl, sym, ap, ◌∙◌, List, [], ◌∷◌, ◌++◌, some,
  length, arith, append-nil,
}
use vm_automation_deployment.Wire.{Bytes}
use vm_automation_deployment.Webm.{
  write_array, write_u64_data_len, write_u1_data_len, write_u8_value, write_data, bytes_u32,
}
use vm_automation_deployment.Webm.Ids.{
  webm_track_entry, webm_track_number, webm_track_uid, webm_track_type, webm_flag_enabled,
  webm_flag_default, webm_flag_forced, webm_flag_lacing, webm_min_cache, webm_max_block_addition_id,
  webm_codec_decode_all, webm_seek_pre_roll, webm_codec_delay, webm_codec_private, webm_codec_id,
  webm_video, webm_flag_interlaced, webm_pixel_width, webm_pixel_height, webm_audio,
  webm_sampling_frequency, webm_channels, webm_simple_block,
}
use vm_automation_deployment.Webm.Reader.{Element, IsId, split_at, read_id, element, elements}
use vm_automation_deployment.Webm.Objects.{
  SimpleBlock, block_payload, block_to_buffer, Audio, Video, audio_to_buffer, audio_body,
  audio_buffer_size, video_to_buffer, video_body, video_buffer_size,
}
use vm_automation_deployment.Webm.Tracks.{
  Track, AudioTrackEntry, VideoTrackEntry, common_body, audio_track_body, audio_track_to_buffer,
  audio_track_buffer_size, video_track_body, video_track_to_buffer, video_track_buffer_size,
}
use vm_automation_deployment.Webm.Sizes.{
  length-write_array, length-audio, length-video, length-audio_track, length-video_track,
  length-write_master,
}
use vm_automation_deployment.Webm.Parses.{
  element-u64, regroup, leaf, elements-cons, element-u8_value, element-u16_value, element-u32_value,
  element-float_value, element-data, element-master,
}

abbrev pub one_byte : Bytes → ℕ → Element
one_byte id v = leaf id (v % 256 ∷ [])

-- The elements of a track, in the order in which they are written, with those that follow.
abbrev pub common_elements : Track → List Element → List Element
common_elements t es =
    one_byte webm_track_number t.number
    ∷ one_byte webm_track_uid t.uid
    ∷ one_byte webm_flag_enabled t.flag_enabled
    ∷ one_byte webm_flag_default t.flag_default
    ∷ one_byte webm_flag_forced t.flag_forced
    ∷ one_byte webm_flag_lacing t.flag_lacing
    ∷ leaf webm_codec_id (write_array t.codec_id)
    ∷ one_byte webm_min_cache t.min_cache
    ∷ one_byte webm_max_block_addition_id t.max_block_addition_id
    ∷ one_byte webm_codec_decode_all t.codec_decode_all
    ∷ es

cons_u8 :
    (n : ℕ) (id rest : Bytes) (v : ℕ) (es : List Element)
    → IsId id
    → elements n rest ≡ some es
    → elements (suc n) (write_u8_value id v ++ rest) ≡ some (one_byte id v ∷ es)
cons_u8 n id rest v es is_id h =
    elements-cons n (write_u8_value id v ++ rest) rest (one_byte id v) es
      (element-u8_value id rest v is_id) h

cons_data :
    (n : ℕ) (id rest body : Bytes) (es : List Element)
    → IsId id
    → length body < 4294967296
    → elements n rest ≡ some es
    → elements (suc n) (write_data id body ++ rest) ≡ some (leaf id (write_array body) ∷ es)
cons_data n id rest body es is_id small h =
    elements-cons n (write_data id body ++ rest) rest (leaf id (write_array body)) es
      (element-data id body rest is_id small) h

elements-common_body :
    (n : ℕ) (t : Track) (rest : Bytes) (es : List Element)
    → length t.codec_id < 4294967296
    → elements n rest ≡ some es
    → elements (suc (suc (suc (suc (suc (suc (suc (suc (suc (suc n)))))))))) (common_body t rest)
      ≡ some (common_elements t es)
unfolding read_id split_at write_array
elements-common_body n t rest es small h =
    cons_u8 _ webm_track_number _ t.number _ (λ bs. refl)
      (cons_u8 _ webm_track_uid _ t.uid _ (λ bs. refl)
        (cons_u8 _ webm_flag_enabled _ t.flag_enabled _ (λ bs. refl)
          (cons_u8 _ webm_flag_default _ t.flag_default _ (λ bs. refl)
            (cons_u8 _ webm_flag_forced _ t.flag_forced _ (λ bs. refl)
              (cons_u8 _ webm_flag_lacing _ t.flag_lacing _ (λ bs. refl)
                (cons_data _ webm_codec_id _ t.codec_id _ (λ bs. refl) small
                  (cons_u8 _ webm_min_cache _ t.min_cache _ (λ bs. refl)
                    (cons_u8 _ webm_max_block_addition_id _ t.max_block_addition_id _ (λ bs. refl)
                      (cons_u8 n webm_codec_decode_all rest t.codec_decode_all es (λ bs. refl)
                        h)))))))))

last_element :
    (bs : Bytes) (e : Element) → element (bs ++ []) ≡ some (e, []) → elements 1 bs ≡ some (e ∷ [])
unfolding elements
last_element bs e h = elements-cons 0 bs [] e [] (ap element (sym (append-nil bs)) ∙ h) refl

element-audio :
    (float32 : ℕ → Bytes) (a : Audio) (r : Bytes)
    → length (float32 a.sampling_frequency) ≡ 4
    → element (audio_to_buffer float32 a ++ r) ≡ some (leaf webm_audio (audio_body float32 a), r)
unfolding audio_to_buffer audio_buffer_size read_id split_at write_array
element-audio float32 a r four =
    element-master webm_audio (audio_body float32 a) r audio_buffer_size (λ bs. refl)
      (sym (length-write_master webm_audio (audio_body float32 a) audio_buffer_size)
        ∙ length-audio float32 a four)
      (omega arith)

element-video :
    (v : Video) (r : Bytes)
    → element (video_to_buffer v ++ r) ≡ some (leaf webm_video (video_body v), r)
unfolding video_to_buffer video_buffer_size read_id split_at write_array
element-video v r =
    element-master webm_video (video_body v) r video_buffer_size (λ bs. refl)
      (sym (length-write_master webm_video (video_body v) video_buffer_size) ∙ length-video v)
      (omega arith)

elements-audio :
    (float32 : ℕ → Bytes) (a : Audio)
    → length (float32 a.sampling_frequency) ≡ 4
    → elements 2 (audio_body float32 a)
      ≡ some (
          one_byte webm_channels a.channels
          ∷ leaf webm_sampling_frequency (float32 a.sampling_frequency)
          ∷ [])
unfolding read_id split_at write_array
elements-audio float32 a four =
    cons_u8 1 webm_channels _ a.channels _ (λ bs. refl)
      (last_element _ (leaf webm_sampling_frequency (float32 a.sampling_frequency)) (
        element-float_value float32 webm_sampling_frequency [] a.sampling_frequency (λ bs. refl)
          four))

-- A webm_AudioTrackEntry is read as one element, a track entry, whose elements are the fields in
-- the order in which they are written, numbers modulo 256 or as four bytes; the last of them is the
-- audio element, whose own elements are the channels and the sampling frequency. (The texts have
-- fewer than 127 bytes, and a 32-bit float takes four.)
pub audio_track_elements :
    (float32 : ℕ → Bytes) (e : AudioTrackEntry) (r : Bytes)
    → length (float32 e.audio.sampling_frequency) ≡ 4
    → length e.track.codec_id < 127
    → length e.codec_private < 127
    → (element (audio_track_to_buffer float32 e ++ r)
        ≡ some (leaf webm_track_entry (audio_track_body float32 e), r))
      × (elements 15 (audio_track_body float32 e)
          ≡ some (
              common_elements e.track (
                leaf webm_codec_delay (bytes_u32 e.codec_delay)
                ∷ leaf webm_seek_pre_roll (bytes_u32 e.track.seek_pre_roll)
                ∷ one_byte webm_track_type e.track.type
                ∷ leaf webm_codec_private (write_array e.codec_private)
                ∷ leaf webm_audio (audio_body float32 e.audio)
                ∷ [])))
      × (elements 2 (audio_body float32 e.audio)
          ≡ some (
              one_byte webm_channels e.audio.channels
              ∷ leaf webm_sampling_frequency (float32 e.audio.sampling_frequency)
              ∷ []))
unfolding audio_track_to_buffer audio_track_buffer_size audio_buffer_size read_id split_at
    write_array
audio_track_elements float32 e r four hc hp = (
  element-master webm_track_entry (audio_track_body float32 e) r (audio_track_buffer_size e)
      (λ bs. refl)
      (sym (
          length-write_master webm_track_entry (audio_track_body float32 e)
            (audio_track_buffer_size e))
        ∙ length-audio_track float32 e four hc hp)
      (omega arith),
  elements-common_body 5 e.track _ _ (omega arith) (
      elements-cons 4 _ _ (leaf webm_codec_delay (bytes_u32 e.codec_delay)) _
        (element-u32_value webm_codec_delay _ e.codec_delay (λ bs. refl))
        (elements-cons 3 _ _ (leaf webm_seek_pre_roll (bytes_u32 e.track.seek_pre_roll)) _
          (element-u32_value webm_seek_pre_roll _ e.track.seek_pre_roll (λ bs. refl))
          (cons_u8 2 webm_track_type _ e.track.type _ (λ bs. refl)
            (cons_data 1 webm_codec_private _ e.codec_private _ (λ bs. refl) (omega arith)
              (last_element _ (leaf webm_audio (audio_body float32 e.audio))
                (element-audio float32 e.audio [] four)))))),
  elements-audio float32 e.audio four,
)

elements-video :
    (v : Video)
    → elements 3 (video_body v)
      ≡ some (
          one_byte webm_flag_interlaced v.flag_interlaced
          ∷ leaf webm_pixel_width (v.width / 256 % 256 ∷ v.width % 256 ∷ [])
          ∷ leaf webm_pixel_height (v.height / 256 % 256 ∷ v.height % 256 ∷ [])
          ∷ [])
unfolding read_id split_at write_array
elements-video v =
    cons_u8 2 webm_flag_interlaced _ v.flag_interlaced _ (λ bs. refl)
      (elements-cons 1 _ _ (leaf webm_pixel_width (v.width / 256 % 256 ∷ v.width % 256 ∷ [])) _
        (element-u16_value webm_pixel_width _ v.width (λ bs. refl))
        (last_element _ (leaf webm_pixel_height (v.height / 256 % 256 ∷ v.height % 256 ∷ []))
          (element-u16_value webm_pixel_height [] v.height (λ bs. refl))))

-- A webm_VideoTrackEntry is read as one element, a track entry, whose elements are the fields in
-- the order in which they are written, the last of them the video element with the width and the
-- height as two bytes each. (The codec's name has fewer than 127 bytes.)
pub video_track_elements :
    (e : VideoTrackEntry) (r : Bytes)
    → length e.track.codec_id < 127
    → (element (video_track_to_buffer e ++ r)
        ≡ some (leaf webm_track_entry (video_track_body e), r))
      × (elements 13 (video_track_body e)
          ≡ some (
              common_elements e.track (
                leaf webm_seek_pre_roll (bytes_u32 e.track.seek_pre_roll)
                ∷ one_byte webm_track_type e.track.type
                ∷ leaf webm_video (video_body e.video)
                ∷ [])))
      × (elements 3 (video_body e.video)
          ≡ some (
              one_byte webm_flag_interlaced e.video.flag_interlaced
              ∷ leaf webm_pixel_width (e.video.width / 256 % 256 ∷ e.video.width % 256 ∷ [])
              ∷ leaf webm_pixel_height (e.video.height / 256 % 256 ∷ e.video.height % 256 ∷ [])
              ∷ []))
unfolding video_track_to_buffer video_track_buffer_size video_buffer_size read_id split_at
    write_array
video_track_elements e r hc = (
  element-master webm_track_entry (video_track_body e) r (video_track_buffer_size e) (λ bs. refl)
      (sym (length-write_master webm_track_entry (video_track_body e) (video_track_buffer_size e))
        ∙ length-video_track e hc)
      (omega arith),
  elements-common_body 3 e.track _ _ (omega arith) (
      elements-cons 2 _ _ (leaf webm_seek_pre_roll (bytes_u32 e.track.seek_pre_roll)) _
        (element-u32_value webm_seek_pre_roll _ e.track.seek_pre_roll (λ bs. refl))
        (cons_u8 1 webm_track_type _ e.track.type _ (λ bs. refl)
          (last_element _ (leaf webm_video (video_body e.video)) (element-video e.video [])))),
  elements-video e.video,
)

length-block_payload : (b : SimpleBlock) → length (block_payload b) ≡ length b.body + 4
unfolding write_u1_data_len
length-block_payload b = omega (arith, length-write_array b.body)

-- A simple block with fewer than 2 ^ 32 - 4 bytes is read as one element: the track number 1, the
-- timecode in two bytes, the flags (0x80 for a keyframe) and the frame.
pub simple_block_element :
    (b : SimpleBlock) (r : Bytes)
    → length b.body + 4 < 4294967296
    → (element (block_to_buffer b ++ r) ≡ some (leaf webm_simple_block (block_payload b), r))
      × (block_payload b
          ≡ 0x81
            ∷ b.timecode / 256 % 256
            ∷ b.timecode % 256
            ∷ (if b.keyframe then 0x80 else 0)
            ∷ write_array b.body)
unfolding block_to_buffer read_id split_at write_array write_u1_data_len
simple_block_element b r h = (
  ap element (
        regroup (write_array webm_simple_block) (write_u64_data_len (length b.body + 4))
          (block_payload b) r)
      ∙ element-u64 webm_simple_block (block_payload b) r (length b.body + 4) (λ bs. refl)
          (length-block_payload b) h,
  refl,
)
