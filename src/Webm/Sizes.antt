-- ===== src/Webm/Sizes.antt =====
-- webm.js: buffer_size against what to_buffer writes.
use vm_automation_deployment.Common.{
  ℕ, ◌+◌, ◌<◌, ◌≡◌, refl, List, [], ◌∷◌, ◌++◌, length, arith, length-append,
}
use vm_automation_deployment.Wire.{Bytes}
use vm_automation_deployment.Webm.{
  write_u1_data_len, write_array, write_u8_value, write_u16_value, write_u32_value,
  write_float_value, write_u64_data_len, write_data,
}
use vm_automation_deployment.Webm.Objects.{
  write_master, EbmlHeader, SegmentInformation, Audio, Video, Seek, SeekHead, SimpleBlock,
  header_to_buffer, header_buffer_size, segment_to_buffer, segment_buffer_size,
  information_to_buffer, information_buffer_size, audio_to_buffer, audio_buffer_size,
  video_to_buffer, video_buffer_size, seek_to_buffer, seek_buffer_size, seek_head_to_buffer,
  seek_head_buffer_size, cluster_to_buffer, cluster_buffer_size, block_to_buffer, block_buffer_size,
}
use vm_automation_deployment.Webm.Tracks.{
  new_audio_track_entry, new_video_track_entry, new_header, AudioTrackEntry, VideoTrackEntry,
  audio_track_to_buffer, audio_track_buffer_size, video_track_to_buffer, video_track_buffer_size,
  tracks_to_buffer, tracks_buffer_size, Header, file_header_to_buffer, file_header_buffer_size,
}

pub length-write_array : (xs : List ℕ) → length (write_array xs) ≡ length xs
unfolding write_array
length-write_array [] = refl
length-write_array (x ∷ xs) = omega (arith, length-write_array xs)

length-u1 : (n : ℕ) → length (write_u1_data_len n) ≡ 1
unfolding write_u1_data_len
length-u1 n = refl

length-u64 : (n : ℕ) → length (write_u64_data_len n) ≡ 8
unfolding write_u64_data_len
length-u64 n = refl

length-u8 : (id : List ℕ) (v : ℕ) → length (write_u8_value id v) ≡ length id + 2
unfolding write_u8_value
length-u8 id v = simp (length-append, length-write_array, length-u1) (omega arith)

length-u16 : (id : List ℕ) (v : ℕ) → length (write_u16_value id v) ≡ length id + 3
unfolding write_u16_value
length-u16 id v = simp (length-append, length-write_array, length-u1) (omega arith)

length-u32 : (id : List ℕ) (v : ℕ) → length (write_u32_value id v) ≡ length id + 5
unfolding write_u32_value
length-u32 id v = simp (length-append, length-write_array, length-u1) (omega arith)

length-float :
    (float32 : ℕ → Bytes) (id : List ℕ) (v : ℕ)
    → length (float32 v) ≡ 4
    → length (write_float_value float32 id v) ≡ length id + 5
unfolding write_float_value
length-float float32 id v h = simp (length-append, length-write_array, length-u1, h) (omega arith)

-- Below 127 bytes the size is one byte long.
length-data :
    (id body : List ℕ)
    → length body < 127
    → length (write_data id body) ≡ length id + 1 + length body
unfolding write_data
length-data id body h = ground (
  arith,
  length-append (write_array id) (write_u1_data_len (length body) ++ write_array body),
  length-append (write_u1_data_len (length body)) (write_array body),
  length-write_array id,
  length-write_array body,
  length-u1 (length body),
)

ruleset lengths =
    (length-append, length-write_array, length-u1, length-u64, length-u8, length-u16, length-u32)

pub length-audio :
    (float32 : ℕ → Bytes) (a : Audio)
    → length (float32 a.sampling_frequency) ≡ 4
    → length (audio_to_buffer float32 a) ≡ audio_buffer_size
unfolding audio_to_buffer audio_buffer_size
length-audio float32 a h =
    simp (lengths, length-float float32 _ a.sampling_frequency h) (omega arith)

pub length-video : (v : Video) → length (video_to_buffer v) ≡ video_buffer_size
unfolding video_to_buffer video_buffer_size
length-video v = simp lengths (omega arith)

pub length-seek :
    (s : Seek) → length s.seekid < 127 → length (seek_to_buffer s) ≡ seek_buffer_size s
unfolding seek_to_buffer seek_buffer_size
length-seek s h = simp (lengths, length-data _ s.seekid h) (omega arith)

pub length-seek_head :
    (s : SeekHead)
    → length s.info.seekid < 127
    → length s.track.seekid < 127
    → length (seek_head_to_buffer s) ≡ seek_head_buffer_size s
unfolding seek_head_to_buffer seek_head_buffer_size
length-seek_head s h h' = simp (lengths, length-seek s.info h, length-seek s.track h') (omega arith)

pub length-information :
    (s : SegmentInformation)
    → length s.muxing_app < 127
    → length s.writing_app < 127
    → length (information_to_buffer s) ≡ information_buffer_size s
unfolding information_to_buffer information_buffer_size
length-information s h h' =
    simp (lengths, length-data _ s.muxing_app h, length-data _ s.writing_app h') (omega arith)

-- The header's size is written out for a document type of four characters.
pub length-header :
    (h : EbmlHeader) → length h.doc_type ≡ 4 → length (header_to_buffer h) ≡ header_buffer_size h
unfolding header_to_buffer header_buffer_size
length-header h e = simp (lengths, length-data _ h.doc_type (omega arith), e) (omega arith)

pub length-cluster : (timecode : ℕ) → length (cluster_to_buffer timecode) ≡ cluster_buffer_size
unfolding cluster_to_buffer cluster_buffer_size
length-cluster timecode = simp lengths (omega arith)

pub length-block : (b : SimpleBlock) → length (block_to_buffer b) ≡ block_buffer_size b
unfolding block_to_buffer block_buffer_size
length-block b = simp lengths (omega arith)

pub length-audio_track :
    (float32 : ℕ → Bytes) (e : AudioTrackEntry)
    → length (float32 e.audio.sampling_frequency) ≡ 4
    → length e.track.codec_id < 127
    → length e.codec_private < 127
    → length (audio_track_to_buffer float32 e) ≡ audio_track_buffer_size e
unfolding audio_track_to_buffer audio_track_buffer_size
length-audio_track float32 e h hc hp =
    simp
      (
        lengths,
        length-data _ e.track.codec_id hc,
        length-data _ e.codec_private hp,
        length-audio float32 e.audio h,
      )
      (omega arith)

pub length-video_track :
    (e : VideoTrackEntry)
    → length e.track.codec_id < 127
    → length (video_track_to_buffer e) ≡ video_track_buffer_size e
unfolding video_track_to_buffer video_track_buffer_size
length-video_track e hc =
    simp (lengths, length-data _ e.track.codec_id hc, length-video e.video) (omega arith)

pub length-tracks :
    (size : ℕ) (entry : Bytes)
    → length entry ≡ size
    → length (tracks_to_buffer size entry) ≡ tracks_buffer_size size
unfolding tracks_to_buffer tracks_buffer_size
length-tracks size entry h = simp (lengths, h) (omega arith)

pub length-segment : length segment_to_buffer ≡ segment_buffer_size
unfolding segment_to_buffer segment_buffer_size write_array
length-segment = refl

pub length-file_header :
    (h : Header)
    → length h.ebml.doc_type ≡ 4
    → length h.info.muxing_app < 127
    → length h.info.writing_app < 127
    → length (file_header_to_buffer h) ≡ file_header_buffer_size h
unfolding file_header_to_buffer file_header_buffer_size
length-file_header h he hm hw =
    simp (lengths, length-header h.ebml he, length-segment, length-information h.info hm hw)
      (omega arith)

pub length-write_master :
    (id body : Bytes) (size : ℕ) → length (write_master id size body) ≡ length body + 8 + length id
length-write_master id body size = simp lengths (omega arith)

-- The files that the console makes for sound and for video: every object fills the room that its
-- buffer_size announces, whatever the numbers in it, where the 32-bit float takes four bytes.
pub to_buffer-fills :
    (float32 : ℕ → Bytes) (width height timecode : ℕ) (b : SimpleBlock)
    → ((n : ℕ) → length (float32 n) ≡ 4)
    → let audio = new_audio_track_entry in
      let video = new_video_track_entry width height in
      (length (file_header_to_buffer new_header) ≡ file_header_buffer_size new_header)
      × (length
            (tracks_to_buffer (audio_track_buffer_size audio) (audio_track_to_buffer float32 audio))
          ≡ tracks_buffer_size (audio_track_buffer_size audio))
      × (length (tracks_to_buffer (video_track_buffer_size video) (video_track_to_buffer video))
          ≡ tracks_buffer_size (video_track_buffer_size video))
      × (length (cluster_to_buffer timecode) ≡ cluster_buffer_size)
      × (length (block_to_buffer b) ≡ block_buffer_size b)
to_buffer-fills float32 width height timecode b four =
    let audio = new_audio_track_entry in
    let video = new_video_track_entry width height in
    (
      length-file_header new_header refl (omega arith) (omega arith),
      length-tracks _ _ (length-audio_track float32 audio (four 48000) (omega arith) (omega arith)),
      length-tracks _ _ (length-video_track video (omega arith)),
      length-cluster timecode,
      length-block b,
    )
