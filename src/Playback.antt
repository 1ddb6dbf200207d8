-- ===== src/Playback.antt =====
-- portal/static/spice-html5/playback.js: the playback channel (SpicePlaybackConn), which turns the
-- packets of sound into the bytes of a WebM file and hands them to the browser's source buffer. The
-- source buffer takes one block of bytes at a time, and tells when it is done; `refuses` is whether
-- its appendBuffer throws, by whether it is updating and by the bytes. The position of the audio
-- element, the log and the count of bytes written are not modelled.
pub mod Handler
pub mod File
pub mod Stream
pub mod Session
mod Tests
use vm_automation_deployment.Common.{
  ℕ, zero, suc, ◌+◌, Bool, true, false, not, ◌&&◌, ◌||◌, List, [], ◌∷◌, ◌++◌, Option, none, some,
  ltb, ◌==◌, if◌then◌else◌,
}
use vm_automation_deployment.Common.Int.{ℤ, pos, negsuc, pos_part, neg_part, ltb_ℤ, ◌+ℤ◌, ◌-ℤ◌}
use vm_automation_deployment.Constants.{
  spice_msg_playback_data, spice_msg_playback_mode, spice_msg_playback_start,
  spice_msg_playback_stop, spice_msg_playback_volume, spice_msg_playback_mute,
  spice_msg_playback_latency, spice_audio_data_mode_opus, spice_audio_fmt_s16,
}
use vm_automation_deployment.Wire.{Bytes}
use vm_automation_deployment.DataView.{to_uint32}
use vm_automation_deployment.Types.{same}
use vm_automation_deployment.Types.Place.{Place, is_null}
use vm_automation_deployment.Messages.Media.{
  SpiceMsgPlaybackData, read_playback_data, SpiceMsgPlaybackMode, read_playback_mode,
  SpiceMsgPlaybackStart, read_playback_start,
}
use vm_automation_deployment.Webm.Objects.{cluster_to_buffer, block_to_buffer}
use vm_automation_deployment.Webm.Tracks.{
  new_header, file_header_to_buffer, new_audio_track_entry, audio_track_to_buffer,
  audio_track_buffer_size, tracks_to_buffer,
}

-- What was appended, the latest last, and whether that is still being done.
pub record SourceBuffer : Type 0 where
  pub updating : Bool
  pub appended : List Bytes

pub data PlaybackError : Type 0 where
  no_media_source wrong_frequency wrong_channels wrong_format wrong_mode : PlaybackError
  no_codec append_failed : PlaybackError

pub record Playback : Type 0 where
  pub source_buffer : Option SourceBuffer
  pub media_source : Bool
  pub queue : List Bytes
  pub append_okay : Bool
  pub start_time : ℤ
  pub cluster_time : ℤ
  pub last_data_time : ℤ
  pub errors : List PlaybackError

abbrev pub new_playback : Playback
new_playback = record {
  source_buffer = none;
  media_source = false;
  queue = [];
  append_okay = false;
  start_time = pos 0;
  cluster_time = pos 0;
  last_data_time = pos 0;
  errors = [];
}

-- What a handler returns; a packet without sound has no data, and the handler throws.
pub data Outcome : Type 0 where
  returns : Bool → Outcome
  throws : Outcome

abbrev pub log_err : PlaybackError → Playback → Playback
log_err e p = record p { errors = p.errors ++ (e ∷ []) }

-- The bytes of a queue, one after the other.
abbrev pub concat : List Bytes → Bytes
concat [] = []
concat (b ∷ bs) = b ++ concat bs

unfoldable pub condense_playback_queue : List Bytes → Bytes
condense_playback_queue (b ∷ []) = b
condense_playback_queue [] = []
condense_playback_queue (b ∷ c ∷ bs) = concat (b ∷ c ∷ bs)

-- The time that is given to a packet: 10 ms behind the last one, but for an obvious gap.
abbrev pub distance : ℤ → ℕ
distance z = pos_part z + neg_part z

unfoldable pub packet_time : (start last time : ℤ) → ℤ
packet_time start last time =
    let expected = last +ℤ pos 10 in
    if not (is_null start) && not (same time expected) && ltb (distance (time -ℤ expected)) 1000
    then expected
    else time

unfoldable pub cluster_bytes : (start time : ℤ) → Bytes
cluster_bytes start time = cluster_to_buffer (to_uint32 (time -ℤ start))

unfoldable pub block_bytes : (cluster time : ℤ) → Bool → Bytes → Bytes
block_bytes cluster time keyframe body =
    block_to_buffer
      (record { timecode = to_uint32 (time -ℤ cluster); body = body; keyframe = keyframe })

-- `float32` is how the language writes a number as a float.
unfoldable pub file_bytes : (ℕ → Bytes) → Bytes
file_bytes float32 =
    file_header_to_buffer new_header
    ++ tracks_to_buffer (audio_track_buffer_size new_audio_track_entry)
        (audio_track_to_buffer float32 new_audio_track_entry)

-- Whether a cluster is to be begun: it is 1000 ms old.
abbrev pub is_old : ℤ → ℤ → Bool
is_old cluster time = not (ltb_ℤ (time -ℤ cluster) (pos 1000))

module _ (refuses : Bool → Bytes → Bool) where
  unfoldable pub playback_append_buffer : Bytes → Playback → Playback
  playback_append_buffer b p = elim p.source_buffer [
    | none ↦ log_err append_failed p
    | some s ↦ if refuses s.updating b then log_err append_failed p else record p {
      source_buffer = some (record { updating = true; appended = s.appended ++ (b ∷ []) });
      append_okay = false;
    }
  ]

  -- `if (this.append_okay) … else this.queue.push(mb)`.
  unfoldable pub append_or_queue : Bytes → Playback → Playback
  append_or_queue mb p =
      if p.append_okay
      then playback_append_buffer mb p
      else record p { queue = p.queue ++ (mb ∷ []) }

  -- Without data no block is made: the handler ends there.
  unfoldable pub simple_block : ℤ → Option Bytes → Bool → Playback → Playback
  simple_block time none keyframe p = p
  simple_block time (some body) keyframe p =
      append_or_queue (block_bytes p.cluster_time time keyframe body) p

  unfoldable pub new_cluster : ℤ → Option Bytes → Playback → Playback
  new_cluster time body p =
      let begun : Playback = record p { cluster_time = time } in
      simple_block time body true (append_or_queue (cluster_bytes p.start_time time) begun)

  unfoldable pub handle_append_buffer_done : Playback → Playback
  handle_append_buffer_done p = elim p.queue [
    | [] ↦ record p { append_okay = true }
    | b ∷ bs ↦ playback_append_buffer (condense_playback_queue (b ∷ bs)) (record p { queue = [] })
  ]

module _ (refuses : Bool → Bytes → Bool) (float32 : ℕ → Bytes) where
  unfoldable pub start_playback : ℤ → Option Bytes → Playback → Playback
  start_playback time body p =
      new_cluster refuses time body
        (playback_append_buffer refuses (file_bytes float32) (record p { start_time = time }))

  -- The branches of a packet, once its time is set.
  unfoldable pub play : ℤ → Option Bytes → Playback → Playback
  play time body p =
      if is_null p.start_time
      then start_playback time body p
      else (if is_old p.cluster_time time
          then new_cluster refuses time body p
          else simple_block refuses time body false p)

  unfoldable pub play_packet : ℤ → Option Bytes → Playback → Playback
  play_packet given body p =
      let time = packet_time p.start_time p.last_data_time given in
      play time body (record p { last_data_time = time })
