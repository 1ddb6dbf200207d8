-- ===== src/Playback/Handler.antt =====
-- playback.js: the handlers of the channel's messages and of the media source. `available` is whether
-- the browser has media sources, and `adds` whether one adds a source buffer for the codec.
use vm_automation_deployment.Common.{
  ℕ, Bool, true, false, not, ◌||◌, [], Option, none, some, ◌==◌, if◌then◌else◌,
}
use vm_automation_deployment.Common.Int.{pos}
use vm_automation_deployment.Constants.{
  spice_msg_playback_data, spice_msg_playback_mode, spice_msg_playback_start,
  spice_msg_playback_stop, spice_msg_playback_volume, spice_msg_playback_mute,
  spice_msg_playback_latency, spice_audio_data_mode_opus, spice_audio_fmt_s16,
}
use vm_automation_deployment.Wire.{Bytes}
use vm_automation_deployment.Types.{same}
use vm_automation_deployment.Types.Place.{Place}
use vm_automation_deployment.Messages.Media.{
  SpiceMsgPlaybackData, read_playback_data, SpiceMsgPlaybackMode, read_playback_mode,
  SpiceMsgPlaybackStart, read_playback_start,
}
use vm_automation_deployment.Playback.{
  Playback, Outcome, returns, throws, log_err, no_media_source, wrong_frequency, wrong_channels,
  wrong_format, wrong_mode, no_codec, play_packet,
}

abbrev pub has_source : Playback → Bool
has_source p = elim p.source_buffer [ none ↦ false | some s ↦ true ]

-- A start while there is a source buffer falls through to the end of the handler, which is false.
unfoldable pub on_start : SpiceMsgPlaybackStart → Playback → Outcome × Playback
on_start start p =
    if not (same start.frequency (pos 48000))
    then (returns false, log_err wrong_frequency p)
    else if not (same start.channels (pos 2))
    then (returns false, log_err wrong_channels p)
    else if not (start.format == spice_audio_fmt_s16)
    then (returns false, log_err wrong_format p)
    else if has_source p
    then (returns false, p)
    else (returns true, record p { media_source = true })

abbrev pub outcome : Option Bytes → Outcome
outcome none = throws
outcome (some body) = returns true

unfoldable pub on_mode : SpiceMsgPlaybackMode → Playback → Outcome × Playback
on_mode mode p =
    if mode.mode == spice_audio_data_mode_opus
    then (returns true, p)
    else (returns true, record (log_err wrong_mode p) { source_buffer = none })

-- A stop without a source buffer is false, as above.
unfoldable pub on_stop : Playback → Outcome × Playback
on_stop p =
    if has_source p
    then (
      returns true,
      record p {
        source_buffer = none;
        media_source = false;
        append_okay = false;
        queue = [];
        start_time = pos 0;
      },
    )
    else (returns false, p)

abbrev pub is_known : ℕ → Bool
is_known t =
    t == spice_msg_playback_volume
    || t == spice_msg_playback_mute
    || t == spice_msg_playback_latency

abbrev pub start_of : Bytes → Place
start_of body = record { buf = body; at = pos 0 }

unfoldable pub handle_source_open : (adds : Bool) → Playback → Playback
handle_source_open adds p =
    if has_source p
    then p
    else if adds
    then record p { source_buffer = some (record { updating = false; appended = [] }) }
    else log_err no_codec p

module _ (refuses : Bool → Bytes → Bool) (float32 : ℕ → Bytes) where
  unfoldable pub on_data : SpiceMsgPlaybackData → Playback → Outcome × Playback
  on_data packet p =
      if has_source p
      then (outcome packet.body, play_packet refuses float32 packet.time packet.body p)
      else (returns true, p)

  unfoldable pub process_playback_message :
      (available : Bool) → ℕ → Bytes → Playback → Outcome × Playback
  process_playback_message available type body p =
      let at = start_of body in
      if not available
      then (returns false, log_err no_media_source p)
      else if type == spice_msg_playback_start
      then on_start (read_playback_start at).0 p
      else if type == spice_msg_playback_data
      then on_data (read_playback_data at).0 p
      else if type == spice_msg_playback_mode
      then on_mode (read_playback_mode at).0 p
      else if type == spice_msg_playback_stop
      then on_stop p
      else (returns (is_known type), p)
