-- ===== src/Playback/Tests.antt =====
-- Runs of the playback channel, and the witness.
use vm_automation_deployment.Common.{ℕ, ◌≡◌, refl, Bool, false, [], ◌∷◌}
use vm_automation_deployment.Common.Int.{pos, ◌+ℤ◌, ◌-ℤ◌}
use vm_automation_deployment.Wire.{Bytes}
use vm_automation_deployment.Playback.{
  Playback, returns, packet_time, play_packet, play, start_playback, new_cluster, simple_block,
  append_or_queue, playback_append_buffer, condense_playback_queue, handle_append_buffer_done,
}
use vm_automation_deployment.Playback.Handler.{on_data, on_start}
use vm_automation_deployment.Playback.File.{Packet, listening, finished}
use vm_automation_deployment.Playback.Session.{
  message_of, opened, packet, done, IsFaithful, Reached-IsFaithful,
}

abbrev busy_refuses : Bool → Bytes → Bool
busy_refuses updating b = updating

abbrev four : ℕ → Bytes
four n = 0 ∷ 0 ∷ 0 ∷ 0 ∷ []

abbrev first : Packet
first = record { time = pos 100; body = 1 ∷ 2 ∷ [] }

abbrev second : Packet
second = record { time = pos 111; body = 3 ∷ [] }

abbrev begun : Playback
begun = (on_data busy_refuses four (message_of first) listening).1

abbrev later : Playback
later = (on_data busy_refuses four (message_of second) begun).1

Reached-IsFaithful_example :
    IsFaithful four (handle_append_buffer_done busy_refuses (finished later)) (second ∷ first ∷ [])
unfolding on_data play_packet play start_playback new_cluster simple_block append_or_queue
    playback_append_buffer packet_time ◌-ℤ◌ ◌+ℤ◌
Reached-IsFaithful_example =
    Reached-IsFaithful busy_refuses four (handle_append_buffer_done busy_refuses (finished later))
      (second ∷ first ∷ []) (λ b. refl)
      (done later (second ∷ first ∷ []) refl
        (packet begun (first ∷ []) second tt (packet listening [] first refl opened)))

-- A packet that is a little late or early is played 10 ms behind the last one.
steadied : packet_time (pos 100) (pos 100) (pos 111) ≡ pos 110
unfolding packet_time ◌+ℤ◌ ◌-ℤ◌
steadied = refl

gap : packet_time (pos 100) (pos 100) (pos 2000) ≡ pos 2000
unfolding packet_time ◌+ℤ◌ ◌-ℤ◌
gap = refl

condensed : condense_playback_queue ((1 ∷ []) ∷ (2 ∷ 3 ∷ []) ∷ []) ≡ 1 ∷ 2 ∷ 3 ∷ []
unfolding condense_playback_queue
condensed = refl

-- A start while there is a source buffer is not handled.
started_again :
    on_start
      (record { channels = pos 2; format = 1; frequency = pos 48000; time = pos 0 })
      listening
    ≡ (returns false, listening)
unfolding on_start
started_again = refl
