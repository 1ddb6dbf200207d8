-- ===== src/Inputs/Tests.antt =====
-- A client whose channel is ready, and some events.
use vm_automation_deployment.Common.{◌+◌, ◌*◌, ◌≤◌, ◌≡◌, refl, true, List, [], ◌∷◌, none, some}
use vm_automation_deployment.Common.Int.{pos, pos_part, neg_part}
use vm_automation_deployment.Messages.MiniData.{SpiceMiniData, build_msg}
use vm_automation_deployment.Messages.Input.{MouseEvent}
use vm_automation_deployment.Inputs.{
  SpiceInputsConn, Client, new_inputs, handle_mousemove, process_channel_message, send_motion,
}
use vm_automation_deployment.Inputs.Flow.{Event, move, message, run, step, motions, motions_bounded}

abbrev client : Client
client = record {
  mouse_mode = 2;
  mouse = record { buttons_state = none; mousex = none; mousey = none };
  inputs =
      some (record { ready = true; waiting_for_ack = pos 0; keyboard_modifiers = none; sent = [] });
}

abbrev there : MouseEvent
there = record { offset_x = pos 3; offset_y = pos 4; button = 0 }

abbrev ack : SpiceMiniData
ack = record { type = 111; size = pos 0; body = none }

-- Nine moves and an acknowledgement: the ninth is discarded.
abbrev events : List Event
events =
    move there
    ∷ move there
    ∷ move there
    ∷ move there
    ∷ move there
    ∷ move there
    ∷ move there
    ∷ move there
    ∷ move there
    ∷ message ack
    ∷ []

abbrev last_inputs : SpiceInputsConn
last_inputs = elim (run events client).inputs [ none ↦ new_inputs | some c ↦ c ]

client_starts : client.inputs ≡ some (record new_inputs { ready = true })
unfolding new_inputs
client_starts = refl

client_ends : (run events client).inputs ≡ some last_inputs
unfolding run step handle_mousemove
client_ends = refl

motions_bounded_example :
    (motions last_inputs.sent ≤ 2 * 4 + 4 * 1)
    × (pos_part last_inputs.waiting_for_ack + 4 * 1
        ≡ motions last_inputs.sent + neg_part last_inputs.waiting_for_ack)
motions_bounded_example = motions_bounded events client true last_inputs client_starts client_ends

-- Eight motions were sent.
motions_sent : motions last_inputs.sent ≡ 8
unfolding run step handle_mousemove process_channel_message send_motion build_msg
motions_sent = refl
