-- ===== src/Inputs.antt =====
-- portal/static/spice-html5/inputs.js: the inputs channel. The client's state is explicit; a
-- handler returns the new one. The socket is the list of the messages sent on it, the last one
-- first. What a handler does to the page (the simulated cursor, preventDefault) is left out.
pub mod Flow
mod Tests
use vm_automation_deployment.Common.{
  ℕ, ◌*◌, Bool, true, false, List, [], ◌∷◌, Option, none, some, ◌==◌, if◌then◌else◌,
}
use vm_automation_deployment.Common.Int.{ℤ, pos, ◌-ℤ◌, ◌+ℤ◌, ltb_ℤ}
use vm_automation_deployment.Constants.{
  spice_mouse_mode_client, spice_input_motion_ack_bunch, spice_msg_inputs_init,
  spice_msg_inputs_key_modifiers, spice_msg_inputs_mouse_motion_ack,
  spice_msgc_inputs_mouse_position, spice_msgc_inputs_mouse_motion, spice_msgc_inputs_mouse_press,
  spice_msgc_inputs_mouse_release, spice_mouse_button_up, spice_mouse_button_down,
}
use vm_automation_deployment.Wire.{Bytes}
use vm_automation_deployment.DataView.{get_uint16}
use vm_automation_deployment.Messages.MiniData.{SpiceMiniData, build_msg, bytes}
use vm_automation_deployment.Messages.Input.{
  Mouse, MouseEvent, mouse_position, mouse_motion, position_payload, mouse_press, mouse_release,
  press_payload,
}

-- SpiceInputsConn: what it adds to a connection, whether its state is "ready", and what was sent.
pub record SpiceInputsConn : Type 0 where
  pub ready : Bool
  pub waiting_for_ack : ℤ
  pub keyboard_modifiers : Option ℕ
  pub sent : List SpiceMiniData

-- The main connection `sc`.
pub record Client : Type 0 where
  pub mouse_mode : ℕ
  pub mouse : Mouse
  pub inputs : Option SpiceInputsConn

unfoldable pub new_inputs : SpiceInputsConn
new_inputs = record { ready = false; waiting_for_ack = pos 0; keyboard_modifiers = none; sent = [] }

unfoldable pub send_msg : SpiceMiniData → SpiceInputsConn → SpiceInputsConn
send_msg msg c = record c { sent = msg ∷ c.sent }

-- `if (sc && sc.inputs && sc.inputs.state === "ready") sc.inputs.send_msg(msg)`
abbrev pub send_if_ready : SpiceMiniData → Client → Client
send_if_ready msg sc = elim sc.inputs [
  | none ↦ sc
  | some c ↦ record sc { inputs = some (if c.ready then send_msg msg c else c) }
]

-- Whether the message was one of the channel's, and the new state.
unfoldable pub process_channel_message : SpiceMiniData → SpiceInputsConn → Bool × SpiceInputsConn
unfolding ◌-ℤ◌
process_channel_message msg c =
    if msg.type == spice_msg_inputs_init
    then (true, record c { keyboard_modifiers = some (get_uint16 (bytes msg.body) 0 true) })
    else if msg.type == spice_msg_inputs_key_modifiers
    then (true, record c { keyboard_modifiers = some (get_uint16 (bytes msg.body) 0 true) })
    else if msg.type == spice_msg_inputs_mouse_motion_ack
    then (
      true,
      record c { waiting_for_ack = c.waiting_for_ack -ℤ pos spice_input_motion_ack_bunch },
    )
    else (false, c)

-- A motion is sent unless two bunches of motions wait for their acknowledgement.
unfoldable pub send_motion : SpiceMiniData → SpiceInputsConn → SpiceInputsConn
unfolding send_msg ◌+ℤ◌
send_motion msg c =
    if c.ready
    then (if ltb_ℤ c.waiting_for_ack (pos (2 * spice_input_motion_ack_bunch))
        then record (send_msg msg c) { waiting_for_ack = c.waiting_for_ack +ℤ pos 1 }
        else c)
    else c

unfoldable pub handle_mousemove : MouseEvent → Client → Client
handle_mousemove e sc =
    let (position, moved) = mouse_position sc.mouse e in
    let (motion, moved') = mouse_motion sc.mouse e in
    let client = sc.mouse_mode == spice_mouse_mode_client in
    let msg =
      if client
      then build_msg spice_msgc_inputs_mouse_position 11 (position_payload position)
      else build_msg spice_msgc_inputs_mouse_motion 11 (position_payload motion) in
    let mouse = if client then moved else moved' in
    elim sc.inputs [
      | none ↦ record sc { mouse = mouse }
      | some c ↦ record sc { mouse = mouse; inputs = some (send_motion msg c) }
    ]

unfoldable pub handle_mousedown : MouseEvent → Client → Client
handle_mousedown e sc =
    let (press, mouse) = mouse_press sc.mouse e in
    send_if_ready (build_msg spice_msgc_inputs_mouse_press 3 (press_payload press))
      (record sc { mouse = mouse })

unfoldable pub handle_mouseup : MouseEvent → Client → Client
handle_mouseup e sc =
    let (release, mouse) = mouse_release sc.mouse e in
    send_if_ready (build_msg spice_msgc_inputs_mouse_release 3 (press_payload release))
      (record sc { mouse = mouse })

-- `up` says that `e.deltaY < 0`.
unfoldable pub handle_mousewheel : Bool → Client → Client
handle_mousewheel up sc =
    let button = if up then spice_mouse_button_up else spice_mouse_button_down in
    let body = press_payload (record { button = button; buttons_state = pos 0 }) in
    send_if_ready (build_msg spice_msgc_inputs_mouse_release 3 body)
      (send_if_ready (build_msg spice_msgc_inputs_mouse_press 3 body) sc)
