-- ===== src/Inputs/Flow.antt =====
-- inputs.js: the flow control of mouse motions, over any sequence of events.
use vm_automation_deployment.Common.{
  ℕ, ◌+◌, ◌*◌, ◌≤◌, ◌≡◌, Bool, true, false, ◌||◌, List, [], ◌∷◌, Option, none, some, ◌==◌,
  if◌then◌else◌, subst, Option-cases, inl, inr, arith,
}
use native.Mathlib.Nat.{zero-add}
use vm_automation_deployment.Common.Int.{pos_part, neg_part}
use vm_automation_deployment.Constants.{
  spice_input_motion_ack_bunch, spice_msg_inputs_mouse_motion_ack, spice_msgc_inputs_mouse_position,
  spice_msgc_inputs_mouse_motion,
}
use vm_automation_deployment.Messages.MiniData.{SpiceMiniData, build_msg}
use vm_automation_deployment.Messages.Input.{MouseEvent}
use vm_automation_deployment.Inputs.{
  SpiceInputsConn, Client, process_channel_message, new_inputs, send_msg, send_motion,
  handle_mousemove, handle_mousedown, handle_mouseup, handle_mousewheel,
}

-- What can happen to the client: the mouse, and messages of the server on the channel.
pub data Event : Type 0 where
  move down up : MouseEvent → Event
  wheel : Bool → Event
  message : SpiceMiniData → Event

abbrev pub receive : SpiceMiniData → Client → Client
receive msg sc = elim sc.inputs [
  | none ↦ sc
  | some c ↦ record sc { inputs = some (process_channel_message msg c).1 }
]

unfoldable pub step : Event → Client → Client
step (move e) sc = handle_mousemove e sc
step (down e) sc = handle_mousedown e sc
step (up e) sc = handle_mouseup e sc
step (wheel b) sc = handle_mousewheel b sc
step (message msg) sc = receive msg sc

unfoldable pub run : List Event → Client → Client
run [] sc = sc
run (e ∷ es) sc = run es (step e sc)

-- Whether a message sent reports a motion.
abbrev pub is_motion : SpiceMiniData → Bool
is_motion msg =
    msg.type == spice_msgc_inputs_mouse_position || msg.type == spice_msgc_inputs_mouse_motion

abbrev pub one_if : Bool → ℕ
one_if true = 1
one_if false = 0

-- How many of the messages sent report a motion.
abbrev pub motions : List SpiceMiniData → ℕ
motions [] = 0
motions (msg ∷ sent) = one_if (is_motion msg) + motions sent

-- How many acknowledgements arrive among the events.
abbrev pub acks_of : Event → ℕ
acks_of (message msg) = one_if (msg.type == spice_msg_inputs_mouse_motion_ack)
acks_of _ = 0

abbrev pub acks : List Event → ℕ
acks [] = 0
acks (e ∷ es) = acks_of e + acks es

-- The counter is the number of motions sent less a bunch for each acknowledgement, and at most
-- two bunches.
abbrev pub Flow : Option SpiceInputsConn → ℕ → Type 0
Flow none k = Unit
Flow (some c) k =
    (pos_part c.waiting_for_ack + spice_input_motion_ack_bunch * k
      ≡ motions c.sent + neg_part c.waiting_for_ack)
    × (pos_part c.waiting_for_ack ≤ 2 * spice_input_motion_ack_bunch)

message-Flow :
    (msg : SpiceMiniData) (c : SpiceInputsConn) (k : ℕ)
    → Flow (some c) k
    → Flow
        (some (process_channel_message msg c).1)
        (one_if (msg.type == spice_msg_inputs_mouse_motion_ack) + k)
unfolding process_channel_message
message-Flow msg c k h = ground arith

send_motion-Flow :
    (msg : SpiceMiniData) (c : SpiceInputsConn) (k : ℕ)
    → is_motion msg ≡ true
    → Flow (some c) k
    → Flow (some (send_motion msg c)) k
unfolding send_motion
send_motion-Flow msg c k m h = ground arith

plain-Flow :
    (msg : SpiceMiniData) (c : SpiceInputsConn) (k : ℕ)
    → is_motion msg ≡ false
    → Flow (some c) k
    → Flow (some (if c.ready then send_msg msg c else c)) k
unfolding send_msg
plain-Flow msg c k m h = ground arith

step-Flow :
    (e : Event) (sc : Client) (k : ℕ) → Flow sc.inputs k → Flow (step e sc).inputs (acks_of e + k)
unfolding step handle_mousemove handle_mousedown handle_mouseup handle_mousewheel build_msg send_msg
step-Flow (move e) sc k h = elim (Option-cases sc.inputs) [
  | inl n ↦ rw n tt
  | inr (c, s) ↦ rw (s, zero-add) (send_motion-Flow _ c k (ground arith) (rw s at h))
]
step-Flow (down e) sc k h = ground arith
step-Flow (up e) sc k h = ground arith
step-Flow (wheel b) sc k h = ground arith
step-Flow (message msg) sc k h = elim (Option-cases sc.inputs) [
  | inl n ↦ rw n tt
  | inr (c, s) ↦ rw s (message-Flow msg c k (rw s at h))
]

run-Flow :
    (es : List Event) (sc : Client) (k : ℕ)
    → Flow sc.inputs k
    → Flow (run es sc).inputs (acks es + k)
unfolding run
run-Flow [] sc k h = rw zero-add h
run-Flow (e ∷ es) sc k h =
    let sum : acks_of e + acks es + k ≡ acks es + (acks_of e + k) = omega arith in
    rw sum (run-Flow es (step e sc) (acks_of e + k) (step-Flow e sc k h))

-- From a client that has sent nothing yet, after any sequence of mouse events and server messages,
-- the motions sent are at most two bunches of four more than the acknowledgements received stand
-- for, a bunch each; and the counter is the exact difference.
pub motions_bounded :
    (es : List Event) (sc : Client) (ready : Bool) (c : SpiceInputsConn)
    → sc.inputs ≡ some (record new_inputs { ready = ready })
    → (run es sc).inputs ≡ some c
    → (motions c.sent ≤ 2 * spice_input_motion_ack_bunch + spice_input_motion_ack_bunch * acks es)
      × (pos_part c.waiting_for_ack + spice_input_motion_ack_bunch * acks es
          ≡ motions c.sent + neg_part c.waiting_for_ack)
unfolding new_inputs
motions_bounded es sc ready c start end =
    let flow : Flow (some c) (acks es + 0) =
      subst (λ o. Flow o (acks es + 0)) end (run-Flow es sc 0 (rw start (omega arith))) in
    omega arith
