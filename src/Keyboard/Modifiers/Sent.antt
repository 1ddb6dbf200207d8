-- ===== src/Keyboard/Modifiers/Sent.antt =====
-- inputs.js: what a key event sends for the modifier keys.
use Prim.Native.Nat.{bit_or}
use vm_automation_deployment.Common.{
  ℕ, ◌≡◌, refl, ap, arith, ◌∙◌, Bool, true, false, not, List, [], ◌∷◌, Option, none, some, ◌==◌,
  if◌then◌else◌,
}
use vm_automation_deployment.KeyNames.{key_shift_l, key_l_ctrl, key_alt}
use vm_automation_deployment.Messages.MiniData.{SpiceMiniData}
use vm_automation_deployment.Messages.Input.{key_payload}
use vm_automation_deployment.Messages.MiniData.{build_msg}
use vm_automation_deployment.Constants.{spice_msgc_inputs_key_down, spice_msgc_inputs_key_up}
use vm_automation_deployment.Inputs.{Client, SpiceInputsConn, send_msg}
use vm_automation_deployment.Keyboard.{key_message}
use vm_automation_deployment.Keyboard.Typing.{online}
use vm_automation_deployment.Keyboard.Modifiers.{
  Modifiers, KeyEvent, update_modifier, flags, first_event, own_key, sync, sync_all,
  check_and_update_modifiers, handle_key,
}

-- A modifier: its key, what it was, and the flag of the event.
pub record Change : Type 0 where
  pub code : ℕ
  pub state : Option Bool
  pub flag : Bool

abbrev pub differs : Option Bool → Bool → Bool
differs none flag = true
differs (some true) flag = not flag
differs (some false) flag = flag

-- The messages behind those for the changes, the last one first: a press or a release for each
-- modifier that was unknown or other than its flag, and none for the rest.
abbrev pub told : List Change → List SpiceMiniData → List SpiceMiniData
told [] ms = ms
told (c ∷ cs) ms = told cs (if differs c.state c.flag then key_message c.code c.flag ∷ ms else ms)

abbrev pub changes : KeyEvent → Modifiers → List Change
changes e m =
    record { code = key_shift_l; state = m.shift; flag = e.shift_key }
    ∷ record { code = key_alt; state = m.alt; flag = e.alt_key }
    ∷ record { code = key_l_ctrl; state = m.ctrl; flag = e.ctrl_key }
    ∷ record { code = 0xE0B5; state = m.meta; flag = e.meta_key }
    ∷ []

-- What a modifier was, or its flag where the page has seen no event yet.
abbrev pub initial : Option Bool → Bool → Option Bool → Option Bool
initial none flag state = some flag
initial (some shift) flag state = state

-- A modifier's own key, pressed or released, sets it.
abbrev pub settle : ℕ → ℕ → Option Bool → Option Bool
settle code key state =
    if code == key then some true else if code == bit_or 0x80 key then some false else state

-- The modifiers with which the flags of the event are compared.
abbrev pub before : KeyEvent → Modifiers → Modifiers
before e m = record {
  shift = settle e.code key_shift_l (initial m.shift e.shift_key m.shift);
  ctrl = settle e.code key_l_ctrl (initial m.shift e.ctrl_key m.ctrl);
  alt = settle e.code key_alt (initial m.shift e.alt_key m.alt);
  meta = settle e.code 0xE0B5 (initial m.shift e.meta_key m.meta);
}

own_key-settle :
    (code : ℕ) (m : Modifiers)
    → own_key code m ≡ record {
      shift = settle code key_shift_l m.shift;
      ctrl = settle code key_l_ctrl m.ctrl;
      alt = settle code key_alt m.alt;
      meta = settle code 0xE0B5 m.meta;
    }
unfolding own_key
own_key-settle code m = ground arith

first_event-initial :
    (o : Option Bool) (e : KeyEvent) (m : Modifiers)
    → first_event o e m ≡ record {
      shift = initial o e.shift_key m.shift;
      ctrl = initial o e.ctrl_key m.ctrl;
      alt = initial o e.alt_key m.alt;
      meta = initial o e.meta_key m.meta;
    }
first_event-initial none e m = refl
first_event-initial (some shift) e m = refl

own_key-before :
    (e : KeyEvent) (m : Modifiers) → own_key e.code (first_event m.shift e m) ≡ before e m
own_key-before e m = ap (own_key e.code) (first_event-initial m.shift e m) ∙ own_key-settle e.code _

sync-told :
    (code : ℕ) (flag : Bool) (state : Option Bool) (c : SpiceInputsConn)
    → sync code flag state c ≡ (
      some flag,
      record c { sent = told (record { code = code; state = state; flag = flag } ∷ []) c.sent },
    )
unfolding sync update_modifier send_msg
sync-told code flag none c = refl
sync-told code true (some true) c = refl
sync-told code true (some false) c = refl
sync-told code false (some true) c = refl
sync-told code false (some false) c = refl

sync_all-told :
    (e : KeyEvent) (m : Modifiers) (c : SpiceInputsConn)
    → sync_all e m c ≡ (flags e, record c { sent = told (changes e m) c.sent })
unfolding sync_all
sync_all-told e m c =
    let c1 = (sync key_shift_l e.shift_key m.shift c).1 in
    let c2 = (sync key_alt e.alt_key m.alt c1).1 in
    let c3 = (sync key_l_ctrl e.ctrl_key m.ctrl c2).1 in
    rw
      (
        sync-told 0xE0B5 e.meta_key m.meta c3,
        sync-told key_l_ctrl e.ctrl_key m.ctrl c2,
        sync-told key_alt e.alt_key m.alt c1,
        sync-told key_shift_l e.shift_key m.shift c,
      )
      refl

-- For any key event on a client whose inputs channel is ready: afterwards the modifiers are the
-- flags of the event, whatever they were; and what is sent is, in the order of shift, alt, control
-- and meta, a press or a release for each modifier that was other than its flag, and for no other,
-- and then the key's own message. What a modifier was is its flag at the first event, and what its
-- own key, if the event is of that key, makes it.
pub handle_key-in_sync :
    (down : Bool) (e : KeyEvent) (m : Modifiers) (sc : Client) (c : SpiceInputsConn)
    (ms : List SpiceMiniData)
    → handle_key down e m (online sc c ms) ≡ (
      flags e,
      online sc c (
          build_msg
            (if down then spice_msgc_inputs_key_down else spice_msgc_inputs_key_up)
            4
            (key_payload e.code)
          ∷ told (changes e (before e m)) ms),
    )
unfolding handle_key check_and_update_modifiers send_msg
handle_key-in_sync down e m sc c ms =
    let ready : SpiceInputsConn = record c { ready = true; sent = ms } in
    rw (sync_all-told e (own_key e.code (first_event m.shift e m)) ready, own_key-before e m) refl
