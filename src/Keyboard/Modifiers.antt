-- ===== src/Keyboard/Modifiers.antt =====
-- portal/static/spice-html5/inputs.js: the modifier keys, which follow the flags of the key events.
-- The module's variables Shift_state, Ctrl_state, Alt_state and Meta_state are a record; none
-- stands for -1. A key event comes with its scan code.
pub mod Sent
use Prim.Native.Nat.{bit_or}
use vm_automation_deployment.Common.{
  ℕ, ◌≡◌, refl, ap, arith, ◌∙◌, Bool, true, false, not, List, [], ◌∷◌, Option, none, some, ◌==◌,
  if◌then◌else◌,
}
use vm_automation_deployment.KeyNames.{key_shift_l, key_l_ctrl, key_alt, key_kp_decimal}
use vm_automation_deployment.Messages.MiniData.{SpiceMiniData}
use vm_automation_deployment.Messages.Input.{key_payload}
use vm_automation_deployment.Messages.MiniData.{build_msg}
use vm_automation_deployment.Constants.{spice_msgc_inputs_key_down, spice_msgc_inputs_key_up}
use vm_automation_deployment.Inputs.{Client, SpiceInputsConn, send_msg, send_if_ready}
use vm_automation_deployment.Keyboard.{key_message}
use vm_automation_deployment.Keyboard.Typing.{online}

pub record Modifiers : Type 0 where
  pub shift : Option Bool
  pub ctrl : Option Bool
  pub alt : Option Bool
  pub meta : Option Bool

pub record KeyEvent : Type 0 where
  pub code : ℕ
  pub shift_key : Bool
  pub ctrl_key : Bool
  pub alt_key : Bool
  pub meta_key : Bool

unfoldable pub update_modifier : Bool → ℕ → SpiceInputsConn → SpiceInputsConn
unfolding send_msg
update_modifier state code c = send_msg (key_message code state) c

abbrev pub flags : KeyEvent → Modifiers
flags e = record {
  shift = some e.shift_key;
  ctrl = some e.ctrl_key;
  alt = some e.alt_key;
  meta = some e.meta_key;
}

-- The flags of the first event.
abbrev pub first_event : Option Bool → KeyEvent → Modifiers → Modifiers
first_event none e m = flags e
first_event (some shift) e m = m

-- What a modifier's own key does.
unfoldable pub own_key : ℕ → Modifiers → Modifiers
own_key code m =
    if code == key_shift_l
    then record m { shift = some true }
    else if code == key_alt
    then record m { alt = some true }
    else if code == key_l_ctrl
    then record m { ctrl = some true }
    else if code == 0xE0B5
    then record m { meta = some true }
    else if code == bit_or 0x80 key_shift_l
    then record m { shift = some false }
    else if code == bit_or 0x80 key_alt
    then record m { alt = some false }
    else if code == bit_or 0x80 key_l_ctrl
    then record m { ctrl = some false }
    else if code == bit_or 0x80 0xE0B5
    then record m { meta = some false }
    else m

-- `if (state != flag) { update_modifier(flag, code, sc); state = flag; }`
unfoldable pub sync : ℕ → Bool → Option Bool → SpiceInputsConn → Option Bool × SpiceInputsConn
unfolding update_modifier
sync code flag none c = (some flag, update_modifier flag code c)
sync code true (some true) c = (some true, c)
sync code true (some false) c = (some true, update_modifier true code c)
sync code false (some true) c = (some false, update_modifier false code c)
sync code false (some false) c = (some false, c)

unfoldable pub sync_all : KeyEvent → Modifiers → SpiceInputsConn → Modifiers × SpiceInputsConn
unfolding sync
sync_all e m c =
    let (shift, c1) = sync key_shift_l e.shift_key m.shift c in
    let (alt, c2) = sync key_alt e.alt_key m.alt c1 in
    let (ctrl, c3) = sync key_l_ctrl e.ctrl_key m.ctrl c2 in
    let (meta, c4) = sync 0xE0B5 e.meta_key m.meta c3 in
    (record { shift = shift; ctrl = ctrl; alt = alt; meta = meta }, c4)

unfoldable pub check_and_update_modifiers : KeyEvent → Modifiers → Client → Modifiers × Client
check_and_update_modifiers e m sc =
    let m' = own_key e.code (first_event m.shift e m) in
    elim sc.inputs [
      | none ↦ (m', sc)
      | some c ↦
          let (m'', c') = sync_all e m' c in
          if c.ready then (m'', record sc { inputs = some c' }) else (m', sc)
    ]

-- handle_keydown, and with `false` handle_keyup.
unfoldable pub handle_key : Bool → KeyEvent → Modifiers → Client → Modifiers × Client
unfolding check_and_update_modifiers
handle_key down e m sc =
    let (m', sc') = check_and_update_modifiers e m sc in
    let type = if down then spice_msgc_inputs_key_down else spice_msgc_inputs_key_up in
    (m', send_if_ready (build_msg type 4 (key_payload e.code)) sc')

sync-flag :
    (code : ℕ) (flag : Bool) (state : Option Bool) (c : SpiceInputsConn)
    → (sync code flag state c).0 ≡ some flag
unfolding sync
sync-flag code flag none c = refl
sync-flag code true (some true) c = refl
sync-flag code true (some false) c = refl
sync-flag code false (some true) c = refl
sync-flag code false (some false) c = refl

-- For a ready client; what the modifiers were decides whether they are released.
unfoldable pub send_ctrl_alt_del : Modifiers → Client → Client
unfolding send_msg
send_ctrl_alt_del m sc =
    let tell =
      λ (state : Bool) (code : ℕ) (sc : Client). send_if_ready (key_message code state) sc in
    let key = λ (type : ℕ) (sc : Client).
      send_if_ready (build_msg type 4 (key_payload key_kp_decimal)) sc in
    let held = tell true key_alt (tell true key_l_ctrl sc) in
    let struck = key spice_msgc_inputs_key_up (key spice_msgc_inputs_key_down held) in
    let ctrl_free : Client = elim m.ctrl [
      | some false ↦ tell false key_l_ctrl struck
      | _ ↦ struck
    ] in
    elim m.alt [ some false ↦ tell false key_alt ctrl_free | _ ↦ ctrl_free ]
