-- ===== src/Keyboard.antt =====
-- portal/static/spice-html5/inputs.js: sendText, which types a text on the keyboard of the guest. A
-- text is the list of its characters' codes; the waits between the keys, and what else happens
-- meanwhile, are left out, and a character counts as one of the 10000 whatever its code.
pub mod TextKeyMap
pub mod Guest
pub mod Typing
pub mod Modifiers
mod Tests
use Prim.Native.Nat.{bit_or}
use vm_automation_deployment.Common.{
  ℕ, suc, Bool, true, false, ◌&&◌, List, [], ◌∷◌, Option, none, some, take, ◌==◌, if◌then◌else◌,
}
use vm_automation_deployment.Constants.{spice_msgc_inputs_key_down, spice_msgc_inputs_key_up}
use vm_automation_deployment.KeyNames.{key_shift_l, key_l_ctrl, key_alt}
use vm_automation_deployment.Messages.MiniData.{SpiceMiniData, build_msg}
use vm_automation_deployment.Messages.Input.{key_payload}
use vm_automation_deployment.Inputs.{Client, send_msg, send_if_ready}
use vm_automation_deployment.Keyboard.TextKeyMap.{text_key_map}

-- `TEXT_KEY_MAP[character]`
unfoldable pub mapping_of : ℕ → List (ℕ × (ℕ × Bool)) → Option (ℕ × Bool)
mapping_of character [] = none
mapping_of character ((k, m) ∷ map) = if k == character then some m else mapping_of character map

unfoldable pub key_message : ℕ → Bool → SpiceMiniData
key_message code true = build_msg spice_msgc_inputs_key_down 4 (key_payload code)
key_message code false = build_msg spice_msgc_inputs_key_up 4 (key_payload (bit_or 128 code))

unfoldable pub send_scan_code : ℕ → Bool → Client → Client
unfolding send_msg key_message
send_scan_code code pressed sc = send_if_ready (key_message code pressed) sc

-- The keys of one character.
unfoldable pub send_key : ℕ × Bool → Client → Client
unfolding send_scan_code
send_key (code, shift) sc =
    let shifted = if shift then send_scan_code key_shift_l true sc else sc in
    let pressed = send_scan_code code true shifted in
    let released = send_scan_code code false pressed in
    if shift then send_scan_code key_shift_l false released else released

-- The loop over the text; the number counts the unsupported characters.
unfoldable pub send_characters : List ℕ → ℕ → Client → ℕ × Client
send_characters [] unsupported sc = (unsupported, sc)
send_characters (c ∷ text) unsupported sc = elim (mapping_of c text_key_map) [
  | none ↦ send_characters text (suc unsupported) sc
  | some m ↦ send_characters text unsupported (send_key m sc)
]

-- `replace(/\r\n?/g, "\n")`: `cr` says that a carriage return was just replaced.
unfoldable pub newlines : Bool → List ℕ → List ℕ
newlines cr [] = []
newlines cr (c ∷ text) =
    let after_cr = newlines true text in
    let after_other = newlines false text in
    if c == 13 then 10 ∷ after_cr else if cr && c == 10 then after_other else c ∷ after_other

unfoldable pub send_text : List ℕ → Client → ℕ × Client
unfolding send_scan_code
send_text text sc = send_characters (take 10000 (newlines false text)) 0 (
    send_scan_code key_alt false
      (send_scan_code key_shift_l false (send_scan_code key_l_ctrl false sc)))
