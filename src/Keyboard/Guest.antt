-- ===== src/Keyboard/Guest.antt =====
-- inputs.js: a keyboard that gets key messages.
use Prim.Native.Nat.{bit_or}
use vm_automation_deployment.Common.{
  ℕ, ◌<◌, ◌≡◌, refl, ap, inr, Bool, true, false, not, ◌&&◌, List, [], ◌∷◌, ◌++◌, some, ◌==◌, ltb,
  if◌then◌else◌, arith,
}
use vm_automation_deployment.Common.Int.{pos, pos_part}
use vm_automation_deployment.Constants.{spice_msgc_inputs_key_down, spice_msgc_inputs_key_up}
use vm_automation_deployment.KeyNames.{key_shift_l}
use vm_automation_deployment.DataView.{get_uint32}
use vm_automation_deployment.DataView.Access.{uint32_roundtrip}
use vm_automation_deployment.Messages.Cursor.{put32}
use vm_automation_deployment.Messages.Cursor.Laws.{zeros}
use vm_automation_deployment.Messages.MiniData.{SpiceMiniData, build_msg, bytes}
use vm_automation_deployment.Messages.Input.{key_payload}
use vm_automation_deployment.Keyboard.{mapping_of, key_message}
use vm_automation_deployment.Keyboard.TextKeyMap.{text_key_map}

-- The keyboard of the guest: whether shift is held, and the keys typed, each with the shift.
pub record Guest : Type 0 where
  pub shift : Bool
  pub typed : List (ℕ × Bool)

unfoldable pub code_of : SpiceMiniData → ℕ
code_of m = pos_part (get_uint32 (bytes m.body) 0 true)

-- The left shift key is 42, and 170 when it is released.
unfoldable pub receive : SpiceMiniData → Guest → Guest
receive m g =
    if m.type == spice_msgc_inputs_key_down
    then (if code_of m == 42
        then record g { shift = true }
        else record g { typed = g.typed ++ ((code_of m, g.shift) ∷ []) })
    else if m.type == spice_msgc_inputs_key_up
    then (if code_of m == 170 then record g { shift = false } else g)
    else g

-- The guest after the messages of a channel, the last one first.
unfoldable pub guest : List SpiceMiniData → Guest
unfolding receive
guest [] = record { shift = false; typed = [] }
guest (m ∷ ms) = receive m (guest ms)

-- A code that neither is the shift key's nor, released, looks like it.
abbrev pub is_plain : ℕ → Bool
is_plain code =
    ltb code 128
    && (not (code == 42) && (ltb (bit_or 128 code) 256 && not (bit_or 128 code == 170)))

abbrev pub all_plain : List (ℕ × (ℕ × Bool)) → Bool
all_plain [] = true
all_plain ((c, (code, shift)) ∷ map) = is_plain code && all_plain map

pub text_key_map-plain : all_plain text_key_map ≡ true
text_key_map-plain = refl

pub mapping_of-plain :
    (c : ℕ) (map : List (ℕ × (ℕ × Bool))) (m : ℕ × Bool)
    → all_plain map ≡ true
    → mapping_of c map ≡ some m
    → is_plain m.0 ≡ true
unfolding mapping_of
mapping_of-plain c [] m plain h = ground arith
mapping_of-plain c ((k, (code, s)) ∷ map) m plain h = ground (arith, mapping_of-plain c map m)

payload_code : (code : ℕ) → code < 256 → pos_part (get_uint32 (key_payload code) 0 true) ≡ code
unfolding key_payload put32
payload_code code h =
    ap pos_part
      (uint32_roundtrip (zeros 4) 0 (pos code) true 4 (omega arith) (omega arith)
        (inr (omega arith))).0

code_of-down : (code : ℕ) → code < 256 → code_of (key_message code true) ≡ code
unfolding code_of key_message build_msg
code_of-down code h = payload_code code h

code_of-up : (code : ℕ) → bit_or 128 code < 256 → code_of (key_message code false) ≡ bit_or 128 code
unfolding code_of key_message build_msg
code_of-up code h = payload_code (bit_or 128 code) h

pub receive-plain_down :
    (code : ℕ) (g : Guest)
    → is_plain code ≡ true
    → receive (key_message code true) g ≡ record g { typed = g.typed ++ ((code, g.shift) ∷ []) }
unfolding receive key_message build_msg
receive-plain_down code g h =
    let small : code < 256 = ground arith in
    let other : (code == 42) ≡ false = ground arith in rw (code_of-down code small, other) refl

pub receive-plain_up :
    (code : ℕ) (g : Guest) → is_plain code ≡ true → receive (key_message code false) g ≡ g
unfolding receive key_message build_msg
receive-plain_up code g h =
    let small : bit_or 128 code < 256 = ground arith in
    let other : (bit_or 128 code == 170) ≡ false = ground arith in
    rw (code_of-up code small, other) refl

pub receive-shift_down :
    (g : Guest) → receive (key_message key_shift_l true) g ≡ record g { shift = true }
unfolding receive key_message build_msg
receive-shift_down g = rw (code_of-down key_shift_l (omega arith)) refl

pub receive-shift_up :
    (g : Guest) → receive (key_message key_shift_l false) g ≡ record g { shift = false }
unfolding receive key_message build_msg
receive-shift_up g = rw (code_of-up key_shift_l (omega arith)) refl
