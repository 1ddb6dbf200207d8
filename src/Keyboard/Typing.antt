-- ===== src/Keyboard/Typing.antt =====
-- inputs.js: what a keyboard that gets the messages of sendText types.
use native.Mathlib.Nat.{zero-add}
use vm_automation_deployment.Common.{
  ℕ, suc, ◌+◌, ◌≡◌, refl, ap, sym, ◌∙◌, inl, inr, Bool, true, false, List, [], ◌∷◌, ◌++◌,
  append-nil, append_assoc, none, some, Option-cases, length, take, arith,
}
use vm_automation_deployment.KeyNames.{key_shift_l, key_alt, key_l_ctrl}
use vm_automation_deployment.Messages.MiniData.{SpiceMiniData}
use vm_automation_deployment.Inputs.{Client, SpiceInputsConn, send_msg}
use vm_automation_deployment.Keyboard.Guest.{
  Guest, guest, is_plain, mapping_of-plain, text_key_map-plain, receive-plain_down,
  receive-plain_up, receive-shift_down, receive-shift_up,
}
use vm_automation_deployment.Keyboard.{
  mapping_of, key_message, send_scan_code, send_key, send_characters, newlines, send_text,
}
use vm_automation_deployment.Keyboard.TextKeyMap.{text_key_map}

-- The keys of the text's supported characters.
unfoldable pub keys : List ℕ → List (ℕ × Bool)
keys [] = []
keys (c ∷ text) =
    let rest = keys text in elim (mapping_of c text_key_map) [ none ↦ rest | some m ↦ m ∷ rest ]

-- The messages of a key, the last one first.
abbrev key_messages : ℕ × Bool → List SpiceMiniData
key_messages (code, true) =
    key_message key_shift_l false
    ∷ key_message code false
    ∷ key_message code true
    ∷ key_message key_shift_l true
    ∷ []
key_messages (code, false) = key_message code false ∷ key_message code true ∷ []

abbrev after : Guest → List (ℕ × Bool) → Guest
after g ms = record g { typed = g.typed ++ ms }

abbrev held : Bool → List (ℕ × Bool) → Guest
held b t = record { shift = b; typed = t }

guest-key_messages :
    (m : ℕ × Bool) (ms : List SpiceMiniData)
    → is_plain m.0 ≡ true
    → (guest ms).shift ≡ false
    → guest (key_messages m ++ ms) ≡ after (guest ms) (m ∷ [])
unfolding guest
guest-key_messages (code, true) ms plain h =
    rw
      (
        receive-shift_down (guest ms),
        receive-plain_down code (record (guest ms) { shift = true }) plain,
        receive-plain_up code
            (record { shift = true; typed = (guest ms).typed ++ ((code, true) ∷ []) }) plain,
        receive-shift_up (record { shift = true; typed = (guest ms).typed ++ ((code, true) ∷ []) }),
      )
      (ap (λ b. held b ((guest ms).typed ++ ((code, true) ∷ []))) (sym h))
guest-key_messages (code, false) ms plain h =
    rw
      (
        receive-plain_down code (guest ms) plain,
        receive-plain_up code (after (guest ms) ((code, (guest ms).shift) ∷ [])) plain,
      )
      (ap (λ b. after (guest ms) ((code, b) ∷ [])) h)

-- A client whose inputs channel is ready and has sent `ms`.
abbrev pub online : Client → SpiceInputsConn → List SpiceMiniData → Client
online sc c ms = record sc { inputs = some (record c { ready = true; sent = ms }) }

send_key-online :
    (sc : Client) (c : SpiceInputsConn) (ms : List SpiceMiniData) (m : ℕ × Bool)
    → send_key m (online sc c ms) ≡ online sc c (key_messages m ++ ms)
unfolding send_key send_scan_code send_msg
send_key-online sc c ms (code, true) = refl
send_key-online sc c ms (code, false) = refl

-- What the loop over the characters sends.
IsTyped : List ℕ → ℕ → Client → SpiceInputsConn → List SpiceMiniData → ℕ × Client → Type 0
IsTyped text n sc c ms r =
    (ms' : List SpiceMiniData) × (r.1 ≡ online sc c ms')
    × (guest ms' ≡ after (guest ms) (keys text))
    × (r.0 + length (keys text) ≡ n + length text)

send_characters-IsTyped :
    (text : List ℕ) (n : ℕ) (sc : Client) (c : SpiceInputsConn) (ms : List SpiceMiniData)
    → (guest ms).shift ≡ false
    → IsTyped text n sc c ms (send_characters text n (online sc c ms))
unfolding IsTyped send_characters keys
send_characters-IsTyped [] n sc c ms h =
    (ms, refl, sym (ap (λ t. held (guest ms).shift t) (append-nil (guest ms).typed)), omega arith)
send_characters-IsTyped (k ∷ text) n sc c ms h = elim (Option-cases (mapping_of k text_key_map)) [
  | inl e ↦
      let (ms', sent, typed, count) = send_characters-IsTyped text (suc n) sc c ms h in
      rw (send_characters, keys, e) (ms', sent, typed, omega arith)
  | inr (m, e) ↦
      let plain = mapping_of-plain k text_key_map m text_key_map-plain e in
      let one = guest-key_messages m ms plain h in
      let (ms', sent, typed, count) =
        send_characters-IsTyped text n sc c (key_messages m ++ ms)
          (ap (λ (g : Guest). g.shift) one ∙ h) in
      rw (send_characters, keys, e, send_key-online sc c ms m)
        (
          ms',
          sent,
          typed
              ∙ ap (λ g. after g (keys text)) one
              ∙ ap (λ t. held (guest ms).shift t)
                  (append_assoc (guest ms).typed (m ∷ []) (keys text)),
          omega arith,
        )
]

-- The keys that are released first.
released :
    (ms : List SpiceMiniData)
    → guest (
        key_message key_alt false
        ∷ key_message key_shift_l false
        ∷ key_message key_l_ctrl false
        ∷ ms)
      ≡ held false (guest ms).typed
unfolding guest
released ms =
    rw
      (
        receive-plain_up key_l_ctrl (guest ms) refl,
        receive-shift_up (guest ms),
        receive-plain_up key_alt (held false (guest ms).typed) refl,
      )
      refl

-- On a client whose inputs channel is ready, sendText sends key messages from which a keyboard
-- types, after what it typed before, exactly the keys of the supported characters of the text's
-- first 10000, in order and each with its shift, and ends with shift released; and what it
-- returns is the number of the other characters. (The text's line ends are made newlines first.)
pub send_text-types :
    (text : List ℕ) (sc : Client) (c : SpiceInputsConn) (ms : List SpiceMiniData)
    → let r = send_text text (online sc c ms) in
      let line = take 10000 (newlines false text) in
      (ms' : List SpiceMiniData) × (r.1 ≡ online sc c ms')
      × ((guest ms').shift ≡ false)
      × ((guest ms').typed ≡ (guest ms).typed ++ keys line)
      × (r.0 + length (keys line) ≡ length line)
unfolding send_text IsTyped send_scan_code send_msg
send_text-types text sc c ms =
    let line = take 10000 (newlines false text) in
    let free =
      key_message key_alt false
      ∷ key_message key_shift_l false
      ∷ key_message key_l_ctrl false
      ∷ ms in
    let (ms', sent, typed, count) =
      send_characters-IsTyped line 0 sc c free (ap (λ (g : Guest). g.shift) (released ms)) in
    let all = typed ∙ ap (λ g. after g (keys line)) (released ms) in
    (
      ms',
      sent,
      ap (λ (g : Guest). g.shift) all,
      ap (λ (g : Guest). g.typed) all,
      count ∙ zero-add (length line),
    )
