-- ===== src/Connection/Acks.antt =====
-- spiceconn.js: the acknowledgement window, over any sequence of messages.
use native.Mathlib.Nat.{add-mul}
use vm_automation_deployment.Common.{
  ℕ, zero, suc, ◌+◌, ◌*◌, ◌≤◌, ◌≡◌, ◌≢◌, refl, ap, ◌∙◌, Bool, true, false, not, ◌&&◌, List, [], ◌∷◌,
  ◌++◌, map, some, ◌==◌, if◌then◌else◌, length, arith,
}
use vm_automation_deployment.Common.Int.{pos, ◌-ℤ◌}
use vm_automation_deployment.Constants.{spice_msg_set_ack, spice_msgc_ack}
use vm_automation_deployment.Messages.MiniData.{SpiceMiniData}
use vm_automation_deployment.Connection.{
  Sent, hello, auth_ticket, framed, SpiceConn, Handled, send_msg, ack, pong, is, count,
  count_message, process_common_messages, channel_message, dispatch, process_message,
}

-- How many acknowledgements were sent.
unfoldable pub acks : List Sent → ℕ
acks [] = 0
acks (hello ∷ ms) = acks ms
acks (auth_ticket t ∷ ms) = acks ms
acks (framed m ∷ ms) = let n = acks ms in if m.type == spice_msgc_ack then suc n else n

pub acks-append : (ms ns : List Sent) → acks (ms ++ ns) ≡ acks ms + acks ns
unfolding acks
acks-append [] ns = ground arith
acks-append (hello ∷ ms) ns = acks-append ms ns
acks-append (auth_ticket t ∷ ms) ns = acks-append ms ns
acks-append (framed m ∷ ms) ns = ground (arith, acks-append ms ns)

pong_type : (m : SpiceMiniData) → ((pong m).type == spice_msgc_ack) ≡ false
unfolding pong
pong_type m = refl

-- None of the messages sets the window.
abbrev pub keep_window : List SpiceMiniData → Bool
keep_window [] = true
keep_window (m ∷ ms) = not (m.type == spice_msg_set_ack) && keep_window ms

keep_window-head :
    (m : SpiceMiniData) (ms : List SpiceMiniData)
    → keep_window (m ∷ ms) ≡ true
    → m.type ≢ spice_msg_set_ack
keep_window-head m ms h = ground arith

keep_window-tail :
    (m : SpiceMiniData) (ms : List SpiceMiniData)
    → keep_window (m ∷ ms) ≡ true
    → keep_window ms ≡ true
keep_window-tail m ms h = ground arith

module _ {Ch : Type 0} where
  -- The window, and the number of messages until the next acknowledgement.
  abbrev pub IsCounting : ℕ → ℕ → SpiceConn Ch → Type 0
  IsCounting w k c = (c.ack_window ≡ some (pos w)) × (c.msgs_until_ack ≡ some (pos k))

  count_message-at :
      (w k : ℕ) (c : SpiceConn Ch)
      → IsCounting w k c
      → count_message c ≡ count (some (pos k)) (some (pos w)) c
  unfolding count_message
  count_message-at w k c h =
      ap (λ n. count n c.ack_window c) h.1 ∙ ap (λ v. count (some (pos k)) v c) h.0

  count-last :
      (w : ℕ) (c : SpiceConn Ch)
      → count (some (pos 1)) (some (pos (suc w))) c
        ≡ send_msg ack (record c { msgs_until_ack = some (pos (suc w)) })
  unfolding count is ◌-ℤ◌
  count-last w c = ground arith

  count-more :
      (w j : ℕ) (c : SpiceConn Ch)
      → count (some (pos (suc (suc j)))) (some (pos (suc w))) c
        ≡ record c { msgs_until_ack = some (pos (suc j)) }
  unfolding count is ◌-ℤ◌
  count-more w j c = ground arith

  last_sum :
      (w : ℕ) (c : SpiceConn Ch)
      → acks (c.sent ++ (framed ack ∷ [])) * w + 1 ≡ acks c.sent * w + (1 + w)
  unfolding acks
  last_sum w c = rw (acks-append c.sent (framed ack ∷ []), add-mul (acks c.sent) 1 w) (omega arith)

  -- An acknowledgement at the end of the window, and none before.
  abbrev Counted : ℕ → ℕ → SpiceConn Ch → SpiceConn Ch → Type 0
  Counted w k c c' =
      (k' : ℕ) × (IsCounting w k' c')
      × (1 ≤ k')
      × (k' ≤ w)
      × (acks c'.sent * w + k ≡ acks c.sent * w + (1 + k'))

  count-Counted :
      (w k : ℕ) (c : SpiceConn Ch)
      → c.ack_window ≡ some (pos w)
      → 1 ≤ k
      → k ≤ w
      → Counted w k c (count (some (pos k)) (some (pos w)) c)
  unfolding send_msg
  count-Counted zero k c h low high = ground arith
  count-Counted (suc w) zero c h low high = ground arith
  count-Counted (suc w) (suc zero) c h low high =
      rw (count-last w c) (suc w, (h, refl), omega arith, omega arith, last_sum (suc w) c)
  count-Counted (suc w) (suc (suc j)) c h low high =
      rw (count-more w j c) (suc j, (h, refl), omega arith, omega arith, omega arith)

  count_message-Counted :
      (w k : ℕ) (c : SpiceConn Ch)
      → IsCounting w k c
      → 1 ≤ k
      → k ≤ w
      → Counted w k c (count_message c)
  count_message-Counted w k c h low high =
      rw (count_message-at w k c h) (count-Counted w k c h.0 low high)

  -- What comes before the count changes neither the window nor the acknowledgements sent.
  abbrev IsQuiet : SpiceConn Ch → SpiceConn Ch → Type 0
  IsQuiet c c' =
      (c'.ack_window ≡ c.ack_window)
      × (c'.msgs_until_ack ≡ c.msgs_until_ack)
      × (acks c'.sent ≡ acks c.sent)

  send_msg-IsQuiet :
      (m : SpiceMiniData) (c : SpiceConn Ch)
      → (m.type == spice_msgc_ack) ≡ false
      → IsQuiet c (send_msg m c)
  unfolding send_msg acks
  send_msg-IsQuiet m c h = (refl, refl, rw (acks-append c.sent (framed m ∷ [])) (ground arith))

  process_common_messages-IsQuiet :
      (m : SpiceMiniData) (c : SpiceConn Ch)
      → m.type ≢ spice_msg_set_ack
      → IsQuiet c (process_common_messages m c).1
  unfolding process_common_messages
  process_common_messages-IsQuiet m c other =
      ground (arith, send_msg-IsQuiet (pong m) c (pong_type m))

  if-IsQuiet :
      (c x y : SpiceConn Ch) (b : Bool) → IsQuiet c x → IsQuiet x y → IsQuiet c (if b then x else y)
  if-IsQuiet c x y true p q = p
  if-IsQuiet c x y false p q = (q.0 ∙ p.0, q.1 ∙ p.1, q.2 ∙ p.2)

  module _ (process : SpiceMiniData → Ch → Handled Ch) where
    -- process_message for each of the messages, in order.
    unfoldable pub process_messages : List SpiceMiniData → SpiceConn Ch → SpiceConn Ch
    process_messages [] c = c
    process_messages (m ∷ ms) c = process_messages ms (process_message (some process) m c)

  module _ (process : SpiceMiniData → Ch → Handled Ch)
      (quiet : (m : SpiceMiniData) (ch : Ch) → acks (map framed (process m ch).replies) ≡ 0) where
    channel_message-IsQuiet :
        (m : SpiceMiniData) (c : SpiceConn Ch) → IsQuiet c (channel_message (some process) m c).1
    unfolding channel_message
    channel_message-IsQuiet m c = (
      refl,
      refl,
      rw (acks-append c.sent (map framed (process m c.channel).replies), quiet m c.channel)
          (omega arith),
    )

    dispatch-IsQuiet :
        (m : SpiceMiniData) (c : SpiceConn Ch)
        → m.type ≢ spice_msg_set_ack
        → IsQuiet c (dispatch (some process) m c)
    unfolding dispatch
    dispatch-IsQuiet m c other =
        let (rc, c') = process_common_messages m c in
        if-IsQuiet c c' (channel_message (some process) m c').1 rc
          (process_common_messages-IsQuiet m c other) (channel_message-IsQuiet m c')

    process_message-Counted :
        (w k : ℕ) (m : SpiceMiniData) (c : SpiceConn Ch)
        → m.type ≢ spice_msg_set_ack
        → IsCounting w k c
        → 1 ≤ k
        → k ≤ w
        → Counted w k c (process_message (some process) m c)
    unfolding process_message
    process_message-Counted w k m c other h low high =
        let q = dispatch-IsQuiet m c other in
        let d = dispatch (some process) m c in
        let h' : IsCounting w k d = (q.0 ∙ h.0, q.1 ∙ h.1) in
        let (k', counting, low', high', sum) = count_message-Counted w k d h' low high in
        (k', counting, low', high', sum ∙ ap (λ a. a * w + (1 + k')) q.2)

    -- On a channel that sends no acknowledgements of its own, with a window of `w` messages of
    -- which `k` are left, any messages but those that set a new window leave a window of `w`
    -- messages, of which at least one is left, and one acknowledgement was sent at the end of each
    -- window: the acknowledgements times `w` and the messages counted since make up the messages.
    pub acks_counted :
        (w k : ℕ) (ms : List SpiceMiniData) (c : SpiceConn Ch)
        → keep_window ms ≡ true
        → IsCounting w k c
        → 1 ≤ k
        → k ≤ w
        → let c' = process_messages process ms c in
          (k' : ℕ) × (IsCounting w k' c')
          × (1 ≤ k')
          × (k' ≤ w)
          × (acks c'.sent * w + k ≡ acks c.sent * w + (length ms + k'))
    unfolding process_messages
    acks_counted w k [] c keep h low high = (k, h, low, high, omega arith)
    acks_counted w k (m ∷ ms) c keep h low high =
        let (j, h', low', high', sum) =
          process_message-Counted w k m c (keep_window-head m ms keep) h low high in
        let d = process_message (some process) m c in
        let (k', h'', low'', high'', sum') =
          acks_counted w j ms d (keep_window-tail m ms keep) h' low' high' in
        (k', h'', low'', high'', omega (arith, sum, sum'))
