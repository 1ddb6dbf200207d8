-- ===== src/Connection/Growth.antt =====
-- spiceconn.js: what a message does to a connection that is ready.
use vm_automation_deployment.Common.{
  ◌≡◌, refl, ap, sym, ◌∙◌, Bool, true, false, List, [], ◌∷◌, ◌++◌, map, append_assoc, append-nil,
  Option, none, some, if◌then◌else◌, ◌==◌,
}
use vm_automation_deployment.Common.Int.{ℤ, pos, ◌-ℤ◌, ltb_ℤ}
use vm_automation_deployment.Constants.{
  spice_msg_set_ack, spice_msgc_ack_sync, spice_msg_ping, spice_msg_notify,
}
use vm_automation_deployment.Messages.MiniData.{SpiceMiniData, build_msg, bytes}
use vm_automation_deployment.Connection.{
  framed, SpiceConn, Handled, send_msg, ack, pong, set_ack, is, count, count_message,
  process_set_ack, process_common_messages, channel_message, dispatch, process_message,
  ack_sync_payload,
}

pub map-append :
    {A B : Type 0} (f : A → B) (xs ys : List A) → map f (xs ++ ys) ≡ map f xs ++ map f ys
map-append f [] ys = refl
map-append f (x ∷ xs) ys = ap (λ t. f x ∷ t) (map-append f xs ys)

module _ {Ch : Type 0} where
  -- Framed messages are sent, and the state and what was reported stay.
  abbrev pub Grows : SpiceConn Ch → SpiceConn Ch → Type 0
  Grows c d =
      (d.state ≡ c.state)
      × (d.reported ≡ c.reported)
      × (ms : List SpiceMiniData) × (d.sent ≡ c.sent ++ map framed ms)

  Grows-refl : (c : SpiceConn Ch) → Grows c c
  Grows-refl c = (refl, refl, [], sym (append-nil c.sent))

  Grows-trans : (b c d : SpiceConn Ch) → Grows b c → Grows c d → Grows b d
  Grows-trans b c d (s, p, ms, e) (s', p', ns, e') = (
    s' ∙ s,
    p' ∙ p,
    ms ++ ns,
    e'
        ∙ ap (λ t. t ++ map framed ns) e
        ∙ append_assoc b.sent (map framed ms) (map framed ns)
        ∙ ap (λ t. b.sent ++ t) (sym (map-append framed ms ns)),
  )

  if-Grows :
      (c x y : SpiceConn Ch) (b : Bool) → Grows c x → Grows c y → Grows c (if b then x else y)
  if-Grows c x y true p q = p
  if-Grows c x y false p q = q

  if-Grows_pair :
      (c x : SpiceConn Ch) (y : Bool × SpiceConn Ch) (b : Bool)
      → Grows c x
      → Grows c y.1
      → Grows c (if b then (true, x) else y).1
  if-Grows_pair c x y true p q = p
  if-Grows_pair c x y false p q = q

  send_msg-Grows : (m : SpiceMiniData) (c : SpiceConn Ch) → Grows c (send_msg m c)
  unfolding send_msg
  send_msg-Grows m c = (refl, refl, m ∷ [], refl)

  count-Grows : (n w : Option ℤ) (c : SpiceConn Ch) → Grows c (count n w c)
  unfolding count send_msg
  count-Grows none w c = Grows-refl c
  count-Grows (some n) none c = Grows-refl c
  count-Grows (some n) (some w) c = if-Grows c c _ (is w 0) (Grows-refl c) (
      if-Grows c (record c { msgs_until_ack = some (n -ℤ pos 1) })
        (send_msg ack (record c { msgs_until_ack = some w })) (ltb_ℤ (pos 0) (n -ℤ pos 1))
        (Grows-refl c) (refl, refl, ack ∷ [], refl))

  process_common_messages-Grows :
      (m : SpiceMiniData) (c : SpiceConn Ch) → Grows c (process_common_messages m c).1
  unfolding process_common_messages process_set_ack send_msg
  process_common_messages-Grows m c =
      let sync : SpiceMiniData =
        build_msg spice_msgc_ack_sync 4 (ack_sync_payload (set_ack (bytes m.body)).generation) in
      if-Grows_pair c (process_set_ack (set_ack (bytes m.body)) c) _ (m.type == spice_msg_set_ack)
        (refl, refl, sync ∷ [], refl)
        (if-Grows_pair c (send_msg (pong m) c) _ (m.type == spice_msg_ping)
          (send_msg-Grows (pong m) c)
          (if-Grows_pair c c (false, c) (m.type == spice_msg_notify) (Grows-refl c) (Grows-refl c)))

  module _ (process : Option (SpiceMiniData → Ch → Handled Ch)) where
    channel_message-Grows :
        (m : SpiceMiniData) (c : SpiceConn Ch) → Grows c (channel_message process m c).1
    unfolding channel_message
    channel_message-Grows m c = elim process as (λ p. Grows c (channel_message p m c).1) [
      | none ↦ Grows-refl c
      | some f ↦ (refl, refl, (f m c.channel).replies, refl)
    ]

    pub process_message-Grows :
        (m : SpiceMiniData) (c : SpiceConn Ch) → Grows c (process_message process m c)
    unfolding process_message dispatch count_message
    process_message-Grows m c =
        let (rc, c') = process_common_messages m c in
        let d = dispatch process m c in
        let common = process_common_messages-Grows m c in
        Grows-trans c d (count_message d)
          (if-Grows c c' (channel_message process m c').1 rc common
            (Grows-trans c c' (channel_message process m c').1 common (channel_message-Grows m c')))
          (count-Grows d.msgs_until_ack d.ack_window d)
