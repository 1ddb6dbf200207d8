-- ===== src/Connection/Sizes.antt =====
-- spiceconn.js: the sizes that the connection asks its wire reader for.
use vm_automation_deployment.Common.{
  ℕ, ◌<◌, ◌≡◌, List, ◌⊎◌, inl, inr, false, Option, none, some, Bool-cases, arith, ltb, take, drop,
}
use vm_automation_deployment.Common.Int.{pos_part}
use vm_automation_deployment.Wire.{Bytes}
use vm_automation_deployment.Wire.Stream.{Stream, obey, advance}
use vm_automation_deployment.Messages.LinkHeader
use vm_automation_deployment.Messages.MiniData
use vm_automation_deployment.Messages.MiniData.{SpiceMiniData}
use vm_automation_deployment.Connection.{
  State, connecting, start, link, ticket, ready, error, SpiceConn, Handled, is, process_ready,
  process_start, process_link, process_ticket, process_state, process_inbound,
}

-- The headers that announce no bytes: a link header of size 0, and headers of size 2 ^ 31 or more,
-- for which 0 stands.
abbrev pub IsEmptyHeader : State → Bytes → Option SpiceMiniData → Type 0
IsEmptyHeader start mb saved = pos_part (LinkHeader.from_buffer mb 0).size ≡ 0
IsEmptyHeader ready mb none =
    let size = (MiniData.from_buffer mb 0).size in (is size 0 ≡ false) × (pos_part size ≡ 0)
IsEmptyHeader ready mb (some h) = ⊥
IsEmptyHeader connecting mb saved = ⊥
IsEmptyHeader link mb saved = ⊥
IsEmptyHeader ticket mb saved = ⊥
IsEmptyHeader error mb saved = ⊥

module _ {Ch : Type 0} (process_channel_message : Option (SpiceMiniData → Ch → Handled Ch))
    (rsa_encrypt : Bytes → List ℕ → Bytes) where
  Asks :
      State
      → SpiceConn Ch
      → Bytes
      → Option SpiceMiniData
      → Stream (SpiceConn Ch) SpiceMiniData
      → Type 0
  Asks st c mb saved s =
      (0 < (obey (process_state process_channel_message rsa_encrypt st c mb saved).1 s).needed)
      ⊎ IsEmptyHeader st mb saved

  process_state-Asks :
      (st : State) (c : SpiceConn Ch) (mb : Bytes) (saved : Option SpiceMiniData)
      (s : Stream (SpiceConn Ch) SpiceMiniData)
      → 0 < s.needed
      → Asks st c mb saved s
  unfolding Asks process_state process_start process_link process_ticket process_ready obey
      MiniData.buffer_size MiniData.new
  process_state-Asks connecting c mb saved s h = inl h
  process_state-Asks start c mb saved s h =
      elim (Bool-cases (ltb 0 (pos_part (LinkHeader.from_buffer mb 0).size))) [
        | inl e ↦ inl (ground arith)
        | inr e ↦ inr (ground arith)
      ]
  process_state-Asks link c mb saved s h = inl (ground arith)
  process_state-Asks ticket c mb saved s h = inl (ground arith)
  process_state-Asks ready c mb none s h =
      elim (Bool-cases (is (MiniData.from_buffer mb 0).size 0)) [
        | inl e ↦ inl (rw e (omega arith))
        | inr e ↦ elim (Bool-cases (ltb 0 (pos_part (MiniData.from_buffer mb 0).size))) [
          | inl p ↦ inl (rw e (ground arith))
          | inr p ↦ inr (e, ground arith)
        ]
      ]
  process_state-Asks ready c mb (some saved) s h = inl (omega arith)
  process_state-Asks error c mb saved s h = inl h

  -- Whatever message it takes from the stream, in whatever state, the connection asks for a positive
  -- size next, but behind a header that announces no bytes: a link header of size 0, or a header of
  -- size 2 ^ 31 or more, which the model takes as 0. (The frame of a message of size 0 is handled
  -- at once.)
  pub advance-Asks :
      (s : Stream (SpiceConn Ch) SpiceMiniData)
      → 0 < s.needed
      → (0 < (advance (process_inbound process_channel_message rsa_encrypt) s).needed)
        ⊎ IsEmptyHeader s.sc.state (take s.needed s.pending) s.saved_msg_header
  unfolding advance process_inbound Asks
  advance-Asks s h =
      process_state-Asks s.sc.state s.sc (take s.needed s.pending) s.saved_msg_header
        (record s { sc = _; pending = drop s.needed s.pending }) h
