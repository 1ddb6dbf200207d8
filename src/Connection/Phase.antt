-- ===== src/Connection/Phase.antt =====
-- spiceconn.js: the states of a connection, and what was sent and reported in each.
use vm_automation_deployment.Common.{
  ℕ, ◌≡◌, refl, ap, sym, ◌∙◌, subst, Bool, true, false, not, List, [], ◌∷◌, ◌++◌, map, take, drop,
  Option, none, some, if◌then◌else◌, ◌==◌, ◌⊎◌, inl, inr,
}
use vm_automation_deployment.Common.Int.{pos_part}
use vm_automation_deployment.Constants.{
  spice_channel_display, spice_magic, spice_link_err_ok, spice_link_err_permission_denied,
  spice_ticket_pubkey_bytes, spice_msgc_display_init,
}
use vm_automation_deployment.Wire.{
  Bytes, Command, request, commands, command, new_reader, wire_blob_catcher,
}
use vm_automation_deployment.Wire.Preserve.{wire_blob_catcher-keeps}
use vm_automation_deployment.Messages.MiniData.{SpiceMiniData, build_msg, bytes}
use vm_automation_deployment.Messages.MiniData
use vm_automation_deployment.Messages.LinkHeader
use vm_automation_deployment.DataView.{get_uint32}
use vm_automation_deployment.Connection.Growth.{map-append, Grows, process_message-Grows}
use vm_automation_deployment.Connection.{
  State, connecting, start, link, ticket, ready, error, Sent, hello, auth_ticket, framed, Problem,
  magic_mismatch, reply_link_error, unexpected_link_error, permission_denied, same_chars, frame,
  SpiceConn, Handled, opened, report_error, send_msg, is, process_message, process_ready,
  process_start, process_link, process_ticket, process_state, process_inbound, display_init_payload,
}

-- What was sent and reported in a state.
abbrev pub IsPhase : State → List Sent → List Problem → Type 0
IsPhase connecting sent reported = (sent ≡ []) × (reported ≡ [])
IsPhase start sent reported = (sent ≡ hello ∷ []) × (reported ≡ [])
IsPhase link sent reported = (sent ≡ hello ∷ []) × (reported ≡ [])
IsPhase ticket sent reported = (t : Bytes) × (sent ≡ hello ∷ auth_ticket t ∷ []) × (reported ≡ [])
IsPhase ready sent reported =
    (t : Bytes) × (ms : List SpiceMiniData) × (sent ≡ hello ∷ auth_ticket t ∷ map framed ms)
    × (reported ≡ [])
IsPhase error sent reported =
    (e : Problem) × (reported ≡ e ∷ [])
    × ((sent ≡ hello ∷ []) ⊎ ((t : Bytes) × (sent ≡ hello ∷ auth_ticket t ∷ [])))

module _ {Ch : Type 0} where
  abbrev pub IsInPhase : SpiceConn Ch → Type 0
  IsInPhase c = IsPhase c.state c.sent c.reported

  ready-Grows : (c d : SpiceConn Ch) → c.state ≡ ready → IsInPhase c → Grows c d → IsInPhase d
  ready-Grows c d e h (s, p, ns, g) =
      let (t, ms, sent, reported) = subst (λ x. IsPhase x c.sent c.reported) e h in
      subst (λ x. IsPhase x d.sent d.reported) (sym (s ∙ e))
        (
          t,
          ms ++ ns,
          g
              ∙ ap (λ x. x ++ map framed ns) sent
              ∙ ap (λ x. hello ∷ auth_ticket t ∷ x) (sym (map-append framed ms ns)),
          p ∙ reported,
        )

  if-IsInPhase :
      {X : Type 0} (b : Bool) (x y : SpiceConn Ch × X)
      → IsInPhase x.0
      → IsInPhase y.0
      → IsInPhase (if b then x else y).0
  if-IsInPhase true x y p q = p
  if-IsInPhase false x y p q = q

  module _ (process : Option (SpiceMiniData → Ch → Handled Ch)) where
    process_ready-IsInPhase :
        (c : SpiceConn Ch) (mb : Bytes) (saved : Option SpiceMiniData)
        → c.state ≡ ready
        → IsInPhase c
        → IsInPhase (process_ready process c mb saved).0
    unfolding process_ready
    process_ready-IsInPhase c mb none e h =
        let msg = MiniData.from_buffer mb 0 in
        if-IsInPhase (is msg.size 0) _ _
          (ready-Grows c (process_message process msg c) e h (process_message-Grows process msg c))
          h
    process_ready-IsInPhase c mb (some saved) e h =
        let msg = record saved { body = some mb } in
        ready-Grows c (process_message process msg c) e h (process_message-Grows process msg c)

    process_start-IsInPhase :
        (c : SpiceConn Ch) (mb : Bytes)
        → IsPhase start c.sent c.reported
        → IsInPhase (process_start process c mb).0
    unfolding process_start report_error
    process_start-IsInPhase c mb (sent, reported) =
        let reply = LinkHeader.from_buffer mb 0 in
        let e = magic_mismatch reply.magic in
        if-IsInPhase (not (same_chars reply.magic spice_magic)) (report_error e c, [])
          (record c { state = link }, request (pos_part reply.size) ∷ [])
          (e, ap (λ x. x ++ (e ∷ [])) reported, inl sent) (sent, reported)

    display-IsPhase :
        (b : Bool) (m : SpiceMiniData) (c : SpiceConn Ch)
        → IsPhase ticket c.sent c.reported
        → IsInPhase (record (if b then send_msg m c else c) { state = ready; timeout = false })
    unfolding send_msg
    display-IsPhase true m c (t, sent, reported) =
        (t, m ∷ [], ap (λ x. x ++ (framed m ∷ [])) sent, reported)
    display-IsPhase false m c (t, sent, reported) = (t, [], sent, reported)

    process_ticket-IsInPhase :
        (c : SpiceConn Ch) (mb : Bytes)
        → IsPhase ticket c.sent c.reported
        → IsInPhase (process_ticket process c mb).0
    unfolding process_ticket report_error
    process_ticket-IsInPhase c mb (t, sent, reported) =
        let code = get_uint32 mb 0 true in
        let init = build_msg spice_msgc_display_init 14 display_init_payload in
        let b = c.type == spice_channel_display in
        let linked : SpiceConn Ch × List (Command SpiceMiniData) = (
          record (if b then send_msg init c else c) { state = ready; timeout = false },
          frame process ∷ [],
        ) in
        let failed : Problem → SpiceConn Ch × List (Command SpiceMiniData) =
          λ e. (report_error e c, []) in
        let failed-IsInPhase : (e : Problem) → IsInPhase (failed e).0 =
          λ e. (e, ap (λ x. x ++ (e ∷ [])) reported, inr (t, sent)) in
        if-IsInPhase (is code spice_link_err_ok) linked
          (if is code spice_link_err_permission_denied
            then failed permission_denied
            else failed (unexpected_link_error code))
          (display-IsPhase b init c (t, sent, reported))
          (if-IsInPhase (is code spice_link_err_permission_denied) (failed permission_denied)
            (failed (unexpected_link_error code)) (failed-IsInPhase permission_denied)
            (failed-IsInPhase (unexpected_link_error code)))

    module _ (rsa_encrypt : Bytes → List ℕ → Bytes) where
      process_link-IsInPhase :
          (c : SpiceConn Ch) (mb : Bytes)
          → IsPhase link c.sent c.reported
          → IsInPhase (process_link process rsa_encrypt c mb).0
      unfolding process_link report_error
      process_link-IsInPhase c mb (sent, reported) =
          let code = get_uint32 mb 0 true in
          let t =
            rsa_encrypt (take spice_ticket_pubkey_bytes (drop 4 mb)) (c.password ++ (0 ∷ [])) in
          let e = reply_link_error code in
          if-IsInPhase (not (is code 0)) (report_error e c, [])
            (record c { state = ticket; sent = c.sent ++ (auth_ticket t ∷ []) }, request 4 ∷ [])
            (e, ap (λ x. x ++ (e ∷ [])) reported, inl sent)
            (t, ap (λ x. x ++ (auth_ticket t ∷ [])) sent, reported)

      process_state-IsInPhase :
          (s : State) (c : SpiceConn Ch) (mb : Bytes) (saved : Option SpiceMiniData)
          → c.state ≡ s
          → IsInPhase c
          → IsInPhase (process_state process rsa_encrypt s c mb saved).0
      unfolding process_state
      process_state-IsInPhase connecting c mb saved e h = h
      process_state-IsInPhase start c mb saved e h =
          process_start-IsInPhase c mb (subst (λ s. IsPhase s c.sent c.reported) e h)
      process_state-IsInPhase link c mb saved e h =
          process_link-IsInPhase c mb (subst (λ s. IsPhase s c.sent c.reported) e h)
      process_state-IsInPhase ticket c mb saved e h =
          process_ticket-IsInPhase c mb (subst (λ s. IsPhase s c.sent c.reported) e h)
      process_state-IsInPhase ready c mb saved e h = process_ready-IsInPhase c mb saved e h
      process_state-IsInPhase error c mb saved e h = h

      process_inbound-IsInPhase :
          (c : SpiceConn Ch) (mb : Bytes) (saved : Option SpiceMiniData)
          → IsInPhase c
          → IsInPhase (process_inbound process rsa_encrypt c mb saved).0
      unfolding process_inbound
      process_inbound-IsInPhase c mb saved h = process_state-IsInPhase c.state c mb saved refl h

      -- From the opening of the socket of a connection that has sent and reported nothing, after
      -- any blocks of bytes from the server: before the link reply is accepted only the first
      -- message was sent; then the ticket, once; framed messages follow only in the ready state;
      -- and an error is reported in the error state and in no other, and only once.
      pub session_phases :
          (fuel : ℕ) (c : SpiceConn Ch) (mbs : List Bytes)
          → c.sent ≡ []
          → c.reported ≡ []
          → IsInPhase
              (wire_blob_catcher (process_inbound process rsa_encrypt) fuel (opened c) mbs).sc
      unfolding opened commands command new_reader
      session_phases fuel c mbs sent reported =
          wire_blob_catcher-keeps (process_inbound process rsa_encrypt) IsInPhase
            process_inbound-IsInPhase fuel (opened c) mbs
            (ap (λ x. x ++ (hello ∷ [])) sent, reported)
