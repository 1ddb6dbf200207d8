-- ===== src/Connection.antt =====
-- portal/static/spice-html5/spiceconn.js: a channel's connection, as the callback of its wire
-- reader. The channel that stands on it (its class and `process_channel_message`) and the
-- encryption of the ticket are parameters. The replies of the server, which the source keeps in
-- fields, are read only by the call that gets them. `onerror` is taken to be given, so that
-- report_error returns. A size of 2 ^ 31 or more, of a message or of the link reply, which the
-- source reads as a negative number, is outside the model: 0 stands for it. The contents of the
-- first message (send_hdr), the frame of the ticket (SpiceLinkAuthTicket), the logs and the time
-- that a message takes are left out.
pub mod Acks
pub mod Growth
pub mod Phase
pub mod Close
pub mod Sizes
mod Tests
use vm_automation_deployment.Common.{
  ℕ, Bool, true, false, not, ◌&&◌, List, [], ◌∷◌, ◌++◌, map, Option, none, some, ◌==◌, take, drop,
  if◌then◌else◌,
}
use vm_automation_deployment.Common.Int.{ℤ, pos, negsuc, ◌-ℤ◌, pos_part, ltb_ℤ}
use vm_automation_deployment.Constants.{
  spice_magic, spice_link_err_ok, spice_link_err_permission_denied, spice_msg_set_ack,
  spice_msg_ping, spice_msg_notify, spice_msgc_ack_sync, spice_msgc_ack, spice_msgc_pong,
  spice_channel_display, spice_msgc_display_init, spice_ticket_pubkey_bytes,
}
use vm_automation_deployment.Wire.{
  Bytes, Command, request, save_header, clear_header, Callback, Reader, new_reader, commands,
}
use vm_automation_deployment.DataView.{get_uint32}
use vm_automation_deployment.Messages.Cursor.{Cursor, M, ◌>>=◌, ◌>>◌, put8, put32, put64}
use vm_automation_deployment.Messages.Cursor.Laws.{zeros}
use vm_automation_deployment.Messages.LinkHeader
use vm_automation_deployment.Messages.MiniData
use vm_automation_deployment.Messages.MiniData.{SpiceMiniData, build_msg, bytes}

pub data State : Type 0 where
  connecting start link ticket ready error : State

-- What is sent on the socket: the first message, the encrypted password, and framed messages.
pub data Sent : Type 0 where
  hello : Sent
  auth_ticket : Bytes → Sent
  framed : SpiceMiniData → Sent

-- The errors that are reported.
pub data Problem : Type 0 where
  magic_mismatch : List ℕ → Problem
  reply_link_error unexpected_link_error : ℤ → Problem
  permission_denied : Problem

-- `sent` and `reported` are in the order of the calls.
pub record SpiceConn (Ch : Type 0) : Type 0 where
  pub state : State
  pub type : ℕ
  pub password : List ℕ
  pub ack_window : Option ℤ
  pub msgs_until_ack : Option ℤ
  pub timeout : Bool
  pub sent : List Sent
  pub reported : List Problem
  pub channel : Ch

-- What a channel makes of a message: whether it knows it, and what it sends.
pub record Handled (Ch : Type 0) : Type 0 where
  pub rc : Bool
  pub channel : Ch
  pub replies : List SpiceMiniData

pub record SpiceMsgSetAck : Type 0 where
  pub generation : ℤ
  pub window : ℤ

unfoldable pub set_ack : Bytes → SpiceMsgSetAck
set_ack a = record { generation = get_uint32 a 0 true; window = get_uint32 a 4 true }

-- SpiceMsgcAckSync and SpiceMsgcDisplayInit.
unfoldable pub ack_sync_payload : ℤ → Bytes
ack_sync_payload generation = (put32 generation (record { buf = zeros 4; at = 0 })).1.buf

abbrev pub write_display_init : M (Unit {0})
write_display_init = do put8 (pos 1); put64 (pos 10485760); put8 (pos 0); put32 (pos 0)

unfoldable pub display_init_payload : Bytes
display_init_payload = (write_display_init (record { buf = zeros 14; at = 0 })).1.buf

-- `z == n`
unfoldable pub is : ℤ → ℕ → Bool
is (pos m) n = m == n
is (negsuc m) n = false

unfoldable pub same_chars : List ℕ → List ℕ → Bool
same_chars [] [] = true
same_chars [] (d ∷ ds) = false
same_chars (c ∷ cs) [] = false
same_chars (c ∷ cs) (d ∷ ds) = (c == d) && same_chars cs ds

-- The answer to a ping: the first 12 bytes of its data.
unfoldable pub pong : SpiceMiniData → SpiceMiniData
pong msg =
    let body : Option Bytes = elim msg.body [ none ↦ none | some d ↦ some (take 12 d) ] in
    record {
      type = spice_msgc_pong;
      size =
          pos (MiniData.buffer_size (record { type = spice_msgc_pong; size = pos 0; body = body }));
      body = body;
    }

abbrev pub ack : SpiceMiniData
ack = record { type = spice_msgc_ack; size = pos 0; body = none }

module _ {Ch : Type 0} where
  unfoldable pub on_open : SpiceConn Ch → SpiceConn Ch × List (Command SpiceMiniData)
  on_open c = (
    record c { sent = c.sent ++ (hello ∷ []); state = start },
    request LinkHeader.buffer_size ∷ [],
  )

  -- The reader of a socket that has opened.
  unfoldable pub opened : SpiceConn Ch → Reader (SpiceConn Ch) SpiceMiniData
  unfolding on_open
  opened c = let (c', cs) = on_open c in commands cs (new_reader c')

  unfoldable pub send_msg : SpiceMiniData → SpiceConn Ch → SpiceConn Ch
  send_msg msg c = record c { sent = c.sent ++ (framed msg ∷ []) }

  unfoldable pub report_error : Problem → SpiceConn Ch → SpiceConn Ch
  report_error e c = record c { state = error; reported = c.reported ++ (e ∷ []) }

  unfoldable pub process_set_ack : SpiceMsgSetAck → SpiceConn Ch → SpiceConn Ch
  unfolding send_msg
  process_set_ack ack c =
      send_msg (build_msg spice_msgc_ack_sync 4 (ack_sync_payload ack.generation))
        (record c { ack_window = some ack.window; msgs_until_ack = some ack.window })

  unfoldable pub process_common_messages : SpiceMiniData → SpiceConn Ch → Bool × SpiceConn Ch
  unfolding process_set_ack send_msg
  process_common_messages msg c =
      if msg.type == spice_msg_set_ack
      then (true, process_set_ack (set_ack (bytes msg.body)) c)
      else if msg.type == spice_msg_ping
      then (true, send_msg (pong msg) c)
      else if msg.type == spice_msg_notify
      then (true, c)
      else (false, c)

  -- The end of process_message, on `msgs_until_ack` and `ack_window`: after every `ack_window`
  -- messages an acknowledgement is sent.
  unfoldable pub count : Option ℤ → Option ℤ → SpiceConn Ch → SpiceConn Ch
  unfolding send_msg is ◌-ℤ◌
  count none window c = c
  count (some n) none c = c
  count (some n) (some w) c =
      if is w 0
      then c
      else if ltb_ℤ (pos 0) (n -ℤ pos 1)
      then record c { msgs_until_ack = some (n -ℤ pos 1) }
      else send_msg ack (record c { msgs_until_ack = some w })

  unfoldable pub count_message : SpiceConn Ch → SpiceConn Ch
  count_message c = count c.msgs_until_ack c.ack_window c

module _ {Ch : Type 0} (process_channel_message : Option (SpiceMiniData → Ch → Handled Ch)) where
  unfoldable pub channel_message : SpiceMiniData → SpiceConn Ch → Bool × SpiceConn Ch
  channel_message msg c = elim process_channel_message [
    | none ↦ (false, c)
    | some process ↦
        let handled = process msg c.channel in
        (
          handled.rc,
          record c { channel = handled.channel; sent = c.sent ++ map framed handled.replies },
        )
  ]

  -- A message is a common one or the channel's.
  unfoldable pub dispatch : SpiceMiniData → SpiceConn Ch → SpiceConn Ch
  dispatch msg c =
      let (rc, c') = process_common_messages msg c in if rc then c' else (channel_message msg c').1

  unfoldable pub process_message : SpiceMiniData → SpiceConn Ch → SpiceConn Ch
  process_message msg c = count_message (dispatch msg c)

  abbrev pub frame : Command SpiceMiniData
  frame = request (MiniData.buffer_size MiniData.new)

  unfoldable pub process_ready : Callback (SpiceConn Ch) SpiceMiniData
  process_ready c mb none =
      let msg = MiniData.from_buffer mb 0 in
      if is msg.size 0
      then (process_message msg c, frame ∷ [])
      else (c, request (pos_part msg.size) ∷ save_header msg ∷ [])
  process_ready c mb (some saved) =
      (process_message (record saved { body = some mb }) c, frame ∷ clear_header ∷ [])

  unfoldable pub process_start : SpiceConn Ch → Bytes → SpiceConn Ch × List (Command SpiceMiniData)
  unfolding report_error
  process_start c mb =
      let reply = LinkHeader.from_buffer mb 0 in
      if not (same_chars reply.magic spice_magic)
      then (report_error (magic_mismatch reply.magic) c, [])
      else (record c { state = link }, request (pos_part reply.size) ∷ [])

  unfoldable pub process_ticket : SpiceConn Ch → Bytes → SpiceConn Ch × List (Command SpiceMiniData)
  unfolding report_error send_msg
  process_ticket c mb =
      let auth_code = get_uint32 mb 0 true in
      if is auth_code spice_link_err_ok
      then (
        record (if c.type == spice_channel_display
            then send_msg (build_msg spice_msgc_display_init 14 display_init_payload) c
            else c) { state = ready; timeout = false },
        frame ∷ [],
      )
      else if is auth_code spice_link_err_permission_denied
      then (report_error permission_denied c, [])
      else (report_error (unexpected_link_error auth_code) c, [])

  -- `rsa_encrypt` of the server's key and the password, which ends in a zero.
  module _ (rsa_encrypt : Bytes → List ℕ → Bytes) where
    unfoldable pub process_link : SpiceConn Ch → Bytes → SpiceConn Ch × List (Command SpiceMiniData)
    unfolding report_error is
    process_link c mb =
        let code = get_uint32 mb 0 true in
        let pub_key = take spice_ticket_pubkey_bytes (drop 4 mb) in
        if not (is code 0) then (report_error (reply_link_error code) c, []) else (
          record c {
            state = ticket;
            sent = c.sent ++ (auth_ticket (rsa_encrypt pub_key (c.password ++ (0 ∷ []))) ∷ []);
          },
          request 4 ∷ [],
        )

    unfoldable pub process_state : State → Callback (SpiceConn Ch) SpiceMiniData
    process_state connecting c mb saved = (c, [])
    process_state start c mb saved = process_start c mb
    process_state link c mb saved = process_link c mb
    process_state ticket c mb saved = process_ticket c mb
    process_state ready c mb saved = process_ready c mb saved
    process_state error c mb saved = (c, [])

    unfoldable pub process_inbound : Callback (SpiceConn Ch) SpiceMiniData
    process_inbound c mb saved = process_state c.state c mb saved
