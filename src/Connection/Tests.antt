-- ===== src/Connection/Tests.antt =====
-- Runs of the connection, and the witnesses.
use vm_automation_deployment.Common.{
  ℕ, ◌+◌, ◌*◌, ◌≤◌, ◌<◌, ◌⊎◌, take, ◌≡◌, refl, List, [], ◌∷◌, ◌++◌, length, none, some, true, arith,
}
use vm_automation_deployment.Common.Int.{pos}
use vm_automation_deployment.Wire.{Bytes, Reader, wire_blob_catcher, commands, command, new_reader}
use vm_automation_deployment.Wire.Stream.{Stream, asks_positive, advance, obey, feed}
use vm_automation_deployment.Wire.Loops.{IsSettled, view, bytes_of}
use vm_automation_deployment.Wire.Refine.{wire_blob_catcher-refines}
use vm_automation_deployment.DataView.{get_uint8, get_uint16, get_uint32}
use vm_automation_deployment.Messages.Cursor.{u8, u16, u32}
use vm_automation_deployment.Messages.Cursor.Laws.{zeros}
use vm_automation_deployment.Messages.LinkHeader
use vm_automation_deployment.Messages.MiniData
use vm_automation_deployment.Messages.MiniData.{SpiceMiniData}
use vm_automation_deployment.Connection.{
  connecting, ready, SpiceConn, Handled, opened, process_inbound, process_state, process_start,
  process_link, process_ticket, process_ready, process_message, dispatch, same_chars,
}
use vm_automation_deployment.Connection.Acks.{acks, IsCounting, process_messages, acks_counted}
use vm_automation_deployment.Connection.Sizes.{IsEmptyHeader, advance-Asks}
use vm_automation_deployment.Connection.Phase.{IsInPhase, session_phases}

-- A channel that counts its messages.
abbrev counting : SpiceMiniData → ℕ → Handled ℕ
counting m n = record { rc = true; channel = n + 1; replies = [] }

-- An encryption that keeps the password.
abbrev plain : Bytes → List ℕ → Bytes
plain key password = password

abbrev fresh : SpiceConn ℕ
fresh = record {
  state = connecting;
  type = 2;
  password = 112 ∷ 119 ∷ [];
  ack_window = none;
  msgs_until_ack = none;
  timeout = true;
  sent = [];
  reported = [];
  channel = 0;
}

-- The server's link header, link reply and authentication reply, cut into three blocks.
abbrev blocks : List Bytes
blocks =
    (82 ∷ 69 ∷ 68 ∷ 81 ∷ 2 ∷ 0 ∷ [])
    ∷ ((0 ∷ 0 ∷ 2 ∷ 0 ∷ 0 ∷ 0 ∷ 178 ∷ 0 ∷ 0 ∷ 0 ∷ []) ++ zeros 178)
    ∷ zeros 4
    ∷ []

session_phases_example :
    IsInPhase
      (wire_blob_catcher (process_inbound (some counting) plain) 200 (opened fresh) blocks).sc
session_phases_example = session_phases (some counting) plain 200 fresh blocks refl refl

-- And a message of three bytes, in two blocks.
abbrev session : List Bytes
session = blocks ++ ((101 ∷ 0 ∷ 3 ∷ 0 ∷ 0 ∷ 0 ∷ 7 ∷ []) ∷ (8 ∷ 9 ∷ []) ∷ [])

abbrev client_reader : Reader (SpiceConn ℕ) SpiceMiniData
client_reader = opened fresh

abbrev stream : Stream (SpiceConn ℕ) SpiceMiniData
stream = record (view client_reader) {
  pending = bytes_of client_reader.buffers ++ bytes_of session;
}

client_reader-IsSettled : IsSettled client_reader
unfolding opened commands command new_reader
client_reader-IsSettled = record { one = tt; short = omega arith }

client_reader-room : length (bytes_of client_reader.buffers) + length (bytes_of session) ≤ 300
unfolding opened commands command new_reader
client_reader-room = omega arith

stream-asks_positive :
    asks_positive (process_inbound (some counting) plain) (length stream.pending) stream ≡ true
unfolding asks_positive advance obey opened process_inbound process_state process_start process_link
    process_ticket process_ready process_message dispatch commands command new_reader same_chars
    LinkHeader.from_buffer LinkHeader.read u8 get_uint8 u32 get_uint32 get_uint16
    MiniData.buffer_size MiniData.new MiniData.from_buffer MiniData.read u16
stream-asks_positive = refl

wire_blob_catcher-refines_example :
    let q = wire_blob_catcher (process_inbound (some counting) plain) 300 client_reader session in
    (view q ≡ feed (process_inbound (some counting) plain) (view client_reader) (bytes_of session))
    × IsSettled q
wire_blob_catcher-refines_example =
    wire_blob_catcher-refines (process_inbound (some counting) plain) 300 client_reader session
      client_reader-IsSettled stream-asks_positive client_reader-room

abbrev linked : SpiceConn ℕ
linked = record fresh { state = ready; ack_window = some (pos 2); msgs_until_ack = some (pos 2) }

abbrev message : ℕ → SpiceMiniData
message type = record { type = type; size = pos 0; body = none }

abbrev messages : List SpiceMiniData
messages = message 4 ∷ message 101 ∷ message 101 ∷ []

silent : acks [] ≡ 0
unfolding acks
silent = refl

acks_counted_example :
    (k' : ℕ) × (IsCounting 2 k' (process_messages counting messages linked))
    × (1 ≤ k')
    × (k' ≤ 2)
    × (acks (process_messages counting messages linked).sent * 2 + 2
        ≡ acks linked.sent * 2 + (3 + k'))
acks_counted_example =
    acks_counted counting (λ m n. silent) 2 2 messages linked refl (refl, refl) (omega arith)
      (omega arith)

stream-needed : 0 < stream.needed
unfolding opened commands command new_reader
stream-needed = omega arith

advance-Asks_example :
    (0 < (advance (process_inbound (some counting) plain) stream).needed)
    ⊎ IsEmptyHeader stream.sc.state (take stream.needed stream.pending) stream.saved_msg_header
advance-Asks_example = advance-Asks (some counting) plain stream stream-needed
