-- ===== src/Messages/Agent.antt =====
-- spicemsg.js: the messages to and from the agent in the guest (SpiceMsgcMainAgentData,
-- SpiceMsgMainAgentData, SpiceMsgMainAgentTokens and the VDAgent messages). `size` and `write` of a
-- message are the source's buffer_size and to_buffer; text is a list of character codes.
pub mod Layout
pub mod RoundTrip
use vm_automation_deployment.Common.{
  ℕ, zero, suc, ◌+◌, ◌-◌, ◌*◌, ◌/◌, Bool, List, [], ◌∷◌, ◌++◌, Option, none, some, length,
}
use vm_automation_deployment.Common.Int.{ℤ, pos}
use vm_automation_deployment.Constants.{vd_agent_protocol}
use vm_automation_deployment.Wire.{Bytes}
use vm_automation_deployment.Messages.Cursor.{
  Cursor, M, ret, ◌>>=◌, ◌>>◌, u32, u64, put8, put32, put64, put_bytes, put_words, rest,
}
use vm_automation_deployment.Messages.Cursor.Laws.{zeros}

pub data VdAgentMessage : Type 0 where
  announce_capabilities : (request caps : ℤ) → VdAgentMessage
  monitors_config : (flags width height depth x y : ℤ) → VdAgentMessage
  clipboard_grab : (types : List ℤ) → VdAgentMessage
  clipboard_request : (type : ℤ) → VdAgentMessage
  clipboard : (type : ℤ) → (body : Bytes) → VdAgentMessage
  empty_message : VdAgentMessage
  file_xfer_status : (id result : ℤ) → VdAgentMessage
  file_xfer_start : (id : ℤ) → (string : List ℕ) → VdAgentMessage
  file_xfer_data : (id : ℤ) → (body : Bytes) → VdAgentMessage

-- The methods buffer_size. A data message is made with the size of its data.
unfoldable pub size : VdAgentMessage → ℕ
size (announce_capabilities request caps) = 8
size (monitors_config flags width height depth x y) = 28
size (clipboard_grab types) = length types * 4
size (clipboard_request type) = 4
size (clipboard type body) = 4 + length body
size empty_message = 0
size (file_xfer_status id result) = 8
size (file_xfer_start id string) = 4 + length string + 1
size (file_xfer_data id body) = 12 + length body

-- The methods to_buffer.
unfoldable pub write : VdAgentMessage → M (Unit {0})
write (announce_capabilities request caps) = do put32 request; put32 caps
write (monitors_config flags width height depth x y) = do
  put32 (pos 1)
  put32 flags
  put32 height
  put32 width
  put32 depth
  put32 x
  put32 y
write (clipboard_grab types) = put_words types
write (clipboard_request type) = put32 type
write (clipboard type body) = do put32 type; put_bytes body
write empty_message = ret tt
write (file_xfer_status id result) = do put32 id; put32 result
write (file_xfer_start id string) = do put32 id; put_bytes string
write (file_xfer_data id body) = do put32 id; put64 (pos (length body)); put_bytes body

-- SpiceMsgcMainAgentData, whose `opaque` is 0.
unfoldable pub write_agent_data : ℕ → VdAgentMessage → M (Unit {0})
unfolding write size
write_agent_data type m = do
  put32 (pos vd_agent_protocol)
  put32 (pos type)
  put64 (pos 0)
  put32 (pos (size m))
  write m

unfoldable pub agent_data_size : VdAgentMessage → ℕ
unfolding size
agent_data_size m = 20 + size m

unfoldable pub agent_data_buffer : ℕ → VdAgentMessage → Bytes
unfolding write_agent_data agent_data_size
agent_data_buffer type m =
    (write_agent_data type m (record { buf = zeros (agent_data_size m); at = 0 })).1.buf

-- SpiceMsgMainAgentData and SpiceMsgMainAgentTokens.
pub record SpiceMsgMainAgentData : Type 0 where
  pub protocol : ℤ
  pub type : ℤ
  pub opaque : ℤ
  pub size : ℤ
  pub body : Option Bytes

unfoldable pub read_agent_data : M SpiceMsgMainAgentData
read_agent_data = do
  protocol ← u32
  type ← u32
  opaque ← u64
  size ← u32
  body ← rest
  ret (record { protocol = protocol; type = type; opaque = opaque; size = size; body = body })

unfoldable pub read_agent_tokens : M ℤ
read_agent_tokens = u32

-- VDAgentAnnounceCapabilities.from_buffer and VDAgentFileXferStatusMessage.from_buffer: two numbers.
unfoldable pub read_capabilities : M VdAgentMessage
read_capabilities = do request ← u32; caps ← u32; ret (announce_capabilities request caps)

unfoldable pub read_file_xfer_status : M VdAgentMessage
read_file_xfer_status = do id ← u32; result ← u32; ret (file_xfer_status id result)

-- VDAgentClipboardGrab of a buffer: a type for each four bytes.
unfoldable pub read_types : ℕ → M (List ℤ)
read_types zero = ret []
read_types (suc n) = do type ← u32; types ← read_types n; ret (type ∷ types)

unfoldable pub read_grab : Bytes → VdAgentMessage
unfolding read_types
read_grab a = clipboard_grab (read_types (length a / 4) (record { buf = a; at = 0 })).0

-- VDAgentClipboard of a buffer.
abbrev pub bytes : Option Bytes → Bytes
bytes none = []
bytes (some b) = b

unfoldable pub read_clipboard : M VdAgentMessage
read_clipboard = do type ← u32; body ← rest; ret (clipboard type (bytes body))
