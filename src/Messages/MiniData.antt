-- ===== src/Messages/MiniData.antt =====
-- spicemsg.js: SpiceMiniData, the frame of every message of a linked channel.
pub mod RoundTrip
use vm_automation_deployment.Common.{
  ℕ, ◌+◌, Bool, true, false, ltb, List, [], Option, none, some, length,
}
use vm_automation_deployment.Common.Int.{ℤ, pos}
use vm_automation_deployment.Wire.{Bytes}
use vm_automation_deployment.Messages.Cursor.{
  Cursor, M, ret, ◌>>=◌, ◌>>◌, u16, u32, put16, put32, put_bytes, rest,
}

-- A message to be sent may hold any number as its type; one that was read has 16 bits.
pub record SpiceMiniData : Type 0 where
  pub type : ℕ
  pub size : ℤ
  pub body : Option Bytes

unfoldable pub new : SpiceMiniData
new = record { type = 0; size = pos 0; body = none }

unfoldable pub read : M SpiceMiniData
read = do
  type ← u16
  size ← u32
  body ← rest
  ret (record { type = type; size = size; body = body })

-- `this.data ? this.data.byteLength : 0`, and the bytes, if there are any.
abbrev pub bytes : Option Bytes → Bytes
bytes none = []
bytes (some b) = b

unfoldable pub write : SpiceMiniData → M (Unit {0})
write m = do put16 (pos m.type); put32 (pos (length (bytes m.body))); put_bytes (bytes m.body)

-- `extra` comes with its buffer_size and its bytes in a buffer of that size.
unfoldable pub build_msg : ℕ → ℕ → Bytes → SpiceMiniData
build_msg in_type size body = record { type = in_type; size = pos size; body = some body }

unfoldable pub buffer_size : SpiceMiniData → ℕ
buffer_size m = 6 + length (bytes m.body)

unfoldable pub to_buffer : SpiceMiniData → Bytes → ℕ → Bytes
to_buffer m a at = (write m (record { buf = a; at = at })).1.buf

unfoldable pub from_buffer : Bytes → ℕ → SpiceMiniData
from_buffer a at = (read (record { buf = a; at = at })).0
