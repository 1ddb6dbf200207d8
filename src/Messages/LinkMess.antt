-- ===== src/Messages/LinkMess.antt =====
-- spicemsg.js: SpiceLinkMess.to_buffer and buffer_size, the client's half of the link. A channel's
-- type and id may be undefined, since the source reads them by getUint8.
pub mod Layout
use vm_automation_deployment.Common.{ℕ, ◌+◌, ◌-◌, ◌*◌, List, [], Option, some, length}
use vm_automation_deployment.Common.Int.{ℤ, pos}
use vm_automation_deployment.Wire.{Bytes}
use vm_automation_deployment.Messages.Cursor.{
  Cursor, M, ◌>>=◌, ◌>>◌, number, put8, put32, put_words, here,
}

pub record SpiceLinkMess : Type 0 where
  pub connection_id : ℤ
  pub channel_type : Option ℕ
  pub channel_id : Option ℕ
  pub common_caps : List ℤ
  pub channel_caps : List ℤ

unfoldable pub new : SpiceLinkMess
new = record {
  connection_id = pos 0;
  channel_type = some 0;
  channel_id = some 0;
  common_caps = [];
  channel_caps = [];
}

unfoldable pub write : SpiceLinkMess → M (Unit {0})
write m = do
  orig_at ← here
  put32 m.connection_id
  put8 (number m.channel_type)
  put8 (number m.channel_id)
  put32 (pos (length m.common_caps))
  put32 (pos (length m.channel_caps))
  at ← here
  put32 (pos (at - orig_at + 4))
  put_words m.common_caps
  put_words m.channel_caps

unfoldable pub to_buffer : SpiceLinkMess → Bytes → ℕ → Bytes
to_buffer m a at = (write m (record { buf = a; at = at })).1.buf

unfoldable pub buffer_size : SpiceLinkMess → ℕ
buffer_size m = 18 + 4 * length m.common_caps + 4 * length m.channel_caps
