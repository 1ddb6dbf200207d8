-- ===== src/Messages/LinkHeader/RoundTrip.antt =====
-- A link header written to a buffer and read again.
use vm_automation_deployment.Common.{ℕ, ◌≡◌, true, [], ◌∷◌, ◌++◌, length}
use vm_automation_deployment.Common.Int.{ℤ}
use vm_automation_deployment.DataView.Words.{IsInt32}
use vm_automation_deployment.DataView.RoundTrip.{word}
use vm_automation_deployment.Wire.{Bytes}
use vm_automation_deployment.Messages.Cursor.{Cursor}
use vm_automation_deployment.Messages.Cursor.Laws.{AreBytes}
use vm_automation_deployment.Messages.LinkHeader.{SpiceLinkHeader}

-- What the header is on the wire: the four characters and three 32-bit numbers.
pub layout : SpiceLinkHeader → Bytes
layout h = h.magic ++ (word h.major_version true ++ (word h.minor_version true ++ word h.size true))

pub record IsWritable (h : SpiceLinkHeader) : Type 0 where
  pub magic_bytes : AreBytes h.magic
  pub magic_length : length h.magic ≡ 4
  pub major : IsInt32 h.major_version
  pub minor : IsInt32 h.minor_version
  pub size : IsInt32 h.size

abbrev header : ℕ → ℕ → ℕ → ℕ → ℤ → ℤ → ℤ → SpiceLinkHeader
header m0 m1 m2 m3 a b c = record {
  magic = m0 ∷ m1 ∷ m2 ∷ m3 ∷ [];
  major_version = a;
  minor_version = b;
  size = c;
}
