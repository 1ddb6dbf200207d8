-- ===== src/Messages/LinkHeader.antt =====
-- spicemsg.js: SpiceLinkHeader, the first bytes of a channel. A string is the list of its
-- character codes.
pub mod RoundTrip
use vm_automation_deployment.Common.{ℕ, zero, suc, List, [], ◌∷◌}
use vm_automation_deployment.Common.Int.{ℤ, pos}
use vm_automation_deployment.Constants.{spice_magic, spice_version_major, spice_version_minor}
use vm_automation_deployment.DataView.{bits}
use vm_automation_deployment.Wire.{Bytes}
use vm_automation_deployment.Messages.Cursor.{
  Cursor, M, ret, ◌>>=◌, ◌>>◌, number, u8, u16, u32, put8, put16, put32, put_bytes, put_words, rest,
}

pub record SpiceLinkHeader : Type 0 where
  pub magic : List ℕ
  pub major_version : ℤ
  pub minor_version : ℤ
  pub size : ℤ

unfoldable pub new : SpiceLinkHeader
new = record {
  magic = spice_magic;
  major_version = pos spice_version_major;
  minor_version = pos spice_version_minor;
  size = pos 0;
}

-- The first `n` characters; the code of one that is not there is NaN, written as 0.
unfoldable pub put_chars : ℕ → List ℕ → M (Unit {0})
put_chars zero cs = ret tt
put_chars (suc n) [] = do put8 (pos 0); put_chars n []
put_chars (suc n) (c ∷ cs) = do put8 (pos c); put_chars n cs

-- A byte past the end becomes the character 0.
unfoldable pub get_chars : ℕ → M (List ℕ)
get_chars zero = ret []
get_chars (suc n) = do c ← u8; cs ← get_chars n; ret (bits c ∷ cs)

unfoldable pub write : SpiceLinkHeader → M (Unit {0})
unfolding put_chars
write h = do put_chars 4 h.magic; put32 h.major_version; put32 h.minor_version; put32 h.size

unfoldable pub read : M SpiceLinkHeader
unfolding get_chars
read = do
  magic ← get_chars 4
  major ← u32
  minor ← u32
  size ← u32
  ret (record { magic = magic; major_version = major; minor_version = minor; size = size })

abbrev pub buffer_size : ℕ
buffer_size = 16

unfoldable pub to_buffer : SpiceLinkHeader → Bytes → ℕ → Bytes
to_buffer h a at = (write h (record { buf = a; at = at })).1.buf

unfoldable pub from_buffer : Bytes → ℕ → SpiceLinkHeader
from_buffer a at = (read (record { buf = a; at = at })).0
