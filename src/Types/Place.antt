-- ===== src/Types/Place.antt =====
-- How from_dv walks a buffer: as Messages/Cursor does, but from any integer on, since an offset that
-- is read from a message is signed. In front of the buffer all bytes are undefined.
use vm_automation_deployment.Common.{
  ℕ, suc, ◌+◌, Bool, true, false, ◌++◌, Option, none, some, length, ◌==◌,
}
use vm_automation_deployment.Common.Int.{ℤ, pos, negsuc, ◌+ℤ◌}
use vm_automation_deployment.Wire.{Bytes}
use vm_automation_deployment.DataView.{get_uint8, get_uint16, get_uint32, get_uint64}
use vm_automation_deployment.ArrayBuffer.Slice.{array_buffer_slice}
use vm_automation_deployment.Messages.Cursor.Laws.{zeros}

pub record Place : Type 0 where
  pub buf : Bytes
  pub at : ℤ

abbrev pub N : Type 0 → Type 0
N A = Place → A × Place

infixl 5 ◌>>=◌ ◌>>◌
abbrev pub ◌>>=◌ : {A B : Type 0} → N A → (A → N B) → N B
◌>>=◌ m f c = let (a, c') = m c in f a c'

abbrev pub ◌>>◌ : {B : Type 0} → N (Unit {0}) → N B → N B
◌>>◌ m k c = let (a, c') = m c in k c'

abbrev pub ret : {A : Type 0} → A → N A
ret a c = (a, c)

-- `at += n`.
unfoldable pub forward : ℤ → ℕ → ℤ
forward (pos m) n = pos (m + n)
forward (negsuc m) n = negsuc m +ℤ pos n

-- A number of several bytes, where undefined bytes count as 0.
abbrev pub bytes_at : {A : Type 0} → (Bytes → ℕ → A) → Place → A
bytes_at get c = elim c.at [ pos n ↦ get c.buf n | negsuc n ↦ get (zeros (suc n) ++ c.buf) 0 ]

unfoldable pub read8 : N (Option ℕ)
read8 c =
    (elim c.at [ pos n ↦ get_uint8 c.buf n | negsuc n ↦ none ], record c { at = forward c.at 1 })

unfoldable pub read16 : N ℕ
read16 c = (bytes_at (λ b at. get_uint16 b at true) c, record c { at = forward c.at 2 })

unfoldable pub read32 : N ℤ
read32 c = (bytes_at (λ b at. get_uint32 b at true) c, record c { at = forward c.at 4 })

-- `dv.getUint32(at)`: the most significant byte first.
unfoldable pub read32_big : N ℤ
read32_big c = (bytes_at (λ b at. get_uint32 b at false) c, record c { at = forward c.at 4 })

unfoldable pub read64 : N ℤ
read64 c = (bytes_at (λ b at. get_uint64 b at true) c, record c { at = forward c.at 8 })

-- `mb.slice(at)`, and on behind it.
unfoldable pub slice_on : N Bytes
slice_on c =
    let body = array_buffer_slice c.buf (some c.at) none in
    (body, record c { at = forward c.at (length body) })

-- `mb.slice(at, end)`, where the end depends on `at`, and on behind it.
unfoldable pub slice_until : (ℤ → ℤ) → N Bytes
slice_until end c =
    let body = array_buffer_slice c.buf (some c.at) (some (end c.at)) in
    (body, record c { at = forward c.at (length body) })

-- What is read at an offset, which leaves `at` where it was.
abbrev pub aside : {A : Type 0} → ℤ → N A → N A
aside offset m c = ((m (record c { at = offset })).0, c)

-- What is read from an offset on.
abbrev pub from : {A : Type 0} → ℤ → N A → N A
from offset m c = m (record c { at = offset })

abbrev pub is_null : ℤ → Bool
is_null (pos n) = n == 0
is_null (negsuc n) = false
