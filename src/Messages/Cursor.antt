-- ===== src/Messages/Cursor.antt =====
-- How the methods of spicemsg.js walk a buffer: `at` goes up with each number read or written, and
-- all numbers are little-endian.
pub mod Laws
use vm_automation_deployment.Common.{
  ℕ, zero, suc, ◌+◌, Bool, true, false, List, [], ◌∷◌, ◌++◌, Option, none, some, length, drop, ltb,
  if◌then◌else◌,
}
use vm_automation_deployment.Common.Int.{ℤ, pos}
use vm_automation_deployment.Wire.{Bytes}
use vm_automation_deployment.DataView.{
  get_uint8, get_uint16, get_uint32, get_uint64, set_uint8, set_uint16, set_uint32, set_uint64,
}

pub record Cursor : Type 0 where
  pub buf : Bytes
  pub at : ℕ

abbrev pub M : Type 0 → Type 0
M A = Cursor → A × Cursor

infixl 5 ◌>>=◌ ◌>>◌
abbrev pub ◌>>=◌ : {A B : Type 0} → M A → (A → M B) → M B
◌>>=◌ m f c = let (a, c') = m c in f a c'

abbrev pub ◌>>◌ : {B : Type 0} → M (Unit {0}) → M B → M B
◌>>◌ m k c = let (a, c') = m c in k c'

abbrev pub ret : {A : Type 0} → A → M A
ret a c = (a, c)

-- A number that may be undefined is 0 where it is written.
abbrev pub number : Option ℕ → ℤ
number none = pos 0
number (some n) = pos n

unfoldable pub u8 : M (Option ℕ)
u8 c = (get_uint8 c.buf c.at, record c { at = c.at + 1 })

unfoldable pub u16 : M ℕ
u16 c = (get_uint16 c.buf c.at true, record c { at = c.at + 2 })

unfoldable pub u32 : M ℤ
u32 c = (get_uint32 c.buf c.at true, record c { at = c.at + 4 })

unfoldable pub u64 : M ℤ
u64 c = (get_uint64 c.buf c.at true, record c { at = c.at + 8 })

unfoldable pub put8 : ℤ → M (Unit {0})
put8 v c = (tt, record { buf = set_uint8 c.buf c.at v; at = c.at + 1 })

unfoldable pub put16 : ℤ → M (Unit {0})
put16 v c = (tt, record { buf = set_uint16 c.buf c.at v true; at = c.at + 2 })

unfoldable pub put32 : ℤ → M (Unit {0})
put32 v c = (tt, record { buf = set_uint32 c.buf c.at v true; at = c.at + 4 })

unfoldable pub put64 : ℤ → M (Unit {0})
put64 v c = (tt, record { buf = set_uint64 c.buf c.at v true; at = c.at + 8 })

-- `for (…) dv.setUint8(at, u8arr[i])` and `for (…) dv.setUint32(at, caps[i])`
unfoldable pub put_bytes : Bytes → M (Unit {0})
put_bytes [] = ret tt
put_bytes (b ∷ bs) = do put8 (pos b); put_bytes bs

unfoldable pub put_words : List ℤ → M (Unit {0})
put_words [] = ret tt
put_words (w ∷ ws) = do put32 w; put_words ws

-- `if (a.byteLength > at) this.data = a.slice(at)`
unfoldable pub rest : M (Option Bytes)
rest c = (if ltb c.at (length c.buf) then some (drop c.at c.buf) else none, c)

-- The value of `at`.
unfoldable pub here : M ℕ
here c = (c.at, c)
