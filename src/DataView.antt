-- ===== src/DataView.antt =====
-- portal/static/spice-html5/spicedataview.js: numbers in a byte buffer. A number of the source is
-- an integer; `&`, `|`, `<<` and `>>` take it to 32 bits first, and a shift distance modulo 32.
-- A read outside the buffer is undefined, which counts as 0 in such an operation; a write outside
-- changes nothing.
pub mod Words
pub mod Append
pub mod RoundTrip
pub mod Access
mod Tests
use Prim.Native.Nat.{bit_or, bit_and}
use vm_automation_deployment.Common.{
  ℕ, ◌+◌, ◌-◌, ◌*◌, ◌/◌, ◌%◌, ◌^◌, Bool, List, Option, none, some, get_elem?, set, ltb,
  if◌then◌else◌,
}
use vm_automation_deployment.Common.Int.{ℤ, pos, negsuc}
use vm_automation_deployment.Wire.{Bytes}

-- The 32 bits of a number (ToUint32), and the signed number that 32 bits stand for (ToInt32).
abbrev pub to_uint32 : ℤ → ℕ
to_uint32 (pos n) = n % 2 ^ 32
to_uint32 (negsuc n) = 2 ^ 32 - 1 - n % 2 ^ 32

abbrev pub to_int32 : ℕ → ℤ
to_int32 x = if ltb x (2 ^ 31) then pos x else negsuc (2 ^ 32 - 1 - x)

-- `x << k` on 32 bits.
abbrev pub shl : ℕ → ℕ → ℕ
shl x k = x * 2 ^ (k % 32) % 2 ^ 32

-- `x >> k` of a signed number.
abbrev pub sar : ℤ → ℕ → ℤ
sar (pos n) k = pos (n / 2 ^ (k % 32))
sar (negsuc n) k = negsuc (n / 2 ^ (k % 32))

-- What a byte that may be undefined is in `|` and `<<`.
abbrev pub bits : Option ℕ → ℕ
bits none = 0
bits (some x) = x

unfoldable pub get_uint8 : Bytes → ℕ → Option ℕ
get_uint8 u8 at = get_elem? u8 at

unfoldable pub get_uint16 : Bytes → ℕ → Bool → ℕ
unfolding get_uint8
get_uint16 u8 at little =
    let low : ℕ = if little then 0 else 1 in
    let high : ℕ = if little then 1 else 0 in
    bit_or (shl (bits (get_uint8 u8 (at + high))) 8) (bits (get_uint8 u8 (at + low)))

unfoldable pub get_uint32 : Bytes → ℕ → Bool → ℤ
get_uint32 u8 at little =
    let low : ℕ = if little then 0 else 2 in
    let high : ℕ = if little then 2 else 0 in
    to_int32 (bit_or (shl (get_uint16 u8 (at + high) little) 16) (get_uint16 u8 (at + low) little))

unfoldable pub get_uint64 : Bytes → ℕ → Bool → ℤ
get_uint64 u8 at little =
    let low : ℕ = if little then 0 else 4 in
    let high : ℕ = if little then 4 else 0 in
    to_int32 (
      bit_or (shl (to_uint32 (get_uint32 u8 (at + high) little)) 32)
        (to_uint32 (get_uint32 u8 (at + low) little)))

unfoldable pub set_uint8 : Bytes → ℕ → ℤ → Bytes
set_uint8 u8 at b = set u8 at (to_uint32 b % 2 ^ 8)

unfoldable pub set_uint16 : Bytes → ℕ → ℤ → Bool → Bytes
set_uint16 u8 at i little =
    let low : ℕ = if little then 0 else 1 in
    let high : ℕ = if little then 1 else 0 in
    set (set u8 (at + high) (to_uint32 i % 2 ^ 16 / 2 ^ 8)) (at + low) (to_uint32 i % 2 ^ 8)

-- `w & 0xffffffff` is the signed number of the 32 bits of `w`.
unfoldable pub set_uint32 : Bytes → ℕ → ℤ → Bool → Bytes
set_uint32 u8 at w little =
    let low : ℕ = if little then 0 else 2 in
    let high : ℕ = if little then 2 else 0 in
    set_uint16 (set_uint16 u8 (at + high) (sar (to_int32 (to_uint32 w)) 16) little) (at + low)
      (pos (to_uint32 w % 2 ^ 16)) little

-- The literal 0xffffffffffffffff is the number 2 ^ 64.
unfoldable pub set_uint64 : Bytes → ℕ → ℤ → Bool → Bytes
set_uint64 u8 at w little =
    let low : ℕ = if little then 0 else 4 in
    let high : ℕ = if little then 4 else 0 in
    let masked = to_int32 (bit_and (to_uint32 w) (to_uint32 (pos (2 ^ 64)))) in
    set_uint32 (set_uint32 u8 (at + high) (sar masked 32) little) (at + low)
      (to_int32 (to_uint32 w)) little
