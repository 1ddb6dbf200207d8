-- ===== src/Bitmap.antt =====
-- portal/static/spice-html5/bitmap.js: the conversion of a bitmap (convert_spice_bitmap_to_web). A
-- byte outside of the bitmap is undefined, and stored as 0; what is stored behind the end of the
-- image is lost. Width and height are not negative.
pub mod Total
pub mod Pixels
pub mod Rows
mod Tests
use mathlib.Core.Option
use Prim.Native.Nat.{bit_and}
use vm_automation_deployment.Common.{
  ℕ, zero, suc, ◌+◌, ◌*◌, Bool, true, false, not, ◌||◌, List, [], ◌∷◌, Option, none, some, length,
  set, get_or, replicate, ltb, ◌==◌, if◌then◌else◌,
}
use vm_automation_deployment.Common.Int.{ℤ, pos, negsuc, ◌+ℤ◌, ◌-ℤ◌}
use vm_automation_deployment.Constants.{
  spice_bitmap_fmt_32bit, spice_bitmap_fmt_rgba, spice_bitmap_flags_top_down,
}
use vm_automation_deployment.Wire.{Bytes}

pub record SpiceBitmap : Type 0 where
  pub format : ℕ
  pub flags : ℕ
  pub x : ℕ
  pub y : ℕ
  pub stride : ℕ
  pub body : Bytes

abbrev pub byte_at : Bytes → ℤ → ℕ
byte_at u8 (pos n) = get_or u8 n 0
byte_at u8 (negsuc n) = 0

unfoldable pub convert_pixel : Bool → Bytes → ℕ → ℤ → Bytes → Bytes
unfolding ◌+ℤ◌
convert_pixel is_32bit u8 offset src_offset out =
    let out0 = set out (offset + 0) (byte_at u8 (src_offset +ℤ pos 2)) in
    let out1 = set out0 (offset + 1) (byte_at u8 (src_offset +ℤ pos 1)) in
    let out2 = set out1 (offset + 2) (byte_at u8 (src_offset +ℤ pos 0)) in
    set out2 (offset + 3) (if is_32bit then 255 else byte_at u8 src_offset)

-- `for (x = 0; x < spice_bitmap.x; …)`.
unfoldable pub convert_row : Bool → Bytes → ℕ → ℕ → ℤ → Bytes → Bytes
unfolding convert_pixel ◌+ℤ◌
convert_row is_32bit u8 zero offset src_offset out = out
convert_row is_32bit u8 (suc x) offset src_offset out =
    convert_row is_32bit u8 x (offset + 4) (src_offset +ℤ pos 4)
      (convert_pixel is_32bit u8 offset src_offset out)

-- `for (offset = 0; offset < spice_bitmap.y * spice_bitmap.stride; src_offset -= src_dec)`, on
-- fuel: none means that it ran out.
unfoldable pub convert_rows :
    ℕ → Bool → Bytes → (x end : ℕ) → (src_dec : ℤ) → ℕ → ℤ → Bytes → Option Bytes
unfolding convert_row ◌+ℤ◌ ◌-ℤ◌
convert_rows zero is_32bit u8 x end src_dec offset src_offset out =
    if ltb offset end then none else some out
convert_rows (suc fuel) is_32bit u8 x end src_dec offset src_offset out =
    let next = convert_row is_32bit u8 x offset src_offset out in
    let src = src_offset +ℤ pos (4 * x) -ℤ src_dec in
    let more = convert_rows fuel is_32bit u8 x end src_dec (offset + 4 * x) src next in
    if ltb offset end then more else some out

abbrev pub is_top_down : ℕ → Bool
is_top_down flags = not (bit_and flags spice_bitmap_flags_top_down == 0)

abbrev pub is_converted : ℕ → Bool
is_converted format = format == spice_bitmap_fmt_32bit || format == spice_bitmap_fmt_rgba

-- none in front means that the fuel ran out, none behind is `undefined`.
unfoldable pub convert_spice_bitmap_to_web : ℕ → SpiceBitmap → Option (Option Bytes)
convert_spice_bitmap_to_web fuel b =
    let is_32bit = b.format == spice_bitmap_fmt_32bit in
    let end = b.y * b.stride in
    let down = is_top_down b.flags in
    let src_offset = if down then pos 0 else (pos end -ℤ pos b.stride) in
    let src_dec = if down then 0 else 2 * b.stride in
    let ret = replicate (b.x * b.y * 4) 0 in
    let rows = convert_rows fuel is_32bit b.body b.x end (pos src_dec) 0 src_offset ret in
    if is_converted b.format then Option.map some rows else some none
