-- ===== src/Bitmap/Total.antt =====
-- bitmap.js: the loops end, where a row has a pixel.
use vm_automation_deployment.Common.{
  ℕ, zero, suc, ◌+◌, ◌-◌, ◌*◌, ◌≤◌, ◌<◌, ◌≡◌, refl, ◌∙◌, Bool, true, false, inl, inr, Option, none,
  some, length, length-set, length-replicate, replicate, ltb, ◌==◌, if◌then◌else◌, Bool-cases,
  arith,
}
use vm_automation_deployment.Common.Int.{ℤ, pos, ◌+ℤ◌, ◌-ℤ◌}
use vm_automation_deployment.Constants.{spice_bitmap_fmt_32bit}
use vm_automation_deployment.Wire.{Bytes}
use vm_automation_deployment.Bitmap.{
  SpiceBitmap, convert_pixel, convert_row, convert_rows, is_top_down, is_converted,
  convert_spice_bitmap_to_web,
}

length-convert_pixel :
    (is_32bit : Bool) (u8 : Bytes) (offset : ℕ) (src_offset : ℤ) (out : Bytes)
    → length (convert_pixel is_32bit u8 offset src_offset out) ≡ length out
unfolding convert_pixel
length-convert_pixel is_32bit u8 offset src_offset out = simp length-set

length-convert_row :
    (is_32bit : Bool) (u8 : Bytes) (x offset : ℕ) (src_offset : ℤ) (out : Bytes)
    → length (convert_row is_32bit u8 x offset src_offset out) ≡ length out
unfolding convert_row
length-convert_row is_32bit u8 zero offset src_offset out = refl
length-convert_row is_32bit u8 (suc x) offset src_offset out =
    length-convert_row is_32bit u8 x (offset + 4) (src_offset +ℤ pos 4)
      (convert_pixel is_32bit u8 offset src_offset out)
    ∙ length-convert_pixel is_32bit u8 offset src_offset out

convert_rows_total :
    (fuel : ℕ) (is_32bit : Bool) (u8 : Bytes) (x end : ℕ) (src_dec : ℤ) (offset : ℕ)
    (src_offset : ℤ) (out : Bytes)
    → 1 ≤ x
    → end - offset ≤ fuel
    → (ret : Bytes) × (convert_rows fuel is_32bit u8 x end src_dec offset src_offset out ≡ some ret)
      × (length ret ≡ length out)
unfolding convert_rows
convert_rows_total zero is_32bit u8 x end src_dec offset src_offset out h h' =
    (out, ground arith, refl)
convert_rows_total (suc fuel) is_32bit u8 x end src_dec offset src_offset out h h' =
    elim (Bool-cases (ltb offset end)) [
      | inl e ↦
          let before : offset < end = ground arith in
          let next = convert_row is_32bit u8 x offset src_offset out in
          let (ret, ends, same) =
            convert_rows_total fuel is_32bit u8 x end src_dec (offset + 4 * x)
              (src_offset +ℤ pos (4 * x) -ℤ src_dec) next h (omega arith) in
          (ret, rw e ends, same ∙ length-convert_row is_32bit u8 x offset src_offset out)
      | inr e ↦ (out, rw e refl, refl)
    ]

-- What the conversion may give: an image of the size that was asked for, or undefined.
abbrev pub Converts : SpiceBitmap → Option Bytes → Type 0
Converts b none = is_converted b.format ≡ false
Converts b (some ret) = (is_converted b.format ≡ true) × (length ret ≡ b.x * b.y * 4)

-- The conversion of a bitmap with at least one pixel in a row, with fuel for a round for each byte
-- that its rows are said to have, ends whatever its bytes: with undefined if and only if its
-- format is none of the two that are converted, else with an image of x * y pixels.
pub convert_spice_bitmap_to_web_total :
    (fuel : ℕ) (b : SpiceBitmap)
    → 1 ≤ b.x
    → b.y * b.stride ≤ fuel
    → (ret : Option Bytes) × (convert_spice_bitmap_to_web fuel b ≡ some ret) × Converts b ret
unfolding convert_spice_bitmap_to_web
convert_spice_bitmap_to_web_total fuel b h h' =
    let end = b.y * b.stride in
    let down = is_top_down b.flags in
    let n = b.x * b.y * 4 in
    let (ret, ends, same) =
      convert_rows_total fuel (b.format == spice_bitmap_fmt_32bit) b.body b.x end
        (pos (if down then 0 else 2 * b.stride)) 0
        (if down then pos 0 else (pos end -ℤ pos b.stride)) (replicate n 0) h (omega arith) in
    elim (Bool-cases (is_converted b.format)) [
      | inl e ↦ (some ret, rw (e, ends) refl, (e, same ∙ length-replicate n 0))
      | inr e ↦ (none, rw e refl, e)
    ]
