-- ===== src/Bitmap/Rows.antt =====
-- bitmap.js: a bitmap that is stored from the top down, as a list of rows.
use native.Mathlib.Nat.{suc-mul, mul-suc, mul-zero}
use vm_automation_deployment.Common.{
  ℕ, zero, suc, ◌+◌, ◌-◌, ◌*◌, ◌≤◌, ◌<◌, ◌≡◌, refl, sym, ap, ◌∙◌, Bool, true, false, List, [], ◌∷◌,
  ◌++◌, some, length, length-append, append-nil, append_assoc, replicate, ltb, ◌==◌, arith,
}
use vm_automation_deployment.Common.Int.{pos, ◌+ℤ◌, ◌-ℤ◌}
use vm_automation_deployment.Constants.{spice_bitmap_fmt_32bit}
use vm_automation_deployment.Wire.{Bytes}
use vm_automation_deployment.Lz.Pixels.{Pixel, flat, room}
use vm_automation_deployment.Bitmap.{
  SpiceBitmap, convert_row, convert_rows, is_converted, convert_spice_bitmap_to_web,
}
use vm_automation_deployment.Bitmap.Pixels.{
  shown_all, length-shown_all, convert_row-flat, paint-shown,
}

abbrev pub pixels : List (List Pixel) → List Pixel
pixels [] = []
pixels (row ∷ rows) = row ++ pixels rows

abbrev pub AllWide : ℕ → List (List Pixel) → Type 0
AllWide x [] = Unit
AllWide x (row ∷ rows) = (length row ≡ x) × AllWide x rows

abbrev rooms : ℕ → ℕ → Bytes
rooms zero x = []
rooms (suc k) x = room x (rooms k x)

one_row :
    (is_32bit : Bool) (row done rest : List Pixel) (r : Bytes)
    → convert_row is_32bit
        (flat (done ++ (row ++ rest)))
        (length row)
        (length done * 4)
        (pos (length done * 4))
        (flat (shown_all is_32bit done) ++ room (length row) r)
      ≡ flat (shown_all is_32bit (done ++ row)) ++ r
one_row is_32bit row done rest r =
    let qs = done ++ (row ++ rest) in
    let long : length (shown_all is_32bit done) + length row ≤ length qs = omega (
      arith,
      length-shown_all is_32bit done,
      length-append done (row ++ rest),
      length-append row rest,
    ) in
    rw (sym (length-shown_all is_32bit done)) (
      convert_row-flat (length row) is_32bit qs (shown_all is_32bit done) r long
      ∙ ap (λ t. flat t ++ r) (paint-shown is_32bit row done rest))

wide_row :
    (x : ℕ) (is_32bit : Bool) (row done rest : List Pixel) (r : Bytes)
    → length row ≡ x
    → convert_row is_32bit
        (flat (done ++ (row ++ rest)))
        x
        (length done * 4)
        (pos (length done * 4))
        (flat (shown_all is_32bit done) ++ room x r)
      ≡ flat (shown_all is_32bit (done ++ row)) ++ r
wide_row x is_32bit row done rest r w = rw (sym w) (one_row is_32bit row done rest r)

all_shown :
    (is_32bit : Bool) (done : List Pixel)
    → flat (shown_all is_32bit done) ++ [] ≡ flat (shown_all is_32bit (done ++ []))
all_shown is_32bit done =
    append-nil (flat (shown_all is_32bit done))
    ∙ ap (λ t. flat (shown_all is_32bit t)) (sym (append-nil done))

less : (a b : ℕ) → a < b → ltb a b ≡ true
less a b h = ground arith

src_sum : (a b : ℕ) → pos a +ℤ pos b -ℤ pos 0 ≡ pos (a + b)
unfolding ◌+ℤ◌ ◌-ℤ◌
src_sum a b = ground arith

room-blank : (n m : ℕ) → room n (replicate m 0) ≡ replicate (n * 4 + m) 0
room-blank zero m = ap (λ k. replicate k 0) (omega arith)
room-blank (suc n) m =
    let e : suc n * 4 + m ≡ suc (suc (suc (suc (n * 4 + m)))) = omega arith in
    rw e (ap (λ t. 0 ∷ 0 ∷ 0 ∷ 0 ∷ t) (room-blank n m))

blank : (x k : ℕ) → replicate (x * k * 4) 0 ≡ rooms k x
blank x zero = let e : x * 0 * 4 ≡ 0 = omega (arith, mul-zero x) in rw e refl
blank x (suc k) =
    let e : x * suc k * 4 ≡ x * 4 + x * k * 4 = omega (arith, mul-suc x k) in
    rw (e, sym (room-blank x (x * k * 4))) (ap (room x) (blank x k))

convert_rows-flat :
    (fuel x end : ℕ) (is_32bit : Bool) (rows : List (List Pixel)) (done : List Pixel)
    → 1 ≤ x
    → AllWide x rows
    → end ≡ length done * 4 + length rows * (4 * x)
    → end - length done * 4 ≤ fuel
    → convert_rows fuel is_32bit
        (flat (done ++ pixels rows))
        x
        end
        (pos 0)
        (length done * 4)
        (pos (length done * 4))
        (flat (shown_all is_32bit done) ++ rooms (length rows) x)
      ≡ some (flat (shown_all is_32bit (done ++ pixels rows)))
unfolding convert_rows
convert_rows-flat zero x end is_32bit [] done h wide e f =
    let full : ltb (length done * 4) end ≡ false = ground (arith, e) in
    rw full (ap some (all_shown is_32bit done))
convert_rows-flat (suc fuel) x end is_32bit [] done h wide e f =
    let full : ltb (length done * 4) end ≡ false = ground (arith, e) in
    rw full (ap some (all_shown is_32bit done))
convert_rows-flat zero x end is_32bit (row ∷ rows) done h wide e f =
    absurd (omega (arith, e, suc-mul (length rows) (4 * x)))
convert_rows-flat (suc fuel) x end is_32bit (row ∷ rows) done h (w, wide) e f =
    let o = length done * 4 in
    let more : ltb o end ≡ true = less o end (omega (arith, e, suc-mul (length rows) (4 * x))) in
    let off : o + 4 * x ≡ length (done ++ row) * 4 = omega (arith, w, length-append done row) in
    let one = wide_row x is_32bit row done (pixels rows) (rooms (length rows) x) w in
    rw (more, src_sum o (4 * x), off, one, sym (append_assoc done row (pixels rows)))
      (convert_rows-flat fuel x end is_32bit rows (done ++ row) h wide
        (omega (arith, e, suc-mul (length rows) (4 * x), off)) (omega (arith, f, off)))

-- A bitmap of 32 bits or with alpha, stored from the top down, whose rows of at least one pixel
-- have no bytes behind them, is converted to the same pixels in the same order, with blue and red
-- exchanged, and opaque, or with its blue as alpha.
pub convert_spice_bitmap_to_web-rows :
    (fuel format x : ℕ) (rows : List (List Pixel))
    → is_converted format ≡ true
    → 1 ≤ x
    → AllWide x rows
    → length rows * (4 * x) ≤ fuel
    → let b : SpiceBitmap = record {
      format = format;
      flags = 4;
      x = x;
      y = length rows;
      stride = 4 * x;
      body = flat (pixels rows);
    } in
      convert_spice_bitmap_to_web fuel b
      ≡ some (some (flat (shown_all (format == spice_bitmap_fmt_32bit) (pixels rows))))
unfolding convert_spice_bitmap_to_web
convert_spice_bitmap_to_web-rows fuel format x rows is h wide f =
    let done =
      convert_rows-flat fuel x (length rows * (4 * x)) (format == spice_bitmap_fmt_32bit) rows [] h
        wide (omega arith) (omega (arith, f)) in
    rw (is, blank x (length rows), done) refl
