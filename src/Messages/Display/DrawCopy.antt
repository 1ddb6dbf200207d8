-- ===== src/Messages/Display/DrawCopy.antt =====
-- A draw copy of an LZ image on the wire, and what is read of it.
use vm_automation_deployment.Common.{
  ℕ, ◌+◌, ◌≤◌, ◌<◌, ◌%◌, ◌^◌, ◌≡◌, refl, sym, ap, ◌∙◌, true, false, List, [], ◌∷◌, ◌++◌, Option,
  none, some, length, arith, append_assoc, length-append, ◌==◌,
}
use vm_automation_deployment.Common.Int.{ℤ, pos}
use vm_automation_deployment.Wire.{Bytes}
use vm_automation_deployment.DataView.RoundTrip.{word, half_word, length-word}
use vm_automation_deployment.Types.{SpicePoint, SpiceRect}
use vm_automation_deployment.Types.Place.{Place, aside}
use vm_automation_deployment.Types.Image.{SpiceImage, read_image, referred}
use vm_automation_deployment.Types.Draw.{SpiceQMask, read_mask, SpiceCopy, read_copy}
use vm_automation_deployment.Types.Laws.{on, read8-on, read16-on, read32-on}
use vm_automation_deployment.Types.Layout.{
  signed, small, point_bytes, signed_point, read_point-on, rect_bytes, signed_rect, read_rect-on,
  clip_bytes, received_clip, IsShort, read_clip-on,
}
use vm_automation_deployment.Types.Pictures.{Picture, picture_bytes, received_image, read_image-on}
use vm_automation_deployment.Messages.Display.{SpiceMsgDisplayBase, read_base, read_draw_copy}

-- What the server says of a copy, but for the image.
pub record Copying : Type 0 where
  pub surface_id : ℤ
  pub box : SpiceRect
  pub clip : Option (List SpiceRect)
  pub src_area : SpiceRect
  pub rop_descriptor : ℕ
  pub scale_mode : ℕ
  pub mask_flags : ℕ
  pub mask_pos : SpicePoint

unfoldable pub base_bytes : Copying → Bytes
base_bytes m = word m.surface_id true ++ (rect_bytes m.box ++ clip_bytes m.clip)

abbrev pub received_base : Copying → SpiceMsgDisplayBase
received_base m = record {
  surface_id = signed m.surface_id;
  box = signed_rect m.box;
  clip = received_clip m.clip;
}

read_base-on :
    (d r : Bytes) (m : Copying)
    → IsShort m.clip
    → read_base (on d (base_bytes m ++ r)) ≡ (received_base m, on (d ++ base_bytes m) r)
unfolding read_base base_bytes
read_base-on d r m h =
    let clip = λ (e : Bytes). read_clip-on e r m.clip h in
    simp (read32-on, read_rect-on, append_assoc, clip)

-- A mask without an image.
unfoldable pub mask_bytes : Copying → Bytes
mask_bytes m = m.mask_flags ∷ (point_bytes m.mask_pos ++ word (pos 0) true)

abbrev pub received_mask : Copying → SpiceQMask
received_mask m = record { flags = some m.mask_flags; pos = signed_point m.mask_pos; bitmap = none }

read_mask-on :
    (d r : Bytes) (m : Copying)
    → read_mask (on d (mask_bytes m ++ r)) ≡ (received_mask m, on (d ++ mask_bytes m) r)
unfolding read_mask mask_bytes
read_mask-on d r m = simp (read8-on, read_point-on, read32-on, append_assoc)

-- The copy, behind the offset of its image.
unfoldable pub area_bytes : Copying → Bytes
area_bytes m =
    rect_bytes m.src_area
    ++ (half_word (pos m.rop_descriptor) true ++ (m.scale_mode ∷ mask_bytes m))

abbrev pub received_copy : Copying → Picture → SpiceCopy
received_copy m p = record {
  src_bitmap = some (received_image p);
  src_area = signed_rect m.src_area;
  rop_descriptor = m.rop_descriptor % 2 ^ 32 % 2 ^ 16;
  scale_mode = some m.scale_mode;
  mask = received_mask m;
}

-- The place where the image begins.
at_image :
    (d a r : Bytes) (n : ℕ)
    → n ≡ length d + length a
    → (let c : Place = record { buf = d ++ (a ++ r); at = pos n } in c) ≡ on (d ++ a) r
unfolding on
at_image d a r n h =
    λ i. record { buf = sym (append_assoc d a r) i; at = pos ((h ∙ sym (length-append d a)) i) }

nonzero : (n : ℕ) → 1 ≤ n → (n == 0) ≡ false
nonzero n h = ground arith

aside_image :
    (d a tail : Bytes) (p : Picture) (n : ℕ)
    → n ≡ length d + length a
    → 28 + length p.body < 2 ^ 31
    → aside (pos n) read_image (on d (a ++ (picture_bytes p ++ tail)))
      ≡ (received_image p, on d (a ++ (picture_bytes p ++ tail)))
unfolding on
aside_image d a tail p n h small_p =
    let read =
      ap read_image (at_image d a (picture_bytes p ++ tail) n h)
      ∙ read_image-on (d ++ a) tail p small_p in
    ap (λ (t : SpiceImage × Place). (t.0, on d (a ++ (picture_bytes p ++ tail)))) read

referred_image :
    (d : Bytes) (m : Copying) (p : Picture) (tail : Bytes) (n : ℕ)
    → n ≡ length d + 4 + length (area_bytes m)
    → n < 2 ^ 31
    → 28 + length p.body < 2 ^ 31
    → let rest = area_bytes m ++ (picture_bytes p ++ tail) in
      referred read_image (on d (word (pos n) true ++ rest))
      ≡ (some (received_image p), on (d ++ word (pos n) true) rest)
referred_image d m p tail n e small_n small_p =
    let before = d ++ word (pos n) true in
    let apart : n ≡ length before + length (area_bytes m) =
      omega (arith, length-append d (word (pos n) true), length-word (pos n) true, e) in
    rw
      (
        read32-on d (area_bytes m ++ (picture_bytes p ++ tail)) (pos n),
        small n small_n,
        nonzero n (omega (arith, e)),
      )
      (ap (λ (t : SpiceImage × Place). (let u : Option SpiceImage × Place = (some t.0, t.1) in u))
        (aside_image before (area_bytes m) tail p n apart small_p))

read_copy-on :
    (d : Bytes) (m : Copying) (p : Picture) (tail : Bytes) (n : ℕ)
    → n ≡ length d + 4 + length (area_bytes m)
    → n < 2 ^ 31
    → 28 + length p.body < 2 ^ 31
    → read_copy (on d (word (pos n) true ++ (area_bytes m ++ (picture_bytes p ++ tail))))
      ≡ (received_copy m p, on (d ++ (word (pos n) true ++ area_bytes m)) (picture_bytes p ++ tail))
unfolding read_copy
read_copy-on d m p tail n e small_n small_p =
    rw (referred_image d m p tail n e small_n small_p)
      (unfold area_bytes in simp (read_rect-on, read16-on, read8-on, read_mask-on, append_assoc))

-- The whole message: the base, the copy and, at its offset, the image, with other bytes behind.
abbrev pub image_offset : Copying → ℕ
image_offset m = length (base_bytes m) + 4 + length (area_bytes m)

unfoldable pub draw_copy_bytes : Copying → Picture → Bytes → Bytes
draw_copy_bytes m p tail =
    base_bytes m
    ++ (word (pos (image_offset m)) true ++ (area_bytes m ++ (picture_bytes p ++ tail)))

-- A draw copy of an LZ image, clipped or not, whose image stands behind all the rest and is shorter
-- than 2 ^ 31 bytes, as is what stands in front of it, is read with its numbers as signed numbers,
-- its rectangles in order, and of the image the numbers of its header and just its bytes, whatever
-- bytes follow.
pub read_draw_copy-bytes :
    (m : Copying) (p : Picture) (tail : Bytes)
    → IsShort m.clip
    → image_offset m < 2 ^ 31
    → 28 + length p.body < 2 ^ 31
    → (read_draw_copy (record { buf = draw_copy_bytes m p tail; at = pos 0 })).0
      ≡ (record { base = received_base m; body = received_copy m p })
unfolding read_draw_copy draw_copy_bytes
read_draw_copy-bytes m p tail h small_m small_p =
    let copy = word (pos (image_offset m)) true ++ (area_bytes m ++ (picture_bytes p ++ tail)) in
    let begin : on [] (base_bytes m ++ copy) ≡ (record { buf = base_bytes m ++ copy; at = pos 0 }) =
      unfold on in refl in
    rw
      (
        sym begin,
        read_base-on [] copy m h,
        read_copy-on (base_bytes m) m p tail (image_offset m) refl small_m small_p,
      )
      refl
