-- ===== src/Types/Pictures.antt =====
-- LZ images on the wire, and what is read of them.
use vm_automation_deployment.Common.{
  ℕ, ◌+◌, ◌<◌, ◌^◌, ◌≡◌, refl, true, false, [], ◌∷◌, ◌++◌, none, some, length, arith, append_assoc,
  length-append,
}
use vm_automation_deployment.Common.Int.{ℤ, pos, ◌+ℤ◌, ◌-ℤ◌}
use vm_automation_deployment.Wire.{Bytes}
use vm_automation_deployment.DataView.RoundTrip.{word, length-word}
use vm_automation_deployment.Types.Image.{
  SpiceImageDescriptor, read_descriptor, SpiceLz, read_lz, read_lz_rgb, lz_end, SpiceImage,
  read_image,
}
use vm_automation_deployment.Types.Laws.{
  on, read8-on, read32-on, read32_big-on, read64-on, joined, slice_until-on,
}
use vm_automation_deployment.Types.Layout.{signed, small}

-- What the server sends of an LZ image, the id as its low and its high word.
pub record Picture : Type 0 where
  pub id_low : ℤ
  pub id_high : ℤ
  pub flags : ℕ
  pub width : ℤ
  pub height : ℤ
  pub version : ℤ
  pub lz_type : ℤ
  pub lz_width : ℤ
  pub lz_height : ℤ
  pub stride : ℤ
  pub top_down : ℤ
  pub body : Bytes

unfoldable pub descriptor_bytes : Picture → Bytes
descriptor_bytes p =
    (word p.id_low true ++ word p.id_high true)
    ++ (101 ∷ p.flags ∷ (word p.width true ++ word p.height true))

abbrev pub received_descriptor : Picture → SpiceImageDescriptor
received_descriptor p = record {
  id = joined p.id_low p.id_high;
  type = some 101;
  flags = some p.flags;
  width = signed p.width;
  height = signed p.height;
}

read_descriptor-on :
    (d r : Bytes) (p : Picture)
    → read_descriptor (on d (descriptor_bytes p ++ r))
      ≡ (received_descriptor p, on (d ++ descriptor_bytes p) r)
unfolding read_descriptor descriptor_bytes
read_descriptor-on d r p = simp (read64-on, read8-on, read32-on, append_assoc)

-- The magic is the four characters "  ZL".
unfoldable pub header_bytes : Picture → Bytes
header_bytes p =
    32
    ∷ 32
    ∷ 90
    ∷ 76
    ∷ (word p.version false
        ++ (word p.lz_type false
            ++ (word p.lz_width false
                ++ (word p.lz_height false ++ (word p.stride false ++ word p.top_down false)))))

unfoldable pub lz_bytes : Picture → Bytes
lz_bytes p = word (pos (28 + length p.body)) true ++ (header_bytes p ++ p.body)

abbrev pub received_lz : Picture → SpiceLz
received_lz p = record {
  length = pos (28 + length p.body);
  magic = 76 ∷ 90 ∷ 32 ∷ 32 ∷ [];
  version = signed p.version;
  type = signed p.lz_type;
  width = signed p.lz_width;
  height = signed p.lz_height;
  stride = signed p.stride;
  top_down = signed p.top_down;
  body = p.body;
}

length-header_bytes : (p : Picture) → length (header_bytes p) ≡ 28
unfolding header_bytes
length-header_bytes p = simp (length-append, length-word)

lz_end-body :
    (p : Picture) (n : ℕ) → lz_end (pos (28 + length p.body)) (pos n) ≡ pos (n + length p.body)
unfolding ◌+ℤ◌ ◌-ℤ◌
lz_end-body p n = ground arith

read_lz-on :
    (d r : Bytes) (p : Picture)
    → read_lz (pos (28 + length p.body)) (on d (header_bytes p ++ (p.body ++ r)))
      ≡ (received_lz p, on (d ++ (header_bytes p ++ p.body)) r)
unfolding read_lz header_bytes
read_lz-on d r p =
    let end = lz_end-body p (length (d ++ header_bytes p)) in
    let sliced =
      slice_until-on (d ++ header_bytes p) p.body r (lz_end (pos (28 + length p.body))) end in
    simp (read8-on, read32_big-on, append_assoc) (rw sliced (simp append_assoc))

read_lz_rgb-on :
    (d r : Bytes) (p : Picture)
    → 28 + length p.body < 2 ^ 31
    → read_lz_rgb (on d (lz_bytes p ++ r)) ≡ (received_lz p, on (d ++ lz_bytes p) r)
unfolding read_lz_rgb lz_bytes
read_lz_rgb-on d r p h =
    let size = word (pos (28 + length p.body)) true in
    rw
      (
        append_assoc size (header_bytes p ++ p.body) r,
        append_assoc (header_bytes p) p.body r,
        read32-on d (header_bytes p ++ (p.body ++ r)) (pos (28 + length p.body)),
        small (28 + length p.body) h,
        read_lz-on (d ++ size) r p,
        append_assoc d size (header_bytes p ++ p.body),
      )
      refl

unfoldable pub picture_bytes : Picture → Bytes
picture_bytes p = descriptor_bytes p ++ lz_bytes p

abbrev pub received_image : Picture → SpiceImage
received_image p = record {
  descriptor = received_descriptor p;
  lz_rgb = some (received_lz p);
  bitmap = none;
  surface_id = none;
  jpeg = none;
  jpeg_alpha = none;
  quic = none;
}

pub read_image-on :
    (d r : Bytes) (p : Picture)
    → 28 + length p.body < 2 ^ 31
    → read_image (on d (picture_bytes p ++ r)) ≡ (received_image p, on (d ++ picture_bytes p) r)
unfolding read_image picture_bytes
read_image-on d r p h =
    rw
      (
        append_assoc (descriptor_bytes p) (lz_bytes p) r,
        read_descriptor-on d (lz_bytes p ++ r) p,
        read_lz_rgb-on (d ++ descriptor_bytes p) r p h,
        append_assoc d (descriptor_bytes p) (lz_bytes p),
      )
      refl
