-- ===== src/Types/Image.antt =====
-- spicetype.js: SpiceImage and what it is made of. The bytes of a QUIC image are kept as they come:
-- its decoder is not modelled.
use Prim.Native.Nat.{bit_and}
use vm_automation_deployment.Common.{
  ℕ, zero, suc, Bool, true, false, not, List, [], ◌∷◌, Option, none, some, length, ◌==◌,
}
use vm_automation_deployment.Common.Int.{ℤ, pos, ◌+ℤ◌, ◌-ℤ◌}
use vm_automation_deployment.Constants.{
  spice_image_type_lz_rgb, spice_image_type_bitmap, spice_image_type_surface, spice_image_type_jpeg,
  spice_image_type_jpeg_alpha, spice_image_type_quic, spice_bitmap_flags_pal_from_cache,
}
use vm_automation_deployment.Wire.{Bytes}
use vm_automation_deployment.DataView.{bits}
use vm_automation_deployment.Types.{equals, optional}
use vm_automation_deployment.Types.Place.{
  N, ret, ◌>>=◌, read8, read16, read32, read32_big, read64, slice_on, slice_until, aside, is_null,
}

pub record SpiceImageDescriptor : Type 0 where
  pub id : ℤ
  pub type : Option ℕ
  pub flags : Option ℕ
  pub width : ℤ
  pub height : ℤ

unfoldable pub read_descriptor : N SpiceImageDescriptor
read_descriptor = do
  id ← read64
  type ← read8
  flags ← read8
  width ← read32
  height ← read32
  ret (record { id = id; type = type; flags = flags; width = width; height = height })

pub record SpicePalette : Type 0 where
  pub unique : ℤ
  pub num_ents : ℕ
  pub ents : List ℤ

unfoldable pub read_ents : ℕ → N (List ℤ)
read_ents zero = ret []
read_ents (suc n) = do ent ← read32; ents ← read_ents n; ret (ent ∷ ents)

unfoldable pub read_palette : N SpicePalette
read_palette = do
  unique ← read64
  num_ents ← read16
  ents ← read_ents num_ents
  ret (record { unique = unique; num_ents = num_ents; ents = ents })

-- `palette_id` is undefined but for a palette in the cache; else `palette` may be null.
pub record SpiceBitmap : Type 0 where
  pub format : Option ℕ
  pub flags : Option ℕ
  pub x : ℤ
  pub y : ℤ
  pub stride : ℤ
  pub palette_id : Option ℤ
  pub palette : Option SpicePalette
  pub body : Bytes

-- What an offset refers to, null for 0.
abbrev pub referred : {A : Type 0} → N A → N (Option A)
referred m = do offset ← read32; optional (not (is_null offset)) (aside offset m)

abbrev pub has_flag : Option ℕ → ℕ → Bool
has_flag flags flag = not (bit_and (bits flags) flag == 0)

abbrev pub bitmap_palette : Bool → N (Option ℤ × Option SpicePalette)
bitmap_palette true = do id ← read64; ret (some id, none)
bitmap_palette false = do palette ← referred read_palette; ret (none, palette)

unfoldable pub read_bitmap : N SpiceBitmap
read_bitmap = do
  format ← read8
  flags ← read8
  x ← read32
  y ← read32
  stride ← read32
  found ← bitmap_palette (has_flag flags spice_bitmap_flags_pal_from_cache)
  body ← slice_on
  ret (record {
    format = format;
    flags = flags;
    x = x;
    y = y;
    stride = stride;
    palette_id = found.0;
    palette = found.1;
    body = body;
  })

-- An LZ image with its header; `magic` has the codes of its characters.
pub record SpiceLz : Type 0 where
  pub length : ℤ
  pub magic : List ℕ
  pub version : ℤ
  pub type : ℤ
  pub width : ℤ
  pub height : ℤ
  pub stride : ℤ
  pub top_down : ℤ
  pub body : Bytes

-- The four characters from last to first; an undefined code is that of the character 0.
abbrev pub read_magic : N (List ℕ)
read_magic = do
  a ← read8
  b ← read8
  c ← read8
  d ← read8
  ret (bits d ∷ bits c ∷ bits b ∷ bits a ∷ [])

-- The header has 28 bytes: `header_size` is the way of `at` across the magic and the six numbers.
abbrev pub lz_end : ℤ → ℤ → ℤ
lz_end length at = length +ℤ at -ℤ pos 28

unfoldable pub read_lz : ℤ → N SpiceLz
read_lz length = do
  magic ← read_magic
  version ← read32_big
  type ← read32_big
  width ← read32_big
  height ← read32_big
  stride ← read32_big
  top_down ← read32_big
  body ← slice_until (lz_end length)
  ret (record {
    length = length;
    magic = magic;
    version = version;
    type = type;
    width = width;
    height = height;
    stride = stride;
    top_down = top_down;
    body = body;
  })

unfoldable pub read_lz_rgb : N SpiceLz
read_lz_rgb = do length ← read32; read_lz length

-- An image of some bytes: JPEG, or QUIC.
pub record Encoded : Type 0 where
  pub data_size : ℤ
  pub body : Bytes

unfoldable pub read_encoded : N Encoded
read_encoded = do
  data_size ← read32
  body ← slice_on
  ret (record { data_size = data_size; body = body })

pub record JpegAlpha : Type 0 where
  pub flags : Option ℕ
  pub jpeg_size : ℤ
  pub data_size : ℤ
  pub body : Bytes
  pub alpha : SpiceLz

unfoldable pub read_jpeg_alpha : N JpegAlpha
read_jpeg_alpha = do
  flags ← read8
  jpeg_size ← read32
  data_size ← read32
  body ← slice_until (λ at. jpeg_size +ℤ at)
  alpha ← read_lz (data_size -ℤ jpeg_size)
  ret (record {
    flags = flags;
    jpeg_size = jpeg_size;
    data_size = data_size;
    body = body;
    alpha = alpha;
  })

pub record SpiceImage : Type 0 where
  pub descriptor : SpiceImageDescriptor
  pub lz_rgb : Option SpiceLz
  pub bitmap : Option SpiceBitmap
  pub surface_id : Option ℤ
  pub jpeg : Option Encoded
  pub jpeg_alpha : Option JpegAlpha
  pub quic : Option Encoded

unfoldable pub read_image : N SpiceImage
read_image = do
  descriptor ← read_descriptor
  lz_rgb ← optional (equals descriptor.type spice_image_type_lz_rgb) read_lz_rgb
  bitmap ← optional (equals descriptor.type spice_image_type_bitmap) read_bitmap
  surface_id ← optional (equals descriptor.type spice_image_type_surface) read32
  jpeg ← optional (equals descriptor.type spice_image_type_jpeg) read_encoded
  jpeg_alpha ← optional (equals descriptor.type spice_image_type_jpeg_alpha) read_jpeg_alpha
  quic ← optional (equals descriptor.type spice_image_type_quic) read_encoded
  ret (record {
    descriptor = descriptor;
    lz_rgb = lz_rgb;
    bitmap = bitmap;
    surface_id = surface_id;
    jpeg = jpeg;
    jpeg_alpha = jpeg_alpha;
    quic = quic;
  })
