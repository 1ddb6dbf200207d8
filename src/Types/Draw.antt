-- ===== src/Types/Draw.antt =====
-- spicetype.js: masks, patterns, brushes, what a fill and a copy draw, and cursors.
use Prim.Native.Nat.{bit_and}
use vm_automation_deployment.Common.{ℕ, not, Option, ◌==◌}
use vm_automation_deployment.Common.Int.{ℤ}
use vm_automation_deployment.Constants.{
  spice_brush_type_solid, spice_brush_type_pattern, spice_cursor_flags_none,
}
use vm_automation_deployment.Wire.{Bytes}
use vm_automation_deployment.Types.{SpicePoint, SpiceRect, read_point, read_rect, equals, optional}
use vm_automation_deployment.Types.Place.{
  N, ret, ◌>>=◌, read8, read16, read32, read64, slice_on, from, is_null,
}
use vm_automation_deployment.Types.Image.{SpiceImage, read_image, referred}

pub record SpiceQMask : Type 0 where
  pub flags : Option ℕ
  pub pos : SpicePoint
  pub bitmap : Option SpiceImage

-- `at` is then behind the image.
abbrev pub mask_bitmap : ℤ → N (Option SpiceImage)
mask_bitmap offset = optional (not (is_null offset)) (from offset read_image)

unfoldable pub read_mask : N SpiceQMask
read_mask = do
  flags ← read8
  pos ← read_point
  offset ← read32
  bitmap ← mask_bitmap offset
  ret (record { flags = flags; pos = pos; bitmap = bitmap })

pub record SpicePattern : Type 0 where
  pub pat : Option SpiceImage
  pub pos : SpicePoint

unfoldable pub read_pattern : N SpicePattern
read_pattern = do pat ← referred read_image; pos ← read_point; ret (record { pat = pat; pos = pos })

pub record SpiceBrush : Type 0 where
  pub type : Option ℕ
  pub color : Option ℤ
  pub pattern_of : Option SpicePattern

unfoldable pub read_brush : N SpiceBrush
read_brush = do
  type ← read8
  color ← optional (equals type spice_brush_type_solid) read32
  found ← optional (equals type spice_brush_type_pattern) read_pattern
  ret (record { type = type; color = color; pattern_of = found })

pub record SpiceFill : Type 0 where
  pub brush : SpiceBrush
  pub rop_descriptor : ℕ
  pub mask : SpiceQMask

unfoldable pub read_fill : N SpiceFill
read_fill = do
  brush ← read_brush
  rop_descriptor ← read16
  mask ← read_mask
  ret (record { brush = brush; rop_descriptor = rop_descriptor; mask = mask })

pub record SpiceCopy : Type 0 where
  pub src_bitmap : Option SpiceImage
  pub src_area : SpiceRect
  pub rop_descriptor : ℕ
  pub scale_mode : Option ℕ
  pub mask : SpiceQMask

unfoldable pub read_copy : N SpiceCopy
read_copy = do
  src_bitmap ← referred read_image
  src_area ← read_rect
  rop_descriptor ← read16
  scale_mode ← read8
  mask ← read_mask
  ret (record {
    src_bitmap = src_bitmap;
    src_area = src_area;
    rop_descriptor = rop_descriptor;
    scale_mode = scale_mode;
    mask = mask;
  })

pub record SpiceCursorHeader : Type 0 where
  pub unique : ℤ
  pub type : Option ℕ
  pub width : ℕ
  pub height : ℕ
  pub hot_spot_x : ℕ
  pub hot_spot_y : ℕ

unfoldable pub read_cursor_header : N SpiceCursorHeader
read_cursor_header = do
  unique ← read64
  type ← read8
  width ← read16
  height ← read16
  hot_spot_x ← read16
  hot_spot_y ← read16
  ret (record {
    unique = unique;
    type = type;
    width = width;
    height = height;
    hot_spot_x = hot_spot_x;
    hot_spot_y = hot_spot_y;
  })

-- A cursor without the flag NONE has a header and its pixels.
pub record SpiceCursor : Type 0 where
  pub flags : ℕ
  pub header : Option (SpiceCursorHeader × Bytes)

abbrev pub read_cursor_body : N (SpiceCursorHeader × Bytes)
read_cursor_body = do header ← read_cursor_header; body ← slice_on; ret (header, body)

unfoldable pub read_cursor : N SpiceCursor
read_cursor = do
  flags ← read16
  header ← optional (bit_and flags spice_cursor_flags_none == 0) read_cursor_body
  ret (record { flags = flags; header = header })
