-- ===== src/Types.antt =====
-- portal/static/spice-html5/spicetype.js: the parts of the messages of the display and the cursor,
-- as records with their from_dv as steps of `Types.Place`: here those of fixed size and clips,
-- in Types/Image the images, and in Types/Draw what is drawn with them.
pub mod Place
pub mod Image
pub mod Draw
pub mod Laws
pub mod Layout
pub mod Pictures
use vm_automation_deployment.Common.{
  ℕ, zero, suc, ◌+◌, Bool, true, false, not, ◌&&◌, List, [], ◌∷◌, Option, none, some, ltb, ◌==◌,
  if◌then◌else◌,
}
use vm_automation_deployment.Common.Int.{ℤ, pos, negsuc, pos_part, ltb_ℤ, ◌-ℤ◌}
use vm_automation_deployment.Constants.{spice_clip_type_rects}
use vm_automation_deployment.Types.Place.{N, ret, ◌>>=◌, ◌>>◌, read8, read16, read32, read64}

pub record SpicePoint : Type 0 where
  pub x : ℤ
  pub y : ℤ

unfoldable pub read_point : N SpicePoint
read_point = do x ← read32; y ← read32; ret (record { x = x; y = y })

pub record SpicePoint16 : Type 0 where
  pub x : ℕ
  pub y : ℕ

unfoldable pub read_point16 : N SpicePoint16
read_point16 = do x ← read16; y ← read16; ret (record { x = x; y = y })

pub record SpiceRect : Type 0 where
  pub top : ℤ
  pub left : ℤ
  pub bottom : ℤ
  pub right : ℤ

unfoldable pub read_rect : N SpiceRect
read_rect = do
  top ← read32
  left ← read32
  bottom ← read32
  right ← read32
  ret (record { top = top; left = left; bottom = bottom; right = right })

abbrev pub same : ℤ → ℤ → Bool
same a b = not (ltb_ℤ a b) && not (ltb_ℤ b a)

unfoldable pub is_same_size : SpiceRect → SpiceRect → Bool
is_same_size this r =
    same (this.bottom -ℤ this.top) (r.bottom -ℤ r.top)
    && same (this.right -ℤ this.left) (r.right -ℤ r.left)

-- `rects` is undefined if the number is not positive.
pub record SpiceClipRects : Type 0 where
  pub num_rects : ℤ
  pub rects : Option (List SpiceRect)

unfoldable pub read_rects : ℕ → N (List SpiceRect)
read_rects zero = ret []
read_rects (suc n) = do rect ← read_rect; rects ← read_rects n; ret (rect ∷ rects)

abbrev pub if_positive : ℤ → List SpiceRect → Option (List SpiceRect)
if_positive n rects = if ltb_ℤ (pos 0) n then some rects else none

unfoldable pub read_clip_rects : N SpiceClipRects
read_clip_rects = do
  num_rects ← read32
  rects ← read_rects (pos_part num_rects)
  ret (record { num_rects = num_rects; rects = if_positive num_rects rects })

pub record SpiceClip : Type 0 where
  pub type : Option ℕ
  pub rects : Option SpiceClipRects

-- Whether a byte, which may be undefined, is a number.
abbrev pub equals : Option ℕ → ℕ → Bool
equals none n = false
equals (some x) n = x == n

-- A part that is read under a condition.
abbrev pub optional : {A : Type 0} → Bool → N A → N (Option A)
optional true m = do a ← m; ret (some a)
optional false m = ret none

unfoldable pub read_clip : N SpiceClip
read_clip = do
  type ← read8
  rects ← optional (equals type spice_clip_type_rects) read_clip_rects
  ret (record { type = type; rects = rects })

pub record SpiceSurface : Type 0 where
  pub surface_id : ℤ
  pub width : ℤ
  pub height : ℤ
  pub format : ℤ
  pub flags : ℤ

unfoldable pub read_surface : N SpiceSurface
read_surface = do
  surface_id ← read32
  width ← read32
  height ← read32
  format ← read32
  flags ← read32
  ret (record {
    surface_id = surface_id;
    width = width;
    height = height;
    format = format;
    flags = flags;
  })
