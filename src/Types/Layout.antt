-- ===== src/Types/Layout.antt =====
-- What the parts of a message are on the wire, and what is read of them.
use vm_automation_deployment.Common.{
  ℕ, ◌<◌, ◌^◌, ◌≡◌, refl, true, List, [], ◌∷◌, ◌++◌, Option, none, some, length, map, arith,
  append_assoc, append-nil,
}
use vm_automation_deployment.Common.Int.{ℤ, pos}
use vm_automation_deployment.Wire.{Bytes}
use vm_automation_deployment.DataView.{to_int32, to_uint32}
use vm_automation_deployment.DataView.RoundTrip.{word}
use vm_automation_deployment.Types.{
  SpicePoint, if_positive, read_point, SpiceRect, read_rect, read_rects, SpiceClipRects,
  read_clip_rects, SpiceClip, read_clip,
}
use vm_automation_deployment.Types.Laws.{on, read8-on, read32-on}

abbrev pub signed : ℤ → ℤ
signed w = to_int32 (to_uint32 w)

unfoldable pub point_bytes : SpicePoint → Bytes
point_bytes p = word p.x true ++ word p.y true

abbrev pub signed_point : SpicePoint → SpicePoint
signed_point p = record { x = signed p.x; y = signed p.y }

pub read_point-on :
    (d r : Bytes) (p : SpicePoint)
    → read_point (on d (point_bytes p ++ r)) ≡ (signed_point p, on (d ++ point_bytes p) r)
unfolding read_point point_bytes
read_point-on d r p = simp (read32-on, append_assoc)

unfoldable pub rect_bytes : SpiceRect → Bytes
rect_bytes t = word t.top true ++ (word t.left true ++ (word t.bottom true ++ word t.right true))

abbrev pub signed_rect : SpiceRect → SpiceRect
signed_rect t = record {
  top = signed t.top;
  left = signed t.left;
  bottom = signed t.bottom;
  right = signed t.right;
}

pub read_rect-on :
    (d r : Bytes) (t : SpiceRect)
    → read_rect (on d (rect_bytes t ++ r)) ≡ (signed_rect t, on (d ++ rect_bytes t) r)
unfolding read_rect rect_bytes
read_rect-on d r t = simp (read32-on, append_assoc)

unfoldable pub rects_bytes : List SpiceRect → Bytes
rects_bytes [] = []
rects_bytes (t ∷ ts) = rect_bytes t ++ rects_bytes ts

pub read_rects-on :
    (ts : List SpiceRect) (d r : Bytes)
    → read_rects (length ts) (on d (rects_bytes ts ++ r))
      ≡ (map signed_rect ts, on (d ++ rects_bytes ts) r)
unfolding read_rects rects_bytes
read_rects-on [] d r = rw (append-nil d)
read_rects-on (t ∷ ts) d r =
    rw
      (
        append_assoc (rect_bytes t) (rects_bytes ts) r,
        read_rect-on d (rects_bytes ts ++ r) t,
        read_rects-on ts (d ++ rect_bytes t) r,
        append_assoc d (rect_bytes t) (rects_bytes ts),
      )
      refl

-- The rectangles of a clip, if it has some.
unfoldable pub clip_bytes : Option (List SpiceRect) → Bytes
clip_bytes none = 0 ∷ []
clip_bytes (some ts) = 1 ∷ (word (pos (length ts)) true ++ rects_bytes ts)

abbrev pub received_rects : List SpiceRect → SpiceClipRects
received_rects ts = record {
  num_rects = pos (length ts);
  rects = if_positive (pos (length ts)) (map signed_rect ts);
}

abbrev pub received_clip : Option (List SpiceRect) → SpiceClip
received_clip none = record { type = some 0; rects = none }
received_clip (some ts) = record { type = some 1; rects = some (received_rects ts) }

-- A clip has fewer than 2 ^ 31 rectangles.
abbrev pub IsShort : Option (List SpiceRect) → Type 0
IsShort none = Unit
IsShort (some ts) = length ts < 2 ^ 31

pub small : (n : ℕ) → n < 2 ^ 31 → signed (pos n) ≡ pos n
small n h = ground arith

read_clip_rects-on :
    (d r : Bytes) (ts : List SpiceRect)
    → length ts < 2 ^ 31
    → read_clip_rects (on d (word (pos (length ts)) true ++ (rects_bytes ts ++ r)))
      ≡ (received_rects ts, on (d ++ (word (pos (length ts)) true ++ rects_bytes ts)) r)
unfolding read_clip_rects
read_clip_rects-on d r ts h =
    rw
      (
        read32-on d (rects_bytes ts ++ r) (pos (length ts)),
        small (length ts) h,
        read_rects-on ts (d ++ word (pos (length ts)) true) r,
        append_assoc d (word (pos (length ts)) true) (rects_bytes ts),
      )
      refl

pub read_clip-on :
    (d r : Bytes) (c : Option (List SpiceRect))
    → IsShort c
    → read_clip (on d (clip_bytes c ++ r)) ≡ (received_clip c, on (d ++ clip_bytes c) r)
unfolding read_clip clip_bytes
read_clip-on d r none h = rw (read8-on d r 0) refl
read_clip-on d r (some ts) h =
    rw
      (
        append_assoc (word (pos (length ts)) true) (rects_bytes ts) r,
        read8-on d (word (pos (length ts)) true ++ (rects_bytes ts ++ r)) 1,
        read_clip_rects-on (d ++ (1 ∷ [])) r ts h,
        append_assoc d (1 ∷ []) (word (pos (length ts)) true ++ rects_bytes ts),
      )
      refl
