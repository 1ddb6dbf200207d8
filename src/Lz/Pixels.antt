-- ===== src/Lz/Pixels.antt =====
-- lz.js: the image as a list of pixels, four bytes each.
use vm_automation_deployment.Common.{
  ℕ, zero, suc, ◌+◌, ◌*◌, ◌<◌, ◌≡◌, refl, sym, ap, ◌∙◌, false, List, [], ◌∷◌, ◌++◌, some, length,
  set, get_or, append_assoc, arith,
}
use vm_automation_deployment.Wire.{Bytes}
use vm_automation_deployment.Lz.{copy_pixel}

pub record Pixel : Type 0 where
  pub red : ℕ
  pub green : ℕ
  pub blue : ℕ
  pub alpha : ℕ

abbrev pub black : Pixel
black = record { red = 0; green = 0; blue = 0; alpha = 0 }

abbrev pub flat : List Pixel → Bytes
flat [] = []
flat (p ∷ ps) = p.red ∷ p.green ∷ p.blue ∷ p.alpha ∷ flat ps

abbrev pub nth : List Pixel → ℕ → Pixel
nth [] i = black
nth (p ∷ ps) zero = p
nth (p ∷ ps) (suc i) = nth ps i

-- The room for `n` pixels in a new image, in front of `r`.
abbrev pub room : ℕ → Bytes → Bytes
room zero r = r
room (suc n) r = 0 ∷ 0 ∷ 0 ∷ 0 ∷ room n r

pub length-flat : (ps : List Pixel) → length (flat ps) ≡ length ps * 4
length-flat [] = refl
length-flat (p ∷ ps) = omega (arith, length-flat ps)

pub flat-append : (ps qs : List Pixel) → flat (ps ++ qs) ≡ flat ps ++ flat qs
flat-append [] qs = refl
flat-append (p ∷ ps) qs = ap (λ t. p.red ∷ p.green ∷ p.blue ∷ p.alpha ∷ t) (flat-append ps qs)

set-behind : (xs ys : Bytes) (i k v : ℕ) → length xs + i ≡ k → set (xs ++ ys) k v ≡ xs ++ set ys i v
set-behind [] ys i k v h = ap (λ j. set ys j v) (omega arith)
set-behind (x ∷ xs) ys i zero v h = absurd (omega arith)
set-behind (x ∷ xs) ys i (suc k) v h = ap (λ t. x ∷ t) (set-behind xs ys i k v (omega arith))

-- The four channels of a pixel in front of the room.
pub get_or-flat :
    (ps : List Pixel) (p k : ℕ) (ys : Bytes)
    → p < length ps
    → (get_or (flat ps ++ ys) (p * 4 + 0) 0 ≡ (nth ps p).red)
      × (get_or (flat ps ++ ys) (p * 4 + 1) 0 ≡ (nth ps p).green)
      × (get_or (flat ps ++ ys) (p * 4 + 2) 0 ≡ (nth ps p).blue)
      × (get_or (flat ps ++ ys) (p * 4 + 3) 0 ≡ (nth ps p).alpha)
get_or-flat [] p k ys h = elim h [ ]
get_or-flat (q ∷ ps) zero k ys h = (refl, refl, refl, refl)
get_or-flat (q ∷ ps) (suc p) k ys h =
    let (r, g, b, a) = get_or-flat ps p k ys (omega arith) in
    let next : (i : ℕ) → suc p * 4 + i ≡ suc (suc (suc (suc (p * 4 + i)))) = λ i. omega arith in
    (rw (next 0) r, rw (next 1) g, rw (next 2) b, rw (next 3) a)

-- A pixel in front of the room, put behind the others.
put_behind :
    (ps : List Pixel) (p : Pixel) (r : Bytes)
    → flat ps ++ (p.red ∷ p.green ∷ p.blue ∷ p.alpha ∷ r) ≡ flat (ps ++ (p ∷ [])) ++ r
put_behind ps p r = sym (
    ap (λ t. t ++ r) (flat-append ps (p ∷ []))
    ∙ append_assoc (flat ps) (p.red ∷ p.green ∷ p.blue ∷ p.alpha ∷ []) r)

-- The four channels of a pixel written, one after the other.
pub set_pixel-flat :
    (ps : List Pixel) (q : Pixel) (x0 x1 x2 x3 : ℕ) (r : Bytes)
    → set
        (set
          (set
            (set (flat ps ++ (x0 ∷ x1 ∷ x2 ∷ x3 ∷ r)) (length ps * 4 + 0) q.red)
            (length ps * 4 + 1)
            q.green)
          (length ps * 4 + 2)
          q.blue)
        (length ps * 4 + 3)
        q.alpha
      ≡ flat (ps ++ (q ∷ [])) ++ r
set_pixel-flat ps q x0 x1 x2 x3 r =
    let at : (i : ℕ) → length (flat ps) + i ≡ length ps * 4 + i =
      λ i. omega (arith, length-flat ps) in
    rw
      (
        set-behind (flat ps) (x0 ∷ x1 ∷ x2 ∷ x3 ∷ r) 0 (length ps * 4 + 0) q.red (at 0),
        set-behind (flat ps) (q.red ∷ x1 ∷ x2 ∷ x3 ∷ r) 1 (length ps * 4 + 1) q.green (at 1),
        set-behind (flat ps) (q.red ∷ q.green ∷ x2 ∷ x3 ∷ r) 2 (length ps * 4 + 2) q.blue (at 2),
        set-behind (flat ps) (q.red ∷ q.green ∷ q.blue ∷ x3 ∷ r) 3 (length ps * 4 + 3) q.alpha
            (at 3),
      )
      (put_behind ps q r)

pub copy_pixel-flat :
    (ps : List Pixel) (p x0 x1 x2 x3 : ℕ) (r : Bytes)
    → p < length ps
    → copy_pixel false (length ps) (some p) (flat ps ++ (x0 ∷ x1 ∷ x2 ∷ x3 ∷ r))
      ≡ flat (ps ++ (nth ps p ∷ [])) ++ r
unfolding copy_pixel
copy_pixel-flat ps p x0 x1 x2 x3 r h =
    let at : (i : ℕ) → length (flat ps) + i ≡ length ps * 4 + i =
      λ i. omega (arith, length-flat ps) in
    let q = nth ps p in
    rw
      (
        (get_or-flat ps p 0 (x0 ∷ x1 ∷ x2 ∷ x3 ∷ r) h).0,
        set-behind (flat ps) (x0 ∷ x1 ∷ x2 ∷ x3 ∷ r) 0 (length ps * 4 + 0) q.red (at 0),
        (get_or-flat ps p 0 (q.red ∷ x1 ∷ x2 ∷ x3 ∷ r) h).1,
        set-behind (flat ps) (q.red ∷ x1 ∷ x2 ∷ x3 ∷ r) 1 (length ps * 4 + 1) q.green (at 1),
        (get_or-flat ps p 0 (q.red ∷ q.green ∷ x2 ∷ x3 ∷ r) h).2,
        set-behind (flat ps) (q.red ∷ q.green ∷ x2 ∷ x3 ∷ r) 2 (length ps * 4 + 2) q.blue (at 2),
        (get_or-flat ps p 0 (q.red ∷ q.green ∷ q.blue ∷ x3 ∷ r) h).3,
        set-behind (flat ps) (q.red ∷ q.green ∷ q.blue ∷ x3 ∷ r) 3 (length ps * 4 + 3) q.alpha
            (at 3),
      )
      (put_behind ps q r)
