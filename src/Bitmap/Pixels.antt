-- ===== src/Bitmap/Pixels.antt =====
-- bitmap.js: a bitmap that is stored from the top down, as a list of pixels: its rows.
use vm_automation_deployment.Common.{
  ℕ, zero, suc, ◌+◌, ◌*◌, ◌≤◌, ◌<◌, ◌≡◌, refl, sym, ap, ◌∙◌, Bool, List, [], ◌∷◌, ◌++◌, length,
  length-append, append-nil, append_assoc, if◌then◌else◌, arith, get_or,
}
use vm_automation_deployment.Common.Int.{pos, ◌+ℤ◌}
use vm_automation_deployment.Wire.{Bytes}
use vm_automation_deployment.Lz.Pixels.{Pixel, flat, nth, room, set_pixel-flat, get_or-flat}
use vm_automation_deployment.Bitmap.{convert_pixel, convert_row}

-- A pixel of the bitmap, whose first byte is blue, on the canvas.
abbrev pub shown : Bool → Pixel → Pixel
shown is_32bit q = record {
  red = q.blue;
  green = q.green;
  blue = q.red;
  alpha = if is_32bit then 255 else q.red;
}

abbrev pub shown_all : Bool → List Pixel → List Pixel
shown_all is_32bit [] = []
shown_all is_32bit (q ∷ qs) = shown is_32bit q ∷ shown_all is_32bit qs

-- The next `n` pixels, behind the ones that are done.
abbrev pub paint : Bool → List Pixel → ℕ → List Pixel → List Pixel
paint is_32bit qs zero ps = ps
paint is_32bit qs (suc n) ps =
    paint is_32bit qs n (ps ++ (shown is_32bit (nth qs (length ps)) ∷ []))

pos_sum : (a b : ℕ) → pos a +ℤ pos b ≡ pos (a + b)
unfolding ◌+ℤ◌
pos_sum a b = ground arith

length-snoc : (ps : List Pixel) (p : Pixel) → length (ps ++ (p ∷ [])) ≡ suc (length ps)
length-snoc ps p = omega (arith, length-append ps (p ∷ []))

bytes_of :
    (qs : List Pixel) (p : ℕ)
    → p < length qs
    → (get_or (flat qs) (p * 4 + 0) 0 ≡ (nth qs p).red)
      × (get_or (flat qs) (p * 4 + 1) 0 ≡ (nth qs p).green)
      × (get_or (flat qs) (p * 4 + 2) 0 ≡ (nth qs p).blue)
bytes_of qs p h =
    let (red, green, blue, alpha) = get_or-flat qs p 0 [] h in
    let e = sym (append-nil (flat qs)) in (rw e red, rw e green, rw e blue)

convert_pixel-flat :
    (is_32bit : Bool) (qs ps : List Pixel) (x0 x1 x2 x3 : ℕ) (r : Bytes)
    → length ps < length qs
    → convert_pixel is_32bit
        (flat qs)
        (length ps * 4)
        (pos (length ps * 4))
        (flat ps ++ (x0 ∷ x1 ∷ x2 ∷ x3 ∷ r))
      ≡ flat (ps ++ (shown is_32bit (nth qs (length ps)) ∷ [])) ++ r
unfolding convert_pixel
convert_pixel-flat is_32bit qs ps x0 x1 x2 x3 r h =
    let o = length ps * 4 in
    let (red, green, blue) = bytes_of qs (length ps) h in
    let at : o + 0 ≡ o = omega arith in
    let red' : get_or (flat qs) o 0 ≡ (nth qs (length ps)).red =
      ap (λ k. get_or (flat qs) k 0) (sym at) ∙ red in
    rw (pos_sum o 2, pos_sum o 1, pos_sum o 0, red, green, blue, red')
      (set_pixel-flat ps (shown is_32bit (nth qs (length ps))) x0 x1 x2 x3 r)

pub convert_row-flat :
    (n : ℕ) (is_32bit : Bool) (qs ps : List Pixel) (r : Bytes)
    → length ps + n ≤ length qs
    → convert_row is_32bit (flat qs) n (length ps * 4) (pos (length ps * 4)) (flat ps ++ room n r)
      ≡ flat (paint is_32bit qs n ps) ++ r
unfolding convert_row
convert_row-flat zero is_32bit qs ps r h = refl
convert_row-flat (suc n) is_32bit qs ps r h =
    let q = shown is_32bit (nth qs (length ps)) in
    let next : length ps * 4 + 4 ≡ length (ps ++ (q ∷ [])) * 4 = omega (arith, length-snoc ps q) in
    rw
      (
        pos_sum (length ps * 4) 4,
        convert_pixel-flat is_32bit qs ps 0 0 0 0 (room n r) (omega arith),
        next,
      )
      (convert_row-flat n is_32bit qs (ps ++ (q ∷ [])) r (omega (arith, length-snoc ps q)))

pub length-shown_all :
    (is_32bit : Bool) (qs : List Pixel) → length (shown_all is_32bit qs) ≡ length qs
length-shown_all is_32bit [] = refl
length-shown_all is_32bit (q ∷ qs) = ap suc (length-shown_all is_32bit qs)

shown_all-snoc :
    (is_32bit : Bool) (qs : List Pixel) (q : Pixel)
    → shown_all is_32bit qs ++ (shown is_32bit q ∷ []) ≡ shown_all is_32bit (qs ++ (q ∷ []))
shown_all-snoc is_32bit [] q = refl
shown_all-snoc is_32bit (p ∷ qs) q = ap (λ t. shown is_32bit p ∷ t) (shown_all-snoc is_32bit qs q)

nth-behind : (done rest : List Pixel) (q : Pixel) → nth (done ++ (q ∷ rest)) (length done) ≡ q
nth-behind [] rest q = refl
nth-behind (p ∷ done) rest q = nth-behind done rest q

pub paint-shown :
    (is_32bit : Bool) (now done rest : List Pixel)
    → paint is_32bit (done ++ (now ++ rest)) (length now) (shown_all is_32bit done)
      ≡ shown_all is_32bit (done ++ now)
paint-shown is_32bit [] done rest = ap (shown_all is_32bit) (sym (append-nil done))
paint-shown is_32bit (q ∷ now) done rest =
    let qs = done ++ (q ∷ (now ++ rest)) in
    let pixel : nth qs (length (shown_all is_32bit done)) ≡ q =
      ap (nth qs) (length-shown_all is_32bit done) ∙ nth-behind done (now ++ rest) q in
    ap (λ t. paint is_32bit qs (length now) (shown_all is_32bit done ++ (shown is_32bit t ∷ [])))
      pixel
    ∙ ap (paint is_32bit qs (length now)) (shown_all-snoc is_32bit done q)
    ∙ ap (λ t. paint is_32bit t (length now) (shown_all is_32bit (done ++ (q ∷ []))))
        (sym (append_assoc done (q ∷ []) (now ++ rest)))
    ∙ paint-shown is_32bit now (done ++ (q ∷ [])) rest
    ∙ ap (shown_all is_32bit) (append_assoc done (q ∷ []) now)
