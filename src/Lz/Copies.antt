-- ===== src/Lz/Copies.antt =====
-- lz.js: the loops that write pixels, on an image of some pixels done and room behind them.
use vm_automation_deployment.Common.{
  ℕ, zero, suc, ◌+◌, ◌-◌, ◌≤◌, ◌<◌, ◌≡◌, refl, sym, ap, ◌∙◌, true, false, List, [], ◌∷◌, ◌++◌, some,
  length, length-append, ◌==◌, Bool-cases, inl, inr, arith,
}
use vm_automation_deployment.Wire.{Bytes}
use vm_automation_deployment.Lz.{
  State, source, repeat_pixel, copy_pixels, literal, literals, copy_run,
}
use vm_automation_deployment.Lz.Pixels.{Pixel, flat, nth, room, copy_pixel-flat, set_pixel-flat}
use vm_automation_deployment.Lz.Tokens.{Colour, opaque, paint, extend, colour_bytes}

-- Some pixels done, and the rest of the image behind them.
abbrev pub state : Bytes → List Pixel → Bytes → State
state input ps r = record { input = input; op = length ps; out = flat ps ++ r }

pub length-snoc : (ps : List Pixel) (p : Pixel) → suc (length ps) ≡ length (ps ++ (p ∷ []))
length-snoc ps p = omega (arith, length-append ps (p ∷ []))

literal-state :
    (c : Colour) (rest : Bytes) (ps : List Pixel) (r : Bytes)
    → literal false true (state (c.blue ∷ c.green ∷ c.red ∷ rest) ps (room 1 r))
      ≡ state rest (ps ++ (opaque c ∷ [])) r
unfolding literal
literal-state c rest ps r = rw (sym (length-snoc ps (opaque c))) (
    ap (λ out. record { input = rest; op = suc (length ps); out = out })
      (set_pixel-flat ps (opaque c) 0 0 0 0 r))

pub literals-state :
    (cs : List Colour) (rest : Bytes) (ps : List Pixel) (r : Bytes)
    → literals false true (length cs) (state (colour_bytes cs rest) ps (room (length cs) r))
      ≡ state rest (paint ps cs) r
unfolding literals
literals-state [] rest ps r = refl
literals-state (c ∷ cs) rest ps r =
    ap (literals false true (length cs))
      (literal-state c (colour_bytes cs rest) ps (room (length cs) r))
    ∙ literals-state cs rest (ps ++ (opaque c ∷ [])) r

source_within : (op ofs : ℕ) → ofs ≤ op → source op (some ofs) ≡ some (op - ofs)
source_within op ofs h = ground arith

copy_pixels-flat :
    (k ofs : ℕ) (ps : List Pixel) (r : Bytes)
    → 1 ≤ ofs
    → ofs ≤ length ps
    → copy_pixels false k (length ps) (some ofs) (flat ps ++ room k r) ≡ flat (extend k ofs ps) ++ r
unfolding copy_pixels
copy_pixels-flat zero ofs ps r h h' = refl
copy_pixels-flat (suc k) ofs ps r h h' =
    let q = nth ps (length ps - ofs) in
    rw
      (
        source_within (length ps) ofs h',
        copy_pixel-flat ps (length ps - ofs) 0 0 0 0 (room k r) (omega arith),
        length-snoc ps q,
      )
      (copy_pixels-flat k ofs (ps ++ (q ∷ [])) r h (omega (arith, length-snoc ps q)))

nth-front :
    (ps : List Pixel) (q : Pixel) (i : ℕ) → i < length ps → nth (ps ++ (q ∷ [])) i ≡ nth ps i
nth-front [] q i h = elim h [ ]
nth-front (p ∷ ps) q zero h = refl
nth-front (p ∷ ps) q (suc i) h = nth-front ps q i (omega arith)

nth-last : (ps : List Pixel) (q : Pixel) → nth (ps ++ (q ∷ [])) (length ps) ≡ q
nth-last [] q = refl
nth-last (p ∷ ps) q = nth-last ps q

nth-snoc : (ps : List Pixel) (q : Pixel) → nth (ps ++ (q ∷ [])) (length (ps ++ (q ∷ [])) - 1) ≡ q
nth-snoc ps q =
    let e : length (ps ++ (q ∷ [])) - 1 ≡ length ps = omega (arith, length-snoc ps q) in
    rw e (nth-last ps q)

-- One pixel repeated is a run from one before.
repeat_pixel-flat :
    (k p : ℕ) (ps : List Pixel) (r : Bytes)
    → p < length ps
    → nth ps p ≡ nth ps (length ps - 1)
    → repeat_pixel false k (length ps) (some p) (flat ps ++ room k r) ≡ flat (extend k 1 ps) ++ r
unfolding repeat_pixel
repeat_pixel-flat zero p ps r h same = refl
repeat_pixel-flat (suc k) p ps r h same =
    let q = nth ps (length ps - 1) in
    rw (copy_pixel-flat ps p 0 0 0 0 (room k r) h, same, length-snoc ps q)
      (repeat_pixel-flat k p (ps ++ (q ∷ [])) r (omega (arith, length-snoc ps q))
        (nth-front ps q p h ∙ same ∙ sym (nth-snoc ps q)))

pub copy_run-flat :
    (k ofs : ℕ) (ps : List Pixel) (r : Bytes)
    → 1 ≤ ofs
    → ofs ≤ length ps
    → copy_run false k (some ofs) (length ps) (flat ps ++ room k r) ≡ flat (extend k ofs ps) ++ r
unfolding copy_run
copy_run-flat k ofs ps r h h' = elim (Bool-cases (ofs == 1)) [
  | inl e ↦
      let one : ofs ≡ 1 = ground arith in
      rw (one, source_within (length ps) 1 (omega arith))
        (repeat_pixel-flat k (length ps - 1) ps r (omega arith) refl)
  | inr e ↦ rw e (copy_pixels-flat k ofs ps r h h')
]

pub length-extend : (k ofs : ℕ) (ps : List Pixel) → length (extend k ofs ps) ≡ length ps + k
length-extend zero ofs ps = omega arith
length-extend (suc k) ofs ps =
    let q = nth ps (length ps - ofs) in
    omega (arith, length-extend k ofs (ps ++ (q ∷ [])), length-snoc ps q)
