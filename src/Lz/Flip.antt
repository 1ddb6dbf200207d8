-- ===== src/Lz/Flip.antt =====
-- lz.js: the images stored from the bottom row up, and the conversion of an image.
use vm_automation_deployment.Common.{
  ℕ, zero, suc, ◌+◌, ◌-◌, ◌*◌, ◌≡◌, refl, sym, ap, ◌∙◌, List, [], ◌∷◌, ◌++◌, length, length-append,
  length-set, set, take, drop, take-append, drop-append, drop_all, replicate, length-replicate,
  append-nil, append_assoc, arith,
}
use native.Mathlib.Nat.{suc-mul, mul_comm, mul_right_comm}
use vm_automation_deployment.Wire.{Bytes}

-- The call of `set` of a typed array.
unfoldable pub set_from : Bytes → ℕ → Bytes → Bytes
set_from buff at [] = buff
set_from buff at (b ∷ bs) = set_from (set buff at b) (suc at) bs

-- `wb` bytes from position `i` on.
abbrev pub row : ℕ → ℕ → Bytes → Bytes
row wb i pixels = take wb (drop (i * wb) pixels)

-- The loop of flip_image_data: the rows below `temp_h`, the last one first.
unfoldable pub flip_rows : ℕ → ℕ → ℕ → Bytes → Bytes → Bytes
unfolding set_from
flip_rows wb h zero pixels buff = buff
flip_rows wb h (suc temp_h) pixels buff =
    flip_rows wb h temp_h pixels (set_from buff ((h - temp_h - 1) * wb) (row wb temp_h pixels))

unfoldable pub flip_image_data : ℕ → ℕ → Bytes → Bytes
unfolding flip_rows set_from
flip_image_data width height pixels =
    let wb = width * 4 in
    let buff = replicate (width * height * 4) 0 in
    set_from pixels 0 (flip_rows wb height height pixels buff)

length-set_from : (buff : Bytes) (at : ℕ) (bs : Bytes) → length (set_from buff at bs) ≡ length buff
unfolding set_from
length-set_from buff at [] = refl
length-set_from buff at (b ∷ bs) =
    length-set_from (set buff at b) (suc at) bs ∙ length-set buff at b

pub length-flip_image_data :
    (width height : ℕ) (pixels : Bytes)
    → length (flip_image_data width height pixels) ≡ length pixels
unfolding flip_image_data
length-flip_image_data width height pixels =
    length-set_from pixels 0
      (flip_rows (width * 4) height height pixels (replicate (width * height * 4) 0))

set-here :
    (xs : Bytes) (y : ℕ) (ys : Bytes) (b at : ℕ)
    → at ≡ length xs
    → set (xs ++ (y ∷ ys)) at b ≡ xs ++ (b ∷ ys)
set-here [] y ys b zero e = refl
set-here [] y ys b (suc at) e = absurd (omega arith)
set-here (x ∷ xs) y ys b zero e = absurd (omega arith)
set-here (x ∷ xs) y ys b (suc at) e = ap (λ t. x ∷ t) (set-here xs y ys b at (omega (arith, e)))

pub set_from-behind :
    (xs ys bs zs : Bytes) (at : ℕ)
    → length bs ≡ length ys
    → at ≡ length xs
    → set_from (xs ++ (ys ++ zs)) at bs ≡ xs ++ (bs ++ zs)
unfolding set_from
set_from-behind xs [] [] zs at h e = refl
set_from-behind xs [] (b ∷ bs) zs at h e = absurd (omega arith)
set_from-behind xs (y ∷ ys) [] zs at h e = absurd (omega arith)
set_from-behind xs (y ∷ ys) (b ∷ bs) zs at h e =
    let one = set-here xs y (ys ++ zs) b at e in
    rw (one, sym (append_assoc xs (b ∷ []) (ys ++ zs)))
      (set_from-behind (xs ++ (b ∷ [])) ys bs zs (suc at) (omega (arith, h))
          (omega (arith, e, length-append xs (b ∷ [])))
        ∙ append_assoc xs (b ∷ []) (bs ++ zs))

-- The rows of an image, from the bottom row up, and the same rows from the top down.
abbrev pub bottom_up : List Bytes → Bytes
bottom_up [] = []
bottom_up (r ∷ rs) = bottom_up rs ++ r

abbrev pub top_down : List Bytes → Bytes
top_down [] = []
top_down (r ∷ rs) = r ++ top_down rs

abbrev pub AllLong : ℕ → List Bytes → Type 0
AllLong wb [] = Unit
AllLong wb (r ∷ rs) = (length r ≡ wb) × AllLong wb rs

length-bottom_up :
    (wb : ℕ) (rs : List Bytes) → AllLong wb rs → length (bottom_up rs) ≡ length rs * wb
length-bottom_up wb [] h = omega arith
length-bottom_up wb (r ∷ rs) (e, h) =
    length-append (bottom_up rs) r
    ∙ omega (arith, length-bottom_up wb rs h, e, suc-mul (length rs) wb)

pub take_all : (xs : Bytes) → take (length xs) xs ≡ xs
take_all [] = refl
take_all (x ∷ xs) = ap (λ t. x ∷ t) (take_all xs)

pub replicate-add : (m n : ℕ) → replicate {A = ℕ} (m + n) 0 ≡ replicate m 0 ++ replicate n 0
replicate-add zero n = ap (λ k. replicate k 0) (omega arith)
replicate-add (suc m) n =
    let e : suc m + n ≡ suc (m + n) = omega arith in rw e (ap (λ t. 0 ∷ t) (replicate-add m n))

zeros :
    (wb : ℕ) (rs : List Bytes)
    → replicate {A = ℕ} (suc (length rs) * wb) 0 ≡ replicate wb 0 ++ replicate (length rs * wb) 0
zeros wb rs =
    let e : suc (length rs) * wb ≡ wb + length rs * wb = omega (arith, suc-mul (length rs) wb) in
    rw e (replicate-add wb (length rs * wb))

row_top :
    (wb : ℕ) (rs : List Bytes) (r above : Bytes)
    → AllLong wb rs
    → length r ≡ wb
    → row wb (length rs) (bottom_up rs ++ (r ++ above)) ≡ r
row_top wb rs r above h e =
    rw
      (
        sym (length-bottom_up wb rs h),
        drop-append (length (bottom_up rs)) (bottom_up rs) (r ++ above) (omega arith),
        drop_all (length (bottom_up rs)) (bottom_up rs) (omega arith),
        sym e,
        take-append (length r) r above (omega arith),
      )
      (take_all r)

-- One round of the loop, with some rows done.
set_row :
    (wb h k : ℕ) (rs : List Bytes) (r above done : Bytes)
    → AllLong wb (r ∷ rs)
    → k + suc (length rs) ≡ h
    → length done ≡ k * wb
    → set_from
        (done ++ replicate (suc (length rs) * wb) 0)
        ((h - length rs - 1) * wb)
        (row wb (length rs) ((bottom_up rs ++ r) ++ above))
      ≡ (done ++ r) ++ replicate (length rs * wb) 0
set_row wb h k rs r above done (er, long) n e =
    let at : h - length rs - 1 ≡ k = omega (arith, n) in
    rw (at, append_assoc (bottom_up rs) r above, row_top wb rs r above long er, zeros wb rs)
      (set_from-behind done (replicate wb 0) r (replicate (length rs * wb) 0) (k * wb)
          (er ∙ sym (length-replicate wb 0)) (sym e)
        ∙ sym (append_assoc done r (replicate (length rs * wb) 0)))

-- The loop, with some rows done.
flip_rows-bottom_up :
    (wb h k : ℕ) (rs : List Bytes) (above done : Bytes)
    → AllLong wb rs
    → k + length rs ≡ h
    → length done ≡ k * wb
    → flip_rows wb h (length rs) (bottom_up rs ++ above) (done ++ replicate (length rs * wb) 0)
      ≡ done ++ top_down rs
unfolding flip_rows
flip_rows-bottom_up wb h k [] above done long n e =
    let none_left : 0 * wb ≡ 0 = omega arith in rw none_left refl
flip_rows-bottom_up wb h k (r ∷ rs) above done (er, long) n e =
    ap (flip_rows wb h (length rs) ((bottom_up rs ++ r) ++ above))
      (set_row wb h k rs r above done (er, long) n e)
    ∙ ap (λ t. flip_rows wb h (length rs) t ((done ++ r) ++ replicate (length rs * wb) 0))
        (append_assoc (bottom_up rs) r above)
    ∙ flip_rows-bottom_up wb h (suc k) rs (r ++ above) (done ++ r) long (omega (arith, n))
        (length-append done r ∙ omega (arith, e, er, suc-mul k wb))
    ∙ append_assoc done r (top_down rs)

length-top_down : (rs : List Bytes) → length (top_down rs) ≡ length (bottom_up rs)
length-top_down [] = refl
length-top_down (r ∷ rs) =
    length-append r (top_down rs)
    ∙ omega (arith, length-top_down rs, length-append (bottom_up rs) r)

area : (w h : ℕ) → w * h * 4 ≡ h * (w * 4)
area w h = mul_right_comm w h 4 ∙ mul_comm (w * 4) h

-- An image whose rows are stored from the bottom up is turned into the same rows from the top
-- down.
pub flip_image_data-bottom_up :
    (width : ℕ) (rs : List Bytes)
    → AllLong (width * 4) rs
    → flip_image_data width (length rs) (bottom_up rs) ≡ top_down rs
unfolding flip_image_data
flip_image_data-bottom_up width rs long =
    let wb = width * 4 in
    let size : width * length rs * 4 ≡ length rs * wb = area width (length rs) in
    let flipped : flip_rows wb (length rs) (length rs) (bottom_up rs) (replicate (length rs * wb) 0)
        ≡ top_down rs =
      ap (λ t. flip_rows wb (length rs) (length rs) t (replicate (length rs * wb) 0))
        (sym (append-nil (bottom_up rs)))
      ∙ flip_rows-bottom_up wb (length rs) 0 rs [] [] long (omega arith) (omega arith) in
    rw (size, flipped)
      (ap (λ t. set_from t 0 (top_down rs)) (sym (append-nil (bottom_up rs)))
        ∙ set_from-behind [] (bottom_up rs) (top_down rs) [] 0 (length-top_down rs) refl
        ∙ append-nil (top_down rs))
