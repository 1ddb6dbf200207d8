-- ===== src/DataView/Append.antt =====
-- Reading and writing behind a known part of the buffer.
use vm_automation_deployment.Common.{
  ℕ, zero, suc, ◌+◌, ◌-◌, ◌≤◌, ◌<◌, ◌⊎◌, inl, inr, sym, ◌∙◌, ◌≡◌, refl, ap, Bool, true, false, [],
  ◌∷◌, ◌++◌, length, get_elem?, set, arith,
}
use vm_automation_deployment.Common.Int.{ℤ}
use vm_automation_deployment.Wire.{Bytes}
use vm_automation_deployment.DataView.{
  get_uint8, get_uint16, get_uint32, set_uint8, set_uint16, set_uint32,
}

get_elem?-append : (d r : Bytes) (k i : ℕ) → i ≡ length d + k → get_elem? (d ++ r) i ≡ get_elem? r k
get_elem?-append [] r k i e = ap (get_elem? r) (omega arith)
get_elem?-append (x ∷ d) r k zero e = absurd (omega arith)
get_elem?-append (x ∷ d) r k (suc i) e = get_elem?-append d r k i (omega arith)

get_elem?-before : (d r : Bytes) (i : ℕ) → i < length d → get_elem? (d ++ r) i ≡ get_elem? d i
get_elem?-before [] r i h = absurd (omega arith)
get_elem?-before (x ∷ d) r zero h = refl
get_elem?-before (x ∷ d) r (suc i) h = get_elem?-before d r i (omega arith)

-- A byte outside a part does not depend on it.
pub get_uint8-apart :
    (d h h' r : Bytes) (i : ℕ)
    → length h ≡ length h'
    → (i < length d) ⊎ (length d + length h ≤ i)
    → get_uint8 (d ++ (h ++ r)) i ≡ get_uint8 (d ++ (h' ++ r)) i
unfolding get_uint8
get_uint8-apart d h h' r i e (inl p) =
    get_elem?-before d (h ++ r) i p ∙ sym (get_elem?-before d (h' ++ r) i p)
get_uint8-apart d h h' r i e (inr p) =
    let k = i - length d in
    let j = k - length h in
    get_elem?-append d (h ++ r) k i (omega arith)
    ∙ get_elem?-append h r j k (omega arith)
    ∙ sym (get_elem?-append h' r j k (omega arith))
    ∙ sym (get_elem?-append d (h' ++ r) k i (omega arith))

set-append : (d r : Bytes) (k i v : ℕ) → i ≡ length d + k → set (d ++ r) i v ≡ d ++ set r k v
set-append [] r k i v e = ap (λ j. set r j v) (omega arith)
set-append (x ∷ d) r k zero v e = absurd (omega arith)
set-append (x ∷ d) r k (suc i) v e = ap (λ t. x ∷ t) (set-append d r k i v (omega arith))

module _ (d r : Bytes) (k i : ℕ) (at : i ≡ length d + k) where
  pub get_uint8-append : get_uint8 (d ++ r) i ≡ get_uint8 r k
  unfolding get_uint8
  get_uint8-append = get_elem?-append d r k i at

  pub get_uint16-append : (little : Bool) → get_uint16 (d ++ r) i little ≡ get_uint16 r k little
  unfolding get_uint16
  get_uint16-append true = rw (
    get_elem?-append d r (k + 1) (i + 1) (omega arith),
    get_elem?-append d r (k + 0) (i + 0) (omega arith),
  )
  get_uint16-append false = rw (
    get_elem?-append d r (k + 1) (i + 1) (omega arith),
    get_elem?-append d r (k + 0) (i + 0) (omega arith),
  )

  pub set_uint16-append :
      (v : ℤ) (little : Bool) → set_uint16 (d ++ r) i v little ≡ d ++ set_uint16 r k v little
  unfolding set_uint16
  set_uint16-append v true =
      rw (set-append d r (k + 1) (i + 1) _ (omega arith))
        (set-append d _ (k + 0) (i + 0) _ (omega arith))
  set_uint16-append v false =
      rw (set-append d r (k + 0) (i + 0) _ (omega arith))
        (set-append d _ (k + 1) (i + 1) _ (omega arith))

module _ (d r : Bytes) (k i : ℕ) (at : i ≡ length d + k) where
  pub get_uint16-behind : (little : Bool) → get_uint16 (d ++ r) i little ≡ get_uint16 r k little
  get_uint16-behind little = get_uint16-append d r k i at little

  pub get_uint32-behind : (little : Bool) → get_uint32 (d ++ r) i little ≡ get_uint32 r k little
  unfolding get_uint32
  get_uint32-behind true = rw (
    get_uint16-append d r (k + 2) (i + 2) (omega arith) true,
    get_uint16-append d r (k + 0) (i + 0) (omega arith) true,
  )
  get_uint32-behind false = rw (
    get_uint16-append d r (k + 2) (i + 2) (omega arith) false,
    get_uint16-append d r (k + 0) (i + 0) (omega arith) false,
  )

  pub set_uint8-behind : (v : ℤ) → set_uint8 (d ++ r) i v ≡ d ++ set_uint8 r k v
  unfolding set_uint8
  set_uint8-behind v = set-append d r k i _ at

  pub set_uint32-behind :
      (v : ℤ) (little : Bool) → set_uint32 (d ++ r) i v little ≡ d ++ set_uint32 r k v little
  unfolding set_uint32
  set_uint32-behind v true =
      rw (set_uint16-append d r (k + 2) (i + 2) (omega arith) _ true)
        (set_uint16-append d _ (k + 0) (i + 0) (omega arith) _ true)
  set_uint32-behind v false =
      rw (set_uint16-append d r (k + 0) (i + 0) (omega arith) _ false)
        (set_uint16-append d _ (k + 2) (i + 2) (omega arith) _ false)
