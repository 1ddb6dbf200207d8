-- ===== src/Wire/Stream/Sizes.antt =====
-- The next message of the stream of `Wire.Stream`, and the sizes that are asked for along it.
use vm_automation_deployment.Common.{
  leb→le, subst, true, length-append, ℕ, zero, suc, ◌-◌, ◌≤◌, ◌<◌, ◌≡◌, refl, inl, inr, arith,
  Bool-cases, length-drop, take-append, drop-append, List, [], ◌∷◌, ◌++◌, Option, length, drop, leb,
}
use vm_automation_deployment.Wire.{Bytes, Command, request, save_header, clear_header, Callback}
use vm_automation_deployment.Wire.Stream.{Stream, NeverZero, asks_positive, obey, advance}

module _ {S H : Type 0} where
  -- With more bytes behind.
  abbrev pub more : Stream S H → Bytes → Stream S H
  more s ys = record s { pending = s.pending ++ ys }

  pub obey-pending : (cs : List (Command H)) (s : Stream S H) → (obey cs s).pending ≡ s.pending
  unfolding obey
  obey-pending [] s = refl
  obey-pending (request n ∷ cs) s = obey-pending cs _
  obey-pending (save_header h ∷ cs) s = obey-pending cs _
  obey-pending (clear_header ∷ cs) s = obey-pending cs _

  -- More bytes at the end of the stream do not change what the calls do.
  pub obey-append :
      (cs : List (Command H)) (s : Stream S H) (ys : Bytes)
      → obey cs (record s { pending = s.pending ++ ys })
        ≡ record (obey cs s) { pending = (obey cs s).pending ++ ys }
  unfolding obey
  obey-append [] s ys = refl
  obey-append (request n ∷ cs) s ys = obey-append cs (record s { needed = n }) ys
  obey-append (save_header h ∷ cs) s ys =
      obey-append cs (record s { saved_msg_header = Option.some h }) ys
  obey-append (clear_header ∷ cs) s ys =
      obey-append cs (record s { saved_msg_header = Option.none }) ys

module _ {S H : Type 0} (callback : Callback S H) where
  pub length-advance :
      (s : Stream S H) → length (advance callback s).pending ≡ length s.pending - s.needed
  unfolding advance
  length-advance s = rw obey-pending (length-drop s.needed s.pending)

  pub advance-append :
      (s : Stream S H) (ys : Bytes)
      → s.needed ≤ length s.pending
      → advance callback (record s { pending = s.pending ++ ys })
        ≡ record (advance callback s) { pending = (advance callback s).pending ++ ys }
  unfolding advance
  advance-append s ys h =
      rw (take-append s.needed s.pending ys h, drop-append s.needed s.pending ys h)
        (obey-append _ (record s { sc = _; pending = drop s.needed s.pending }) ys)

  pub never-needed : (s : Stream S H) → NeverZero callback s → 0 < s.needed
  unfolding asks_positive
  never-needed s h = let h0 = h 0 in ground arith

  pub never-advance :
      (s : Stream S H)
      → NeverZero callback s
      → s.needed ≤ length s.pending
      → NeverZero callback (advance callback s)
  unfolding asks_positive
  never-advance s h le n = let e = h (suc n) in ground arith

  asks_positive-prefix :
      (n : ℕ) (s : Stream S H) (ys : Bytes)
      → asks_positive callback n (more s ys) ≡ true
      → asks_positive callback n s ≡ true
  unfolding asks_positive
  asks_positive-prefix zero s ys h = h
  asks_positive-prefix (suc n) s ys h = elim (Bool-cases (leb s.needed (length s.pending))) [
    | inl e ↦
        let le : s.needed ≤ length s.pending = leb→le _ _ e in
        let a = advance callback (more s ys) in
        let there : asks_positive callback n a ≡ true =
          ground (arith, length-append s.pending ys) in
        let rest =
          asks_positive-prefix n (advance callback s) ys
            (subst (λ t. asks_positive callback n t ≡ true) (advance-append s ys le) there) in
        ground arith
    | inr e ↦ ground arith
  ]

  pub never-prefix :
      (s : Stream S H) (ys : Bytes) → NeverZero callback (more s ys) → NeverZero callback s
  never-prefix s ys h n = asks_positive-prefix n s ys (h n)

  -- A message is taken from the stream whether more bytes are there or not.
  pub never-advance-more :
      (s : Stream S H) (ys : Bytes)
      → NeverZero callback (more s ys)
      → s.needed ≤ length s.pending
      → NeverZero callback (more (advance callback s) ys)
  never-advance-more s ys h le =
      subst (NeverZero callback) (advance-append s ys le)
        (never-advance (more s ys) h (omega (arith, length-append s.pending ys)))

  pub length-advance_le :
      (f : ℕ) (s : Stream S H)
      → NeverZero callback s
      → leb s.needed (length s.pending) ≡ true
      → length s.pending ≤ suc f
      → length (advance callback s).pending ≤ f
  length-advance_le f s p e h = ground (arith, never-needed s p, length-advance s)

  -- Fuel for the bytes of the stream covers every message.
  pub asks_positive-never :
      (f : ℕ) (s : Stream S H)
      → asks_positive callback f s ≡ true
      → length s.pending ≤ f
      → NeverZero callback s
  unfolding asks_positive
  asks_positive-never zero s h le zero = h
  asks_positive-never zero s h le (suc n) = ground arith
  asks_positive-never (suc f) s h le zero = ground arith
  asks_positive-never (suc f) s h le (suc n) = elim (Bool-cases (leb s.needed (length s.pending))) [
    | inl e ↦
        let a = advance callback s in
        let there : asks_positive callback f a ≡ true = ground arith in
        let left : length a.pending ≤ f = ground (arith, length-advance s) in
        let rest = asks_positive-never f a there left n in ground arith
    | inr e ↦ ground arith
  ]
