-- ===== src/Wire/Stream/Laws.antt =====
-- Draining the stream of `Wire.Stream`: fuel, what is left, and bytes that arrive later.
use vm_automation_deployment.Common.{
  leb→le, subst, ap, ◌+◌, length-append, ◌∙◌, sym, append_assoc, append-nil, ℕ, zero, suc, ◌≤◌, ◌<◌,
  ◌≡◌, refl, inl, inr, arith, Bool-cases, [], ◌++◌, length, leb,
}
use vm_automation_deployment.Wire.{Bytes, Callback}
use vm_automation_deployment.Wire.Stream.{Stream, IsShort, NeverZero, advance, drain, feed}
use vm_automation_deployment.Wire.Stream.Sizes.{
  length-advance, length-advance_le, advance-append, more, never-needed, never-advance,
  never-advance-more,
}

module _ {S H : Type 0} (callback : Callback S H) where
  -- Fuel beyond the number of bytes changes nothing.
  pub drain_fuel :
      (f g : ℕ) (s : Stream S H)
      → NeverZero callback s
      → length s.pending ≤ f
      → length s.pending ≤ g
      → drain callback f s ≡ drain callback g s
  unfolding drain
  drain_fuel zero zero s p hf hg = refl
  drain_fuel zero (suc g) s p hf hg = let h = never-needed callback s p in ground arith
  drain_fuel (suc f) zero s p hf hg = let h = never-needed callback s p in ground arith
  drain_fuel (suc f) (suc g) s p hf hg = elim (Bool-cases (leb s.needed (length s.pending))) [
    | inl e ↦ rw e (
        drain_fuel f g (advance callback s) (never-advance callback s p (leb→le _ _ e))
          (length-advance_le callback f s p e hf) (length-advance_le callback g s p e hg))
    | inr e ↦ rw e
  ]

  -- A drained stream holds less than a message.
  pub drain-short :
      (f : ℕ) (s : Stream S H)
      → NeverZero callback s
      → length s.pending ≤ f
      → length (drain callback f s).pending < (drain callback f s).needed
  unfolding drain
  drain-short zero s p h = omega (arith, never-needed callback s p)
  drain-short (suc f) s p h = elim (Bool-cases (leb s.needed (length s.pending))) [
    | inl e ↦ rw e (
        drain-short f (advance callback s) (never-advance callback s p (leb→le _ _ e))
          (length-advance_le callback f s p e h))
    | inr e ↦ rw e (ground arith)
  ]

  drain-NeverZero :
      (f : ℕ) (s : Stream S H) (ys : Bytes)
      → NeverZero callback (more s ys)
      → NeverZero callback (more (drain callback f s) ys)
  unfolding drain
  drain-NeverZero zero s ys p = p
  drain-NeverZero (suc f) s ys p = elim (Bool-cases (leb s.needed (length s.pending))) [
    | inl e ↦ rw e (
        drain-NeverZero f (advance callback s) ys
          (never-advance-more callback s ys p (leb→le _ _ e)))
    | inr e ↦ rw e p
  ]

  length-drain : (f : ℕ) (s : Stream S H) → length (drain callback f s).pending ≤ length s.pending
  unfolding drain
  length-drain zero s = omega arith
  length-drain (suc f) s =
      ground (arith, length-drain f (advance callback s), length-advance callback s)

  pub drain-step :
      (f : ℕ) (s : Stream S H)
      → s.needed ≤ length s.pending
      → drain callback (suc f) s ≡ drain callback f (advance callback s)
  unfolding drain
  drain-step f s h = ground arith

  pub drain-stop : (f : ℕ) (s : Stream S H) → length s.pending < s.needed → drain callback f s ≡ s
  unfolding drain
  drain-stop zero s h = refl
  drain-stop (suc f) s h = ground arith

  -- What arrives later can wait: draining first changes nothing.
  pub drain-append :
      (f g : ℕ) (s : Stream S H) (ys : Bytes)
      → NeverZero callback (more s ys)
      → length s.pending + length ys ≤ g
      → drain callback g (more s ys) ≡ drain callback g (more (drain callback f s) ys)
  drain-append zero g s ys p h = unfold drain in refl
  drain-append (suc f) zero s ys p h =
      rw (drain-stop (suc f) s (omega (arith, never-needed callback (more s ys) p)))
  drain-append (suc f) (suc g) s ys p h = elim (Bool-cases (leb s.needed (length s.pending))) [
    | inl e ↦
        let le : s.needed ≤ length s.pending = leb→le _ _ e in
        let a = advance callback s in
        let next = never-advance-more callback s ys p le in
        let u = drain callback f a in
        let positive = never-needed callback (more s ys) p in
        let bound : length (u.pending ++ ys) ≤ g =
          omega (arith, length-append u.pending ys, length-drain f a, length-advance callback s) in
        drain-step g (more s ys) (omega (arith, length-append s.pending ys))
        ∙ ap (drain callback g) (advance-append callback s ys le)
        ∙ drain-append f g a ys next (omega (arith, length-advance callback s))
        ∙ drain_fuel g (suc g) (more u ys) (drain-NeverZero f a ys next) bound (omega arith)
        ∙ rw (drain-step f s le)
    | inr e ↦ rw (drain-stop (suc f) s (ground arith))
  ]

  -- Any fuel that covers the bytes serves.
  pub drain-feed :
      (g : ℕ) (s : Stream S H) (mb : Bytes)
      → NeverZero callback (more s mb)
      → length s.pending + length mb ≤ g
      → drain callback g (more s mb) ≡ feed callback s mb
  unfolding feed
  drain-feed g s mb p h =
      drain_fuel g (length (s.pending ++ mb)) (more s mb) p
        (omega (arith, length-append s.pending mb)) (omega arith)

  pub feed-IsShort :
      (s : Stream S H) (mb : Bytes) → NeverZero callback (more s mb) → IsShort (feed callback s mb)
  unfolding feed
  feed-IsShort s mb p = drain-short _ (more s mb) p (omega arith)

  pub length-feed :
      (s : Stream S H) (mb : Bytes)
      → length (feed callback s mb).pending ≤ length s.pending + length mb
  unfolding feed
  length-feed s mb =
      omega (arith, length-drain (length (s.pending ++ mb)) (more s mb), length-append s.pending mb)

  pub more_assoc :
      (s : Stream S H) (xs ys : Bytes)
      → NeverZero callback (more s (xs ++ ys))
      → NeverZero callback (more (more s xs) ys)
  more_assoc s xs ys p =
      subst (λ t. NeverZero callback (record s { pending = t }))
        (sym (append_assoc s.pending xs ys)) p

  pub feed-NeverZero :
      (s : Stream S H) (xs ys : Bytes)
      → NeverZero callback (more s (xs ++ ys))
      → NeverZero callback (more (feed callback s xs) ys)
  unfolding feed
  feed-NeverZero s xs ys p =
      drain-NeverZero (length (s.pending ++ xs)) (more s xs) ys (more_assoc s xs ys p)

  -- Two blocks one after the other are as one block.
  pub feed-append :
      (s : Stream S H) (xs ys : Bytes)
      → NeverZero callback (more s (xs ++ ys))
      → feed callback (feed callback s xs) ys ≡ feed callback s (xs ++ ys)
  feed-append s xs ys p =
      let s' = more s xs in
      let f = length (s.pending ++ xs) in
      let g = length s.pending + length (xs ++ ys) in
      let bound : length (s.pending ++ xs) + length ys ≤ g =
        omega (arith, length-append s.pending xs, length-append xs ys) in
      sym (
        drain-feed g (feed callback s xs) ys (feed-NeverZero s xs ys p)
          (omega (arith, length-feed s xs, length-append xs ys)))
      ∙ unfold feed in
        sym (drain-append f g s' ys (more_assoc s xs ys p) bound)
        ∙ rw append_assoc (drain-feed g s (xs ++ ys) p (omega arith))

  pub feed-nil : (s : Stream S H) → IsShort s → feed callback s [] ≡ s
  unfolding feed
  feed-nil s h = rw (append-nil s.pending) (drain-stop (length s.pending) s h)
