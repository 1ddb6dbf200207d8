-- ===== src/Wire/Loops.antt =====
-- wire.js, the loops of `inbound`: what one delivery and the loop of deliveries do to the stream
-- of waiting bytes.
use vm_automation_deployment.Common.{
  leb→le, inl, inr, subst, sym, length-append, ℕ, zero, suc, ◌≤◌, ◌<◌, ◌≡◌, refl, ap, ◌∙◌, List, [],
  ◌∷◌, ◌++◌, append-nil, length, leb, ltb, arith, take-append, drop-append, drop_all, Bool-cases,
}
use vm_automation_deployment.Wire.{
  Bytes, Command, request, save_header, clear_header, Reader, Callback, commands, command, call,
  deliver, deliver_all,
}
use vm_automation_deployment.Wire.Stream.{Stream, NeverZero, obey, advance, drain}
use vm_automation_deployment.Wire.Stream.Sizes.{never-advance, never-needed}
use vm_automation_deployment.Wire.Stream.Laws.{drain-step, drain-stop}

-- The bytes that wait, in order.
abbrev pub bytes_of : List Bytes → Bytes
bytes_of [] = []
bytes_of (b ∷ bs) = b ++ bytes_of bs

abbrev pub view : {S H : Type 0} → Reader S H → Stream S H
view r = record {
  sc = r.sc;
  needed = r.needed;
  saved_msg_header = r.saved_msg_header;
  pending = bytes_of r.buffers;
}

-- At most one block waits.
abbrev pub AtMostOne : List Bytes → Type 0
AtMostOne [] = Unit
AtMostOne (b ∷ []) = Unit
AtMostOne (b ∷ c ∷ bs) = ⊥

-- Between two blocks at most one block waits, and it is shorter than the message asked for.
pub record IsSettled {S H : Type 0} (r : Reader S H) : Type 0 where
  pub one : AtMostOne r.buffers
  pub short : length (bytes_of r.buffers) < r.needed

module _ {S H : Type 0} where
  view-commands : (cs : List (Command H)) (r : Reader S H) → view (commands cs r) ≡ obey cs (view r)
  unfolding commands command obey
  view-commands [] r = refl
  view-commands (request n ∷ cs) r = view-commands cs (record r { needed = n })
  view-commands (save_header h ∷ cs) r = view-commands cs _
  view-commands (clear_header ∷ cs) r = view-commands cs _

  buffers-commands : (cs : List (Command H)) (r : Reader S H) → (commands cs r).buffers ≡ r.buffers
  unfolding commands command
  buffers-commands [] r = refl
  buffers-commands (request n ∷ cs) r = buffers-commands cs _
  buffers-commands (save_header h ∷ cs) r = buffers-commands cs _
  buffers-commands (clear_header ∷ cs) r = buffers-commands cs _

module _ {S H : Type 0} (callback : Callback S H) where
  -- Delivering from the first of the blocks takes the next message of the stream.
  pub view-deliver :
      (r : Reader S H) (b : Bytes) (bs : List Bytes)
      → r.needed ≤ length b
      → view (deliver callback r b bs)
        ≡ advance callback (record (view r) { pending = b ++ bytes_of bs })
  unfolding deliver call advance
  view-deliver r b bs h =
      rw
        (
          view-commands,
          take-append r.needed b (bytes_of bs) h,
          drop-append r.needed b (bytes_of bs) h,
        )
        (elim (Bool-cases (ltb r.needed (length b))) [
          | inl e ↦ rw e
          | inr e ↦ rw (e, drop_all r.needed b (ground arith))
        ])

  pub deliver-AtMostOne : (r : Reader S H) (b : Bytes) → AtMostOne (deliver callback r b []).buffers
  unfolding deliver call
  deliver-AtMostOne r b =
      rw buffers-commands
        (elim (Bool-cases (ltb r.needed (length b))) [ inl e ↦ rw e tt | inr e ↦ rw e tt ])

  pub deliver-NeverZero :
      (r : Reader S H) (b : Bytes) (bs : List Bytes)
      → r.needed ≤ length b
      → NeverZero callback (record (view r) { pending = b ++ bytes_of bs })
      → NeverZero callback (view (deliver callback r b bs))
  deliver-NeverZero r b bs h p = subst (NeverZero callback) (sym (view-deliver r b bs h)) (
      never-advance callback (record (view r) { pending = b ++ bytes_of bs }) p
        (omega (arith, length-append b (bytes_of bs))))

  deliver_all-step :
      (f : ℕ) (r : Reader S H) (b : Bytes) (bs : List Bytes)
      → r.needed ≤ length b
      → deliver_all callback (suc f) (record r { buffers = b ∷ bs })
        ≡ deliver_all callback f (deliver callback (record r { buffers = b ∷ bs }) b bs)
  unfolding deliver_all
  deliver_all-step f r b bs h = ground arith

  deliver_all-stop :
      (f : ℕ) (r : Reader S H) (b : Bytes) (bs : List Bytes)
      → length b < r.needed
      → deliver_all callback (suc f) (record r { buffers = b ∷ bs }) ≡ record r { buffers = b ∷ bs }
  unfolding deliver_all
  deliver_all-stop f r b bs h = ground arith

  pub view-deliver_all :
      (f : ℕ) (bs : List Bytes) (r : Reader S H)
      → AtMostOne bs
      → NeverZero callback (view (record r { buffers = bs }))
      → let q = deliver_all callback f (record r { buffers = bs }) in
        (view q ≡ drain callback f (view (record r { buffers = bs }))) × AtMostOne q.buffers
  view-deliver_all zero bs r one p = unfold deliver_all drain in (refl, one)
  view-deliver_all (suc f) [] r one p =
      let s = view (record r { buffers = [] }) in
      unfold deliver_all in (rw (drain-stop callback (suc f) s (never-needed callback s p)), tt)
  view-deliver_all (suc f) (b ∷ c ∷ bs) r one p = absurd one
  view-deliver_all (suc f) (b ∷ []) r one p = elim (Bool-cases (leb r.needed (length b))) [
    | inl e ↦
        let r1 = record r { buffers = b ∷ [] } in
        let q = deliver callback r1 b [] in
        let le : r.needed ≤ length b = leb→le _ _ e in
        let ih =
          view-deliver_all f q.buffers q (deliver-AtMostOne r1 b)
            (deliver-NeverZero r1 b [] le p) in
        rw (deliver_all-step f r b [] le) (
          rw (drain-step callback f (view r1) (rw append-nil le))
              (ih.0 ∙ ap (drain callback f) (view-deliver r1 b [] le)),
          ih.1,
        )
    | inr e ↦
        let lt : length b < r.needed = ground arith in
        rw (deliver_all-stop f r b [] lt) (
          rw (
              drain-stop callback (suc f) (view (record r { buffers = b ∷ [] }))
                (rw append-nil lt)),
          tt,
        )
  ]
