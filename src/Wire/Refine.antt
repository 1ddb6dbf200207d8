-- ===== src/Wire/Refine.antt =====
-- wire.js against the stream of `Wire.Stream`: one block, and any sequence of blocks.
use vm_automation_deployment.Common.{
  leb→le, inl, inr, true, ℕ, suc, ◌+◌, ◌≤◌, ◌<◌, ◌≡◌, refl, sym, ap, subst, ◌∙◌, List, [], ◌∷◌,
  ◌++◌, append-nil, length, leb, arith, length-append, Bool-cases,
}
use vm_automation_deployment.Wire.{
  Bytes, Reader, Callback, deliver, deliver_all, enqueue, wire_blob_catcher, inbound, combine,
  combine_array_buffers,
}
use vm_automation_deployment.Wire.Stream.{IsShort, Stream, NeverZero, asks_positive, drain, feed}
use vm_automation_deployment.Wire.Stream.Sizes.{
  never-prefix, more, asks_positive-never, length-advance,
}
use vm_automation_deployment.Wire.Stream.Laws.{
  more_assoc, feed-NeverZero, drain-step, drain_fuel, feed-IsShort, drain-feed, feed-append,
  feed-nil, length-feed,
}
use vm_automation_deployment.Wire.Loops.{
  bytes_of, view, AtMostOne, IsSettled, view-deliver, deliver-AtMostOne, deliver-NeverZero,
  view-deliver_all,
}

module _ {S H : Type 0} (callback : Callback S H) where
  combine-AtMostOne : (n : ℕ) (bs : List Bytes) → AtMostOne bs → combine n bs ≡ bs
  unfolding combine
  combine-AtMostOne n [] one = refl
  combine-AtMostOne n (b ∷ []) one = refl
  combine-AtMostOne n (b ∷ c ∷ bs) one = absurd one

  -- The loops after the first branch, from a reader with one block.
  deliver_all-feed :
      (f g : ℕ) (r : Reader S H) (bs : List Bytes)
      → AtMostOne bs
      → NeverZero callback (view (record r { buffers = bs }))
      → length (bytes_of bs) ≤ f
      → length (bytes_of bs) ≤ g
      → let q = record r { buffers = bs } in
        let q' = deliver_all callback f (record q { buffers = combine q.needed q.buffers }) in
        (view q' ≡ drain callback g (view q)) × AtMostOne q'.buffers
  deliver_all-feed f g r bs one p hf hg = rw (combine-AtMostOne r.needed bs one) (
      let h = view-deliver_all callback f bs r one p in
      (h.0 ∙ drain_fuel callback f g (view (record r { buffers = bs })) p hf hg, h.1))

  inbound-step :
      (fuel : ℕ) (r : Reader S H) (mb : Bytes)
      → 0 < r.needed
      → inbound callback fuel r mb ≡ (
          let q = enqueue callback r mb in
          deliver_all callback fuel (record q { buffers = combine q.needed q.buffers }))
  unfolding inbound
  inbound-step fuel r mb p = ground arith

  enqueue-long :
      (r : Reader S H) (mb : Bytes)
      → r.needed ≤ length mb
      → enqueue callback (record r { buffers = [] }) mb
        ≡ deliver callback (record r { buffers = [] }) mb []
  unfolding enqueue
  enqueue-long r mb h = ground arith

  enqueue-short :
      (r : Reader S H) (mb : Bytes)
      → length mb < r.needed
      → enqueue callback (record r { buffers = [] }) mb ≡ record r { buffers = mb ∷ [] }
  unfolding enqueue
  enqueue-short r mb h = ground arith

  -- A short block in front takes the next one in.
  enqueue-combine :
      (r : Reader S H) (b mb : Bytes)
      → length b < r.needed
      → (let q = enqueue callback (record r { buffers = b ∷ [] }) mb in
          record q { buffers = combine q.needed q.buffers })
        ≡ record r { buffers = (b ++ mb) ∷ [] }
  unfolding enqueue combine combine_array_buffers
  enqueue-combine r b mb h = ground arith

  -- The stream of a reader that holds the blocks, with the bytes behind.
  abbrev ahead : Reader S H → List Bytes → Bytes → Stream S H
  ahead r bs mb = record (view r) { pending = bytes_of bs ++ mb }

  inbound_from :
      (fuel : ℕ) (r : Reader S H) (bs : List Bytes) (mb : Bytes)
      → AtMostOne bs
      → length (bytes_of bs) < r.needed
      → NeverZero callback (ahead r bs mb)
      → length (bytes_of bs) + length mb ≤ fuel
      → let q = inbound callback fuel (record r { buffers = bs }) mb in
        (view q ≡ feed callback (view (record r { buffers = bs })) mb) × AtMostOne q.buffers
  inbound_from fuel r [] mb one short p enough = elim (Bool-cases (leb r.needed (length mb))) [
    | inl e ↦
        let r0 = record r { buffers = [] } in
        let q = deliver callback r0 mb [] in
        let le : r.needed ≤ length mb = leb→le _ _ e in
        rw (inbound-step fuel r0 mb short, enqueue-long r mb le)
          (let v = view-deliver callback r0 mb [] le in
            let whole : NeverZero callback (record (view r0) { pending = mb ++ [] }) =
              rw append-nil p in
            let bound : length (bytes_of q.buffers) ≤ fuel =
              rw
                (
                  ap (λ (s : Stream S H). length s.pending) v,
                  length-advance callback (record (view r0) { pending = mb ++ [] }),
                  append-nil,
                )
                (omega arith) in
            let d =
              deliver_all-feed fuel fuel q q.buffers (deliver-AtMostOne callback r0 mb)
                (deliver-NeverZero callback r0 mb [] le whole) bound bound in
            (
              d.0
                  ∙ ap (drain callback fuel) v
                  ∙ sym (
                      drain-step callback fuel (record (view r0) { pending = mb ++ [] })
                        (rw append-nil le))
                  ∙ rw append-nil (drain-feed callback (suc fuel) (view r0) mb p (omega arith)),
              d.1,
            ))
    | inr e ↦
        let lt : length mb < r.needed = ground arith in
        rw (inbound-step fuel (record r { buffers = [] }) mb short, enqueue-short r mb lt)
          (let d =
              deliver_all-feed fuel fuel r (mb ∷ []) tt (rw append-nil p)
                (rw append-nil (omega arith)) (rw append-nil (omega arith)) in
            (
              d.0
                  ∙ rw append-nil (
                      drain-feed callback fuel (view (record r { buffers = [] })) mb p
                        (omega arith)),
              d.1,
            ))
  ]
  inbound_from fuel r (b ∷ c ∷ bs) mb one short p enough = absurd one
  inbound_from fuel r (b ∷ []) mb one short p enough =
      rw
        (
          inbound-step fuel (record r { buffers = b ∷ [] }) mb (omega arith),
          enqueue-combine r b mb (rw append-nil at short),
        )
        (let h : length ((b ++ mb) ++ []) ≤ fuel =
            rw (append-nil, length-append) (rw append-nil at enough) in
          let r' = view (record r { buffers = [] }) in
          let p' : NeverZero callback (record r' { pending = b ++ mb }) =
            rw (sym (append-nil b)) p in
          let d = view-deliver_all callback fuel ((b ++ mb) ∷ []) r tt (rw append-nil p') in
          (
            d.0
                ∙ rw (append-nil (b ++ mb), append-nil b)
                    (drain-feed callback fuel (record r' { pending = b }) mb p'
                      (rw append-nil at enough)),
            d.1,
          ))

  -- One block: the reader does to its stream what `feed` does, and is settled again.
  pub inbound-refines :
      (fuel : ℕ) (r : Reader S H) (mb : Bytes)
      → IsSettled r
      → NeverZero callback (ahead r r.buffers mb)
      → length (bytes_of r.buffers) + length mb ≤ fuel
      → (view (inbound callback fuel r mb) ≡ feed callback (view r) mb)
        × IsSettled (inbound callback fuel r mb)
  inbound-refines fuel r mb s p enough =
      let h = inbound_from fuel r r.buffers mb s.one s.short p enough in
      (
        h.0,
        record { one = h.1; short = subst IsShort (sym h.0) (feed-IsShort callback (view r) mb p) },
      )

  blocks-refine :
      (fuel : ℕ) (r : Reader S H) (mbs : List Bytes)
      → IsSettled r
      → NeverZero callback (ahead r r.buffers (bytes_of mbs))
      → length (bytes_of r.buffers) + length (bytes_of mbs) ≤ fuel
      → let q = wire_blob_catcher callback fuel r mbs in
        (view q ≡ feed callback (view r) (bytes_of mbs)) × IsSettled q
  unfolding wire_blob_catcher
  blocks-refine fuel r [] s p enough = (sym (feed-nil callback (view r) s.short), s)
  blocks-refine fuel r (mb ∷ mbs) s p enough =
      let first : NeverZero callback (ahead r r.buffers mb) =
        never-prefix callback (ahead r r.buffers mb) (bytes_of mbs)
          (more_assoc callback (view r) mb (bytes_of mbs) p) in
      let one =
        inbound-refines fuel r mb s first (omega (arith, length-append mb (bytes_of mbs))) in
      let q = inbound callback fuel r mb in
      let bound : length (bytes_of q.buffers) ≤ length (bytes_of r.buffers) + length mb =
        rw (ap (λ (t : Stream S H). length t.pending) one.0) (length-feed callback (view r) mb) in
      let next : NeverZero callback (ahead q q.buffers (bytes_of mbs)) =
        subst (λ t. NeverZero callback (more t (bytes_of mbs))) (sym one.0)
          (feed-NeverZero callback (view r) mb (bytes_of mbs) p) in
      let rest =
        blocks-refine fuel q mbs one.1 next
          (omega (arith, bound, length-append mb (bytes_of mbs))) in
      (rest.0 ∙ rw one.0 (feed-append callback (view r) mb (bytes_of mbs) p), rest.1)

  -- From a settled reader, where no message of the stream (the bytes that wait and those of the
  -- blocks) makes the connection ask for zero bytes next, and with fuel for all bytes: after any
  -- sequence of blocks the connection, the size it asks for, the saved header and the bytes that
  -- wait are those of the stream fed the same bytes in one piece, so the messages do not depend on
  -- how the bytes were cut into blocks; and the reader is settled again: at most one block waits,
  -- shorter than the message asked for.
  pub wire_blob_catcher-refines :
      (fuel : ℕ) (r : Reader S H) (mbs : List Bytes)
      → IsSettled r
      → (let s = ahead r r.buffers (bytes_of mbs) in
          asks_positive callback (length s.pending) s ≡ true)
      → length (bytes_of r.buffers) + length (bytes_of mbs) ≤ fuel
      → let q = wire_blob_catcher callback fuel r mbs in
        (view q ≡ feed callback (view r) (bytes_of mbs)) × IsSettled q
  wire_blob_catcher-refines fuel r mbs s p enough =
      let all = ahead r r.buffers (bytes_of mbs) in
      blocks-refine fuel r mbs s
        (asks_positive-never callback (length all.pending) all p (omega arith)) enough
