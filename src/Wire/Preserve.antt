-- ===== src/Wire/Preserve.antt =====
-- portal/static/spice-html5/wire.js: what the callback preserves, the reader preserves.
use vm_automation_deployment.Common.{
  ℕ, zero, suc, Bool, true, false, List, [], ◌∷◌, ◌++◌, Option, ltb, leb, ◌==◌, take, drop, length,
  if◌then◌else◌,
}
use vm_automation_deployment.Wire.{
  Bytes, Command, request, save_header, clear_header, Reader, Callback, command, commands, call,
  deliver, deliver_all, enqueue, inbound, combine, wire_blob_catcher,
}

module _ {S H : Type 0} (callback : Callback S H) (P : S → Type 0)
    (keeps : (s : S) (mb : Bytes) (h : Option H) → P s → P (callback s mb h).0) where
  commands-keeps : (cs : List (Command H)) (r : Reader S H) → P r.sc → P (commands cs r).sc
  unfolding commands command
  commands-keeps [] r p = p
  commands-keeps (request n ∷ cs) r p = commands-keeps cs (command (request n) r) p
  commands-keeps (save_header h ∷ cs) r p = commands-keeps cs (command (save_header h) r) p
  commands-keeps (clear_header ∷ cs) r p = commands-keeps cs (command clear_header r) p

  call-keeps : (r : Reader S H) (mb : Bytes) → P r.sc → P (call callback r mb).sc
  unfolding call
  call-keeps r mb p =
      let (s, cs) = callback r.sc mb r.saved_msg_header in
      commands-keeps cs (record r { sc = s }) (keeps r.sc mb r.saved_msg_header p)

  deliver-keeps :
      (r : Reader S H) (mb : Bytes) (bs : List Bytes) → P r.sc → P (deliver callback r mb bs).sc
  unfolding deliver
  deliver-keeps r mb bs p =
      call-keeps
        (record r { buffers = if ltb r.needed (length mb) then drop r.needed mb ∷ bs else bs })
        (take r.needed mb) p

  if-keeps : (b : Bool) (q r : Reader S H) → P q.sc → P r.sc → P (if b then q else r).sc
  if-keeps true q r p p' = p
  if-keeps false q r p p' = p'

  -- A round of deliver_all.
  abbrev deliver_next : ℕ → Reader S H → List Bytes → Reader S H
  deliver_next fuel r bs = elim bs [
    | [] ↦ r
    | b ∷ bs ↦
        let rest = deliver_all callback fuel (deliver callback r b bs) in
        if leb r.needed (length b) then rest else r
  ]

  deliver_all-keeps : (fuel : ℕ) (r : Reader S H) → P r.sc → P (deliver_all callback fuel r).sc
  unfolding deliver_all
  deliver_all-keeps zero r p = p
  deliver_all-keeps (suc fuel) r p = elim r.buffers as (λ bs. P (deliver_next fuel r bs).sc) [
    | [] ↦ p
    | b ∷ bs ↦
        if-keeps (leb r.needed (length b)) (deliver_all callback fuel (deliver callback r b bs)) r
          (deliver_all-keeps fuel (deliver callback r b bs) (deliver-keeps r b bs p)) p
  ]

  abbrev enqueue_next : Reader S H → Bytes → List Bytes → Reader S H
  enqueue_next r mb bs = elim bs [
    | [] ↦
        if leb r.needed (length mb)
        then deliver callback r mb []
        else record r { buffers = mb ∷ [] }
    | b ∷ bs ↦ record r { buffers = (b ∷ bs) ++ (mb ∷ []) }
  ]

  enqueue-keeps : (r : Reader S H) (mb : Bytes) → P r.sc → P (enqueue callback r mb).sc
  unfolding enqueue
  enqueue-keeps r mb p = elim r.buffers as (λ bs. P (enqueue_next r mb bs).sc) [
    | [] ↦
        if-keeps (leb r.needed (length mb)) (deliver callback r mb [])
          (record r { buffers = mb ∷ [] }) (deliver-keeps r mb [] p) p
    | b ∷ bs ↦ p
  ]

  inbound-keeps :
      (fuel : ℕ) (r : Reader S H) (mb : Bytes) → P r.sc → P (inbound callback fuel r mb).sc
  unfolding inbound
  inbound-keeps fuel r mb p =
      let q = enqueue callback r mb in
      if-keeps (r.needed == 0) (record r { buffers = r.buffers ++ (mb ∷ []) })
        (deliver_all callback fuel (record q { buffers = combine q.needed q.buffers })) p
        (deliver_all-keeps fuel (record q { buffers = combine q.needed q.buffers })
          (enqueue-keeps r mb p))

  -- A property of the connection that its callback keeps holds after any blocks.
  pub wire_blob_catcher-keeps :
      (fuel : ℕ) (r : Reader S H) (mbs : List Bytes)
      → P r.sc
      → P (wire_blob_catcher callback fuel r mbs).sc
  unfolding wire_blob_catcher
  wire_blob_catcher-keeps fuel r [] p = p
  wire_blob_catcher-keeps fuel r (mb ∷ mbs) p =
      wire_blob_catcher-keeps fuel (inbound callback fuel r mb) mbs (inbound-keeps fuel r mb p)
