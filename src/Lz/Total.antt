-- ===== src/Lz/Total.antt =====
-- lz.js: the loop of the decoder ends, and keeps the length of the image.
use vm_automation_deployment.Common.{
  ℕ, zero, suc, ◌+◌, ◌-◌, ◌/◌, ◌*◌, ◌≤◌, ◌<◌, ◌≡◌, refl, ap, ◌∙◌, ◌⊎◌, inl, inr, Bool, true, false,
  [], ◌∷◌, Option, none, some, length, length-set, ltb, leb, if◌then◌else◌, Bool-cases, arith,
}
use vm_automation_deployment.Wire.{Bytes}
use vm_automation_deployment.Lz.{
  State, next, stored, add, rounds, is_one, source, channel, copy_pixel, repeat_pixel, copy_pixels,
  literal, literals, read_len, read_ref_len, read_offset, copy_run, reference, step, round,
  decompress,
}

length-copy_pixel :
    (rgba : Bool) (op : ℕ) (src : Option ℕ) (out : Bytes)
    → length (copy_pixel rgba op src out) ≡ length out
unfolding copy_pixel
length-copy_pixel true op src out = length-set out (op * 4 + 3) (channel out src 3)
length-copy_pixel false op src out = simp length-set

length-repeat_pixel :
    (rgba : Bool) (n op : ℕ) (b : Option ℕ) (out : Bytes)
    → length (repeat_pixel rgba n op b out) ≡ length out
unfolding repeat_pixel
length-repeat_pixel rgba zero op b out = refl
length-repeat_pixel rgba (suc n) op b out =
    length-repeat_pixel rgba n (suc op) b (copy_pixel rgba op b out)
    ∙ length-copy_pixel rgba op b out

length-copy_pixels :
    (rgba : Bool) (n op : ℕ) (ofs : Option ℕ) (out : Bytes)
    → length (copy_pixels rgba n op ofs out) ≡ length out
unfolding copy_pixels
length-copy_pixels rgba zero op ofs out = refl
length-copy_pixels rgba (suc n) op ofs out =
    length-copy_pixels rgba n (suc op) ofs (copy_pixel rgba op (source op ofs) out)
    ∙ length-copy_pixel rgba op (source op ofs) out

length-if :
    (b : Bool) (xs ys zs : Bytes)
    → length xs ≡ length zs
    → length ys ≡ length zs
    → length (if b then xs else ys) ≡ length zs
length-if true xs ys zs h h' = h
length-if false xs ys zs h h' = h'

literal_lem :
    (rgba default_alpha : Bool) (s : State)
    → ((literal rgba default_alpha s).op ≡ suc s.op)
      × (length (literal rgba default_alpha s).out ≡ length s.out)
unfolding literal
literal_lem true default_alpha s = (refl, length-set s.out (s.op * 4 + 3) _)
literal_lem false true s = (refl, simp length-set)
literal_lem false false s = (refl, simp length-set)

literals_lem :
    (rgba default_alpha : Bool) (n : ℕ) (s : State)
    → ((literals rgba default_alpha n s).op ≡ s.op + n)
      × (length (literals rgba default_alpha n s).out ≡ length s.out)
unfolding literals
literals_lem rgba default_alpha zero s = (omega arith, refl)
literals_lem rgba default_alpha (suc n) s =
    let one = literal_lem rgba default_alpha s in
    let rest = literals_lem rgba default_alpha n (literal rgba default_alpha s) in
    (omega (arith, one.0, rest.0), rest.1 ∙ one.1)

-- A length that is not read leaves no input.
read_len-end :
    (len : ℕ) (input : Bytes) → ((read_len len input).0 ≡ none) → (read_len len input).1 ≡ []
unfolding read_len
read_len-end len [] h = refl
read_len-end len (code ∷ rest) h = ground (arith, read_len-end (len + code) rest)

read_ref_len-end :
    (ctrl : ℕ) (input : Bytes)
    → (read_ref_len ctrl input).0 ≡ none
    → ((read_ref_len ctrl input).1 ≡ [])
unfolding read_ref_len
read_ref_len-end ctrl input h = ground (arith, read_len-end (ctrl / 32 - 1) input)

read_offset-end : (ctrl : ℕ) → (read_offset ctrl []).1 ≡ []
unfolding read_offset
read_offset-end ctrl = refl

-- A reference goes forward, or has used up the input.
abbrev Moves : State → State → Type 0
Moves s s' = (s.op < s'.op) ⊎ ((s.op ≡ s'.op) × (s'.input ≡ []))

advance :
    (rgba : Bool) (len : Option ℕ) (op : ℕ)
    → let op' = op + rounds (add len (if rgba then 3 else 1)) in
      (op < op') ⊎ ((op ≡ op') × (len ≡ none))
advance rgba none op = inr (omega arith, refl)
advance true (some n) op = inl (omega arith)
advance false (some n) op = inl (omega arith)

reference-Moves : (rgba : Bool) (ctrl : ℕ) (s : State) → Moves s (reference rgba ctrl s)
unfolding reference
reference-Moves rgba ctrl s = elim (advance rgba (read_ref_len ctrl s.input).0 s.op) [
  | inl h ↦ inl h
  | inr (h, e) ↦ inr (
    h,
    ap (λ rest. (read_offset ctrl rest).1) (read_ref_len-end ctrl s.input e) ∙ read_offset-end ctrl,
  )
]

length-copy_run :
    (rgba : Bool) (n : ℕ) (distance : Option ℕ) (op : ℕ) (out : Bytes)
    → length (copy_run rgba n distance op out) ≡ length out
unfolding copy_run
length-copy_run rgba n distance op out =
    length-if (is_one distance) (repeat_pixel rgba n op (source op distance) out)
      (copy_pixels rgba n op distance out) out
      (length-repeat_pixel rgba n op (source op distance) out)
      (length-copy_pixels rgba n op distance out)

length-reference :
    (rgba : Bool) (ctrl : ℕ) (s : State) → length (reference rgba ctrl s).out ≡ length s.out
unfolding reference
length-reference rgba ctrl s =
    let (len, rest) = read_ref_len ctrl s.input in
    length-copy_run rgba (rounds (add len (if rgba then 3 else 1)))
      (add (read_offset ctrl rest).0 1) s.op s.out

abbrev more_input : Bytes → ℕ
more_input [] = 0
more_input (b ∷ bs) = 1

-- How much is left to do, of which each round does some.
abbrev pub left : State → ℕ
left s = 2 * (length s.out - s.op) + more_input s.input

more_input-le : (bs : Bytes) → more_input bs ≤ 1
more_input-le [] = omega arith
more_input-le (b ∷ bs) = omega arith

-- A round that moves does some, where the image is not full.
Moves-left :
    (n : ℕ) (s s' : State)
    → s.op < n
    → length s.out ≡ n
    → length s'.out ≡ n
    → (s.op < s'.op) ⊎ ((s.op ≡ s'.op) × (s'.input ≡ []) × (more_input s.input ≡ 1))
    → left s' < left s
Moves-left n s s' h e e' (inl m) = omega (arith, more_input-le s.input, more_input-le s'.input)
Moves-left n s s' h e e' (inr (m, none_left, some_before)) = omega (arith, ap more_input none_left)

literals-Moves :
    (rgba default_alpha : Bool) (n : ℕ) (s : State)
    → s.op < (literals rgba default_alpha (suc n) s).op
literals-Moves rgba default_alpha n s = omega (arith, (literals_lem rgba default_alpha (suc n) s).0)

length-step :
    (rgba default_alpha : Bool) (ctrl : ℕ) (s : State)
    → length (step rgba default_alpha ctrl s).out ≡ length s.out
unfolding step
length-step rgba default_alpha ctrl s = elim (Bool-cases (leb 32 ctrl)) [
  | inl e ↦ rw e (length-reference rgba ctrl s)
  | inr e ↦ rw e (literals_lem rgba default_alpha (suc ctrl) s).1
]

pub length-round :
    (rgba default_alpha : Bool) (s : State) → length (round rgba default_alpha s).out ≡ length s.out
unfolding round
length-round rgba default_alpha s =
    let (ctrl, rest) = next s.input in
    length-step rgba default_alpha (stored ctrl) (record s { input = rest })

step-Moves :
    (rgba default_alpha : Bool) (ctrl : ℕ) (s : State)
    → (s.op < (step rgba default_alpha ctrl s).op)
      ⊎ ((s.op ≡ (step rgba default_alpha ctrl s).op)
          × ((step rgba default_alpha ctrl s).input ≡ [])
          × (leb 32 ctrl ≡ true))
unfolding step
step-Moves rgba default_alpha ctrl s = elim (Bool-cases (leb 32 ctrl)) [
  | inl e ↦
      rw e (elim (reference-Moves rgba ctrl s) [ inl h ↦ inl h | inr (h, r) ↦ inr (h, r, refl) ])
  | inr e ↦ rw e (inl (literals-Moves rgba default_alpha ctrl s))
]

step-left :
    (rgba default_alpha : Bool) (ctrl : ℕ) (rest : Bytes) (s : State)
    → s.op < length s.out
    → (leb 32 ctrl ≡ true → more_input s.input ≡ 1)
    → left (step rgba default_alpha ctrl (record s { input = rest })) < left s
step-left rgba default_alpha ctrl rest s h before =
    let s' : State = record s { input = rest } in
    Moves-left (length s.out) s (step rgba default_alpha ctrl s') h refl
      (length-step rgba default_alpha ctrl s')
      (elim (step-Moves rgba default_alpha ctrl s') [
        | inl m ↦ inl m
        | inr (m, used, e) ↦ inr (m, used, before e)
      ])

ctrl_before : (input : Bytes) → leb 32 (stored (next input).0) ≡ true → more_input input ≡ 1
ctrl_before [] h = cc h
ctrl_before (b ∷ bs) h = refl

round-left :
    (rgba default_alpha : Bool) (s : State)
    → s.op < length s.out
    → left (round rgba default_alpha s) < left s
unfolding round
round-left rgba default_alpha s h =
    step-left rgba default_alpha (stored (next s.input).0) (next s.input).1 s h
      (ctrl_before s.input)

-- With fuel for two rounds for each byte of the image, and one, the decoder ends, whatever the
-- input: the image is full, and as long as before.
pub decompress_total :
    (rgba default_alpha : Bool) (fuel : ℕ) (s : State)
    → left s ≤ fuel
    → (s' : State) × (decompress rgba default_alpha fuel s ≡ some s')
      × (length s'.out ≡ length s.out)
      × (length s'.out ≤ s'.op * 4)
unfolding decompress
decompress_total rgba default_alpha zero s h = (s, ground arith, refl, omega arith)
decompress_total rgba default_alpha (suc fuel) s h =
    elim (Bool-cases (ltb (s.op * 4) (length s.out))) [
      | inl e ↦
          let s1 = round rgba default_alpha s in
          let less : left s1 < left s = round-left rgba default_alpha s (ground arith) in
          let (s', ends, same, full) = decompress_total rgba default_alpha fuel s1 (omega arith) in
          (s', rw e ends, same ∙ length-round rgba default_alpha s, full)
      | inr e ↦ (s, rw e refl, refl, ground arith)
    ]
