-- ===== src/Lz/RoundTrip.antt =====
-- lz.js: the decoder gives the pixels that the tokens of a stream stand for.
use vm_automation_deployment.Common.{
  ℕ, zero, suc, ◌+◌, ◌-◌, ◌*◌, ◌/◌, ◌%◌, ◌≤◌, ◌<◌, ◌≡◌, refl, sym, ap, ◌∙◌, true, false, List, [],
  ◌∷◌, ◌++◌, some, length, length-append, leb, ltb, ◌==◌, ◌&&◌, Bool-cases, inl, inr, arith,
}
use vm_automation_deployment.Wire.{Bytes}
use vm_automation_deployment.Lz.{
  read_len, read_ref_len, far_offset, read_offset, reference, step, round, decompress,
}
use vm_automation_deployment.Lz.Pixels.{Pixel, flat, room, length-flat}
use vm_automation_deployment.Lz.Tokens.{
  Colour, Token, colours, run, opaque, paint, extend, expand_token, expand, size, rooms, full_bytes,
  len_ctrl, len_bytes, ofs_ctrl, ofs_bytes, encode_token, encode, FitsToken, Fits,
}
use vm_automation_deployment.Lz.Copies.{
  state, length-snoc, literals-state, copy_run-flat, length-extend,
}

read_len-bytes :
    (q l x : ℕ) (rest : Bytes)
    → x < 255
    → read_len l (full_bytes q (x ∷ rest)) ≡ (some (l + 255 * q + x), rest)
unfolding read_len
read_len-bytes zero l x rest h = ground arith
read_len-bytes (suc q) l x rest h =
    let sum : l + 255 + 255 * q + x ≡ l + 255 * suc q + x = omega arith in
    read_len-bytes q (l + 255) x rest h ∙ ap (λ n. (some n, rest)) sum

ofs_ctrl-lt : (o : ℕ) → ofs_ctrl o < 32
ofs_ctrl-lt o = elim (Bool-cases (ltb o 8191)) [ inl e ↦ ground arith | inr e ↦ ground arith ]

read_ref_len-bytes :
    (l c : ℕ) (rest : Bytes)
    → c < 32
    → read_ref_len (len_ctrl l * 32 + c) (len_bytes l rest) ≡ (some l, rest)
unfolding read_ref_len
read_ref_len-bytes l c rest h = elim (Bool-cases (ltb l 6)) [
  | inl e ↦
      let short : (suc l * 32 + c) / 32 - 1 ≡ l = omega arith in
      let other : (l == 6) ≡ false = ground arith in rw (e, short, other) refl
  | inr e ↦
      let long : (7 * 32 + c) / 32 - 1 ≡ 6 = omega arith in
      let sum : 6 + 255 * ((l - 6) / 255) + (l - 6) % 255 ≡ l = ground arith in
      rw (e, long)
        (read_len-bytes ((l - 6) / 255) 6 ((l - 6) % 255) rest (omega arith)
          ∙ ap (λ n. (some n, rest)) sum)
]

read_offset-bytes :
    (a o : ℕ) (rest : Bytes)
    → o < 73727
    → read_offset (a * 32 + ofs_ctrl o) (ofs_bytes o rest) ≡ (some o, rest)
unfolding read_offset far_offset
read_offset-bytes a o rest h = elim (Bool-cases (ltb o 8191)) [
  | inl e ↦
      let high : (a * 32 + o / 256) % 32 ≡ o / 256 = ground arith in
      let near : (o % 256 == 255 && o / 256 * 256 == 31 * 256) ≡ false = ground arith in
      let sum : o % 256 + o / 256 * 256 ≡ o = omega arith in rw (e, high, near, sum) refl
  | inr e ↦
      let high : (a * 32 + 31) % 32 ≡ 31 = omega arith in
      let sum : (o - 8191) % 256 + ((o - 8191) / 256 * 256 + 8191) ≡ o = ground arith in
      rw (e, high, sum) refl
]

reference-run :
    (len ofs : ℕ) (rest : Bytes) (ps : List Pixel) (r : Bytes)
    → 1 ≤ len
    → 1 ≤ ofs
    → ofs ≤ length ps
    → ofs ≤ 73727
    → let l = len - 1 in
      let o = ofs - 1 in
      reference false
        (len_ctrl l * 32 + ofs_ctrl o)
        (state (len_bytes l (ofs_bytes o rest)) ps (room len r))
      ≡ state rest (extend len ofs ps) r
unfolding reference
reference-run len ofs rest ps r h h' h'' k =
    let l = len - 1 in
    let o = ofs - 1 in
    let count : l + 1 ≡ len = omega arith in
    let distance : o + 1 ≡ ofs = omega arith in
    rw
      (
        read_ref_len-bytes l (ofs_ctrl o) (ofs_bytes o rest) (ofs_ctrl-lt o),
        read_offset-bytes (len_ctrl l) o rest (omega arith),
        count,
        distance,
        copy_run-flat len ofs ps r h' h'',
        sym (length-extend len ofs ps),
      )
      refl

length-paint : (cs : List Colour) (ps : List Pixel) → length (paint ps cs) ≡ length ps + length cs
length-paint [] ps = omega arith
length-paint (c ∷ cs) ps =
    omega (arith, length-paint cs (ps ++ (opaque c ∷ [])), length-snoc ps (opaque c))

length-expand_token :
    (t : Token) (ps : List Pixel) → length (expand_token ps t) ≡ length ps + size t
length-expand_token (colours cs) ps = length-paint cs ps
length-expand_token (run len ofs) ps = length-extend len ofs ps

round-token :
    (t : Token) (rest : Bytes) (ps : List Pixel) (r : Bytes)
    → FitsToken (length ps) t
    → round false true (state (encode_token t rest) ps (room (size t) r))
      ≡ state rest (expand_token ps t) r
unfolding round step
round-token (colours cs) rest ps r (h, h') =
    let low : leb 32 (length cs - 1) ≡ false = ground arith in
    let count : suc (length cs - 1) ≡ length cs = omega arith in
    rw (low, count) (literals-state cs rest ps r)
round-token (run len ofs) rest ps r (h, h', h'', k) =
    let high : leb 32 (len_ctrl (len - 1) * 32 + ofs_ctrl (ofs - 1)) ≡ true = ground arith in
    rw high (reference-run len ofs rest ps r h h' h'' k)

FitsToken-size : (n : ℕ) (t : Token) → FitsToken n t → 1 ≤ size t
FitsToken-size n (colours cs) (h, h') = h
FitsToken-size n (run len ofs) (h, h', h'', k) = h

length-room : (n : ℕ) (r : Bytes) → 1 ≤ n → 1 ≤ length (room n r)
length-room zero r h = elim h [ ]
length-room (suc n) r h = omega arith

not_full :
    (t : Token) (ps : List Pixel) (r : Bytes)
    → FitsToken (length ps) t
    → ltb (length ps * 4) (length (flat ps ++ room (size t) r)) ≡ true
not_full t ps r h =
    let some_room : 1 ≤ length (room (size t) r) =
      length-room (size t) r (FitsToken-size (length ps) t h) in
    ground (arith, length-append (flat ps) (room (size t) r), length-flat ps)

full : (ps : List Pixel) → ltb (length ps * 4) (length (flat ps ++ [])) ≡ false
full ps = ground (arith, length-append (flat ps) [], length-flat ps)

-- The decoder of an opaque image, given a stream of tokens, each a list of 1 to 32 colours or a
-- run of pixels from among the ones before, with other bytes behind, fills the image with the
-- pixels that the tokens stand for, and leaves the bytes behind.
pub decompress-encode :
    (ts : List Token) (fuel : ℕ) (rest : Bytes) (ps : List Pixel)
    → Fits (length ps) ts
    → length ts ≤ fuel
    → decompress false true fuel (state (encode ts rest) ps (rooms ts))
      ≡ some (state rest (expand ps ts) [])
unfolding decompress
decompress-encode [] zero rest ps fits h = rw (full ps) refl
decompress-encode [] (suc fuel) rest ps fits h = rw (full ps) refl
decompress-encode (t ∷ ts) zero rest ps fits h = elim h [ ]
decompress-encode (t ∷ ts) (suc fuel) rest ps (fit, fits) h =
    let n : length (expand_token ps t) ≡ length ps + size t = length-expand_token t ps in
    rw (not_full t ps (rooms ts) fit, round-token t (encode ts rest) ps (rooms ts) fit)
      (decompress-encode ts fuel rest (expand_token ps t) (rw n fits) (omega arith))
