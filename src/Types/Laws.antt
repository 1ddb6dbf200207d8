-- ===== src/Types/Laws.antt =====
-- Reading behind a known part of the buffer.
use Prim.Native.Nat.{bit_or, min}
use vm_automation_deployment.Common.{
  ℕ, ◌+◌, ◌-◌, ◌%◌, ◌^◌, ◌≡◌, refl, sym, ap, ◌∙◌, true, false, [], ◌∷◌, ◌++◌, some, length, take,
  drop, arith, append_assoc, length-append,
}
use vm_automation_deployment.Common.Int.{ℤ, pos}
use vm_automation_deployment.Wire.{Bytes}
use vm_automation_deployment.DataView.{to_int32, to_uint32, shl, get_uint8, get_uint32, get_uint64}
use vm_automation_deployment.DataView.Append.{
  get_uint8-append, get_uint16-behind, get_uint32-behind,
}
use vm_automation_deployment.DataView.RoundTrip.{
  word, half_word, length-word, length-half_word, get_uint32_front, get_uint16_front,
}
use vm_automation_deployment.ArrayBuffer.Slice.{array_buffer_slice}
use vm_automation_deployment.Types.Place.{
  Place, read8, read16, read32, read32_big, read64, slice_until, forward,
}

-- Behind `d`, in front of `r`.
unfoldable pub on : Bytes → Bytes → Place
on d r = record { buf = d ++ r; at = pos (length d) }

on-eq : (d r : Bytes) {c : Place} → c.buf ≡ d ++ r → c.at ≡ pos (length d) → c ≡ on d r
unfolding on
on-eq d r e f = λ i. record { buf = e i; at = f i }

-- `n` bytes further.
abbrev further : Place → ℕ → Place
further c n = record c { at = forward c.at n }

-- Behind some more of the buffer.
moved : (d x r : Bytes) (n : ℕ) → length x ≡ n → further (on d (x ++ r)) n ≡ on (d ++ x) r
unfolding on forward
moved d x r n h =
    on-eq (d ++ x) r {c = further (on d (x ++ r)) n} (sym (append_assoc d x r))
      (ap pos (omega (arith, length-append d x)))

pub read32-on :
    (d r : Bytes) (w : ℤ)
    → read32 (on d (word w true ++ r)) ≡ (to_int32 (to_uint32 w), on (d ++ word w true) r)
unfolding read32 on
read32-on d r w = λ i. (
  (get_uint32-behind d (word w true ++ r) 0 (length d) (omega arith) true
        ∙ get_uint32_front w r true)
      i,
  moved d (word w true) r 4 (length-word w true) i,
)

pub read32_big-on :
    (d r : Bytes) (w : ℤ)
    → read32_big (on d (word w false ++ r)) ≡ (to_int32 (to_uint32 w), on (d ++ word w false) r)
unfolding read32_big on
read32_big-on d r w = λ i. (
  (get_uint32-behind d (word w false ++ r) 0 (length d) (omega arith) false
        ∙ get_uint32_front w r false)
      i,
  moved d (word w false) r 4 (length-word w false) i,
)

pub read16-on :
    (d r : Bytes) (w : ℤ)
    → read16 (on d (half_word w true ++ r)) ≡ (to_uint32 w % 2 ^ 16, on (d ++ half_word w true) r)
unfolding read16 on
read16-on d r w = λ i. (
  (get_uint16-behind d (half_word w true ++ r) 0 (length d) (omega arith) true
        ∙ get_uint16_front w r true)
      i,
  moved d (half_word w true) r 2 (length-half_word w true) i,
)

pub read8-on : (d r : Bytes) (x : ℕ) → read8 (on d (x ∷ r)) ≡ (some x, on (d ++ (x ∷ [])) r)
unfolding read8 on get_uint8
read8-on d r x =
    λ i. (get_uint8-append d (x ∷ r) 0 (length d) (omega arith) i, moved d (x ∷ []) r 1 refl i)

-- What a number of two words, the low one first, is read as.
abbrev pub joined : ℤ → ℤ → ℤ
joined low high =
    to_int32 (
      bit_or (shl (to_uint32 (to_int32 (to_uint32 high))) 32)
        (to_uint32 (to_int32 (to_uint32 low))))

pos-forward : (m n : ℕ) → forward (pos m) n ≡ pos (m + n)
unfolding forward
pos-forward m n = refl

pub read64-on :
    (d r : Bytes) (low high : ℤ)
    → read64 (on d (word low true ++ (word high true ++ r)))
      ≡ (joined low high, on (d ++ (word low true ++ word high true)) r)
unfolding read64 on get_uint64
read64-on d r low high =
    let whole = word low true ++ (word high true ++ r) in
    let front =
      get_uint32-behind d whole 0 (length d + 0) (omega arith) true ∙ get_uint32_front low _ true in
    let high_front : get_uint32 whole 4 true ≡ to_int32 (to_uint32 high) =
      get_uint32-behind (word low true) (word high true ++ r) 0 4
        (omega (arith, length-word low true)) true
      ∙ get_uint32_front high r true in
    let back = get_uint32-behind d whole 4 (length d + 4) (omega arith) true ∙ high_front in
    let both = word low true ++ word high true in
    λ i. (
      to_int32 (bit_or (shl (to_uint32 (back i)) 32) (to_uint32 (front i))),
      on-eq (d ++ both) r {c = record { buf = d ++ whole; at = forward (pos (length d)) 8 }}
          (ap (λ t. d ++ t) (sym (append_assoc (word low true) (word high true) r))
            ∙ sym (append_assoc d both r))
          (pos-forward (length d) 8
            ∙ ap pos (
                omega (
                  arith,
                  length-append d both,
                  length-append (word low true) (word high true),
                  length-word low true,
                  length-word high true,
                )))
          i,
    )

drop-length : (d r : Bytes) → drop (length d) (d ++ r) ≡ r
drop-length [] r = refl
drop-length (x ∷ d) r = drop-length d r

take-length : (b r : Bytes) → take (length b) (b ++ r) ≡ b
take-length [] r = refl
take-length (x ∷ b) r = ap (λ t. x ∷ t) (take-length b r)

-- The slice between two positions in the buffer.
slice_between :
    (d b r : Bytes)
    → array_buffer_slice (d ++ (b ++ r)) (some (pos (length d))) (some (pos (length d + length b)))
      ≡ b
slice_between d b r =
    let len : length (d ++ (b ++ r)) ≡ length d + (length b + length r) =
      omega (arith, length-append d (b ++ r), length-append b r) in
    let first : min (length d) (length (d ++ (b ++ r))) ≡ length d = rw len (omega arith) in
    let final : min (length d + length b) (length (d ++ (b ++ r))) ≡ length d + length b =
      rw len (omega arith) in
    let size : length d + length b - length d ≡ length b = omega arith in
    rw (first, final, size, drop-length d (b ++ r)) (take-length b r)

-- The bytes from `at` to an end within the buffer.
pub slice_until-on :
    (d b r : Bytes) (end : ℤ → ℤ)
    → end (pos (length d)) ≡ pos (length d + length b)
    → slice_until end (on d (b ++ r)) ≡ (b, on (d ++ b) r)
unfolding slice_until on
slice_until-on d b r end h =
    let c = on d (b ++ r) in
    let part : array_buffer_slice (d ++ (b ++ r)) (some (pos (length d)))
          (some (end (pos (length d))))
        ≡ b =
      rw h (slice_between d b r) in
    ap (λ t. (t, further c (length t))) part ∙ λ i. (b, moved d b r (length b) refl i)
