-- ===== src/DataView/RoundTrip.antt =====
-- What a number written to a buffer is when it is read back, and what the write leaves alone.
use Prim.Native.Nat.{bit_or}
use vm_automation_deployment.Common.{
  ℕ, ◌+◌, ◌*◌, ◌/◌, ◌%◌, ◌^◌, ◌<◌, ◌≡◌, refl, ap, ◌∙◌, Bool, true, false, [], ◌∷◌, ◌++◌, length,
  arith,
}
use vm_automation_deployment.Common.Bits.{bit_or_byte, bit_or_half}
use vm_automation_deployment.Common.Int.{ℤ}
use vm_automation_deployment.Wire.{Bytes}
use vm_automation_deployment.DataView.{
  to_uint32, to_int32, get_uint16, get_uint32, set_uint16, set_uint32,
}
use vm_automation_deployment.DataView.Words.{byte, to_uint32-lt, sar-half, bytes-sum}

-- The four bytes of a number as they stand in the buffer.
unfoldable pub word : ℤ → Bool → Bytes
word w true = let p = to_uint32 w in byte p 0 ∷ byte p 1 ∷ byte p 2 ∷ byte p 3 ∷ []
word w false = let p = to_uint32 w in byte p 3 ∷ byte p 2 ∷ byte p 1 ∷ byte p 0 ∷ []

pub length-word : (w : ℤ) (little : Bool) → length (word w little) ≡ 4
unfolding word
length-word w true = refl
length-word w false = refl

-- The bytes that the two halves write are those of the number.
halves :
    (p t : ℕ)
    → p < 2 ^ 32
    → t % 2 ^ 16 ≡ p / 2 ^ 16
    → (p % 65536 % 4294967296 % 256 ≡ byte p 0)
      × (p % 65536 % 4294967296 % 65536 / 256 ≡ byte p 1)
      × (t % 256 ≡ byte p 2)
      × (t % 65536 / 256 ≡ byte p 3)
halves p t h e = omega arith

pub set_uint32_front :
    (x0 x1 x2 x3 : ℕ) (r : Bytes) (w : ℤ) (little : Bool)
    → set_uint32 (x0 ∷ x1 ∷ x2 ∷ x3 ∷ r) 0 w little ≡ word w little ++ r
unfolding set_uint32 set_uint16 word
set_uint32_front x0 x1 x2 x3 r w true =
    let h = halves (to_uint32 w) _ (to_uint32-lt w) (sar-half (to_uint32 w) (to_uint32-lt w)) in
    cc (h.0, h.1, h.2, h.3)
set_uint32_front x0 x1 x2 x3 r w false =
    let h = halves (to_uint32 w) _ (to_uint32-lt w) (sar-half (to_uint32 w) (to_uint32-lt w)) in
    cc (h.0, h.1, h.2, h.3)

-- The number that four bytes stand for, most significant first.
joined :
    (a b c d : ℕ)
    → a < 256
    → b < 256
    → c < 256
    → d < 256
    → bit_or (bit_or (a * 256 % 2 ^ 32) b * 65536 % 2 ^ 32) (bit_or (c * 256 % 2 ^ 32) d)
      ≡ (a * 256 + b) * 65536 + (c * 256 + d)
joined a b c d ha hb hc hd =
    let e1 : a * 256 % 2 ^ 32 ≡ a * 256 = omega arith in
    let e2 : c * 256 % 2 ^ 32 ≡ c * 256 = omega arith in
    let e3 : (a * 256 + b) * 65536 % 2 ^ 32 ≡ (a * 256 + b) * 65536 = omega arith in
    rw (e1, e2, bit_or_byte a b hb, bit_or_byte c d hd, e3)
      (bit_or_half (a * 256 + b) (c * 256 + d) (omega arith))

pub get_uint32_front :
    (w : ℤ) (r : Bytes) (little : Bool)
    → get_uint32 (word w little ++ r) 0 little ≡ to_int32 (to_uint32 w)
unfolding get_uint32 get_uint16 word
get_uint32_front w r true = ap to_int32 (
    joined (byte (to_uint32 w) 3) (byte (to_uint32 w) 2) (byte (to_uint32 w) 1)
      (byte (to_uint32 w) 0) (omega arith) (omega arith) (omega arith) (omega arith)
    ∙ bytes-sum (to_uint32 w) (to_uint32-lt w))
get_uint32_front w r false = ap to_int32 (
    joined (byte (to_uint32 w) 3) (byte (to_uint32 w) 2) (byte (to_uint32 w) 1)
      (byte (to_uint32 w) 0) (omega arith) (omega arith) (omega arith) (omega arith)
    ∙ bytes-sum (to_uint32 w) (to_uint32-lt w))

-- Two bytes of a number.
unfoldable pub half_word : ℤ → Bool → Bytes
half_word w true = let p = to_uint32 w in byte p 0 ∷ byte p 1 ∷ []
half_word w false = let p = to_uint32 w in byte p 1 ∷ byte p 0 ∷ []

pub length-half_word : (w : ℤ) (little : Bool) → length (half_word w little) ≡ 2
unfolding half_word
length-half_word w true = refl
length-half_word w false = refl

half_bytes : (p : ℕ) → (p % 256 ≡ byte p 0) × (p % 65536 / 256 ≡ byte p 1)
half_bytes p = omega arith

pub set_uint16_front :
    (x0 x1 : ℕ) (r : Bytes) (w : ℤ) (little : Bool)
    → set_uint16 (x0 ∷ x1 ∷ r) 0 w little ≡ half_word w little ++ r
unfolding set_uint16 half_word
set_uint16_front x0 x1 r w true = let h = half_bytes (to_uint32 w) in cc (h.0, h.1)
set_uint16_front x0 x1 r w false = let h = half_bytes (to_uint32 w) in cc (h.0, h.1)

joined_half : (p : ℕ) → bit_or (byte p 1 * 256 % 2 ^ 32) (byte p 0) ≡ p % 2 ^ 16
joined_half p =
    let e : byte p 1 * 256 % 2 ^ 32 ≡ byte p 1 * 256 = omega arith in
    rw (e, bit_or_byte (byte p 1) (byte p 0) (omega arith)) (omega arith)

pub get_uint16_front :
    (w : ℤ) (r : Bytes) (little : Bool)
    → get_uint16 (half_word w little ++ r) 0 little ≡ to_uint32 w % 2 ^ 16
unfolding get_uint16 half_word
get_uint16_front w r true = joined_half (to_uint32 w)
get_uint16_front w r false = joined_half (to_uint32 w)
