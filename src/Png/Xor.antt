-- ===== src/Png/Xor.antt =====
-- `bit_xor` by its digits.
use Prim.Native.Nat.{bit_xor, differ, digits, bit_xor-bitwise}
use native.Mathlib.Nat.{pow-suc}
use vm_automation_deployment.Common.{
  ℕ, zero, suc, ◌+◌, ◌*◌, ◌/◌, ◌%◌, ◌^◌, ◌≤◌, ◌<◌, ◌≡◌, refl, sym, ap, ◌∙◌, arith,
}

bit_sum : (x y : ℕ) → x < 2 → y < 2 → differ x y ≡ (x + y) % 2
bit_sum zero y h k = omega arith
bit_sum (suc zero) zero h k = refl
bit_sum (suc zero) (suc zero) h k = refl
bit_sum (suc zero) (suc (suc y)) h k = absurd (omega arith)
bit_sum (suc (suc x)) y h k = absurd (omega arith)

abbrev xor_digits : ℕ → ℕ → ℕ → ℕ
xor_digits n a b = digits (λ b. b) differ n a b

-- More rounds than digits change nothing.
xor_digits_fuel : (n m a b : ℕ) → a ≤ n → a ≤ m → xor_digits n a b ≡ xor_digits m a b
xor_digits_fuel zero zero a b p q = refl
xor_digits_fuel zero (suc m) zero b p q = refl
xor_digits_fuel zero (suc m) (suc a) b p q = absurd (omega arith)
xor_digits_fuel (suc n) zero zero b p q = refl
xor_digits_fuel (suc n) zero (suc a) b p q = absurd (omega arith)
xor_digits_fuel (suc n) (suc m) zero b p q = refl
xor_digits_fuel (suc n) (suc m) (suc a) b p q =
    ap (λ t. t * 2 + differ (suc a % 2) (b % 2))
      (xor_digits_fuel n m (suc a / 2) (b / 2) (omega arith) (omega arith))

pub zero-bit_xor : (b : ℕ) → bit_xor 0 b ≡ b
zero-bit_xor b = bit_xor-bitwise 0 b

-- The lowest digit.
pub bit_xor-digit : (a b : ℕ) → bit_xor a b ≡ bit_xor (a / 2) (b / 2) * 2 + (a + b) % 2
bit_xor-digit zero b = omega (arith, zero-bit_xor b, zero-bit_xor (b / 2))
bit_xor-digit (suc a) b = omega (
  arith,
  bit_xor-bitwise (suc a) b,
  bit_xor-bitwise (suc a / 2) (b / 2),
  bit_sum (suc a % 2) (b % 2) (omega arith) (omega arith),
  xor_digits_fuel a (suc a / 2) (suc a / 2) (b / 2) (omega arith) (omega arith),
)

pub half-bit_xor : (a b : ℕ) → bit_xor a b / 2 ≡ bit_xor (a / 2) (b / 2)
half-bit_xor a b = omega (arith, bit_xor-digit a b)

pub parity-bit_xor : (a b : ℕ) → bit_xor a b % 2 ≡ (a + b) % 2
parity-bit_xor a b = omega (arith, bit_xor-digit a b)

assoc_below : (n a b c : ℕ) → a + b + c ≤ n → bit_xor (bit_xor a b) c ≡ bit_xor a (bit_xor b c)
assoc_below zero a b c h =
    let za : a ≡ 0 = omega arith in
    rw za (ap (λ t. bit_xor t c) (zero-bit_xor b) ∙ sym (zero-bit_xor (bit_xor b c)))
assoc_below (suc n) zero b c h =
    ap (λ t. bit_xor t c) (zero-bit_xor b) ∙ sym (zero-bit_xor (bit_xor b c))
assoc_below (suc n) (suc a) b c h =
    let left = bit_xor-digit (bit_xor (suc a) b) c in
    let right = bit_xor-digit (suc a) (bit_xor b c) in
    let halves =
      ap (λ t. bit_xor t (c / 2)) (half-bit_xor (suc a) b)
      ∙ assoc_below n (suc a / 2) (b / 2) (c / 2) (omega arith)
      ∙ ap (bit_xor (suc a / 2)) (sym (half-bit_xor b c)) in
    omega (arith, left, right, halves, parity-bit_xor (suc a) b, parity-bit_xor b c)

pub bit_xor_assoc : (a b c : ℕ) → bit_xor (bit_xor a b) c ≡ bit_xor a (bit_xor b c)
bit_xor_assoc a b c = assoc_below (a + b + c) a b c (omega arith)

bit_xor-even : (r n : ℕ) → bit_xor r (n * 2) ≡ bit_xor (r / 2) n * 2 + r % 2
bit_xor-even r n =
    let half : n * 2 / 2 ≡ n = omega arith in bit_xor-digit r (n * 2) ∙ rw half (omega arith)

doubled : (k q : ℕ) → q * 2 ^ suc k ≡ q * 2 ^ k * 2
doubled k q = rw pow-suc (omega arith)

-- A number below a shift and a shifted number.
pub bit_xor-eq-add : (k q r : ℕ) → r < 2 ^ k → bit_xor r (q * 2 ^ k) ≡ q * 2 ^ k + r
bit_xor-eq-add zero q r h =
    let none_left : r ≡ 0 = omega arith in rw none_left (zero-bit_xor (q * 1) ∙ omega arith)
bit_xor-eq-add (suc k) q r h = rw (doubled k q) (
    omega
      (arith, bit_xor-even r (q * 2 ^ k), bit_xor-eq-add k q (r / 2) (omega (arith, pow-suc 2 k))))

bit_xor-zero_below : (n a : ℕ) → a ≤ n → bit_xor a 0 ≡ a
bit_xor-zero_below n zero h = zero-bit_xor 0
bit_xor-zero_below zero (suc a) h = absurd (omega arith)
bit_xor-zero_below (suc n) (suc a) h =
    omega (arith, bit_xor-digit (suc a) 0, bit_xor-zero_below n (suc a / 2) (omega arith))

pub bit_xor-zero : (a : ℕ) → bit_xor a 0 ≡ a
bit_xor-zero a = bit_xor-zero_below a a (omega arith)

-- A number is its lowest bit and the rest.
pub bit_xor-parts : (b : ℕ) → b ≡ bit_xor (b % 2) (b / 2 * 2)
bit_xor-parts b = omega (arith, bit_xor-eq-add 1 (b / 2) (b % 2) (omega arith))

-- Halved some times.
pub halved : ℕ → ℕ → ℕ
halved zero x = x
halved (suc k) x = halved k (x / 2)

pub halved-bit_xor : (k a b : ℕ) → halved k (bit_xor a b) ≡ bit_xor (halved k a) (halved k b)
unfolding halved
halved-bit_xor zero a b = refl
halved-bit_xor (suc k) a b = ap (halved k) (half-bit_xor a b) ∙ halved-bit_xor k (a / 2) (b / 2)

byte_of : (x : ℕ) → halved 8 x ≡ x / 256
unfolding halved
byte_of x = omega arith

-- A byte does not reach beyond the lowest eight bits.
pub bit_xor_byte : (c b : ℕ) → b < 256 → bit_xor c b / 256 ≡ c / 256
bit_xor_byte c b h =
    let none_left : halved 8 b ≡ 0 = byte_of b ∙ omega arith in
    sym (byte_of (bit_xor c b))
    ∙ halved-bit_xor 8 c b
    ∙ ap (bit_xor (halved 8 c)) none_left
    ∙ bit_xor-zero (halved 8 c)
    ∙ byte_of c
