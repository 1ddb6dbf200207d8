-- ===== src/Png/Crc.antt =====
-- png.js: the checksum of rfc2083 with its table, against the division bit by bit.
use Prim.Native.Nat.{bit_xor}
use vm_automation_deployment.Common.{
  ℕ, zero, suc, ◌+◌, ◌*◌, ◌/◌, ◌%◌, ◌^◌, ◌<◌, ◌≡◌, refl, sym, ap, ◌∙◌, List, [], ◌∷◌, get_or, ◌==◌,
  if◌then◌else◌, arith,
}
use native.Mathlib.Nat.{pow-suc}
use vm_automation_deployment.Wire.{Bytes}
use vm_automation_deployment.Messages.Cursor.Laws.{AreBytes}
use vm_automation_deployment.Png.Xor.{
  bit_xor_assoc, half-bit_xor, parity-bit_xor, bit_xor-eq-add, bit_xor-zero, bit_xor-parts,
  bit_xor_byte,
}

-- A round of the inner loop; numbers are patterns of 32 bits.
unfoldable pub crc_round : ℕ → ℕ
crc_round c = if c % 2 == 1 then bit_xor 0xedb88320 (c / 2) else c / 2

unfoldable pub crc_rounds : ℕ → ℕ → ℕ
crc_rounds zero c = c
crc_rounds (suc k) c = crc_rounds k (crc_round c)

unfoldable pub crc_rows : ℕ → ℕ → List ℕ
crc_rows zero n = []
crc_rows (suc left) n = crc_rounds 8 n ∷ crc_rows left (suc n)

unfoldable pub rfc2083_make_crc_table : List ℕ
rfc2083_make_crc_table = crc_rows 256 0

unfoldable pub rfc2083_update_crc : ℕ → Bytes → ℕ
rfc2083_update_crc c [] = c
rfc2083_update_crc c (b ∷ bs) =
    rfc2083_update_crc (bit_xor (get_or rfc2083_make_crc_table (bit_xor c b % 256) 0) (c / 256)) bs

unfoldable pub rfc2083_crc : Bytes → ℕ
rfc2083_crc u8 = bit_xor (rfc2083_update_crc 0xffffffff u8) 0xffffffff

crc_round-bit_xor : (u v : ℕ) → crc_round (bit_xor u (v * 2)) ≡ bit_xor (crc_round u) v
unfolding crc_round
crc_round-bit_xor u v =
    let parity : bit_xor u (v * 2) % 2 ≡ u % 2 = omega (arith, parity-bit_xor u (v * 2)) in
    let whole : v * 2 / 2 ≡ v = omega arith in
    let half : bit_xor u (v * 2) / 2 ≡ bit_xor (u / 2) v =
      half-bit_xor u (v * 2) ∙ ap (bit_xor (u / 2)) whole in
    ground (arith, parity, half, bit_xor_assoc 0xedb88320 (u / 2) v)

doubled : (k v : ℕ) → v * 2 ^ suc k ≡ v * 2 ^ k * 2
doubled k v = rw pow-suc (omega arith)

crc_rounds-bit_xor : (k u v : ℕ) → crc_rounds k (bit_xor u (v * 2 ^ k)) ≡ bit_xor (crc_rounds k u) v
unfolding crc_rounds
crc_rounds-bit_xor zero u v = ap (bit_xor u) (omega arith)
crc_rounds-bit_xor (suc k) u v =
    ap (λ t. crc_rounds k (crc_round (bit_xor u t))) (doubled k v)
    ∙ ap (crc_rounds k) (crc_round-bit_xor u (v * 2 ^ k))
    ∙ crc_rounds-bit_xor k (crc_round u) v

crc_rows-get : (left n i : ℕ) → i < left → get_or (crc_rows left n) i 0 ≡ crc_rounds 8 (n + i)
unfolding crc_rows
crc_rows-get zero n i h = absurd (omega arith)
crc_rows-get (suc left) n zero h = ap (crc_rounds 8) (omega arith)
crc_rows-get (suc left) n (suc i) h =
    crc_rows-get left (suc n) i (omega arith) ∙ ap (crc_rounds 8) (omega arith)

-- The table does eight rounds at once.
table_rounds :
    (x : ℕ) → bit_xor (get_or rfc2083_make_crc_table (x % 256) 0) (x / 256) ≡ crc_rounds 8 x
unfolding rfc2083_make_crc_table
table_rounds x =
    let parts : bit_xor (x % 256) (x / 256 * 256) ≡ x =
      bit_xor-eq-add 8 (x / 256) (x % 256) (omega arith) ∙ omega arith in
    ap (λ t. bit_xor t (x / 256))
      (crc_rows-get 256 0 (x % 256) (omega arith) ∙ ap (crc_rounds 8) (omega arith))
    ∙ sym (crc_rounds-bit_xor 8 (x % 256) (x / 256))
    ∙ ap (crc_rounds 8) parts

-- The division of a message by the polynomial, a bit at a time, the lowest bit of a byte first.
abbrev pub divide_bits : ℕ → ℕ → ℕ → ℕ
divide_bits zero c b = c
divide_bits (suc k) c b = divide_bits k (crc_round (bit_xor c (b % 2))) (b / 2)

abbrev pub divide : ℕ → Bytes → ℕ
divide c [] = c
divide c (b ∷ bs) = divide (divide_bits 8 c b) bs

crc_rounds-divide_bits : (k c b : ℕ) → b < 2 ^ k → crc_rounds k (bit_xor c b) ≡ divide_bits k c b
unfolding crc_rounds
crc_rounds-divide_bits zero c b h =
    let none_left : b ≡ 0 = omega arith in ap (bit_xor c) none_left ∙ bit_xor-zero c
crc_rounds-divide_bits (suc k) c b h =
    ap (λ t. crc_rounds k (crc_round (bit_xor c t))) (bit_xor-parts b)
    ∙ ap (λ t. crc_rounds k (crc_round t)) (sym (bit_xor_assoc c (b % 2) (b / 2 * 2)))
    ∙ ap (crc_rounds k) (crc_round-bit_xor (bit_xor c (b % 2)) (b / 2))
    ∙ crc_rounds-divide_bits k (crc_round (bit_xor c (b % 2))) (b / 2) (omega (arith, pow-suc 2 k))

-- For any bytes and any sum so far, the update of the sum by the table, a byte at a time, is the
-- division by the polynomial of rfc2083 a bit at a time.
pub rfc2083_update_crc-divide :
    (bs : Bytes) (c : ℕ) → AreBytes bs → rfc2083_update_crc c bs ≡ divide c bs
unfolding rfc2083_update_crc
rfc2083_update_crc-divide [] c h = refl
rfc2083_update_crc-divide (b ∷ bs) c (small, h) =
    let high =
      ap (bit_xor (get_or rfc2083_make_crc_table (bit_xor c b % 256) 0))
        (sym (bit_xor_byte c b small)) in
    ap (λ t. rfc2083_update_crc t bs)
      (high ∙ table_rounds (bit_xor c b) ∙ crc_rounds-divide_bits 8 c b small)
    ∙ rfc2083_update_crc-divide bs (divide_bits 8 c b) h
