-- ===== src/Webm/Reader.antt =====
-- EBML, as its specification describes it: an element is an identifier, whose first byte tells its
-- length, a size and as many bytes. Of the lengths that a size can have, those of one and of eight
-- bytes are read.
use vm_automation_deployment.Common.{
  ℕ, zero, suc, ◌+◌, ◌-◌, ◌*◌, ◌<◌, ◌≡◌, refl, ap, List, [], ◌∷◌, ◌++◌, Option, none, some, length,
  leb, ◌==◌, if◌then◌else◌, arith,
}
use vm_automation_deployment.Common.Bits.{bit_or-eq-add}
use vm_automation_deployment.Wire.{Bytes}
use vm_automation_deployment.Webm.{write_u1_data_len, write_array, write_u64_data_len}

pub record Element : Type 0 where
  pub id : Bytes
  pub payload : Bytes

abbrev pub cons_first : ℕ → Option (Bytes × Bytes) → Option (Bytes × Bytes)
cons_first b none = none
cons_first b (some (front, back)) = some (b ∷ front, back)

unfoldable pub split_at : ℕ → Bytes → Option (Bytes × Bytes)
split_at zero bs = some ([], bs)
split_at (suc n) [] = none
split_at (suc n) (b ∷ bs) = cons_first b (split_at n bs)

abbrev pub id_length : ℕ → ℕ
id_length b =
    if leb 128 b
    then 1
    else if leb 64 b
    then 2
    else if leb 32 b
    then 3
    else if leb 16 b
    then 4
    else 0

unfoldable pub read_id : Bytes → Option (Bytes × Bytes)
unfolding split_at
read_id [] = none
read_id (b ∷ bs) = if leb 16 b then split_at (id_length b) (b ∷ bs) else none

-- The size field 0xff stands for an unknown size.
pub data Size : Type 0 where
  known : ℕ → Size
  unknown : Size

abbrev pub read_long : Bytes → Option (Size × Bytes)
read_long (a ∷ b ∷ c ∷ d ∷ e ∷ f ∷ g ∷ bs) =
    some (known ((((((a * 256 + b) * 256 + c) * 256 + d) * 256 + e) * 256 + f) * 256 + g), bs)
read_long bs = none

unfoldable pub read_size : Bytes → Option (Size × Bytes)
read_size [] = none
read_size (b ∷ bs) =
    if b == 255
    then some (unknown, bs)
    else if leb 128 b
    then some (known (b - 128), bs)
    else if b == 1
    then read_long bs
    else none

abbrev pub with_payload : Bytes → Option (Bytes × Bytes) → Option (Element × Bytes)
with_payload id none = none
with_payload id (some (payload, rest)) = some (record { id = id; payload = payload }, rest)

abbrev pub with_size : Bytes → Option (Size × Bytes) → Option (Element × Bytes)
with_size id none = none
with_size id (some (unknown, bs)) = none
with_size id (some (known n, bs)) = with_payload id (split_at n bs)

abbrev pub with_id : Option (Bytes × Bytes) → Option (Element × Bytes)
with_id none = none
with_id (some (id, rest)) = with_size id (read_size rest)

-- An element of known size, and what follows it.
unfoldable pub element : Bytes → Option (Element × Bytes)
element bs = with_id (read_id bs)

abbrev pub put_first : Element → Option (List Element) → Option (List Element)
put_first e none = none
put_first e (some es) = some (e ∷ es)

abbrev pub with_element :
    (Bytes → Option (List Element)) → Option (Element × Bytes) → Option (List Element)
with_element next none = none
with_element next (some (e, rest)) = put_first e (next rest)

-- `n` elements and nothing else.
unfoldable pub elements : ℕ → Bytes → Option (List Element)
elements zero [] = some []
elements zero (b ∷ bs) = none
elements (suc n) bs = with_element (elements n) (element bs)

-- An identifier that is read as it was written, whatever follows.
abbrev pub IsId : List ℕ → Type 0
IsId id = (bs : Bytes) → read_id (write_array id ++ bs) ≡ some (id, bs)

pub split_at-append : (xs bs : Bytes) → split_at (length xs) (xs ++ bs) ≡ some (xs, bs)
unfolding split_at
split_at-append [] bs = refl
split_at-append (x ∷ xs) bs = ap (cons_first x) (split_at-append xs bs)

pub read_size-u1 :
    (n : ℕ) (bs : Bytes) → n < 127 → read_size (write_u1_data_len n ++ bs) ≡ some (known n, bs)
unfolding read_size write_u1_data_len
read_size-u1 n bs h = ground (arith, bit_or-eq-add 7 1 n (omega arith))

pub read_size-u64 :
    (n : ℕ) (bs : Bytes)
    → n < 4294967296
    → read_size (write_u64_data_len n ++ bs) ≡ some (known n, bs)
unfolding read_size write_u64_data_len
read_size-u64 n bs h = ap (λ k. some (known k, bs)) (omega arith)
