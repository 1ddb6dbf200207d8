-- ===== src/Webm/Parses.antt =====
-- webm.js: what a reader of EBML makes of the objects.
use vm_automation_deployment.Common.{
  ℕ, suc, ◌+◌, ◌-◌, ◌/◌, ◌%◌, ◌<◌, ◌≡◌, refl, sym, ap, ◌∙◌, List, [], ◌∷◌, ◌++◌, some, length, ltb,
  arith, append_assoc, Bool-cases, inl, inr,
}
use vm_automation_deployment.Wire.{Bytes}
use vm_automation_deployment.Webm.{
  write_u1_data_len, write_array, write_u8_value, write_u16_value, bytes_u32, write_u32_value,
  write_float_value, write_u64_data_len, write_data,
}
use vm_automation_deployment.Webm.Reader.{
  Element, IsId, element, elements, with_element, put_first, split_at-append, read_size-u1,
  read_size-u64,
}
use vm_automation_deployment.Webm.Objects.{write_master}
use vm_automation_deployment.Webm.Sizes.{length-write_array}

-- An identifier, a one-byte or an eight-byte size, and the payload, as one element.
element-u1 :
    (id payload r : Bytes) (n : ℕ)
    → IsId id
    → length payload ≡ n
    → n < 127
    → element (write_array id ++ (write_u1_data_len n ++ (payload ++ r)))
      ≡ some (record { id = id; payload = payload }, r)
unfolding element
element-u1 id payload r n is_id e h =
    rw
      (
        is_id (write_u1_data_len n ++ (payload ++ r)),
        read_size-u1 n (payload ++ r) h,
        sym e,
        split_at-append payload r,
      )
      refl

pub element-u64 :
    (id payload r : Bytes) (n : ℕ)
    → IsId id
    → length payload ≡ n
    → n < 4294967296
    → element (write_array id ++ (write_u64_data_len n ++ (payload ++ r)))
      ≡ some (record { id = id; payload = payload }, r)
unfolding element
element-u64 id payload r n is_id e h =
    rw
      (
        is_id (write_u64_data_len n ++ (payload ++ r)),
        read_size-u64 n (payload ++ r) h,
        sym e,
        split_at-append payload r,
      )
      refl

-- One more element in front of others.
pub elements-cons :
    (n : ℕ) (bs rest : Bytes) (e : Element) (es : List Element)
    → element bs ≡ some (e, rest)
    → elements n rest ≡ some es
    → elements (suc n) bs ≡ some (e ∷ es)
unfolding elements
elements-cons n bs rest e es h hs = ap (with_element (elements n)) h ∙ ap (put_first e) hs

pub regroup : (a b c r : Bytes) → (a ++ (b ++ c)) ++ r ≡ a ++ (b ++ (c ++ r))
regroup a b c r = append_assoc a (b ++ c) r ∙ ap (λ t. a ++ t) (append_assoc b c r)

abbrev pub leaf : Bytes → Bytes → Element
leaf id payload = record { id = id; payload = payload }

pub element-u8_value :
    (id r : Bytes) (v : ℕ)
    → IsId id
    → element (write_u8_value id v ++ r) ≡ some (leaf id (v % 256 ∷ []), r)
unfolding write_u8_value
element-u8_value id r v is_id =
    ap element (regroup (write_array id) (write_u1_data_len 1) (v % 256 ∷ []) r)
    ∙ element-u1 id (v % 256 ∷ []) r 1 is_id refl (omega arith)

pub element-u16_value :
    (id r : Bytes) (v : ℕ)
    → IsId id
    → element (write_u16_value id v ++ r) ≡ some (leaf id (v / 256 % 256 ∷ v % 256 ∷ []), r)
unfolding write_u16_value
element-u16_value id r v is_id =
    let p : Bytes = v / 256 % 256 ∷ v % 256 ∷ [] in
    ap element (regroup (write_array id) (write_u1_data_len 2) p r)
    ∙ element-u1 id p r 2 is_id refl (omega arith)

pub element-u32_value :
    (id r : Bytes) (v : ℕ)
    → IsId id
    → element (write_u32_value id v ++ r) ≡ some (leaf id (bytes_u32 v), r)
unfolding write_u32_value
element-u32_value id r v is_id =
    ap element (regroup (write_array id) (write_u1_data_len 4) (bytes_u32 v) r)
    ∙ element-u1 id (bytes_u32 v) r 4 is_id refl (omega arith)

pub element-float_value :
    (float32 : ℕ → Bytes) (id r : Bytes) (v : ℕ)
    → IsId id
    → length (float32 v) ≡ 4
    → element (write_float_value float32 id v ++ r) ≡ some (leaf id (float32 v), r)
unfolding write_float_value
element-float_value float32 id r v is_id four =
    ap element (regroup (write_array id) (write_u1_data_len 4) (float32 v) r)
    ∙ element-u1 id (float32 v) r 4 is_id four (omega arith)

pub element-data :
    (id body r : Bytes)
    → IsId id
    → length body < 4294967296
    → element (write_data id body ++ r) ≡ some (leaf id (write_array body), r)
unfolding write_data
element-data id body r is_id h = elim (Bool-cases (ltb (length body) 127)) [
  | inl short ↦
      rw (short, regroup (write_array id) (write_u1_data_len (length body)) (write_array body) r)
        (element-u1 id (write_array body) r (length body) is_id (length-write_array body)
          (ground arith))
  | inr long ↦
      rw (long, regroup (write_array id) (write_u64_data_len (length body)) (write_array body) r)
        (element-u64 id (write_array body) r (length body) is_id (length-write_array body) h)
]

-- An object with elements in it, of a size that is that of its body.
pub element-master :
    (id body r : Bytes) (size : ℕ)
    → IsId id
    → length body + 8 + length id ≡ size
    → size < 4294967296
    → element (write_master id size body ++ r) ≡ some (leaf id body, r)
element-master id body r size is_id e h =
    ap element (regroup (write_array id) (write_u64_data_len (size - 8 - length id)) body r)
    ∙ element-u64 id body r (size - 8 - length id) is_id (omega arith) (omega arith)
