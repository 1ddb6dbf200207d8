-- ===== src/ArrayBuffer/Slice.antt =====
-- spicearraybuffer.js against the language's own ArrayBuffer.slice.
use vm_automation_deployment.Common.{
  ℕ, zero, suc, ◌+◌, ◌-◌, ◌≤◌, ◌≡◌, ◌≢◌, refl, ap, sym, ◌∙◌, [], ◌∷◌, ◌++◌, append_assoc, Option,
  none, some, length, take, drop, set, get_or, length-take, length-drop, length-append, inl, inr,
  Bool-cases, drop_all, ◌<◌, leb, arith,
}
use Prim.Native.Nat.{min}
use vm_automation_deployment.Common.Int.{ℤ, pos, negsuc, ◌+ℤ◌}
use vm_automation_deployment.Wire.{Bytes}
use vm_automation_deployment.Messages.Cursor.Laws.{zeros}
use vm_automation_deployment.ArrayBuffer.{from_end, end_index, start_index, copy, slice}

-- The language's definition: an index is clamped to the buffer, a negative one counts from its end,
-- and the bytes from the first to the final one are copied.
abbrev pub clamp : ℕ → ℤ → ℕ
clamp len (pos n) = min n len
clamp len (negsuc n) = len - suc n

abbrev pub final_index : ℕ → Option ℤ → ℕ
final_index len none = len
final_index len (some z) = clamp len z

abbrev pub first_index : ℕ → Option ℤ → ℕ
first_index len none = 0
first_index len (some z) = clamp len z

abbrev pub array_buffer_slice : Bytes → Option ℤ → Option ℤ → Bytes
array_buffer_slice buffer start end =
    let first = first_index (length buffer) start in
    take (final_index (length buffer) end - first) (drop first buffer)

end_index_lem :
    (len : ℕ) (end : Option ℤ) → end ≢ some (pos 0) → end_index len end ≡ pos (final_index len end)
unfolding end_index from_end ◌+ℤ◌
end_index_lem len none h = ground arith
end_index_lem len (some (pos n)) h = ground arith
end_index_lem len (some (negsuc n)) h = ground arith

start_index_lem :
    (len : ℕ) (start : Option ℤ) (e : ℕ)
    → e ≤ len
    → start_index len start (pos e) ≡ pos (min (first_index len start) e)
unfolding start_index from_end ◌+ℤ◌
start_index_lem len none e h = ground arith
start_index_lem len (some (pos n)) e h = ground arith
start_index_lem len (some (negsuc n)) e h = ground arith

set-front : (xs ys : Bytes) (y v : ℕ) → set (xs ++ (y ∷ ys)) (length xs) v ≡ xs ++ (v ∷ ys)
set-front [] ys y v = refl
set-front (x ∷ xs) ys y v = ap (λ t. x ∷ t) (set-front xs ys y v)

drop-get : (i : ℕ) (xs : Bytes) → i < length xs → drop i xs ≡ get_or xs i 0 ∷ drop (suc i) xs
drop-get i [] h = ground arith
drop-get zero (x ∷ xs) h = refl
drop-get (suc i) (x ∷ xs) h = drop-get i xs (omega arith)

-- What has been copied stands in front of what has not.
copy-zeros :
    (n : ℕ) (in1 xs : Bytes)
    → length in1 ≡ length xs + n
    → copy n (length xs) in1 (xs ++ zeros n) ≡ xs ++ drop (length xs) in1
unfolding copy
copy-zeros zero in1 xs h = ap (λ t. xs ++ t) (sym (drop_all (length xs) in1 (omega arith)))
copy-zeros (suc n) in1 xs h =
    let v = get_or in1 (length xs) 0 in
    let more : length (xs ++ (v ∷ [])) ≡ suc (length xs) =
      rw (length-append xs (v ∷ [])) (omega arith) in
    rw
      (
        set-front xs (zeros n) 0 v,
        sym (append_assoc xs (v ∷ []) (zeros n)),
        sym more,
        copy-zeros n in1 (xs ++ (v ∷ [])) (omega arith),
        drop-get (length xs) in1 (omega arith),
      )
      (append_assoc xs (v ∷ []) (drop (length (xs ++ (v ∷ []))) in1)
        ∙ ap (λ k. xs ++ (v ∷ drop k in1)) more)

final_index-le : (len : ℕ) (end : Option ℤ) → final_index len end ≤ len
final_index-le len none = omega arith
final_index-le len (some (pos n)) = omega arith
final_index-le len (some (negsuc n)) = omega arith

-- Beyond `final` nothing is taken, wherever it starts.
take-drop-min :
    (first final : ℕ) (b : Bytes)
    → take (final - min first final) (drop (min first final) b)
      ≡ take (final - first) (drop first b)
take-drop-min first final b = elim (Bool-cases (leb first final)) [
  | inl h ↦ ap (λ k. take (final - k) (drop k b)) (ground arith)
  | inr h ↦
      let now : final - min first final ≡ 0 = ground arith in
      let now' : final - first ≡ 0 = ground arith in rw (now, now') refl
]

copy_lem :
    (first final : ℕ) (b : Bytes)
    → final ≤ length b
    → let n = final - min first final in
      copy n 0 (take n (drop (min first final) b)) (zeros n) ≡ take n (drop (min first final) b)
copy_lem first final b h =
    let n = final - min first final in
    let s = min first final in
    copy-zeros n (take n (drop s b)) []
      (rw (length-take n (drop s b), length-drop s b) (omega arith))

-- The stand-in copies the bytes that ArrayBuffer.slice copies, for any start and end, given or
-- not and negative or not, but for an end of 0.
pub slice-array_buffer_slice :
    (buffer : Bytes) (start end : Option ℤ)
    → end ≢ some (pos 0)
    → slice buffer start end ≡ array_buffer_slice buffer start end
unfolding slice
slice-array_buffer_slice buffer start end h =
    let len = length buffer in
    let final = final_index len end in
    let first = first_index len start in
    rw
      (
        end_index_lem len end h,
        start_index_lem len start final (final_index-le len end),
        copy_lem first final buffer (final_index-le len end),
      )
      (take-drop-min first final buffer)
