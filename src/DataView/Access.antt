-- ===== src/DataView/Access.antt =====
-- A number written anywhere in a buffer, and read back.
use vm_automation_deployment.Common.{
  ℕ, ◌+◌, ◌-◌, ◌^◌, ◌≤◌, ◌<◌, ◌≡◌, sym, ap, ◌∙◌, ◌⊎◌, inl, inr, Bool, [], ◌∷◌, ◌++◌, length, take,
  drop, arith, length-append, take-append-drop, length-take, length-drop,
}
use vm_automation_deployment.Common.Int.{ℤ, pos, negsuc}
use vm_automation_deployment.Wire.{Bytes}
use vm_automation_deployment.DataView.{to_uint32, to_int32, get_uint8, get_uint32, set_uint32}
use vm_automation_deployment.DataView.Words.{IsInt32, to_int32-to_uint32}
use vm_automation_deployment.DataView.Append.{get_uint8-apart, get_uint32-behind, set_uint32-behind}
use vm_automation_deployment.DataView.RoundTrip.{
  word, set_uint32_front, get_uint32_front, length-word,
}

-- A buffer with `n` bytes from `at` on.
pub record Room (b : Bytes) (at n : ℕ) : Type 0 where
  pub before : Bytes
  pub here : Bytes
  pub after : Bytes
  pub whole : b ≡ before ++ (here ++ after)
  pub start : at ≡ length before + 0
  pub size : length here ≡ n

pub room : (b : Bytes) (at n : ℕ) → at + n ≤ length b → Room b at n
room b at n h = record {
  before = take at b;
  here = take n (drop at b);
  after = drop n (drop at b);
  whole =
      sym (take-append-drop at b) ∙ ap (λ t. take at b ++ t) (sym (take-append-drop n (drop at b)));
  start = omega (arith, length-take at b);
  size = omega (arith, length-take n (drop at b), length-drop at b);
}

-- Four bytes become those of the number.
set_uint32-here :
    (h r : Bytes) (w : ℤ) (little : Bool)
    → length h ≡ 4
    → set_uint32 (h ++ r) 0 w little ≡ word w little ++ r
set_uint32-here (x0 ∷ x1 ∷ x2 ∷ x3 ∷ []) r w little e = set_uint32_front x0 x1 x2 x3 r w little
set_uint32-here [] r w little e = absurd (omega arith)
set_uint32-here (x0 ∷ []) r w little e = absurd (omega arith)
set_uint32-here (x0 ∷ x1 ∷ []) r w little e = absurd (omega arith)
set_uint32-here (x0 ∷ x1 ∷ x2 ∷ []) r w little e = absurd (omega arith)
set_uint32-here (x0 ∷ x1 ∷ x2 ∷ x3 ∷ x4 ∷ h) r w little e = absurd (omega arith)

module _ (b : Bytes) (at : ℕ) (w : ℤ) (little : Bool) (fits : at + 4 ≤ length b) where
  set_uint32-room :
      let t = room b at 4 fits in set_uint32 b at w little ≡ t.before ++ (word w little ++ t.after)
  set_uint32-room =
      let t = room b at 4 fits in
      ap (λ c. set_uint32 c at w little) t.whole
      ∙ set_uint32-behind t.before (t.here ++ t.after) 0 at t.start w little
      ∙ ap (λ c. t.before ++ c) (set_uint32-here t.here t.after w little t.size)

  pub get_uint32-set_uint32 :
      get_uint32 (set_uint32 b at w little) at little ≡ to_int32 (to_uint32 w)
  get_uint32-set_uint32 =
      let t = room b at 4 fits in
      rw set_uint32-room (
        get_uint32-behind t.before (word w little ++ t.after) 0 at t.start little
        ∙ get_uint32_front w t.after little)

  pub length-set_uint32 : length (set_uint32 b at w little) ≡ length b
  length-set_uint32 =
      let t = room b at 4 fits in
      rw set_uint32-room (
        omega (
          arith,
          ap (λ (c : Bytes). length c) t.whole,
          length-append t.before (word w little ++ t.after),
          length-append (word w little) t.after,
          length-append t.before (t.here ++ t.after),
          length-append t.here t.after,
          length-word w little,
          t.size,
        ))

  pub get_uint8-set_uint32 :
      (i : ℕ) → (i < at) ⊎ (at + 4 ≤ i) → get_uint8 (set_uint32 b at w little) i ≡ get_uint8 b i
  get_uint8-set_uint32 i apart =
      let t = room b at 4 fits in
      rw set_uint32-room (
        get_uint8-apart t.before (word w little) t.here t.after i
          (omega (arith, length-word w little, t.size)) (outside apart)
        ∙ ap (λ c. get_uint8 c i) (sym t.whole))
    where
      outside :
          (i < at) ⊎ (at + 4 ≤ i)
          → let t = room b at 4 fits in
            (i < length t.before) ⊎ (length t.before + length (word w little) ≤ i)
      outside (inl p) = inl (omega (arith, (room b at 4 fits).start))
      outside (inr p) = inr (omega (arith, (room b at 4 fits).start, length-word w little))

-- In a buffer that has room for it, a signed 32-bit number (from -2 ^ 31 up to, but not, 2 ^ 31),
-- written at an offset, is the number read there again, for both byte orders; the write keeps the
-- length, and every byte at an index outside the four.
pub uint32_roundtrip :
    (b : Bytes) (at : ℕ) (w : ℤ) (little : Bool) (i : ℕ)
    → at + 4 ≤ length b
    → IsInt32 w
    → (i < at) ⊎ (at + 4 ≤ i)
    → let b' = set_uint32 b at w little in
      (get_uint32 b' at little ≡ w) × (length b' ≡ length b) × (get_uint8 b' i ≡ get_uint8 b i)
uint32_roundtrip b at w little i fits small apart = (
  get_uint32-set_uint32 b at w little fits ∙ to_int32-to_uint32 w small,
  length-set_uint32 b at w little fits,
  get_uint8-set_uint32 b at w little fits i apart,
)

-- An unsigned number of 2 ^ 31 or more, written to a buffer with room for it, is read back as the
-- negative number 2 ^ 32 below it.
pub uint32_reads_signed :
    (b : Bytes) (at n : ℕ) (little : Bool)
    → at + 4 ≤ length b
    → 2 ^ 31 ≤ n
    → n < 2 ^ 32
    → get_uint32 (set_uint32 b at (pos n) little) at little ≡ negsuc (2 ^ 32 - 1 - n)
uint32_reads_signed b at n little fits low high =
    get_uint32-set_uint32 b at (pos n) little fits ∙ ground arith
