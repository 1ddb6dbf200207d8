-- ===== src/ScanCodes/Break.antt =====
-- The code of a key's release against that of its press.
use Prim.Native.Nat.{bit_or}
use vm_automation_deployment.Common.{
  ℕ, ◌+◌, ◌≡◌, refl, inl, inr, Bool, true, List, [], ◌∷◌, some, ltb, ◌==◌, if◌then◌else◌, ◌&&◌,
  arith, Bool-cases, ◌∙◌, ◌≢◌, Option-cases,
}
use vm_automation_deployment.ScanCodes.{
  common_scanmap, firefox_scanmap, dom_scanmap, entry, get_scancode, keycode_to_start_scan,
  keycode_to_end_scan,
}

-- The release code is the press code with the break bit added, and is another code.
break_bit : ℕ → Bool
break_bit s = if ltb s 0x100 then bit_or s 0x80 == s + 0x80 else bit_or s 0x8000 == s + 0x8000

all_break : List (ℕ × ℕ) → Bool
all_break [] = true
all_break ((k, s) ∷ map) = break_bit s && all_break map

tables :
    (all_break common_scanmap ≡ true)
    × (all_break firefox_scanmap ≡ true)
    × (all_break dom_scanmap ≡ true)
unfolding all_break break_bit
tables = (refl, refl, refl)

entry-break :
    (code : ℕ) (map : List (ℕ × ℕ)) (s : ℕ)
    → all_break map ≡ true
    → entry code map ≡ some s
    → break_bit s ≡ true
unfolding all_break entry
entry-break code [] s' h e = cc
entry-break code ((k, s) ∷ map) s' h e = ground (arith, entry-break code map s')

get_scancode-break :
    (firefox : Bool) (code s : ℕ) → get_scancode firefox code ≡ some s → break_bit s ≡ true
unfolding get_scancode
get_scancode-break firefox code s e = elim (Option-cases (entry code common_scanmap)) [
  | inl n ↦ elim (Bool-cases firefox) [
    | inl f ↦ entry-break code firefox_scanmap s tables.1 (rw (n, f, get_scancode) at e)
    | inr f ↦ entry-break code dom_scanmap s tables.2 (rw (n, f, get_scancode) at e)
  ]
  | inr (t, m) ↦ entry-break code common_scanmap s tables.0 (m ∙ (rw (m, get_scancode) at e))
]

-- For every key code with a scan code, in Firefox and elsewhere, the press sends the scan code, and
-- the release sends the scan code with the break bit added: 0x80 to a code of one byte, 0x8000 to
-- one of two bytes. So the two codes of a key differ.
pub end_scan-start_scan :
    (firefox : Bool) (code s : ℕ)
    → get_scancode firefox code ≡ some s
    → let start = keycode_to_start_scan firefox code in
      let end = keycode_to_end_scan firefox code in
      (start ≡ s) × (end ≡ (if ltb s 0x100 then start + 0x80 else start + 0x8000)) × (end ≢ start)
unfolding keycode_to_start_scan keycode_to_end_scan break_bit
end_scan-start_scan firefox code s e = ground (arith, get_scancode-break firefox code s e)
