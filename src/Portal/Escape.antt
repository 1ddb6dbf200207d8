-- ===== src/Portal/Escape.antt =====
-- app.js: esc, with which the page puts text into its markup, against a reader of that markup. A
-- text is the list of its character codes.
use vm_automation_deployment.Common.{
  ℕ, zero, suc, ◌≤◌, ◌≡◌, refl, ap, ◌∙◌, false, List, [], ◌∷◌, ◌++◌, Option, none, some, length,
  ◌==◌, if◌then◌else◌, arith,
}

abbrev pub Text : Type 0
Text = List ℕ

abbrev pub amp : Text
amp = b'a' ∷ b'm' ∷ b'p' ∷ b';' ∷ []

abbrev pub lt : Text
lt = b'l' ∷ b't' ∷ b';' ∷ []

abbrev pub gt : Text
gt = b'g' ∷ b't' ∷ b';' ∷ []

abbrev pub apostrophe : Text
apostrophe = b'#' ∷ b'3' ∷ b'9' ∷ b';' ∷ []

abbrev pub quot : Text
quot = b'q' ∷ b'u' ∷ b'o' ∷ b't' ∷ b';' ∷ []

-- What stands for a character: 38, 60, 62, 39 and 34 are & < > ' and ".
unfoldable pub escaped : ℕ → Text
escaped c =
    if c == 38
    then 38 ∷ amp
    else (if c == 60
        then 38 ∷ lt
        else (if c == 62
            then 38 ∷ gt
            else (if c == 39 then 38 ∷ apostrophe else (if c == 34 then 38 ∷ quot else c ∷ []))))

unfoldable pub esc : Text → Text
unfolding escaped
esc [] = []
esc (c ∷ cs) = escaped c ++ esc cs

-- The reader: what is left of a text behind a name, and the character behind an ampersand.
abbrev pub behind : Text → Text → Option Text
behind [] s = some s
behind (n ∷ name) [] = none
behind (n ∷ name) (c ∷ s) = let rest = behind name s in if n == c then rest else none

abbrev pub alternative : Option (ℕ × Text) → Option (ℕ × Text) → Option (ℕ × Text)
alternative (some x) y = some x
alternative none y = y

abbrev pub named : ℕ → Option Text → Option (ℕ × Text)
named c none = none
named c (some rest) = some (c, rest)

abbrev pub char_reference : Text → Option (ℕ × Text)
char_reference s = alternative (named 38 (behind amp s)) (
    alternative (named 60 (behind lt s)) (
      alternative (named 62 (behind gt s))
        (alternative (named 39 (behind apostrophe s)) (named 34 (behind quot s)))))

abbrev pub first : ℕ → Text → Option (ℕ × Text) → ℕ × Text
first c s none = (c, s)
first c s (some x) = x

-- The text of some markup, on fuel: an ampersand that begins no known name stands for itself.
unfoldable pub content : ℕ → Text → Text
content zero s = []
content (suc fuel) [] = []
content (suc fuel) (c ∷ s) =
    let (d, rest) = first c s (if c == 38 then char_reference s else none) in d ∷ content fuel rest

-- Up to a character, and behind it.
abbrev pub upto : ℕ → Text → Text × Text
upto q [] = ([], [])
upto q (c ∷ s) = let (t, rest) = upto q s in if c == q then ([], s) else (c ∷ t, rest)

-- A character of a text that holds none of the five but as part of a name.
abbrev pub IsPlain : ℕ → Type 0
IsPlain c = ((c == 60) ≡ false) × ((c == 62) ≡ false) × ((c == 39) ≡ false) × ((c == 34) ≡ false)

abbrev pub ArePlain : Text → Type 0
ArePlain [] = Unit
ArePlain (c ∷ s) = IsPlain c × ArePlain s

ArePlain-append : (s t : Text) → ArePlain s → ArePlain t → ArePlain (s ++ t)
ArePlain-append [] t h k = k
ArePlain-append (c ∷ s) t (h, hs) k = (h, ArePlain-append s t hs k)

escaped-ArePlain : (c : ℕ) → ArePlain (escaped c)
unfolding escaped
escaped-ArePlain c = ground arith

esc-ArePlain : (s : Text) → ArePlain (esc s)
unfolding esc
esc-ArePlain [] = tt
esc-ArePlain (c ∷ s) = ArePlain-append (escaped c) (esc s) (escaped-ArePlain c) (esc-ArePlain s)

content-escaped : (c fuel : ℕ) (s : Text) → content (suc fuel) (escaped c ++ s) ≡ c ∷ content fuel s
unfolding content escaped
content-escaped c fuel s = ground arith

content-esc : (s : Text) (fuel : ℕ) → length s ≤ fuel → content fuel (esc s) ≡ s
unfolding esc
content-esc [] zero h = unfold content in refl
content-esc [] (suc fuel) h = unfold content in refl
content-esc (c ∷ s) zero h = absurd (omega (arith, h))
content-esc (c ∷ s) (suc fuel) h =
    content-escaped c fuel (esc s) ∙ ap (λ t. c ∷ t) (content-esc s fuel (omega (arith, h)))

upto_quote : (t rest : Text) → ArePlain t → upto 34 (t ++ (34 ∷ rest)) ≡ (t, rest)
upto_quote [] rest h = refl
upto_quote (c ∷ t) rest (plain, h) = rw (plain.3, upto_quote t rest h) refl

upto_tag : (t rest : Text) → ArePlain t → upto 60 (t ++ (60 ∷ rest)) ≡ (t, rest)
upto_tag [] rest h = refl
upto_tag (c ∷ t) rest (plain, h) = rw (plain.0, upto_tag t rest h) refl

-- Whatever the text, what the page puts between the quotes of an attribute ends at its own quote,
-- and what it puts between tags ends at the next tag, and both are read back as the text.
pub esc-content :
    (s rest : Text) (fuel : ℕ)
    → length s ≤ fuel
    → (upto 34 (esc s ++ (34 ∷ rest)) ≡ (esc s, rest))
      × (upto 60 (esc s ++ (60 ∷ rest)) ≡ (esc s, rest))
      × (content fuel (esc s) ≡ s)
esc-content s rest fuel h = (
  upto_quote (esc s) rest (esc-ArePlain s),
  upto_tag (esc s) rest (esc-ArePlain s),
  content-esc s fuel h,
)
