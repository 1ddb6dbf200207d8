-- ===== src/Lz/Convert.antt =====
-- lz.js: the conversion of an image, of which the source makes the image data with zeros.
use vm_automation_deployment.Common.{
  ℕ, zero, suc, ◌*◌, ◌≤◌, ◌<◌, ◌≡◌, refl, sym, ap, ◌∙◌, Bool, true, false, not, ◌||◌, List, [], ◌∷◌,
  Option, none, some, length, replicate, length-replicate, ◌==◌, if◌then◌else◌, arith, append-nil,
  Bool-cases, inl, inr,
}
use mathlib.Core.Option
use vm_automation_deployment.Constants.{lz_image_type_rgb32, lz_image_type_rgba, lz_image_type_xxxa}
use vm_automation_deployment.Wire.{Bytes}
use vm_automation_deployment.Lz.{State, decompress}
use vm_automation_deployment.Lz.Flip.{
  flip_image_data, length-flip_image_data, bottom_up, top_down as rows_down, AllLong,
  flip_image_data-bottom_up,
}
use vm_automation_deployment.Lz.Pixels.{flat, room}
use vm_automation_deployment.Lz.Tokens.{Token, Fits, encode, expand, rooms, size}
use vm_automation_deployment.Lz.RoundTrip.{decompress-encode}
use vm_automation_deployment.Lz.Total.{left, decompress_total}

pub record LzImage : Type 0 where
  pub type : ℕ
  pub width : ℕ
  pub height : ℕ
  pub top_down : Bool
  pub body : Bytes

abbrev pub start : Bytes → Bytes → State
start input out = record { input = input; op = 0; out = out }

-- The rows put right, and the alpha decoded, from where the colours end.
unfoldable pub finish : ℕ → LzImage → Option State → Option Bytes
finish fuel img none = none
finish fuel img (some s) =
    let ret = if img.top_down then s.out else flip_image_data img.width img.height s.out in
    let alpha = Option.map State.out (decompress true false fuel (start s.input ret)) in
    if img.type == lz_image_type_rgba then alpha else some ret

-- none in front means that the fuel ran out, none behind is `undefined`.
unfoldable pub convert_spice_lz_to_web : ℕ → LzImage → Option (Option Bytes)
unfolding finish
convert_spice_lz_to_web fuel img =
    let ret = replicate (img.width * img.height * 4) 0 in
    let is_rgba = img.type == lz_image_type_rgba in
    let colours = decompress false (not is_rgba) fuel (start img.body ret) in
    let alpha = decompress true false fuel (start img.body ret) in
    if img.type == lz_image_type_rgb32 || is_rgba
    then Option.map some (finish fuel img colours)
    else if img.type == lz_image_type_xxxa
    then Option.map (λ s. some s.out) alpha
    else some none

abbrev pub is_decoded : ℕ → Bool
is_decoded t = t == lz_image_type_rgb32 || t == lz_image_type_rgba || t == lz_image_type_xxxa

-- What the conversion may give: an image of the size that was asked for, or undefined.
abbrev pub Converts : LzImage → Option Bytes → Type 0
Converts img none = is_decoded img.type ≡ false
Converts img (some ret) = (is_decoded img.type ≡ true) × (length ret ≡ img.width * img.height * 4)

left-le :
    (input out : Bytes) (n fuel : ℕ) → length out ≡ n → 2 * n < fuel → left (start input out) ≤ fuel
left-le [] out n fuel e h = omega arith
left-le (b ∷ input) out n fuel e h = omega arith

decompress-start :
    (rgba default_alpha : Bool) (fuel n : ℕ) (input out : Bytes)
    → length out ≡ n
    → 2 * n < fuel
    → (s : State) × (decompress rgba default_alpha fuel (start input out) ≡ some s)
      × (length s.out ≡ n)
decompress-start rgba default_alpha fuel n input out e h =
    let enough : left (start input out) ≤ fuel = left-le input out n fuel e h in
    let (s, ends, same, full) = decompress_total rgba default_alpha fuel (start input out) enough in
    (s, ends, same ∙ e)

length-flipped :
    (img : LzImage) (out : Bytes)
    → length (if img.top_down then out else flip_image_data img.width img.height out) ≡ length out
length-flipped img out = elim (Bool-cases img.top_down) [
  | inl e ↦ rw e refl
  | inr e ↦ rw e (length-flip_image_data img.width img.height out)
]

finish_total :
    (fuel n : ℕ) (img : LzImage) (s : State)
    → length s.out ≡ n
    → 2 * n < fuel
    → (ret : Bytes) × (finish fuel img (some s) ≡ some ret) × (length ret ≡ n)
unfolding finish
finish_total fuel n img s e h =
    let ret = if img.top_down then s.out else flip_image_data img.width img.height s.out in
    let size : length ret ≡ n = length-flipped img s.out ∙ e in
    elim (Bool-cases (img.type == lz_image_type_rgba)) [
      | inl is ↦
          let (s', ends, same) = decompress-start true false fuel n s.input ret size h in
          (s'.out, rw (is, ends) refl, same)
      | inr other ↦ (ret, rw other refl, size)
    ]

-- With fuel for two rounds for each byte of the image, and one, the conversion of an image ends:
-- with undefined if and only if its type is none of the three that are decoded, else with an image
-- of width * height pixels, whatever the bytes.
pub convert_spice_lz_to_web_total :
    (fuel : ℕ) (img : LzImage)
    → 2 * (img.width * img.height * 4) < fuel
    → (ret : Option Bytes) × (convert_spice_lz_to_web fuel img ≡ some ret) × Converts img ret
unfolding convert_spice_lz_to_web
convert_spice_lz_to_web_total fuel img h =
    let n = img.width * img.height * 4 in
    let blank : Bytes = replicate n 0 in
    let size : length blank ≡ n = length-replicate n 0 in
    let is_rgba = img.type == lz_image_type_rgba in
    elim (Bool-cases (img.type == lz_image_type_rgb32 || is_rgba)) [
      | inl e ↦
          let (s, ends, same) = decompress-start false (not is_rgba) fuel n img.body blank size h in
          let (ret, finishes, same') = finish_total fuel n img s same h in
          (some ret, rw (e, ends, finishes) refl, (ground arith, same'))
      | inr e ↦ elim (Bool-cases (img.type == lz_image_type_xxxa)) [
        | inl e' ↦
            let (s, ends, same) = decompress-start true false fuel n img.body blank size h in
            (some s.out, rw (e, e', ends) refl, (ground arith, same))
        | inr e' ↦ (none, rw (e, e') refl, ground arith)
      ]
    ]

room-blank :
    (n : ℕ) (r : Bytes) → r ≡ replicate (length r) 0 → room n r ≡ replicate (length (room n r)) 0
room-blank zero r e = e
room-blank (suc n) r e = ap (λ t. 0 ∷ 0 ∷ 0 ∷ 0 ∷ t) (room-blank n r e)

rooms-blank : (ts : List Token) → rooms ts ≡ replicate (length (rooms ts)) 0
rooms-blank [] = refl
rooms-blank (t ∷ ts) = room-blank (size t) (rooms ts) (rooms-blank ts)

-- How the rows of an image, the top one first, are stored.
abbrev pub stored_rows : Bool → List Bytes → Bytes
stored_rows true rs = rows_down rs
stored_rows false rs = bottom_up rs

stored_rows-flip_image_data :
    (width : ℕ) (top_down : Bool) (rs : List Bytes)
    → AllLong (width * 4) rs
    → (if top_down
        then stored_rows top_down rs
        else flip_image_data width (length rs) (stored_rows top_down rs))
      ≡ rows_down rs
stored_rows-flip_image_data width true rs long = refl
stored_rows-flip_image_data width false rs long = flip_image_data-bottom_up width rs long

-- An opaque image, whose bytes are a stream of tokens with other bytes behind, and whose size is
-- the one that the tokens fill, where the tokens stand for some rows of `width` pixels, stored from
-- the top down or from the bottom up as the image says, is converted to these rows from the top
-- down.
pub convert_spice_lz_to_web-encode :
    (ts : List Token) (fuel width : ℕ) (top_down : Bool) (rest : Bytes) (rs : List Bytes)
    → Fits 0 ts
    → length ts ≤ fuel
    → length (rooms ts) ≡ width * length rs * 4
    → AllLong (width * 4) rs
    → flat (expand [] ts) ≡ stored_rows top_down rs
    → let img : LzImage = record {
      type = lz_image_type_rgb32;
      width = width;
      height = length rs;
      top_down = top_down;
      body = encode ts rest;
    } in
      convert_spice_lz_to_web fuel img ≡ some (some (rows_down rs))
unfolding convert_spice_lz_to_web finish
convert_spice_lz_to_web-encode ts fuel width top_down rest rs fits h same long pixels =
    let done = decompress-encode ts fuel rest [] fits h in
    let blank : replicate (width * length rs * 4) 0 ≡ rooms ts =
      ap (λ n. replicate n 0) (sym same) ∙ sym (rooms-blank ts) in
    rw (blank, done, append-nil (flat (expand [] ts)), pixels)
      (ap (λ t. Option.some (Option.some t)) (stored_rows-flip_image_data width top_down rs long))
