-- ===== src/Lz/Tests.antt =====
-- lz.js: a small stream decoded, and the witnesses.
use vm_automation_deployment.Common.{
  ◌≡◌, ◌≤◌, ◌*◌, refl, true, false, List, Option, [], ◌∷◌, ◌++◌, some, length, take, drop, arith,
}
use vm_automation_deployment.Wire.{Bytes}
use vm_automation_deployment.Lz.{State, decompress}
use vm_automation_deployment.Lz.Pixels.{flat}
use vm_automation_deployment.Lz.Tokens.{Colour, Token, colours, run, Fits, encode, expand, rooms}
use vm_automation_deployment.Lz.Copies.{state}
use vm_automation_deployment.Lz.Total.{decompress_total}
use vm_automation_deployment.Constants.{lz_image_type_rgb32}
use vm_automation_deployment.Lz.Flip.{top_down}
use vm_automation_deployment.Lz.Convert.{
  LzImage, Converts, convert_spice_lz_to_web, convert_spice_lz_to_web_total,
  convert_spice_lz_to_web-encode,
}
use vm_automation_deployment.Lz.RoundTrip.{decompress-encode}

abbrev red : Colour
red = record { red = 255; green = 0; blue = 0 }

abbrev sea : Colour
sea = record { red = 0; green = 64; blue = 200 }

-- Two colours, three pixels in turn, and nine more of the last.
abbrev tokens : List Token
tokens = colours (red ∷ sea ∷ []) ∷ run 3 2 ∷ run 9 1 ∷ []

abbrev stream : Bytes
stream = 1 ∷ 0 ∷ 0 ∷ 255 ∷ 200 ∷ 64 ∷ 0 ∷ 96 ∷ 1 ∷ 224 ∷ 2 ∷ 0 ∷ []

encode-tokens : encode tokens [] ≡ stream
encode-tokens = refl

tokens-Fits : Fits 0 tokens
tokens-Fits = (
  (omega arith, omega arith),
  (
    (omega arith, omega arith, omega arith, omega arith),
    ((omega arith, omega arith, omega arith, omega arith), tt),
  ),
)

decompress-encode_example :
    decompress false true 3 (state (stream ++ (9 ∷ [])) [] (rooms tokens))
    ≡ some (state (9 ∷ []) (expand [] tokens) [])
decompress-encode_example = decompress-encode tokens 3 (9 ∷ []) [] tokens-Fits (omega arith)

abbrev broken : State
broken = record { input = 255 ∷ 255 ∷ []; op = 0; out = 0 ∷ 0 ∷ 0 ∷ 0 ∷ [] }

decompress_total_example :
    (s' : State) × (decompress true false 9 broken ≡ some s')
    × (length s'.out ≡ length broken.out)
    × (length s'.out ≤ s'.op * 4)
decompress_total_example = decompress_total true false 9 broken (omega arith)

abbrev picture : LzImage
picture = record {
  type = lz_image_type_rgb32;
  width = 7;
  height = 2;
  top_down = false;
  body = stream ++ (9 ∷ []);
}

-- The two rows of the picture, the top one first.
abbrev two_rows : List Bytes
two_rows = drop 28 (flat (expand [] tokens)) ∷ take 28 (flat (expand [] tokens)) ∷ []

convert_spice_lz_to_web-encode_example :
    convert_spice_lz_to_web 3 picture ≡ some (some (top_down two_rows))
convert_spice_lz_to_web-encode_example =
    convert_spice_lz_to_web-encode tokens 3 7 false (9 ∷ []) two_rows tokens-Fits (omega arith) refl
      (refl, (refl, tt)) refl

convert_spice_lz_to_web_total_example :
    (ret : Option Bytes) × (convert_spice_lz_to_web 113 picture ≡ some ret) × Converts picture ret
convert_spice_lz_to_web_total_example = convert_spice_lz_to_web_total 113 picture (omega arith)
