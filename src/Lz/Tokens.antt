-- ===== src/Lz/Tokens.antt =====
-- lz.js: what the tokens of an LZ stream say, and how they are written, which the client never
-- does: literal colours, and runs copied from earlier pixels.
use vm_automation_deployment.Common.{
  ℕ, zero, suc, ◌+◌, ◌-◌, ◌*◌, ◌/◌, ◌%◌, ◌≤◌, List, [], ◌∷◌, ◌++◌, length, ltb, if◌then◌else◌,
}
use vm_automation_deployment.Wire.{Bytes}
use vm_automation_deployment.Lz.Pixels.{Pixel, nth, room}

pub record Colour : Type 0 where
  pub red : ℕ
  pub green : ℕ
  pub blue : ℕ

-- What a token stands for: some colours, or `len` pixels from `ofs` before on.
pub data Token : Type 0 where
  colours : List Colour → Token
  run : ℕ → ℕ → Token

abbrev pub opaque : Colour → Pixel
opaque c = record { red = c.red; green = c.green; blue = c.blue; alpha = 255 }

-- The pixels so far, with the ones of a token behind them.
abbrev pub paint : List Pixel → List Colour → List Pixel
paint ps [] = ps
paint ps (c ∷ cs) = paint (ps ++ (opaque c ∷ [])) cs

abbrev pub extend : ℕ → ℕ → List Pixel → List Pixel
extend zero ofs ps = ps
extend (suc k) ofs ps = extend k ofs (ps ++ (nth ps (length ps - ofs) ∷ []))

abbrev pub expand_token : List Pixel → Token → List Pixel
expand_token ps (colours cs) = paint ps cs
expand_token ps (run len ofs) = extend len ofs ps

abbrev pub expand : List Pixel → List Token → List Pixel
expand ps [] = ps
expand ps (t ∷ ts) = expand (expand_token ps t) ts

abbrev pub size : Token → ℕ
size (colours cs) = length cs
size (run len ofs) = len

-- The room for the pixels of the tokens in a new image.
abbrev pub rooms : List Token → Bytes
rooms [] = []
rooms (t ∷ ts) = room (size t) (rooms ts)

-- How the tokens are written.
abbrev pub colour_bytes : List Colour → Bytes → Bytes
colour_bytes [] rest = rest
colour_bytes (c ∷ cs) rest = c.blue ∷ c.green ∷ c.red ∷ colour_bytes cs rest

abbrev pub full_bytes : ℕ → Bytes → Bytes
full_bytes zero rest = rest
full_bytes (suc n) rest = 255 ∷ full_bytes n rest

abbrev pub len_ctrl : ℕ → ℕ
len_ctrl l = if ltb l 6 then suc l else 7

abbrev pub len_bytes : ℕ → Bytes → Bytes
len_bytes l rest = if ltb l 6 then rest else full_bytes ((l - 6) / 255) ((l - 6) % 255 ∷ rest)

abbrev pub ofs_ctrl : ℕ → ℕ
ofs_ctrl o = if ltb o 8191 then o / 256 else 31

abbrev pub ofs_bytes : ℕ → Bytes → Bytes
ofs_bytes o rest =
    if ltb o 8191 then o % 256 ∷ rest else 255 ∷ (o - 8191) / 256 ∷ (o - 8191) % 256 ∷ rest

abbrev pub encode_token : Token → Bytes → Bytes
encode_token (colours cs) rest = (length cs - 1) ∷ colour_bytes cs rest
encode_token (run len ofs) rest =
    (len_ctrl (len - 1) * 32 + ofs_ctrl (ofs - 1)) ∷ len_bytes (len - 1) (ofs_bytes (ofs - 1) rest)

abbrev pub encode : List Token → Bytes → Bytes
encode [] rest = rest
encode (t ∷ ts) rest = encode_token t (encode ts rest)

-- A token that may stand behind `n` pixels: up to 32 colours, or a run from among them, from no
-- more than 73,727 before.
abbrev pub FitsToken : ℕ → Token → Type 0
FitsToken n (colours cs) = (1 ≤ length cs) × (length cs ≤ 32)
FitsToken n (run len ofs) = (1 ≤ len) × (1 ≤ ofs) × (ofs ≤ n) × (ofs ≤ 73727)

abbrev pub Fits : ℕ → List Token → Type 0
Fits n [] = Unit
Fits n (t ∷ ts) = FitsToken n t × Fits (n + size t) ts
