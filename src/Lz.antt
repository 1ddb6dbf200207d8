-- ===== src/Lz.antt =====
-- portal/static/spice-html5/lz.js: the decoder of LZ images. The input is what is left of `in_buf`
-- from `encoder` on; a byte behind its end is undefined, of which a sum is NaN: none stands for
-- both. A number that is NaN ends a count at once, and points at no pixel. What the decoder reads
-- of a pixel that is not there, and stores, is 0; what it stores behind the end is lost.
pub mod Total
pub mod Tokens
pub mod Pixels
pub mod Copies
pub mod RoundTrip
pub mod Flip
pub mod Convert
mod Tests
use vm_automation_deployment.Common.{
  ℕ, zero, suc, ◌+◌, ◌-◌, ◌*◌, ◌/◌, ◌%◌, Bool, true, false, not, ◌&&◌, List, [], ◌∷◌, ◌++◌, Option,
  none, some, length, take, drop, set, get_or, ltb, leb, ◌==◌, if◌then◌else◌,
}
use vm_automation_deployment.Wire.{Bytes}

-- The next byte of the input.
abbrev pub next : Bytes → Option ℕ × Bytes
next [] = (none, [])
next (b ∷ bs) = (some b, bs)

abbrev pub stored : Option ℕ → ℕ
stored none = 0
stored (some b) = b

abbrev pub add : Option ℕ → ℕ → Option ℕ
add none n = none
add (some a) n = some (a + n)

-- The pixel `ofs` before `op`.
abbrev pub source : ℕ → Option ℕ → Option ℕ
source op none = none
source op (some ofs) = if leb ofs op then some (op - ofs) else none

abbrev pub channel : Bytes → Option ℕ → ℕ → ℕ
channel out none i = 0
channel out (some p) i = get_or out (p * 4 + i) 0

-- One pixel copied to `op`: its alpha only, or all four channels.
unfoldable pub copy_pixel : Bool → ℕ → Option ℕ → Bytes → Bytes
copy_pixel true op src out = set out (op * 4 + 3) (channel out src 3)
copy_pixel false op src out =
    let out0 = set out (op * 4 + 0) (channel out src 0) in
    let out1 = set out0 (op * 4 + 1) (channel out0 src 1) in
    let out2 = set out1 (op * 4 + 2) (channel out1 src 2) in
    set out2 (op * 4 + 3) (channel out2 src 3)

-- The two loops on `len`: one pixel `b` repeated, and pixels copied from `ofs` before each.
unfoldable pub repeat_pixel : Bool → ℕ → ℕ → Option ℕ → Bytes → Bytes
unfolding copy_pixel
repeat_pixel rgba zero op b out = out
repeat_pixel rgba (suc len) op b out = repeat_pixel rgba len (suc op) b (copy_pixel rgba op b out)

unfoldable pub copy_pixels : Bool → ℕ → ℕ → Option ℕ → Bytes → Bytes
unfolding copy_pixel
copy_pixels rgba zero op ofs out = out
copy_pixels rgba (suc len) op ofs out =
    copy_pixels rgba len (suc op) ofs (copy_pixel rgba op (source op ofs) out)

pub record State : Type 0 where
  pub input : Bytes
  pub op : ℕ
  pub out : Bytes

-- One literal pixel: its alpha, or blue, green and red.
unfoldable pub literal : Bool → Bool → State → State
literal true default_alpha s =
    let (alpha, rest) = next s.input in
    record { input = rest; op = suc s.op; out = set s.out (s.op * 4 + 3) (stored alpha) }
literal false default_alpha s =
    let (blue, rest) = next s.input in
    let (green, rest') = next rest in
    let (red, rest'') = next rest' in
    let out0 = set s.out (s.op * 4 + 0) (stored red) in
    let out1 = set out0 (s.op * 4 + 1) (stored green) in
    let out2 = set out1 (s.op * 4 + 2) (stored blue) in
    record {
      input = rest'';
      op = suc s.op;
      out = if default_alpha then set out2 (s.op * 4 + 3) 255 else out2;
    }

unfoldable pub literals : Bool → Bool → ℕ → State → State
unfolding literal
literals rgba default_alpha zero s = s
literals rgba default_alpha (suc n) s = literals rgba default_alpha n (literal rgba default_alpha s)

-- `do { code = in_buf[encoder++]; len += code; } while (code == 255)`
unfoldable pub read_len : ℕ → Bytes → Option ℕ × Bytes
read_len len [] = (none, [])
read_len len (code ∷ rest) =
    let more = read_len (len + code) rest in if code == 255 then more else (some (len + code), rest)

-- The length and the offset of a reference, and the input behind them.
unfoldable pub read_ref_len : ℕ → Bytes → Option ℕ × Bytes
unfolding read_len
read_ref_len ctrl input =
    let len = ctrl / 32 - 1 in if len == 6 then read_len len input else (some len, input)

unfoldable pub far_offset : Bytes → Option ℕ × Bytes
far_offset input =
    let (high, rest) = next input in
    let (low, rest') = next rest in (add low (stored high * 256 + 8191), rest')

abbrev pub is_far : ℕ → Option ℕ → Bool
is_far ofs none = false
is_far ofs (some code) = code == 255 && ofs == 31 * 256

unfoldable pub read_offset : ℕ → Bytes → Option ℕ × Bytes
unfolding far_offset
read_offset ctrl input =
    let ofs = ctrl % 32 * 256 in
    let (code, rest) = next input in
    if is_far ofs code then far_offset rest else (add code ofs, rest)

abbrev pub is_one : Option ℕ → Bool
is_one none = false
is_one (some n) = n == 1

-- How far a count runs.
abbrev pub rounds : Option ℕ → ℕ
rounds none = 0
rounds (some n) = n

-- `len` pixels from `distance` before `op` on.
unfoldable pub copy_run : Bool → ℕ → Option ℕ → ℕ → Bytes → Bytes
unfolding repeat_pixel copy_pixels
copy_run rgba len distance op out =
    if is_one distance
    then repeat_pixel rgba len op (source op distance) out
    else copy_pixels rgba len op distance out

unfoldable pub reference : Bool → ℕ → State → State
unfolding read_ref_len read_offset copy_run
reference rgba ctrl s =
    let (len, rest) = read_ref_len ctrl s.input in
    let (ofs, rest') = read_offset ctrl rest in
    let count = rounds (add len (if rgba then 3 else 1)) in
    record { input = rest'; op = s.op + count; out = copy_run rgba count (add ofs 1) s.op s.out }

-- One round of the loop, with its control byte.
unfoldable pub step : Bool → Bool → ℕ → State → State
unfolding literals reference
step rgba default_alpha ctrl s =
    if leb 32 ctrl then reference rgba ctrl s else literals rgba default_alpha (suc ctrl) s

-- A control byte that is undefined fails the test `ctrl >= 32`, and makes one literal.
unfoldable pub round : Bool → Bool → State → State
unfolding step
round rgba default_alpha s =
    let (ctrl, rest) = next s.input in
    step rgba default_alpha (stored ctrl) (record s { input = rest })

-- `for (…; op * 4 < out_buf.length; …)`, on fuel: none means that it ran out. The input that is
-- left begins at the position that the source returns.
unfoldable pub decompress : Bool → Bool → ℕ → State → Option State
unfolding round
decompress rgba default_alpha zero s = if ltb (s.op * 4) (length s.out) then none else some s
decompress rgba default_alpha (suc fuel) s =
    let more = decompress rgba default_alpha fuel (round rgba default_alpha s) in
    if ltb (s.op * 4) (length s.out) then more else some s
