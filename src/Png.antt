-- ===== src/Png.antt =====
-- portal/static/spice-html5/png.js: an image of four bytes a pixel as a PNG file in one stored block.
-- A to_buffer takes the buffer with its `at` and gives them back; the data is that of an image of
-- the width and height, so that what is written fits the buffer.
pub mod Xor
pub mod Crc
pub mod Sizes
pub mod File
mod Tests
use vm_automation_deployment.Common.{
  ℕ, false, zero, suc, ◌+◌, ◌-◌, ◌*◌, ◌%◌, Bool, List, [], ◌∷◌, ◌++◌, Option, none, some, length,
  take, drop, replicate, ltb, if◌then◌else◌,
}
use vm_automation_deployment.Common.Int.{ℤ, pos, negsuc}
use vm_automation_deployment.Wire.{Bytes}
use vm_automation_deployment.DataView.RoundTrip.{word, half_word}
use vm_automation_deployment.Lz.Flip.{set_from}
use vm_automation_deployment.Png.Crc.{rfc2083_crc}

-- Behind the end of the buffer the source reads undefined, which counts as 0.
unfoldable pub crc32 : Bytes → ℕ → ℕ → ℕ
crc32 a at len = rfc2083_crc (take len (drop at a ++ replicate len 0))

-- A buffer, and the offset where the next byte is written.
abbrev pub Output : Type 0
Output = Bytes × ℕ

-- The calls of setUint8, setUint16 and setUint32 that write these bytes, most significant first.
unfoldable pub put : Bytes → Output → Output
unfolding set_from
put bs (a, at) = (set_from a at bs, at + length bs)

-- What the three to_buffer do: the length, the type and the body are written from `orig` on, and
-- behind them the checksum of `size - 8` bytes of the buffer from `orig + 4` on.
unfoldable pub chunk_to_buffer : ℕ → Bytes → Bytes → Output → Output
chunk_to_buffer size type body out =
    let out' = put (word (pos (size - 12)) false ++ (type ++ body)) out in
    put (word (pos (crc32 out'.0 (out.1 + 4) (size - 8))) false) out'

pub record PngIhdr : Type 0 where
  pub width : ℕ
  pub height : ℕ
  pub depth : ℕ
  pub type : ℕ
  pub compression : ℕ
  pub filter : ℕ
  pub interlace : ℕ

unfoldable pub new_ihdr : ℕ → ℕ → PngIhdr
new_ihdr width height = record {
  width = width;
  height = height;
  depth = 8;
  type = 6;
  compression = 0;
  filter = 0;
  interlace = 0;
}

abbrev pub ihdr_body : PngIhdr → Bytes
ihdr_body h =
    word (pos h.width) false
    ++ (word (pos h.height) false
        ++ (h.depth ∷ h.type ∷ h.compression ∷ h.filter ∷ h.interlace ∷ []))

unfoldable pub ihdr_buffer_size : ℕ
ihdr_buffer_size = 12 + 13

unfoldable pub ihdr_to_buffer : PngIhdr → Output → Output
ihdr_to_buffer h = chunk_to_buffer ihdr_buffer_size (b'I' ∷ b'H' ∷ b'D' ∷ b'R' ∷ []) (ihdr_body h)

pub record Adler : Type 0 where
  pub s1 : ℕ
  pub s2 : ℕ

unfoldable pub new_adler : Adler
new_adler = record { s1 = 1; s2 = 0 }

unfoldable pub update : ℕ → Adler → Adler
update b z = let s1 = (z.s1 + b) % 65521 in record { s1 = s1; s2 = (z.s2 + s1) % 65521 }

unfoldable pub update_all : Bytes → Adler → Adler
update_all [] z = z
update_all (b ∷ bs) z = update_all bs (update b z)

pub record PngIdat : Type 0 where
  pub width : ℕ
  pub height : ℕ
  pub body : Bytes

-- More than 64K is an error.
unfoldable pub new_idat : ℕ → ℕ → Bytes → Option PngIdat
new_idat width height body =
    if ltb 65535 (length body)
    then none
    else some (record { width = width; height = height; body = body })

-- The rows, each behind a filter type of 0.
unfoldable pub scanlines : (width height : ℕ) → Bytes → Bytes
scanlines width zero u8 = []
scanlines width (suc height) u8 =
    0 ∷ (take (4 * width) u8 ++ scanlines width height (drop (4 * width) u8))

unfoldable pub idat_buffer_size : PngIdat → ℕ
idat_buffer_size i = 12 + length i.body + i.height + 4 + 2 + 1 + 2 + 2

-- The header of zlib, the one of the stored block, the rows and their sum.
abbrev pub idat_body : PngIdat → Bytes
idat_body i =
    let rows = scanlines i.width i.height i.body in
    let zsum = update_all rows new_adler in
    let size = length i.body + i.height in
    0x78
    ∷ 0x01
    ∷ 0x80
    ∷ (half_word (pos size) false
        ++ (half_word (negsuc size) false
            ++ (rows ++ (half_word (pos zsum.s2) false ++ half_word (pos zsum.s1) false))))

unfoldable pub idat_to_buffer : PngIdat → Output → Output
idat_to_buffer i =
    chunk_to_buffer (idat_buffer_size i) (b'I' ∷ b'D' ∷ b'A' ∷ b'T' ∷ []) (idat_body i)

unfoldable pub iend_buffer_size : ℕ
iend_buffer_size = 12

unfoldable pub iend_to_buffer : Output → Output
iend_to_buffer = chunk_to_buffer iend_buffer_size (b'I' ∷ b'E' ∷ b'N' ∷ b'D' ∷ []) []

-- The bytes that the result writes in hexadecimal behind a signature; none is the error.
unfoldable pub png_file : (width height : ℕ) → Option PngIdat → Option Bytes
png_file width height none = none
png_file width height (some idat) =
    let mb = replicate (ihdr_buffer_size + (idat_buffer_size idat + iend_buffer_size)) 0 in
    let (a, at) =
      iend_to_buffer (idat_to_buffer idat (ihdr_to_buffer (new_ihdr width height) (mb, 0))) in
    some (take at a)

unfoldable pub create_rgba_png : (width height : ℕ) → Bytes → Option Bytes
create_rgba_png width height body = png_file width height (new_idat width height body)
