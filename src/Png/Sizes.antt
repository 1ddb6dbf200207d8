-- ===== src/Png/Sizes.antt =====
-- The chunks have the sizes that they tell, and stand in the buffer one behind the other.
use vm_automation_deployment.Common.{
  ℕ, false, zero, suc, ◌+◌, ◌-◌, ◌*◌, ◌≡◌, refl, sym, ap, ◌∙◌, ◌++◌, length, take, drop, replicate,
  length-append, length-take, length-drop, length-replicate, take-append, append_assoc, arith,
}
use vm_automation_deployment.Common.Int.{pos}
use vm_automation_deployment.Wire.{Bytes}
use vm_automation_deployment.DataView.RoundTrip.{word, length-word, length-half_word}
use vm_automation_deployment.Messages.Cursor.Laws.{drop-length}
use vm_automation_deployment.Lz.Flip.{set_from-behind, replicate-add, take_all}
use vm_automation_deployment.Png.{
  Output, put, chunk_to_buffer, PngIdat, scanlines, idat_body, idat_buffer_size, crc32,
}
use vm_automation_deployment.Png.Crc.{rfc2083_crc}
use native.Mathlib.Nat.{suc-mul}

length-scanlines :
    (width height : ℕ) (u8 : Bytes)
    → length u8 ≡ height * (4 * width)
    → length (scanlines width height u8) ≡ length u8 + height
unfolding scanlines
length-scanlines width zero u8 h = omega (arith, h)
length-scanlines width (suc height) u8 h =
    let n = 4 * width in
    let whole : length u8 ≡ n + height * n = h ∙ suc-mul height n ∙ omega arith in
    let rest : length (drop n u8) ≡ height * n = omega (arith, length-drop n u8, whole) in
    omega (
      arith,
      whole,
      rest,
      length-append (take n u8) (scanlines width height (drop n u8)),
      length-take n u8,
      length-scanlines width height (drop n u8) rest,
    )

pub length-idat_body :
    (i : PngIdat)
    → length i.body ≡ i.height * (4 * i.width)
    → length (idat_body i) + 12 ≡ idat_buffer_size i
unfolding idat_buffer_size
length-idat_body i h =
    simp (length-append, length-half_word)
      (omega (arith, length-scanlines i.width i.height i.body h))

-- A chunk as PNG has it: the length of its body, its type and body, and their checksum.
abbrev pub png_chunk : Bytes → Bytes → Bytes
png_chunk type body =
    (word (pos (length body)) false ++ (type ++ body))
    ++ word (pos (rfc2083_crc (type ++ body))) false

-- Written up to the end of `d`, with `r` behind.
abbrev pub done : Bytes → Bytes → Output
done d r = (d ++ r, length d)

put-done : (d bs r : Bytes) → put bs (done d (replicate (length bs) 0 ++ r)) ≡ done (d ++ bs) r
unfolding put
put-done d bs r = λ i. (
  (set_from-behind d (replicate (length bs) 0) bs r (length d)
          (sym (length-replicate (length bs) 0)) refl
        ∙ sym (append_assoc d bs r))
      i,
  sym (length-append d bs) i,
)

-- The checksum is that of the type and the body, whatever stands around them.
crc32-chunk :
    (d w tb r : Bytes) (at len : ℕ)
    → at ≡ length (d ++ w)
    → len ≡ length tb
    → crc32 ((d ++ (w ++ tb)) ++ r) at len ≡ rfc2083_crc tb
unfolding crc32
crc32-chunk d w tb r at len e f =
    let shape : (d ++ (w ++ tb)) ++ r ≡ (d ++ w) ++ (tb ++ r) = simp (append_assoc) in
    rw
      (
        e,
        f,
        shape,
        drop-length (d ++ w) (tb ++ r),
        append_assoc tb r (replicate (length tb) 0),
        take-append (length tb) tb (r ++ replicate (length tb) 0) (omega arith),
        take_all tb,
      )
      refl

-- A chunk written into room for it.
pub chunk_to_buffer-done :
    (size : ℕ) (type body d r : Bytes)
    → length type ≡ 4
    → length body + 12 ≡ size
    → chunk_to_buffer size type body (done d (replicate size 0 ++ r))
      ≡ done (d ++ png_chunk type body) r
unfolding chunk_to_buffer
chunk_to_buffer-done size type body d r h k =
    let w = word (pos (length body)) false in
    let front = w ++ (type ++ body) in
    let crc = word (pos (rfc2083_crc (type ++ body))) false in
    let body_size : size - 12 ≡ length body = omega (arith, k) in
    let four : length w ≡ 4 = length-word (pos (length body)) false in
    let whole : size ≡ length front + length crc = omega (
      arith,
      h,
      k,
      four,
      length-append w (type ++ body),
      length-append type body,
      length-word (pos (rfc2083_crc (type ++ body))) false,
    ) in
    let room : replicate size 0 ++ r
        ≡ replicate (length front) 0 ++ (replicate (length crc) 0 ++ r) =
      ap (λ n. replicate n 0 ++ r) whole
      ∙ ap (λ t. t ++ r) (replicate-add (length front) (length crc))
      ∙ append_assoc (replicate (length front) 0) (replicate (length crc) 0) r in
    let sum =
      crc32-chunk d w (type ++ body) (replicate (length crc) 0 ++ r) (length d + 4) (size - 8)
        (omega (arith, four, length-append d w)) (omega (arith, h, k, length-append type body)) in
    rw
      (
        room,
        body_size,
        put-done d front (replicate (length crc) 0 ++ r),
        sum,
        put-done (d ++ front) crc r,
        append_assoc d front crc,
      )
      refl
