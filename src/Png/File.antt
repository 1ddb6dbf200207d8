-- ===== src/Png/File.antt =====
-- png.js: the file that create_rgba_png makes, against the format of PNG.
use vm_automation_deployment.Common.{
  Option, ℕ, some, false, ◌+◌, ◌*◌, ◌%◌, ◌≤◌, ◌≡◌, refl, sym, ap, ◌∙◌, List, [], ◌∷◌, ◌++◌, length,
  take, drop, replicate, length-append, take-append, append-nil, arith,
}
use vm_automation_deployment.Common.Int.{pos, negsuc}
use vm_automation_deployment.Wire.{Bytes}
use vm_automation_deployment.DataView.RoundTrip.{word, half_word, length-word}
use vm_automation_deployment.Messages.Cursor.Laws.{drop-length}
use vm_automation_deployment.Lz.Flip.{replicate-add, take_all, top_down, AllLong}
use vm_automation_deployment.Png.{
  ihdr_body, ihdr_buffer_size, ihdr_to_buffer, PngIdat, scanlines, Adler, update, update_all,
  new_adler, idat_body, idat_buffer_size, idat_to_buffer, iend_buffer_size, iend_to_buffer,
  new_ihdr, new_idat, create_rgba_png, png_file,
}
use vm_automation_deployment.Png.Sizes.{png_chunk, chunk_to_buffer-done, length-idat_body}
use native.Mathlib.Nat.{suc-mul}

-- The two sums of Adler-32, without the remainders: of the bytes, and of the sums so far.
abbrev pub total : Bytes → ℕ
total [] = 0
total (b ∷ bs) = b + total bs

abbrev pub running : ℕ → Bytes → ℕ
running s [] = 0
running s (b ∷ bs) = s + b + running (s + b) bs

abbrev reduced : ℕ → ℕ → Adler
reduced x y = record { s1 = x % 65521; s2 = y % 65521 }

update-reduced : (b x y : ℕ) → update b (reduced x y) ≡ reduced (x + b) (y + (x + b))
unfolding update
update-reduced b x y =
    let e : (x % 65521 + b) % 65521 ≡ (x + b) % 65521 = omega arith in
    let f : (y % 65521 + (x + b) % 65521) % 65521 ≡ (y + (x + b)) % 65521 = omega arith in
    rw (e, f) refl

update_all-reduced :
    (bs : Bytes) (x y : ℕ) → update_all bs (reduced x y) ≡ reduced (x + total bs) (y + running x bs)
unfolding update_all
update_all-reduced [] x y =
    let e : x + 0 ≡ x = omega arith in let f : y + 0 ≡ y = omega arith in rw (e, f) refl
update_all-reduced (b ∷ bs) x y =
    let e : x + b + total bs ≡ x + (b + total bs) = omega arith in
    let f : y + (x + b) + running (x + b) bs ≡ y + (x + b + running (x + b) bs) = omega arith in
    ap (update_all bs) (update-reduced b x y)
    ∙ update_all-reduced bs (x + b) (y + (x + b))
    ∙ rw (e, f) refl

update_all-sums : (bs : Bytes) → update_all bs new_adler ≡ reduced (1 + total bs) (running 1 bs)
unfolding new_adler
update_all-sums bs =
    let f : 0 + running 1 bs ≡ running 1 bs = omega arith in update_all-reduced bs 1 0 ∙ rw f refl

-- The rows with a filter type of 0 in front of each.
abbrev pub filtered : List Bytes → Bytes
filtered [] = []
filtered (r ∷ rs) = 0 ∷ (r ++ filtered rs)

scanlines-filtered :
    (width : ℕ) (rs : List Bytes)
    → AllLong (4 * width) rs
    → scanlines width (length rs) (top_down rs) ≡ filtered rs
unfolding scanlines
scanlines-filtered width [] h = refl
scanlines-filtered width (r ∷ rs) (e, h) =
    let front : take (4 * width) (r ++ top_down rs) ≡ r =
      rw (sym e, take-append (length r) r (top_down rs) (omega arith)) (take_all r) in
    let behind : drop (4 * width) (r ++ top_down rs) ≡ top_down rs =
      rw (sym e) (drop-length r (top_down rs)) in
    rw (front, behind, scanlines-filtered width rs h) refl

length-rows : (n : ℕ) (rs : List Bytes) → AllLong n rs → length (top_down rs) ≡ length rs * n
length-rows n [] h = omega arith
length-rows n (r ∷ rs) (e, h) =
    length-append r (top_down rs) ∙ omega (arith, length-rows n rs h, e, suc-mul (length rs) n)

-- A stored block of deflate in the frame of zlib, as the source writes it: the sizes and the sums
-- are most significant byte first.
abbrev pub zlib_stored : ℕ → Bytes → Bytes
zlib_stored size data_bytes =
    (0x78 ∷ 0x01 ∷ 0x80 ∷ [])
    ++ (half_word (pos size) false
        ++ (half_word (negsuc size) false
            ++ (data_bytes
                ++ (half_word (pos (running 1 data_bytes % 65521)) false
                    ++ half_word (pos ((1 + total data_bytes) % 65521)) false))))

idat_body-zlib :
    (width : ℕ) (rs : List Bytes)
    → AllLong (4 * width) rs
    → idat_body (record { width = width; height = length rs; body = top_down rs })
      ≡ zlib_stored (length (top_down rs) + length rs) (filtered rs)
idat_body-zlib width rs h = rw (scanlines-filtered width rs h, update_all-sums (filtered rs)) refl

new_idat-some :
    (width height : ℕ) (u8 : Bytes)
    → length u8 ≤ 65535
    → new_idat width height u8 ≡ some (record { width = width; height = height; body = u8 })
unfolding new_idat
new_idat-some width height u8 h = ground arith

-- The three chunks, each behind the other in the buffer.
three_chunks :
    (width height : ℕ) (i : PngIdat)
    → length i.body ≡ i.height * (4 * i.width)
    → png_file width height (some i)
      ≡ some (
          (png_chunk (b'I' ∷ b'H' ∷ b'D' ∷ b'R' ∷ []) (ihdr_body (new_ihdr width height))
            ++ png_chunk (b'I' ∷ b'D' ∷ b'A' ∷ b'T' ∷ []) (idat_body i))
          ++ png_chunk (b'I' ∷ b'E' ∷ b'N' ∷ b'D' ∷ []) [])
unfolding png_file ihdr_to_buffer idat_to_buffer iend_to_buffer
three_chunks width height i h =
    let head = ihdr_body (new_ihdr width height) in
    let first = png_chunk (b'I' ∷ b'H' ∷ b'D' ∷ b'R' ∷ []) head in
    let second = png_chunk (b'I' ∷ b'D' ∷ b'A' ∷ b'T' ∷ []) (idat_body i) in
    let third = png_chunk (b'I' ∷ b'E' ∷ b'N' ∷ b'D' ∷ []) [] in
    let head_size : length head + 12 ≡ ihdr_buffer_size =
      unfold ihdr_buffer_size in simp (length-append, length-word) in
    let end_size : 12 ≡ iend_buffer_size = unfold iend_buffer_size in refl in
    let n1 = ihdr_buffer_size in
    let n2 = idat_buffer_size i in
    let n3 = iend_buffer_size in
    let room : replicate {A = ℕ} (n1 + (n2 + n3)) 0
        ≡ replicate n1 0 ++ (replicate n2 0 ++ (replicate n3 0 ++ [])) =
      rw (append-nil (replicate {A = ℕ} n3 0)) (
        replicate-add n1 (n2 + n3) ∙ ap (λ t. replicate {A = ℕ} n1 0 ++ t) (replicate-add n2 n3)) in
    let file = (first ++ second) ++ third in
    let taken : take (length file) (file ++ []) ≡ file = rw (append-nil file) (take_all file) in
    rw
      (
        room,
        chunk_to_buffer-done n1 (b'I' ∷ b'H' ∷ b'D' ∷ b'R' ∷ []) head []
            (replicate n2 0 ++ (replicate n3 0 ++ [])) refl head_size,
        chunk_to_buffer-done n2 (b'I' ∷ b'D' ∷ b'A' ∷ b'T' ∷ []) (idat_body i) first
            (replicate n3 0 ++ []) refl (length-idat_body i h),
        chunk_to_buffer-done n3 (b'I' ∷ b'E' ∷ b'N' ∷ b'D' ∷ []) [] (first ++ second) [] refl
            end_size,
        taken,
      )
      refl

-- An image whose rows are of `width` pixels of four bytes and hold at most 65535 bytes together is
-- made a file of three chunks, each with the length of its body and the checksum of just its type
-- and body: the header with the width, the height, 8 bits, colours with alpha and no interlacing;
-- the data, which are the rows with a filter type of 0 in front of each, in a stored block behind
-- its size and the complement of the size, with the two sums of Adler-32 over them; and the end.
pub create_rgba_png-chunks :
    (width : ℕ) (rs : List Bytes)
    → AllLong (4 * width) rs
    → length (top_down rs) ≤ 65535
    → create_rgba_png width (length rs) (top_down rs)
      ≡ some (
          (png_chunk
              (b'I' ∷ b'H' ∷ b'D' ∷ b'R' ∷ [])
              (word (pos width) false ++ (word (pos (length rs)) false ++ (8 ∷ 6 ∷ 0 ∷ 0 ∷ 0 ∷ [])))
            ++ png_chunk
                (b'I' ∷ b'D' ∷ b'A' ∷ b'T' ∷ [])
                (zlib_stored (length (top_down rs) + length rs) (filtered rs)))
          ++ png_chunk (b'I' ∷ b'E' ∷ b'N' ∷ b'D' ∷ []) [])
unfolding create_rgba_png new_ihdr
create_rgba_png-chunks width rs h small =
    let i : PngIdat = record { width = width; height = length rs; body = top_down rs } in
    ap (png_file width (length rs)) (new_idat-some width (length rs) (top_down rs) small)
    ∙ three_chunks width (length rs) i (length-rows (4 * width) rs h)
    ∙ ap
        (λ t. Option.some (
          (png_chunk (b'I' ∷ b'H' ∷ b'D' ∷ b'R' ∷ []) (ihdr_body (new_ihdr width (length rs)))
            ++ png_chunk (b'I' ∷ b'D' ∷ b'A' ∷ b'T' ∷ []) t)
          ++ png_chunk (b'I' ∷ b'E' ∷ b'N' ∷ b'D' ∷ []) []))
        (idat_body-zlib width rs h)
