-- ===== src/Png/Tests.antt =====
-- Checksums of known texts, a small file, and the witnesses.
use vm_automation_deployment.Common.{◌≡◌, refl, [], ◌∷◌, ◌++◌, some, false, arith}
use vm_automation_deployment.Wire.{Bytes}
use vm_automation_deployment.Png.{new_adler, update, update_all, create_rgba_png}
use vm_automation_deployment.Png.Crc.{
  crc_round, crc_rounds, crc_rows, rfc2083_make_crc_table, rfc2083_update_crc, rfc2083_crc, divide,
  rfc2083_update_crc-divide,
}
use vm_automation_deployment.Png.Sizes.{png_chunk}
use vm_automation_deployment.Png.File.{zlib_stored, create_rgba_png-chunks}
use vm_automation_deployment.Common.Int.{pos}
use vm_automation_deployment.DataView.RoundTrip.{word}

abbrev iend : Bytes
iend = b'I' ∷ b'E' ∷ b'N' ∷ b'D' ∷ []

rfc2083_update_crc-divide_example : rfc2083_update_crc 0xffffffff iend ≡ divide 0xffffffff iend
rfc2083_update_crc-divide_example =
    rfc2083_update_crc-divide iend 0xffffffff
      (omega arith, (omega arith, (omega arith, (omega arith, tt))))

-- The checksum of the last chunk of every PNG file.
checksum_of_end : rfc2083_crc iend ≡ 0xae426082
unfolding rfc2083_crc rfc2083_update_crc rfc2083_make_crc_table crc_rows crc_rounds crc_round
checksum_of_end = refl

adler_of_text : update_all (b'a' ∷ b'b' ∷ b'c' ∷ []) new_adler ≡ record { s1 = 295; s2 = 589 }
unfolding update_all update new_adler
adler_of_text = refl

create_rgba_png-chunks_example :
    create_rgba_png 1 2 (1 ∷ 2 ∷ 3 ∷ 4 ∷ 5 ∷ 6 ∷ 7 ∷ 8 ∷ [])
    ≡ some (
        (png_chunk
            (b'I' ∷ b'H' ∷ b'D' ∷ b'R' ∷ [])
            (word (pos 1) false ++ (word (pos 2) false ++ (8 ∷ 6 ∷ 0 ∷ 0 ∷ 0 ∷ [])))
          ++ png_chunk
              (b'I' ∷ b'D' ∷ b'A' ∷ b'T' ∷ [])
              (zlib_stored 10 (0 ∷ 1 ∷ 2 ∷ 3 ∷ 4 ∷ 0 ∷ 5 ∷ 6 ∷ 7 ∷ 8 ∷ [])))
        ++ png_chunk (b'I' ∷ b'E' ∷ b'N' ∷ b'D' ∷ []) [])
create_rgba_png-chunks_example =
    create_rgba_png-chunks 1 ((1 ∷ 2 ∷ 3 ∷ 4 ∷ []) ∷ (5 ∷ 6 ∷ 7 ∷ 8 ∷ []) ∷ []) (refl, (refl, tt))
      (omega arith)
