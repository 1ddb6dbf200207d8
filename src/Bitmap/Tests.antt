-- ===== src/Bitmap/Tests.antt =====
-- bitmap.js: small bitmaps, and the witnesses.
use vm_automation_deployment.Common.{ℕ, ◌≡◌, refl, List, [], ◌∷◌, Option, some, arith}
use vm_automation_deployment.Common.Int.{◌+ℤ◌, ◌-ℤ◌}
use vm_automation_deployment.Bitmap.{
  SpiceBitmap, convert_spice_bitmap_to_web, convert_rows, convert_row, convert_pixel,
}
use vm_automation_deployment.Lz.Pixels.{Pixel}
use vm_automation_deployment.Bitmap.Rows.{convert_spice_bitmap_to_web-rows}
use vm_automation_deployment.Bitmap.Total.{Converts, convert_spice_bitmap_to_web_total}

-- One pixel over another, stored from the bottom up, with alpha.
abbrev column : SpiceBitmap
column = record {
  format = 9;
  flags = 0;
  x = 1;
  y = 2;
  stride = 4;
  body = 1 ∷ 2 ∷ 3 ∷ 4 ∷ 5 ∷ 6 ∷ 7 ∷ 8 ∷ [];
}

-- The rows are turned, and the alpha of a pixel is its blue.
convert-column :
    convert_spice_bitmap_to_web 8 column ≡ some (some (7 ∷ 6 ∷ 5 ∷ 5 ∷ 3 ∷ 2 ∷ 1 ∷ 1 ∷ []))
unfolding convert_spice_bitmap_to_web convert_rows convert_row convert_pixel ◌+ℤ◌ ◌-ℤ◌
convert-column = refl

convert_spice_bitmap_to_web_total_example :
    (ret : Option (List ℕ)) × (convert_spice_bitmap_to_web 8 column ≡ some ret)
    × Converts column ret
convert_spice_bitmap_to_web_total_example =
    convert_spice_bitmap_to_web_total 8 column (omega arith) (omega arith)

-- Two rows of one pixel each.
abbrev rows : List (List Pixel)
rows =
    (record { red = 1; green = 2; blue = 3; alpha = 4 } ∷ [])
    ∷ (record { red = 5; green = 6; blue = 7; alpha = 8 } ∷ [])
    ∷ []

convert_spice_bitmap_to_web-rows_example :
    convert_spice_bitmap_to_web 8 (record {
      format = 8;
      flags = 4;
      x = 1;
      y = 2;
      stride = 4;
      body = 1 ∷ 2 ∷ 3 ∷ 4 ∷ 5 ∷ 6 ∷ 7 ∷ 8 ∷ [];
    })
    ≡ some (some (3 ∷ 2 ∷ 1 ∷ 255 ∷ 7 ∷ 6 ∷ 5 ∷ 255 ∷ []))
convert_spice_bitmap_to_web-rows_example =
    convert_spice_bitmap_to_web-rows 8 8 1 rows refl (omega arith) (refl, (refl, tt)) (omega arith)
