-- ===== src/Webm.antt =====
-- portal/static/spice-html5/webm.js: the EBML utility functions. Each of them writes its bytes one
-- after the other from `at` on, and returns the position behind them: here it is the list of these
-- bytes. (The language's DataView stores numbers most significant byte first, and throws where the
-- buffer is too small.) The four bytes of a 32-bit float are a parameter.
pub mod Ids
pub mod Objects
pub mod Tracks
pub mod Reader
pub mod Sizes
pub mod Parses
pub mod Elements
mod Tests
use Prim.Native.Nat.{bit_or}
use vm_automation_deployment.Common.{
  ℕ, ◌/◌, ◌%◌, ◌^◌, List, [], ◌∷◌, ◌++◌, length, ltb, if◌then◌else◌,
}
use vm_automation_deployment.Wire.{Bytes}

unfoldable pub write_u1_data_len : ℕ → Bytes
write_u1_data_len len = bit_or 0x80 len % 256 ∷ []

-- A string is written by its characters' codes, as an array is.
unfoldable pub write_array : List ℕ → Bytes
write_array [] = []
write_array (x ∷ xs) = x % 256 ∷ write_array xs

unfoldable pub write_u8_value : List ℕ → ℕ → Bytes
write_u8_value id val = write_array id ++ (write_u1_data_len 1 ++ (val % 256 ∷ []))

unfoldable pub write_u16_value : List ℕ → ℕ → Bytes
write_u16_value id val =
    write_array id ++ (write_u1_data_len 2 ++ (val / 256 % 256 ∷ val % 256 ∷ []))

abbrev pub bytes_u32 : ℕ → Bytes
bytes_u32 val = val / 2 ^ 24 % 256 ∷ val / 2 ^ 16 % 256 ∷ val / 2 ^ 8 % 256 ∷ val % 256 ∷ []

unfoldable pub write_u32_value : List ℕ → ℕ → Bytes
write_u32_value id val = write_array id ++ (write_u1_data_len 4 ++ bytes_u32 val)

unfoldable pub write_float_value : (ℕ → Bytes) → List ℕ → ℕ → Bytes
write_float_value float32 id val = write_array id ++ (write_u1_data_len 4 ++ float32 val)

-- `val >> shift`, of which setUint8 keeps 8 bits, for each shift from 24 to 0.
unfoldable pub write_u64_data_len : ℕ → Bytes
write_u64_data_len len = 1 ∷ 0 ∷ 0 ∷ 0 ∷ bytes_u32 len

unfoldable pub write_data : List ℕ → List ℕ → Bytes
write_data id body =
    write_array id
    ++ ((if ltb (length body) 127
          then write_u1_data_len (length body)
          else write_u64_data_len (length body))
        ++ write_array body)
