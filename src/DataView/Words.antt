-- ===== src/DataView/Words.antt =====
-- Numbers and their 32 bits.
use vm_automation_deployment.Common.{ℕ, ◌+◌, ◌*◌, ◌/◌, ◌%◌, ◌^◌, ◌<◌, ◌≡◌, arith}
use vm_automation_deployment.Common.Int.{ℤ, pos, negsuc}
use vm_automation_deployment.DataView.{to_uint32, to_int32, sar}

-- The numbers from -2^31 up to 2^31 - 1.
abbrev pub IsInt32 : ℤ → Type 0
IsInt32 (pos n) = n < 2 ^ 31
IsInt32 (negsuc n) = n < 2 ^ 31

pub to_uint32-lt : (v : ℤ) → to_uint32 v < 2 ^ 32
to_uint32-lt (pos n) = omega arith
to_uint32-lt (negsuc n) = omega arith

pub to_int32-to_uint32 : (v : ℤ) → IsInt32 v → to_int32 (to_uint32 v) ≡ v
to_int32-to_uint32 (pos n) h = ground arith
to_int32-to_uint32 (negsuc n) h = ground arith

pub to_uint32-to_int32 : (x : ℕ) → x < 2 ^ 32 → to_uint32 (to_int32 x) ≡ x
to_uint32-to_int32 x h = ground arith

-- The upper half of the 32 bits, by the signed shift.
pub sar-half : (x : ℕ) → x < 2 ^ 32 → to_uint32 (sar (to_int32 x) 16) % 2 ^ 16 ≡ x / 2 ^ 16
sar-half x h = ground arith

-- The four bytes of 32 bits, the least first.
abbrev pub byte : ℕ → ℕ → ℕ
byte x k = x / 256 ^ k % 256

pub bytes-sum :
    (x : ℕ) → x < 2 ^ 32 → (byte x 3 * 256 + byte x 2) * 65536 + (byte x 1 * 256 + byte x 0) ≡ x
bytes-sum x h = omega arith
