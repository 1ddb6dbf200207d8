-- ===== src/DataView/Tests.antt =====
-- Numbers written to small buffers.
use vm_automation_deployment.Common.{◌≡◌, inr, true, false, [], ◌∷◌, length, arith}
use vm_automation_deployment.Common.Int.{pos, negsuc}
use vm_automation_deployment.Wire.{Bytes}
use vm_automation_deployment.DataView.{get_uint8, get_uint32, set_uint32}
use vm_automation_deployment.DataView.Access.{uint32_roundtrip, uint32_reads_signed}

abbrev buffer : Bytes
buffer = 1 ∷ 2 ∷ 3 ∷ 4 ∷ 5 ∷ 6 ∷ []

uint32_roundtrip_example :
    let b' = set_uint32 buffer 1 (negsuc 6) true in
    (get_uint32 b' 1 true ≡ negsuc 6) × (length b' ≡ 6) × (get_uint8 b' 5 ≡ get_uint8 buffer 5)
uint32_roundtrip_example =
    uint32_roundtrip buffer 1 (negsuc 6) true 5 (omega arith) (omega arith) (inr (omega arith))

uint32_reads_signed_example :
    get_uint32 (set_uint32 buffer 0 (pos 0xfffffff0) false) 0 false ≡ negsuc 15
uint32_reads_signed_example =
    uint32_reads_signed buffer 0 0xfffffff0 false (omega arith) (omega arith) (omega arith)
