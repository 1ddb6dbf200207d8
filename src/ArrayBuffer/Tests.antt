-- ===== src/ArrayBuffer/Tests.antt =====
-- Runs of the slice, and the witnesses.
use vm_automation_deployment.Common.{◌≡◌, ◌≢◌, refl, [], ◌∷◌, some, arith}
use vm_automation_deployment.Common.Int.{pos, negsuc}
use vm_automation_deployment.Wire.{Bytes}
use vm_automation_deployment.ArrayBuffer.{slice, end_index, start_index, from_end, copy}
use vm_automation_deployment.ArrayBuffer.Slice.{array_buffer_slice, slice-array_buffer_slice}

abbrev five : Bytes
five = 1 ∷ 2 ∷ 3 ∷ 4 ∷ 5 ∷ []

last_but_one : slice five (some (negsuc 2)) (some (negsuc 0)) ≡ 3 ∷ 4 ∷ []
unfolding slice end_index start_index from_end copy
last_but_one = refl

nonzero : some (negsuc 0) ≢ some (pos 0)
nonzero e = ground arith

slice-array_buffer_slice_example :
    slice five (some (negsuc 2)) (some (negsuc 0))
    ≡ array_buffer_slice five (some (negsuc 2)) (some (negsuc 0))
slice-array_buffer_slice_example =
    slice-array_buffer_slice five (some (negsuc 2)) (some (negsuc 0)) nonzero
