-- ===== src/ArrayBuffer.antt =====
-- portal/static/spice-html5/spicearraybuffer.js: SpiceArrayBufferSlice, which stands in for
-- ArrayBuffer.slice where the browser has none. The buffer (`this`) is an argument.
pub mod Slice
mod Tests
use vm_automation_deployment.Common.{
  ℕ, zero, suc, ◌-◌, Bool, List, Option, none, some, length, take, drop, set, get_or, ◌==◌,
  if◌then◌else◌,
}
use vm_automation_deployment.Common.Int.{ℤ, pos, negsuc, ◌+ℤ◌, pos_part, ltb_ℤ}
use vm_automation_deployment.Wire.{Bytes}
use vm_automation_deployment.Messages.Cursor.Laws.{zeros}

-- `value || otherwise`, where the value may be undefined.
abbrev pub or_else : Option ℤ → ℤ → ℤ
or_else none otherwise = otherwise
or_else (some (pos n)) otherwise = if n == 0 then otherwise else pos n
or_else (some (negsuc n)) otherwise = negsuc n

abbrev pub clip_low : ℤ → ℤ
clip_low z = if ltb_ℤ z (pos 0) then pos 0 else z

-- A negative index counts from the end.
unfoldable pub from_end : ℕ → ℤ → ℤ
unfolding ◌+ℤ◌
from_end len z = if ltb_ℤ z (pos 0) then pos len +ℤ z else z

-- `end` at the point where the buffer is made.
unfoldable pub end_index : ℕ → Option ℤ → ℤ
unfolding from_end
end_index len end =
    let e = clip_low (from_end len (or_else end (pos len))) in
    if ltb_ℤ (pos len) e then pos len else e

-- `start`, against the `end` above.
unfoldable pub start_index : ℕ → Option ℤ → ℤ → ℤ
unfolding from_end
start_index len start e =
    let s = clip_low (from_end len (or_else start (pos 0))) in if ltb_ℤ e s then e else s

-- `for (i = …; i < end - start; i++) out[i] = in1[i]`, with `n` rounds left.
unfoldable pub copy : ℕ → ℕ → Bytes → Bytes → Bytes
copy zero i in1 out = out
copy (suc n) i in1 out = copy n (suc i) in1 (set out i (get_or in1 i 0))

unfoldable pub slice : Bytes → Option ℤ → Option ℤ → Bytes
slice buffer start end =
    let e = end_index (length buffer) end in
    let s = start_index (length buffer) start e in
    let n = pos_part e - pos_part s in copy n 0 (take n (drop (pos_part s) buffer)) (zeros n)
