-- ===== src/Messages/MiniData/RoundTrip.antt =====
-- A framed message written to a buffer and read again.
use vm_automation_deployment.Common.{
  ◌+◌, ◌<◌, ◌%◌, ◌^◌, ◌≡◌, ap, ◌∙◌, true, [], ◌++◌, length, arith, append_assoc, append-nil,
  length-append,
}
use vm_automation_deployment.Common.Int.{pos}
use vm_automation_deployment.DataView.{to_int32}
use vm_automation_deployment.DataView.Words.{to_int32-to_uint32}
use vm_automation_deployment.DataView.RoundTrip.{word, half_word, length-word, length-half_word}
use vm_automation_deployment.Wire.{Bytes}
use vm_automation_deployment.Messages.Cursor.{Cursor}
use vm_automation_deployment.Messages.Cursor.Laws.{
  on, u16-on, u32-on, put16-on, put32-on, put_bytes-on, zeros, zeros-add, AreBytes, rest-on,
  present,
}
use vm_automation_deployment.Messages.MiniData.{
  SpiceMiniData, bytes, read, write, to_buffer, from_buffer, buffer_size,
}

-- What the message is on the wire: type, number of bytes, bytes.
pub layout : SpiceMiniData → Bytes
layout m = half_word (pos m.type) true ++ (word (pos (length (bytes m.body))) true ++ bytes m.body)

-- What is read of it: the size is that of the bytes, and no data stands for no bytes.
abbrev pub received : SpiceMiniData → SpiceMiniData
received m = record {
  type = m.type;
  size = pos (length (bytes m.body));
  body = present (bytes m.body);
}

write-layout :
    (m : SpiceMiniData) (d r : Bytes)
    → AreBytes (bytes m.body)
    → write m (on d (zeros 6 ++ (zeros (length (bytes m.body)) ++ r))) ≡ (tt, on (d ++ layout m) r)
unfolding write layout
write-layout m d r h = simp (put16-on, put32-on, put_bytes-on _ r (bytes m.body) h, append_assoc)

read-layout :
    (m : SpiceMiniData)
    → m.type < 65536
    → length (bytes m.body) < 2 ^ 31
    → (read (on [] (layout m))).0 ≡ received m
unfolding read layout
read-layout m ht hl =
    simp (u16-on, u32-on, append_assoc, rest-on)
      (let n = length (bytes m.body) in
        let e1 : m.type % 4294967296 % 65536 ≡ m.type = omega arith in
        let e2 : to_int32 (n % 4294967296) ≡ pos n = to_int32-to_uint32 (pos n) hl in cc (e1, e2))

length-layout : (m : SpiceMiniData) → length (layout m) ≡ buffer_size m
unfolding layout buffer_size
length-layout m = simp (length-append, length-half_word, length-word) (omega arith)

filled :
    (m : SpiceMiniData) → AreBytes (bytes m.body) → to_buffer m (zeros (buffer_size m)) 0 ≡ layout m
unfolding to_buffer buffer_size
filled m hb =
    let n = length (bytes m.body) in
    let room : zeros (6 + n) ≡ zeros 6 ++ (zeros n ++ []) =
      rw (zeros-add 6 n, append-nil (zeros n)) in
    ap (λ a. to_buffer m a 0) room
    ∙ unfold on in
      ap (λ (t : Unit {0} × Cursor). t.1.buf) (write-layout m [] [] hb) ∙ append-nil (layout m)

read-back :
    (m : SpiceMiniData)
    → m.type < 65536
    → length (bytes m.body) < 2 ^ 31
    → from_buffer (layout m) 0 ≡ received m
unfolding from_buffer on
read-back m ht hl = read-layout m ht hl

-- A message with a 16-bit type and fewer than 2 ^ 31 bytes, written at the start of a new buffer
-- that has buffer_size bytes, fills it with its layout, and is read from it again with the number
-- of its bytes as its size; no bytes are read as no data.
pub mini_data_roundtrip :
    (m : SpiceMiniData)
    → m.type < 65536
    → length (bytes m.body) < 2 ^ 31
    → AreBytes (bytes m.body)
    → let a = to_buffer m (zeros (buffer_size m)) 0 in
      (a ≡ layout m) × (length a ≡ buffer_size m) × (from_buffer a 0 ≡ received m)
mini_data_roundtrip m ht hl hb =
    (filled m hb, rw (filled m hb) (length-layout m), rw (filled m hb) (read-back m ht hl))
