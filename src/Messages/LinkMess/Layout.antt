-- ===== src/Messages/LinkMess/Layout.antt =====
-- What a link message is on the wire.
use vm_automation_deployment.Common.{
  ℕ, ◌+◌, ◌-◌, ◌%◌, ◌^◌, ◌≡◌, ap, ◌∙◌, true, ◌∷◌, ◌++◌, length, arith, append_assoc, length-append,
}
use vm_automation_deployment.Common.Int.{ℤ, pos}
use vm_automation_deployment.DataView.{to_uint32}
use vm_automation_deployment.DataView.RoundTrip.{word, length-word}
use vm_automation_deployment.Wire.{Bytes}
use vm_automation_deployment.Messages.Cursor.{Cursor, number}
use vm_automation_deployment.Messages.Cursor.Laws.{
  on, put8-on, put32-on, put_words-on, words, word_room, zeros, zeros-add, here-on, length-words,
  word_room-zeros,
}
use vm_automation_deployment.Messages.LinkMess.{SpiceLinkMess, write, to_buffer, buffer_size}

-- The fixed part: id, type, channel, the two numbers of capabilities and where these begin.
pub fixed : SpiceLinkMess → Bytes
fixed m =
    word m.connection_id true
    ++ (to_uint32 (number m.channel_type) % 2 ^ 8
        ∷ to_uint32 (number m.channel_id) % 2 ^ 8
        ∷ (word (pos (length m.common_caps)) true
            ++ (word (pos (length m.channel_caps)) true ++ word (pos 18) true)))

pub layout : SpiceLinkMess → Bytes
layout m = fixed m ++ (words m.common_caps ++ words m.channel_caps)

length-fixed : (m : SpiceLinkMess) → length (fixed m) ≡ 18
unfolding fixed
length-fixed m = simp (length-append, length-word) (omega arith)

-- The capabilities begin behind the 18 bytes of the fixed part.
caps_offset :
    (d : Bytes) (a b c : ℤ) (x y : ℕ)
    → length (d ++ (word a true ++ (x ∷ y ∷ (word b true ++ word c true)))) - length d + 4 ≡ 18
caps_offset d a b c x y = simp (length-append, length-word) (omega arith)

write-layout :
    (m : SpiceLinkMess) (d r : Bytes)
    → write m (on d (zeros 18 ++ word_room m.common_caps (word_room m.channel_caps r)))
      ≡ (tt, on (d ++ layout m) r)
unfolding write layout fixed
write-layout m d r = simp (here-on, put8-on, put32-on, put_words-on, append_assoc, caps_offset)

mess_room :
    (m : SpiceLinkMess) (n : ℕ)
    → zeros (buffer_size m + n)
      ≡ zeros 18 ++ word_room m.common_caps (word_room m.channel_caps (zeros n))
unfolding buffer_size
mess_room m n = simp (word_room-zeros, zeros-add, append_assoc)

length-layout : (m : SpiceLinkMess) → length (layout m) ≡ buffer_size m
unfolding layout buffer_size
length-layout m = simp (length-append, length-fixed, length-words) (omega arith)

-- A link message written behind any bytes of a buffer (the source writes it behind the link header)
-- that has room for buffer_size bytes or more from there on, becomes its layout there, which is
-- buffer_size bytes long, and leaves the rest of the buffer alone. In the layout the capabilities
-- begin at the offset 18, from the beginning of the message, that the message announces.
pub link_mess_layout :
    (m : SpiceLinkMess) (d : Bytes) (n : ℕ)
    → (to_buffer m (d ++ zeros (buffer_size m + n)) (length d) ≡ (d ++ layout m) ++ zeros n)
      × (length (layout m) ≡ buffer_size m)
      × (length (fixed m) ≡ 18)
unfolding to_buffer buffer_size
link_mess_layout m d n = (
  ap (λ a. to_buffer m (d ++ a) (length d)) (mess_room m n)
      ∙ unfold on in ap (λ (t : Unit {0} × Cursor). t.1.buf) (write-layout m d (zeros n)),
  length-layout m,
  length-fixed m,
)
