-- ===== src/Messages/Agent/Layout.antt =====
-- The bytes of the messages to the agent, and what the guest's messages are read as.
use vm_automation_deployment.Common.{
  ℕ, ◌+◌, ◌*◌, ◌^◌, ◌≡◌, refl, sym, ap, ◌∙◌, true, List, [], ◌∷◌, ◌++◌, length, arith, append_assoc,
  append-nil, length-append,
}
use Prim.Native.Nat.{bit_and}
use vm_automation_deployment.Common.Bits.{bit_and-zero}
use vm_automation_deployment.Common.Int.{ℤ, pos}
use vm_automation_deployment.Constants.{vd_agent_protocol}
use vm_automation_deployment.DataView.{to_int32, to_uint32, set_uint64, set_uint32, sar}
use vm_automation_deployment.DataView.Append.{set_uint32-behind}
use vm_automation_deployment.DataView.RoundTrip.{word, length-word, set_uint32_front}
use vm_automation_deployment.Wire.{Bytes}
use vm_automation_deployment.Messages.Cursor.{◌>>◌, put32, put64, put_bytes, put_words}
use vm_automation_deployment.Messages.Cursor.Laws.{
  on, on-eq, put32-on, put_words-on, put_bytes-on, words, word_room, word_room-zeros, zeros,
  zeros-add, AreBytes, length-words,
}
use vm_automation_deployment.Messages.Agent.{
  VdAgentMessage, announce_capabilities, monitors_config, clipboard_grab, clipboard_request,
  clipboard, empty_message, file_xfer_status, file_xfer_start, file_xfer_data, size, write,
  write_agent_data, agent_data_size, agent_data_buffer,
}

-- A 64-bit number: its low 32 bits, and none of the others.
abbrev pub long_word : ℤ → Bytes
long_word w = word (to_int32 (to_uint32 w)) true ++ word (pos 0) true

set_uint64_front :
    (x0 x1 x2 x3 x4 x5 x6 x7 : ℕ) (r : Bytes) (w : ℤ)
    → set_uint64 (x0 ∷ x1 ∷ x2 ∷ x3 ∷ x4 ∷ x5 ∷ x6 ∷ x7 ∷ r) 0 w true ≡ long_word w ++ r
unfolding set_uint64
set_uint64_front x0 x1 x2 x3 x4 x5 x6 x7 r w =
    let high : set_uint32 (x0 ∷ x1 ∷ x2 ∷ x3 ∷ x4 ∷ x5 ∷ x6 ∷ x7 ∷ r) 4 (pos 0) true
        ≡ x0 ∷ x1 ∷ x2 ∷ x3 ∷ (word (pos 0) true ++ r) =
      set_uint32-behind (x0 ∷ x1 ∷ x2 ∷ x3 ∷ []) (x4 ∷ x5 ∷ x6 ∷ x7 ∷ r) 0 4 refl (pos 0) true
      ∙ ap (λ t. x0 ∷ x1 ∷ x2 ∷ x3 ∷ t) (set_uint32_front x4 x5 x6 x7 r (pos 0) true) in
    rw (bit_and-zero (to_uint32 w)) (
      ap (λ t. set_uint32 t 0 (to_int32 (to_uint32 w)) true) high
      ∙ set_uint32_front x0 x1 x2 x3 (word (pos 0) true ++ r) (to_int32 (to_uint32 w)) true
      ∙ sym (append_assoc (word (to_int32 (to_uint32 w)) true) (word (pos 0) true) r))

set_uint64-behind :
    (d r : Bytes) (w : ℤ) → set_uint64 (d ++ r) (length d) w true ≡ d ++ set_uint64 r 0 w true
unfolding set_uint64
set_uint64-behind d r w =
    let high = to_int32 (bit_and (to_uint32 w) (to_uint32 (pos (2 ^ 64)))) in
    rw (set_uint32-behind d r 4 (length d + 4) (omega arith) (sar high 32) true) (
      set_uint32-behind d (set_uint32 r 4 (sar high 32) true) 0 (length d + 0) (omega arith)
        (to_int32 (to_uint32 w)) true)

put64-on : (d r : Bytes) (w : ℤ) → put64 w (on d (zeros 8 ++ r)) ≡ (tt, on (d ++ long_word w) r)
unfolding put64 on
put64-on d r w = λ i. (
  tt,
  on-eq (d ++ long_word w) r
      {c = record { buf = set_uint64 (d ++ (zeros 8 ++ r)) (length d) w true; at = length d + 8 }}
      (set_uint64-behind d (zeros 8 ++ r) w
        ∙ ap (λ t. d ++ t) (set_uint64_front 0 0 0 0 0 0 0 0 r w)
        ∙ sym (append_assoc d (long_word w) r))
      (simp (length-append, length-word) (omega arith)) i,
)

-- What a message is on the wire.
abbrev pub layout : VdAgentMessage → Bytes
layout (announce_capabilities request caps) = words (request ∷ caps ∷ [])
layout (monitors_config flags width height depth x y) =
    words (pos 1 ∷ flags ∷ height ∷ width ∷ depth ∷ x ∷ y ∷ [])
layout (clipboard_grab types) = words types
layout (clipboard_request type) = words (type ∷ [])
layout (clipboard type body) = word type true ++ body
layout empty_message = []
layout (file_xfer_status id result) = words (id ∷ result ∷ [])
layout (file_xfer_start id string) = word id true ++ (string ++ (0 ∷ []))
layout (file_xfer_data id body) = word id true ++ (long_word (pos (length body)) ++ body)

-- The bytes that a message carries are bytes.
abbrev pub Carries : VdAgentMessage → Type 0
Carries (clipboard type body) = AreBytes body
Carries (file_xfer_start id string) = AreBytes string
Carries (file_xfer_data id body) = AreBytes body
Carries other = Unit

-- The whole of agent data: the header and the message.
abbrev pub header : ℕ → ℕ → Bytes
header type n =
    word (pos vd_agent_protocol) true
    ++ (word (pos type) true ++ (long_word (pos 0) ++ word (pos n) true))

pub start_on : (r : Bytes) → record { buf = r; at = 0 } ≡ on [] r
unfolding on
start_on r = refl

on_end : (d r : Bytes) → (on d r).buf ≡ d ++ r
unfolding on
on_end d r = refl

-- Numbers in the room for them, and text or data behind a number.
words-layout :
    (ws : List ℤ) (d r : Bytes)
    → put_words ws (on d (zeros (4 * length ws) ++ r)) ≡ (tt, on (d ++ words ws) r)
words-layout ws d r = rw (sym (word_room-zeros ws r)) (put_words-on d r ws)

words_alone :
    (ws : List ℤ) (d : Bytes) → (put_words ws (on d (word_room ws []))).1.buf ≡ d ++ words ws
words_alone ws d =
    ap (λ t. t.1.buf) (put_words-on d [] ws)
    ∙ on_end (d ++ words ws) []
    ∙ append-nil (d ++ words ws)

word_bytes :
    (w : ℤ) (body : Bytes) (d r : Bytes)
    → AreBytes body
    → (do put32 w; put_bytes body) (on d (zeros (4 + length body) ++ r))
      ≡ (tt, on (d ++ (word w true ++ body)) r)
word_bytes w body d r h = rw (
  zeros-add 4 (length body),
  put32-on d (zeros (length body) ++ r) 0 0 0 0 w,
  put_bytes-on (d ++ word w true) r body h,
  append_assoc d (word w true) body,
)

write-layout :
    (m : VdAgentMessage) (d : Bytes)
    → Carries m
    → (write m (on d (zeros (size m)))).1.buf ≡ d ++ layout m
unfolding write size
write-layout (announce_capabilities request caps) d h =
    unfold put_words in words_alone (request ∷ caps ∷ []) d
write-layout (monitors_config flags width height depth x y) d h =
    unfold put_words in words_alone (pos 1 ∷ flags ∷ height ∷ width ∷ depth ∷ x ∷ y ∷ []) d
write-layout (clipboard_grab types) d h =
    let room : zeros (length types * 4) ≡ word_room types [] =
      ap zeros (omega arith)
      ∙ sym (append-nil (zeros (4 * length types)))
      ∙ sym (word_room-zeros types []) in
    rw room (words_alone types d)
write-layout (clipboard_request type) d h = unfold put_words in words_alone (type ∷ []) d
write-layout (clipboard type body) d h = rw (sym (append-nil (zeros (4 + length body)))) (
    ap (λ t. t.1.buf) (word_bytes type body d [] h)
    ∙ on_end (d ++ (word type true ++ body)) []
    ∙ append-nil (d ++ (word type true ++ body)))
write-layout empty_message d h = on_end d []
write-layout (file_xfer_status id result) d h = unfold put_words in words_alone (id ∷ result ∷ []) d
write-layout (file_xfer_start id string) d h =
    rw (zeros-add (4 + length string) 1, word_bytes id string d (0 ∷ []) h)
      (on_end (d ++ (word id true ++ string)) (0 ∷ [])
        ∙ append_assoc d (word id true ++ string) (0 ∷ [])
        ∙ ap (λ t. d ++ t) (append_assoc (word id true) string (0 ∷ [])))
write-layout (file_xfer_data id body) d h =
    let size64 = pos (length body) in
    rw
      (
        zeros-add 12 (length body),
        put32-on d (zeros 8 ++ zeros (length body)) 0 0 0 0 id,
        put64-on (d ++ word id true) (zeros (length body)) size64,
        sym (append-nil (zeros (length body))),
        put_bytes-on ((d ++ word id true) ++ long_word size64) [] body h,
      )
      (on_end (((d ++ word id true) ++ long_word size64) ++ body) []
        ∙ append-nil (((d ++ word id true) ++ long_word size64) ++ body)
        ∙ append_assoc (d ++ word id true) (long_word size64) body
        ∙ append_assoc d (word id true) (long_word size64 ++ body))

pub length-layout : (m : VdAgentMessage) → length (layout m) ≡ size m
unfolding size
length-layout (announce_capabilities request caps) = length-words (request ∷ caps ∷ [])
length-layout (monitors_config flags width height depth x y) =
    length-words (pos 1 ∷ flags ∷ height ∷ width ∷ depth ∷ x ∷ y ∷ [])
length-layout (clipboard_grab types) = omega (arith, length-words types)
length-layout (clipboard_request type) = length-words (type ∷ [])
length-layout (clipboard type body) = simp (length-append, length-word) (omega arith)
length-layout empty_message = refl
length-layout (file_xfer_status id result) = length-words (id ∷ result ∷ [])
length-layout (file_xfer_start id string) = simp (length-append, length-word) (omega arith)
length-layout (file_xfer_data id body) = simp (length-append, length-word) (omega arith)

header-on :
    (type : ℕ) (m : VdAgentMessage)
    → write_agent_data type m (on [] (zeros (20 + size m)))
      ≡ write m (on (header type (size m)) (zeros (size m)))
unfolding write_agent_data
header-on type m =
    let n = size m in
    let d1 = word (pos vd_agent_protocol) true in
    let d2 = d1 ++ word (pos type) true in
    let d3 = d2 ++ long_word (pos 0) in
    rw
      (
        zeros-add 20 n,
        put32-on [] (zeros 16 ++ zeros n) 0 0 0 0 (pos vd_agent_protocol),
        put32-on d1 (zeros 12 ++ zeros n) 0 0 0 0 (pos type),
        put64-on d2 (zeros 4 ++ zeros n) (pos 0),
        put32-on d3 (zeros n) 0 0 0 0 (pos n),
      )
      (ap (λ t. write m (on t (zeros n)))
        (append_assoc d2 (long_word (pos 0)) (word (pos n) true)
          ∙ append_assoc d1 (word (pos type) true) (long_word (pos 0) ++ word (pos n) true)))

-- A message to the agent, in a buffer of its announced size, is the header with the type and the
-- size of the message, and the numbers and bytes of the message.
pub agent_data_buffer-layout :
    (type : ℕ) (m : VdAgentMessage)
    → Carries m
    → (agent_data_buffer type m ≡ header type (size m) ++ layout m)
      × (length (agent_data_buffer type m) ≡ agent_data_size m)
unfolding agent_data_buffer agent_data_size write_agent_data
agent_data_buffer-layout type m h =
    let same : agent_data_buffer type m ≡ header type (size m) ++ layout m =
      ap (λ c. (write_agent_data type m c).1.buf) (start_on (zeros (20 + size m)))
      ∙ ap (λ t. t.1.buf) (header-on type m)
      ∙ write-layout m (header type (size m)) h in
    (same, ap length same ∙ simp (length-append, length-word, length-layout) (omega arith))
