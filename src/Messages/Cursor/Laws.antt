-- ===== src/Messages/Cursor/Laws.antt =====
-- Reading and writing at the end of a known part of the buffer.
use vm_automation_deployment.Common.{
  ℕ, zero, suc, ◌+◌, ◌*◌, ◌<◌, ◌%◌, ◌^◌, ◌≡◌, refl, sym, ap, ◌∙◌, true, List, [], ◌∷◌, ◌++◌, Option,
  none, some, length, drop, arith, append_assoc, append-nil, length-append,
}
use native.Mathlib.Nat.{zero-add, suc-add}
use vm_automation_deployment.Common.Int.{ℤ, pos}
use vm_automation_deployment.Wire.{Bytes}
use vm_automation_deployment.DataView.{
  to_int32, to_uint32, get_uint8, set_uint8, set_uint16, set_uint32,
}
use vm_automation_deployment.DataView.Append.{
  get_uint8-append, get_uint16-behind, get_uint32-behind, set_uint8-behind, set_uint16-append,
  set_uint32-behind,
}
use vm_automation_deployment.DataView.RoundTrip.{
  word, half_word, length-word, length-half_word, set_uint32_front, get_uint32_front,
  set_uint16_front, get_uint16_front,
}
use vm_automation_deployment.Messages.Cursor.{
  Cursor, u8, u16, u32, put8, put16, put32, put_bytes, put_words, rest, here,
}

-- Behind `d`, in front of `r`.
unfoldable pub on : Bytes → Bytes → Cursor
on d r = record { buf = d ++ r; at = length d }

pub on-eq : (d r : Bytes) {c : Cursor} → c.buf ≡ d ++ r → c.at ≡ length d → c ≡ on d r
unfolding on
on-eq d r e f = λ i. record { buf = e i; at = f i }

pub u32-on :
    (d r : Bytes) (w : ℤ)
    → u32 (on d (word w true ++ r)) ≡ (to_int32 (to_uint32 w), on (d ++ word w true) r)
unfolding u32 on
u32-on d r w = λ i. (
  (get_uint32-behind d (word w true ++ r) 0 (length d) (omega arith) true
        ∙ get_uint32_front w r true)
      i,
  on-eq (d ++ word w true) r {c = record { buf = d ++ (word w true ++ r); at = length d + 4 }}
      (sym (append_assoc d (word w true) r))
      (omega (arith, length-append d (word w true), length-word w true)) i,
)

pub u16-on :
    (d r : Bytes) (w : ℤ)
    → u16 (on d (half_word w true ++ r)) ≡ (to_uint32 w % 2 ^ 16, on (d ++ half_word w true) r)
unfolding u16 on
u16-on d r w = λ i. (
  (get_uint16-behind d (half_word w true ++ r) 0 (length d) (omega arith) true
        ∙ get_uint16_front w r true)
      i,
  on-eq (d ++ half_word w true) r
      {c = record { buf = d ++ (half_word w true ++ r); at = length d + 2 }}
      (sym (append_assoc d (half_word w true) r))
      (omega (arith, length-append d (half_word w true), length-half_word w true)) i,
)

pub u8-on : (d r : Bytes) (x : ℕ) → u8 (on d (x ∷ r)) ≡ (some x, on (d ++ (x ∷ [])) r)
unfolding u8 on get_uint8
u8-on d r x = λ i. (
  get_uint8-append d (x ∷ r) 0 (length d) (omega arith) i,
  on-eq (d ++ (x ∷ [])) r {c = record { buf = d ++ (x ∷ r); at = length d + 1 }}
      (sym (append_assoc d (x ∷ []) r)) (omega (arith, length-append d (x ∷ []))) i,
)

pub put32-on :
    (d r : Bytes) (x0 x1 x2 x3 : ℕ) (w : ℤ)
    → put32 w (on d (x0 ∷ x1 ∷ x2 ∷ x3 ∷ r)) ≡ (tt, on (d ++ word w true) r)
unfolding put32 on
put32-on d r x0 x1 x2 x3 w = λ i. (
  tt,
  on-eq (d ++ word w true) r
      {c = record {
        buf = set_uint32 (d ++ (x0 ∷ x1 ∷ x2 ∷ x3 ∷ r)) (length d) w true;
        at = length d + 4;
      }}
      (set_uint32-behind d (x0 ∷ x1 ∷ x2 ∷ x3 ∷ r) 0 (length d) (omega arith) w true
        ∙ ap (λ t. d ++ t) (set_uint32_front x0 x1 x2 x3 r w true)
        ∙ sym (append_assoc d (word w true) r))
      (omega (arith, length-append d (word w true), length-word w true)) i,
)

pub put16-on :
    (d r : Bytes) (x0 x1 : ℕ) (w : ℤ)
    → put16 w (on d (x0 ∷ x1 ∷ r)) ≡ (tt, on (d ++ half_word w true) r)
unfolding put16 on
put16-on d r x0 x1 w = λ i. (
  tt,
  on-eq (d ++ half_word w true) r
      {c = record { buf = set_uint16 (d ++ (x0 ∷ x1 ∷ r)) (length d) w true; at = length d + 2 }}
      (set_uint16-append d (x0 ∷ x1 ∷ r) 0 (length d) (omega arith) w true
        ∙ ap (λ t. d ++ t) (set_uint16_front x0 x1 r w true)
        ∙ sym (append_assoc d (half_word w true) r))
      (omega (arith, length-append d (half_word w true), length-half_word w true)) i,
)

pub put8-on :
    (d r : Bytes) (x : ℕ) (w : ℤ)
    → put8 w (on d (x ∷ r)) ≡ (tt, on (d ++ (to_uint32 w % 2 ^ 8 ∷ [])) r)
unfolding put8 on
put8-on d r x w = λ i. (
  tt,
  on-eq (d ++ (to_uint32 w % 2 ^ 8 ∷ [])) r
      {c = record { buf = set_uint8 (d ++ (x ∷ r)) (length d) w; at = length d + 1 }}
      (set_uint8-behind d (x ∷ r) 0 (length d) (omega arith) w
        ∙ unfold set_uint8 in sym (append_assoc d (to_uint32 w % 2 ^ 8 ∷ []) r))
      (omega (arith, length-append d (to_uint32 w % 2 ^ 8 ∷ []))) i,
)

-- The bytes of a list of 32-bit numbers.
abbrev pub words : List ℤ → Bytes
words [] = []
words (w ∷ ws) = word w true ++ words ws

-- The room for them, in a buffer just created.
abbrev pub word_room : List ℤ → Bytes → Bytes
word_room [] r = r
word_room (w ∷ ws) r = 0 ∷ 0 ∷ 0 ∷ 0 ∷ word_room ws r

pub put_words-on :
    (d r : Bytes) (ws : List ℤ) → put_words ws (on d (word_room ws r)) ≡ (tt, on (d ++ words ws) r)
unfolding put_words
put_words-on d r [] = rw (append-nil d)
put_words-on d r (w ∷ ws) = rw (
  put32-on d (word_room ws r) 0 0 0 0 w,
  put_words-on (d ++ word w true) r ws,
  append_assoc d (word w true) (words ws),
)

abbrev pub zeros : ℕ → Bytes
zeros zero = []
zeros (suc n) = 0 ∷ zeros n

pub zeros-add : (m n : ℕ) → zeros (m + n) ≡ zeros m ++ zeros n
zeros-add zero n = rw zero-add
zeros-add (suc m) n = rw suc-add (ap (λ t. 0 ∷ t) (zeros-add m n))

-- A byte is below 256.
abbrev pub AreBytes : Bytes → Type 0
AreBytes [] = Unit
AreBytes (b ∷ bs) = (b < 256) × AreBytes bs

pub put_bytes-on :
    (d r bs : Bytes)
    → AreBytes bs
    → put_bytes bs (on d (zeros (length bs) ++ r)) ≡ (tt, on (d ++ bs) r)
unfolding put_bytes
put_bytes-on d r [] h = rw (append-nil d)
put_bytes-on d r (b ∷ bs) h =
    let e : b % 2 ^ 32 % 2 ^ 8 ≡ b = omega arith in
    rw (
      put8-on d (zeros (length bs) ++ r) 0 (pos b),
      e,
      put_bytes-on (d ++ (b ∷ [])) r bs h.1,
      append_assoc d (b ∷ []) bs,
    )

pub byte-eq : (b : ℕ) → b < 256 → to_uint32 (pos b) % 2 ^ 8 ≡ b
byte-eq b h = omega arith

pub here-on : (d r : Bytes) → here (on d r) ≡ (length d, on d r)
unfolding here on
here-on d r = refl

pub length-words : (ws : List ℤ) → length (words ws) ≡ 4 * length ws
length-words [] = refl
length-words (w ∷ ws) =
    omega (arith, length-append (word w true) (words ws), length-word w true, length-words ws)

pub word_room-zeros : (ws : List ℤ) (r : Bytes) → word_room ws r ≡ zeros (4 * length ws) ++ r
word_room-zeros [] r = refl
word_room-zeros (w ∷ ws) r =
    let e : 4 * suc (length ws) ≡ suc (suc (suc (suc (4 * length ws)))) = omega arith in
    rw (e, word_room-zeros ws r)

-- No bytes are no data.
abbrev pub present : Bytes → Option Bytes
present [] = none
present (b ∷ bs) = some (b ∷ bs)

pub drop-length : (d r : Bytes) → drop (length d) (d ++ r) ≡ r
drop-length [] r = refl
drop-length (x ∷ d) r = drop-length d r

pub rest-on : (d r : Bytes) → rest (on d r) ≡ (present r, on d r)
unfolding rest on
rest-on d [] = ground (arith, length-append d [])
rest-on d (b ∷ bs) = ground (arith, length-append d (b ∷ bs), drop-length d (b ∷ bs))
