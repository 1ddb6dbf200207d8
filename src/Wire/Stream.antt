-- ===== src/Wire/Stream.antt =====
-- What the reader of wire.js is to do: the bytes form one stream, and each message is the next
-- `needed` bytes of it, whatever the blocks in which they come.
pub mod Sizes
pub mod Laws
use vm_automation_deployment.Common.{
  leb→le, ap, true, Bool, ltb, ◌&&◌, ◌+◌, length-append, ◌∙◌, sym, append_assoc, ℕ, zero, suc, ◌-◌,
  ◌≤◌, ◌<◌, ◌≡◌, refl, inl, inr, arith, Bool-cases, length-drop, take-append, drop-append, List, [],
  ◌∷◌, ◌++◌, Option, none, some, length, take, drop, leb, if◌then◌else◌,
}
use vm_automation_deployment.Wire.{Bytes, Command, request, save_header, clear_header, Callback}

pub record Stream (S H : Type 0) : Type 0 where
  pub sc : S
  pub needed : ℕ
  pub saved_msg_header : Option H
  pub pending : Bytes

-- Less than a message is left.
abbrev pub IsShort : {S H : Type 0} → Stream S H → Type 0
IsShort s = length s.pending < s.needed

module _ {S H : Type 0} where
  unfoldable pub obey : List (Command H) → Stream S H → Stream S H
  obey [] s = s
  obey (request n ∷ cs) s = obey cs (record s { needed = n })
  obey (save_header h ∷ cs) s = obey cs (record s { saved_msg_header = some h })
  obey (clear_header ∷ cs) s = obey cs (record s { saved_msg_header = none })

module _ {S H : Type 0} (callback : Callback S H) where
  -- The next message leaves the stream.
  unfoldable pub advance : Stream S H → Stream S H
  advance s =
      let (sc', cs) = callback s.sc (take s.needed s.pending) s.saved_msg_header in
      obey cs (record s { sc = sc'; pending = drop s.needed s.pending })

  -- Messages leave the stream as long as there are bytes enough.
  unfoldable pub drain : ℕ → Stream S H → Stream S H
  drain zero s = s
  drain (suc f) s =
      let rest = drain f (advance s) in if leb s.needed (length s.pending) then rest else s

  unfoldable pub feed : Stream S H → Bytes → Stream S H
  feed s mb = drain (length (s.pending ++ mb)) (record s { pending = s.pending ++ mb })

  -- The sizes that are asked for along the stream, up to the message of a number, are positive.
  unfoldable pub asks_positive : ℕ → Stream S H → Bool
  asks_positive zero s = ltb 0 s.needed
  asks_positive (suc n) s =
      let rest = asks_positive n (advance s) in
      ltb 0 s.needed && (if leb s.needed (length s.pending) then rest else true)

  abbrev pub NeverZero : Stream S H → Type 0
  NeverZero s = (n : ℕ) → asks_positive n s ≡ true
