-- ===== src/Wire.antt =====
-- portal/static/spice-html5/wire.js and combine_array_buffers of utils.js: the reader that cuts
-- the bytes of a WebSocket into the messages that a connection asks for. An ArrayBuffer is the
-- list of its bytes. The connection (`sc`) and its callback are parameters; what the callback
-- does to the reader is the list of the calls that it makes of `request`, `save_header` and
-- `clear_header`, in order. A requested size is a natural number.
pub mod Stream
pub mod Loops
pub mod Refine
pub mod Preserve
mod Tests
use vm_automation_deployment.Common.{
  ℕ, zero, suc, Bool, List, [], ◌∷◌, ◌++◌, Option, none, some, length, take, drop, ltb, leb, ◌==◌,
  if◌then◌else◌,
}

abbrev pub Bytes : Type 0
Bytes = List ℕ

-- A call of a method of the reader by the connection.
pub data Command (H : Type 0) : Type 0 where
  request : ℕ → Command H
  save_header : H → Command H
  clear_header : Command H

pub record Reader (S H : Type 0) : Type 0 where
  pub sc : S
  pub needed : ℕ
  pub buffers : List Bytes
  pub saved_msg_header : Option H

-- The callback gets the connection, the message and the saved header.
abbrev pub Callback : Type 0 → Type 0 → Type 0
Callback S H = S → Bytes → Option H → S × List (Command H)

unfoldable pub combine_array_buffers : Bytes → Bytes → Bytes
combine_array_buffers a1 a2 = a1 ++ a2

-- The constructor: nothing is needed and nothing is buffered.
unfoldable pub new_reader : {S H : Type 0} → S → Reader S H
new_reader sc = record { sc = sc; needed = 0; buffers = []; saved_msg_header = none }

-- `while (this.buffers.length > 1 && this.buffers[0].byteLength < this.needed)`: the first
-- buffer takes in the next ones until it is long enough.
unfoldable pub combine_front : ℕ → Bytes → List Bytes → List Bytes
combine_front needed b [] = b ∷ []
combine_front needed b (c ∷ bs) =
    if ltb (length b) needed
    then combine_front needed (combine_array_buffers b c) bs
    else b ∷ c ∷ bs

unfoldable pub combine : ℕ → List Bytes → List Bytes
unfolding combine_front
combine needed [] = []
combine needed (b ∷ bs) = combine_front needed b bs

module _ {S H : Type 0} where
  -- One method call of the connection.
  unfoldable pub command : Command H → Reader S H → Reader S H
  command (request n) r = record r { needed = n }
  command (save_header h) r = record r { saved_msg_header = some h }
  command clear_header r = record r { saved_msg_header = none }

  unfoldable pub commands : List (Command H) → Reader S H → Reader S H
  commands [] r = r
  commands (c ∷ cs) r = commands cs (command c r)

module _ {S H : Type 0} (callback : Callback S H) where
  -- `this.callback.call(this.sc, mb, this.saved_msg_header || undefined)`
  unfoldable pub call : Reader S H → Bytes → Reader S H
  call r mb =
      let (sc', cs) = callback r.sc mb r.saved_msg_header in commands cs (record r { sc = sc' })

  -- The message at the front of `mb` goes to the callback; what is left of `mb` goes back in
  -- front of the buffers, if it is not empty.
  unfoldable pub deliver : Reader S H → Bytes → List Bytes → Reader S H
  deliver r mb bs =
      call (record r { buffers = if ltb r.needed (length mb) then drop r.needed mb ∷ bs else bs })
        (take r.needed mb)

  -- `while (this.buffers.length > 0 && this.buffers[0].byteLength >= this.needed)`, on fuel:
  -- with no fuel left it stops where it is.
  unfoldable pub deliver_all : ℕ → Reader S H → Reader S H
  deliver_all zero r = r
  deliver_all (suc fuel) r = elim r.buffers [
    | [] ↦ r
    | b ∷ bs ↦
        let rest = deliver_all fuel (deliver r b bs) in if leb r.needed (length b) then rest else r
  ]

  -- The first branch of `inbound`: a block that suffices goes to the callback unbuffered.
  unfoldable pub enqueue : Reader S H → Bytes → Reader S H
  enqueue r mb = elim r.buffers [
    | [] ↦ if leb r.needed (length mb) then deliver r mb [] else record r { buffers = mb ∷ [] }
    | b ∷ bs ↦ record r { buffers = (b ∷ bs) ++ (mb ∷ []) }
  ]

  unfoldable pub inbound : ℕ → Reader S H → Bytes → Reader S H
  inbound fuel r mb =
      if r.needed == 0
      then record r { buffers = r.buffers ++ (mb ∷ []) }
      else (let q = enqueue r mb in
          deliver_all fuel (record q { buffers = combine q.needed q.buffers }))

  -- The `message` events of the socket, in order (`wire_blob_catcher`).
  unfoldable pub wire_blob_catcher : ℕ → Reader S H → List Bytes → Reader S H
  wire_blob_catcher fuel r [] = r
  wire_blob_catcher fuel r (mb ∷ mbs) = wire_blob_catcher fuel (inbound fuel r mb) mbs
