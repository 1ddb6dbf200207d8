-- ===== src/Wire/Tests.antt =====
-- A run of the reader of wire.js, with a small framing protocol for the connection.
use vm_automation_deployment.Common.{ℕ, suc, ◌≡◌, refl, List, [], ◌∷◌, ◌++◌, none, some}
use vm_automation_deployment.Wire.{
  Bytes, Callback, Reader, request, save_header, clear_header, wire_blob_catcher, inbound,
  deliver_all, combine, enqueue, deliver, call, commands, command, combine_array_buffers,
}

-- A one-byte header holds the size less one of the body; the bodies are collected.
abbrev framed : Callback (List Bytes) ℕ
framed log (n ∷ []) none = (log, request (suc n) ∷ save_header n ∷ [])
framed log mb none = (log, [])
framed log mb (some h) = (log ++ (mb ∷ []), request 1 ∷ clear_header ∷ [])

abbrev ready : Reader (List Bytes) ℕ
ready = record { sc = []; needed = 1; buffers = []; saved_msg_header = none }

abbrev blocks : List Bytes
blocks = (1 ∷ 7 ∷ []) ∷ (8 ∷ 0 ∷ 5 ∷ 2 ∷ []) ∷ (9 ∷ []) ∷ []

wire_blob_catcher_run : (wire_blob_catcher framed 9 ready blocks).sc ≡ (7 ∷ 8 ∷ []) ∷ (5 ∷ []) ∷ []
unfolding wire_blob_catcher inbound deliver_all combine enqueue deliver call commands command
    combine_array_buffers
wire_blob_catcher_run = refl
