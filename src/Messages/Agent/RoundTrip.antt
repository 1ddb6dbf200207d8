-- ===== src/Messages/Agent/RoundTrip.antt =====
-- What the guest's messages are read as.
use vm_automation_deployment.Common.{
  ◌/◌, ◌≡◌, refl, sym, ap, true, List, [], ◌∷◌, ◌++◌, map, length, arith, append_assoc, append-nil,
}
use vm_automation_deployment.Common.Int.{ℤ}
use vm_automation_deployment.DataView.{to_int32, to_uint32}
use vm_automation_deployment.DataView.RoundTrip.{word}
use vm_automation_deployment.Wire.{Bytes}
use vm_automation_deployment.Messages.Cursor.{Cursor}
use vm_automation_deployment.Messages.Cursor.Laws.{
  on, u32-on, rest-on, present, words, length-words,
}
use vm_automation_deployment.Messages.Agent.{
  announce_capabilities, clipboard_grab, clipboard, file_xfer_status, bytes, read_capabilities,
  read_file_xfer_status, read_types, read_grab, read_clipboard,
}
use vm_automation_deployment.Messages.Agent.Layout.{layout, start_on}

-- A number of 32 bits is read as signed.
abbrev pub signed : ℤ → ℤ
signed w = to_int32 (to_uint32 w)

abbrev pub start : Bytes → Cursor
start a = record { buf = a; at = 0 }

bytes-present : (b : Bytes) → bytes (present b) ≡ b
bytes-present [] = refl
bytes-present (x ∷ b) = refl

read_types-words :
    (ws : List ℤ) (d r : Bytes) → (read_types (length ws) (on d (words ws ++ r))).0 ≡ map signed ws
unfolding read_types
read_types-words [] d r = refl
read_types-words (w ∷ ws) d r =
    rw (append_assoc (word w true) (words ws) r, u32-on d (words ws ++ r) w)
      (ap (λ ts. signed w ∷ ts) (read_types-words ws (d ++ word w true) r))

two_words : (a b : ℤ) → words (a ∷ b ∷ []) ≡ word a true ++ (word b true ++ [])
two_words a b = refl

-- The messages that the guest sends, in the layout in which the console writes its own, are read
-- with their numbers as signed 32-bit numbers: the clipboard with its bytes, a grab with all its
-- types in order, the capabilities and the status of a transfer.
pub read-layout :
    (a b : ℤ) (types : List ℤ) (body : Bytes)
    → ((read_clipboard (start (layout (clipboard a body)))).0 ≡ clipboard (signed a) body)
      × (read_grab (layout (clipboard_grab types)) ≡ clipboard_grab (map signed types))
      × ((read_capabilities (start (layout (announce_capabilities a b)))).0
          ≡ announce_capabilities (signed a) (signed b))
      × ((read_file_xfer_status (start (layout (file_xfer_status a b)))).0
          ≡ file_xfer_status (signed a) (signed b))
unfolding read_clipboard read_grab read_capabilities read_file_xfer_status
read-layout a b types body =
    let count : length (words types) / 4 ≡ length types = omega (arith, length-words types) in
    (
      rw (start_on (word a true ++ body), u32-on [] body a, rest-on (word a true) body)
          (ap (clipboard (signed a)) (bytes-present body)),
      rw (count, start_on (words types), sym (append-nil (words types)))
          (ap clipboard_grab (read_types-words types [] [])),
      rw (start_on (words (a ∷ b ∷ [])), u32-on [] (word b true ++ []) a, u32-on (word a true) [] b)
          refl,
      rw (start_on (words (a ∷ b ∷ [])), u32-on [] (word b true ++ []) a, u32-on (word a true) [] b)
          refl,
    )
