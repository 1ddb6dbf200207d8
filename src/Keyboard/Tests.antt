-- ===== src/Keyboard/Tests.antt =====
-- Runs of the keyboard, and the witnesses.
use vm_automation_deployment.Common.{
  ℕ, ◌+◌, ◌≡◌, refl, true, false, List, [], ◌∷◌, ◌++◌, none, some, length, take,
}
use vm_automation_deployment.Common.Int.{pos}
use vm_automation_deployment.Messages.MiniData.{SpiceMiniData}
use vm_automation_deployment.Inputs.{Client, SpiceInputsConn}
use vm_automation_deployment.Messages.MiniData.{build_msg}
use vm_automation_deployment.Messages.Input.{key_payload}
use vm_automation_deployment.Keyboard.Modifiers.{Modifiers, KeyEvent, flags, handle_key}
use vm_automation_deployment.Keyboard.Modifiers.Sent.{changes, told, before, handle_key-in_sync}
use vm_automation_deployment.Keyboard.{newlines, send_text, mapping_of}
use vm_automation_deployment.Keyboard.Guest.{guest}
use vm_automation_deployment.Keyboard.Typing.{online, keys, send_text-types}

-- "Hi", an accented letter, and a line end.
abbrev hi : List ℕ
hi = 72 ∷ 105 ∷ 233 ∷ 13 ∷ 10 ∷ []

abbrev channel : SpiceInputsConn
channel = record { ready = true; waiting_for_ack = pos 0; keyboard_modifiers = none; sent = [] }

abbrev page : Client
page = record {
  mouse_mode = 2;
  mouse = record { buttons_state = none; mousex = none; mousey = none };
  inputs = some channel;
}

typed_keys : keys (newlines false hi) ≡ (35, true) ∷ (23, false) ∷ (28, false) ∷ []
unfolding keys newlines mapping_of
typed_keys = refl

send_text-types_example :
    (ms' : List SpiceMiniData) × ((send_text hi (online page channel [])).1
      ≡ online page channel ms')
    × ((guest ms').shift ≡ false)
    × ((guest ms').typed ≡ (guest []).typed ++ keys (take 10000 (newlines false hi)))
    × ((send_text hi (online page channel [])).0 + length (keys (take 10000 (newlines false hi)))
        ≡ length (take 10000 (newlines false hi)))
send_text-types_example = send_text-types hi page channel []

-- The key a, with the shift key held.
abbrev capital : KeyEvent
capital = record {
  code = 30;
  shift_key = true;
  ctrl_key = false;
  alt_key = false;
  meta_key = false;
}

abbrev unknown : Modifiers
unknown = record { shift = none; ctrl = none; alt = none; meta = none }

handle_key-in_sync_example : handle_key true capital unknown (online page channel []) ≡ (
  flags capital,
  online page channel
      (build_msg 101 4 (key_payload 30) ∷ told (changes capital (before capital unknown)) []),
)
handle_key-in_sync_example = handle_key-in_sync true capital unknown page channel []
