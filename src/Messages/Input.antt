-- ===== src/Messages/Input.antt =====
-- spicemsg.js: what the client sends on the inputs channel (SpiceMsgcMousePosition,
-- SpiceMsgcMouseMotion, SpiceMsgcMousePress, SpiceMsgcMouseRelease, SpiceMsgcKeyDown,
-- SpiceMsgcKeyUp). `payload` is the buffer that `build_msg` fills. Mouse coordinates are integers.
use vm_automation_deployment.Common.{ℕ, ◌+◌, Option, none, some}
use vm_automation_deployment.Common.Int.{ℤ, pos, ◌-ℤ◌}
use vm_automation_deployment.Wire.{Bytes}
use vm_automation_deployment.DataView.{shl, to_int32}
use vm_automation_deployment.Messages.Cursor.{M, ◌>>◌, put8, put16, put32}
use vm_automation_deployment.Messages.Cursor.Laws.{zeros}

-- The state of the main connection that these messages read and write; a field that was never set
-- is undefined.
pub record Mouse : Type 0 where
  pub buttons_state : Option ℤ
  pub mousex : Option ℤ
  pub mousey : Option ℤ

-- The parts of a mouse event that the source reads.
pub record MouseEvent : Type 0 where
  pub offset_x : ℤ
  pub offset_y : ℤ
  pub button : ℕ

-- SpiceMsgcMousePosition and SpiceMsgcMouseMotion, which share to_buffer and buffer_size.
pub record SpiceMsgcMousePosition : Type 0 where
  pub x : ℤ
  pub y : ℤ
  pub buttons_state : Option ℤ
  pub display_id : ℤ

-- undefined is 0 where it is written, and stays what it is in a subtraction of two positions only
-- if the mouse has moved before.
abbrev pub or_zero : Option ℤ → ℤ
or_zero none = pos 0
or_zero (some v) = v

unfoldable pub mouse_position : Mouse → MouseEvent → SpiceMsgcMousePosition × Mouse
mouse_position sc e = (
  record { x = e.offset_x; y = e.offset_y; buttons_state = sc.buttons_state; display_id = pos 0 },
  record sc { mousex = some e.offset_x; mousey = some e.offset_y },
)

unfoldable pub mouse_motion : Mouse → MouseEvent → SpiceMsgcMousePosition × Mouse
unfolding ◌-ℤ◌
mouse_motion sc e = (
  record {
    x = elim sc.mousex [ none ↦ e.offset_x | some x ↦ e.offset_x -ℤ x ];
    y = elim sc.mousex [ none ↦ e.offset_y | some x ↦ e.offset_y -ℤ or_zero sc.mousey ];
    buttons_state = sc.buttons_state;
    display_id = pos 0;
  },
  record sc { mousex = some e.offset_x; mousey = some e.offset_y },
)

unfoldable pub write_position : SpiceMsgcMousePosition → M (Unit {0})
write_position m = do put32 m.x; put32 m.y; put16 (or_zero m.buttons_state); put8 m.display_id

unfoldable pub position_payload : SpiceMsgcMousePosition → Bytes
position_payload m = (write_position m (record { buf = zeros 11; at = 0 })).1.buf

-- SpiceMsgcMousePress and SpiceMsgcMouseRelease.
pub record SpiceMsgcMousePress : Type 0 where
  pub button : ℕ
  pub buttons_state : ℤ

unfoldable pub mouse_press : Mouse → MouseEvent → SpiceMsgcMousePress × Mouse
mouse_press sc e =
    let state = to_int32 (shl 1 e.button) in
    (
      record { button = e.button + 1; buttons_state = state },
      record sc { buttons_state = some state },
    )

unfoldable pub mouse_release : Mouse → MouseEvent → SpiceMsgcMousePress × Mouse
mouse_release sc e = (
  record { button = e.button + 1; buttons_state = pos 0 },
  record sc { buttons_state = some (pos 0) },
)

unfoldable pub write_press : SpiceMsgcMousePress → M (Unit {0})
write_press m = do put8 (pos m.button); put16 m.buttons_state

unfoldable pub press_payload : SpiceMsgcMousePress → Bytes
press_payload m = (write_press m (record { buf = zeros 3; at = 0 })).1.buf

-- SpiceMsgcKeyDown and SpiceMsgcKeyUp are a scan code.
unfoldable pub key_payload : ℕ → Bytes
key_payload code = (put32 (pos code) (record { buf = zeros 4; at = 0 })).1.buf
