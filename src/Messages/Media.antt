-- ===== src/Messages/Media.antt =====
-- spicemsg.js: the messages of the cursor, playback and port channels, and the notices that any
-- channel gets. A reader is the body of from_buffer at position 0.
use vm_automation_deployment.Common.{ℕ, zero, suc, List, [], ◌∷◌, Option, some, length}
use vm_automation_deployment.Common.Int.{ℤ, pos, pos_part, ltb_ℤ, ◌+ℤ◌, ◌-ℤ◌}
use vm_automation_deployment.Wire.{Bytes}
use vm_automation_deployment.DataView.{bits}
use vm_automation_deployment.ArrayBuffer.Slice.{array_buffer_slice}
use vm_automation_deployment.Types.{SpicePoint16, read_point16, optional}
use vm_automation_deployment.Types.Place.{N, ret, ◌>>=◌, read8, read16, read32, read64, slice_on}
use vm_automation_deployment.Types.Draw.{SpiceCursor, read_cursor}

pub record SpiceMsgCursorInit : Type 0 where
  pub position : SpicePoint16
  pub trail_length : ℕ
  pub trail_frequency : ℕ
  pub visible : Option ℕ
  pub cursor : SpiceCursor

unfoldable pub read_cursor_init : N SpiceMsgCursorInit
read_cursor_init = do
  position ← read_point16
  trail_length ← read16
  trail_frequency ← read16
  visible ← read8
  cursor ← read_cursor
  ret (record {
    position = position;
    trail_length = trail_length;
    trail_frequency = trail_frequency;
    visible = visible;
    cursor = cursor;
  })

pub record SpiceMsgCursorSet : Type 0 where
  pub position : SpicePoint16
  pub visible : Option ℕ
  pub cursor : SpiceCursor

unfoldable pub read_cursor_set : N SpiceMsgCursorSet
read_cursor_set = do
  position ← read_point16
  visible ← read8
  cursor ← read_cursor
  ret (record { position = position; visible = visible; cursor = cursor })

-- `if (a.byteLength > at) this.data = a.slice(at)`.
unfoldable pub remaining : N (Option Bytes)
remaining c = optional (ltb_ℤ c.at (pos (length c.buf))) slice_on c

pub record SpiceMsgPlaybackData : Type 0 where
  pub time : ℤ
  pub body : Option Bytes

unfoldable pub read_playback_data : N SpiceMsgPlaybackData
read_playback_data = do time ← read32; body ← remaining; ret (record { time = time; body = body })

pub record SpiceMsgPlaybackMode : Type 0 where
  pub time : ℤ
  pub mode : ℕ
  pub body : Option Bytes

unfoldable pub read_playback_mode : N SpiceMsgPlaybackMode
read_playback_mode = do
  time ← read32
  mode ← read16
  body ← remaining
  ret (record { time = time; mode = mode; body = body })

pub record SpiceMsgPlaybackStart : Type 0 where
  pub channels : ℤ
  pub format : ℕ
  pub frequency : ℤ
  pub time : ℤ

unfoldable pub read_playback_start : N SpiceMsgPlaybackStart
read_playback_start = do
  channels ← read32
  format ← read16
  frequency ← read32
  time ← read32
  ret (record { channels = channels; format = format; frequency = frequency; time = time })

pub record SpiceMsgPortInit : Type 0 where
  pub opened : Option ℕ
  pub name : Bytes

-- `a.slice(offset, offset + namesize - 1)`
abbrev pub port_name : ℤ → ℤ → N Bytes
port_name offset namesize c =
    (array_buffer_slice c.buf (some offset) (some (offset +ℤ namesize -ℤ pos 1)), c)

unfoldable pub read_port_init : N SpiceMsgPortInit
read_port_init = do
  namesize ← read32
  offset ← read32
  opened ← read8
  name ← port_name offset namesize
  ret (record { opened = opened; name = name })

-- The codes of the characters of a notice; an undefined code is that of the character 0.
pub record SpiceMsgNotify : Type 0 where
  pub time_stamp : ℤ
  pub severity : ℤ
  pub visibility : ℤ
  pub what : ℤ
  pub message_len : ℤ
  pub message : List ℕ

unfoldable pub read_chars : ℕ → N (List ℕ)
read_chars zero = ret []
read_chars (suc n) = do c ← read8; cs ← read_chars n; ret (bits c ∷ cs)

unfoldable pub read_notify : N SpiceMsgNotify
read_notify = do
  time_stamp ← read64
  severity ← read32
  visibility ← read32
  what ← read32
  message_len ← read32
  message ← read_chars (pos_part message_len)
  ret (record {
    time_stamp = time_stamp;
    severity = severity;
    visibility = visibility;
    what = what;
    message_len = message_len;
    message = message;
  })
