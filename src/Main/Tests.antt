-- ===== src/Main/Tests.antt =====
-- main.js: small runs of the main channel, and the witnesses.
use vm_automation_deployment.Common.{ℕ, ◌≡◌, refl, List, [], ◌∷◌, none, some}
use vm_automation_deployment.Common.Int.{pos}
use vm_automation_deployment.Wire.{Bytes}
use vm_automation_deployment.Messages.MiniData.{SpiceMiniData}
use vm_automation_deployment.Agent.Queue.{linked}
use vm_automation_deployment.Main.{Main, open_channels}
use vm_automation_deployment.Main.Handler.{process_channel_message}
use vm_automation_deployment.Main.Modes.{ModesAgree, process_channel_message-ModesAgree}
use vm_automation_deployment.Main.Channels.{
  Named, channels, last_of, is_first_display, is_cursor, is_inputs, inputs_channel,
  open_channels-last,
}

abbrev named : List Named
named = record { type = 3; id = 0 } ∷ record { type = 4; id = 0 } ∷ record { type = 5; id = 0 } ∷ []

abbrev fresh : Main
fresh = record {
  transfers = record {
    agent = linked 0 [] [];
    file_xfer_task_id = 0;
    file_xfer_tasks = [];
    file_xfer_read_queue = [];
    readers = [];
    messages = [];
  };
  connection_id = none;
  mm_time = none;
  mouse_mode = none;
  display = none;
  inputs = none;
  cursor = none;
  ports = [];
  extra_channels = [];
  host_clipboard_text = none;
  guest_clipboard_text = none;
  closed = [];
}

-- The playback channel takes the place of the cursor channel.
cursor-open_channels :
    (open_channels 0 (channels named) fresh).cursor ≡ some (record { type = some 5; id = some 0 })
unfolding open_channels
cursor-open_channels = refl

open_channels-last_example :
    ((open_channels 0 (channels named) fresh).display
      ≡ last_of is_first_display (channels named) none)
    × ((open_channels 0 (channels named) fresh).cursor ≡ last_of is_cursor (channels named) none)
    × (inputs_channel (open_channels 0 (channels named) fresh).inputs
        ≡ last_of is_inputs (channels named) none)
open_channels-last_example = open_channels-last (channels named) 0 fresh

abbrev with_inputs : Main
with_inputs = record fresh {
  inputs = some (record { channel = record { type = some 3; id = some 0 }; mouse_mode = none });
}

abbrev mode_message : SpiceMiniData
mode_message = record { type = 105; size = pos 4; body = some (3 ∷ 0 ∷ 1 ∷ 0 ∷ []) }

abbrev encode : List ℕ → Bytes
encode text = text

process_channel_message-ModesAgree_example :
    ModesAgree (process_channel_message none encode encode mode_message with_inputs).1
process_channel_message-ModesAgree_example =
    process_channel_message-ModesAgree none encode encode mode_message with_inputs refl
