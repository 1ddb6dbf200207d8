-- ===== src/Main.antt =====
-- portal/static/spice-html5/main.js: the main channel (process_channel_message, handle_mouse_mode,
-- stop), with the classes of spicemsg.js and spicetype.js that it reads. The state holds the file
-- transfers and, in them, the agent; what the main channel itself sends is the agent's `sent`. A
-- channel that is opened is known by its type and id, and `closed` are the ones that were cleaned
-- up. The clock, the log and the page are left out.
pub mod Handler
pub mod Modes
pub mod Channels
mod Tests
use Prim.Native.Nat.{bit_and}
use vm_automation_deployment.Common.{
  ℕ, zero, suc, ◌+◌, Bool, true, false, not, ◌&&◌, List, [], ◌∷◌, ◌++◌, Option, none, some, ◌==◌,
  if◌then◌else◌,
}
use vm_automation_deployment.Common.Int.{ℤ, pos, pos_part}
use vm_automation_deployment.Constants.{
  spice_channel_display, spice_channel_inputs, spice_channel_cursor, spice_channel_playback,
  spice_channel_port, spice_mouse_mode_client, spice_msgc_main_mouse_mode_request,
}
use vm_automation_deployment.DataView.{to_uint32}
use vm_automation_deployment.Connection.{is}
use vm_automation_deployment.Messages.Cursor.{Cursor, M, ret, ◌>>=◌, u8, u16, u32, put16}
use vm_automation_deployment.Messages.Cursor.Laws.{zeros}
use vm_automation_deployment.Messages.MiniData.{build_msg}
use vm_automation_deployment.Agent.{MainAgent, send_msg}
use vm_automation_deployment.Transfer.{Transfers}

-- SpiceChannelId of spicetype.js.
pub record SpiceChannelId : Type 0 where
  pub type : Option ℕ
  pub id : Option ℕ

unfoldable pub read_channel : M SpiceChannelId
read_channel = do type ← u8; id ← u8; ret (record { type = type; id = id })

-- SpiceMsgChannels: the loop on the number of channels.
unfoldable pub read_channel_list : ℕ → M (List SpiceChannelId)
unfolding read_channel
read_channel_list zero = ret []
read_channel_list (suc n) = do chan ← read_channel; chans ← read_channel_list n; ret (chan ∷ chans)

unfoldable pub read_channels : M (List SpiceChannelId)
unfolding read_channel_list
read_channels = do num_of_channels ← u32; read_channel_list (pos_part num_of_channels)

pub record SpiceMsgMainInit : Type 0 where
  pub session_id : ℤ
  pub display_channels_hint : ℤ
  pub supported_mouse_modes : ℤ
  pub current_mouse_mode : ℤ
  pub agent_connected : ℤ
  pub agent_tokens : ℤ
  pub multi_media_time : ℤ
  pub ram_hint : ℤ

unfoldable pub read_main_init : M SpiceMsgMainInit
read_main_init = do
  session_id ← u32
  display_channels_hint ← u32
  supported_mouse_modes ← u32
  current_mouse_mode ← u32
  agent_connected ← u32
  agent_tokens ← u32
  multi_media_time ← u32
  ram_hint ← u32
  ret (record {
    session_id = session_id;
    display_channels_hint = display_channels_hint;
    supported_mouse_modes = supported_mouse_modes;
    current_mouse_mode = current_mouse_mode;
    agent_connected = agent_connected;
    agent_tokens = agent_tokens;
    multi_media_time = multi_media_time;
    ram_hint = ram_hint;
  })

-- SpiceMsgMainMouseMode: the supported modes and the current one.
unfoldable pub read_mouse_mode : M (ℕ × ℕ)
read_mouse_mode = do supported_modes ← u16; current_mode ← u16; ret (supported_modes, current_mode)

-- The inputs channel, with the mode that the main channel gives it.
pub record Inputs : Type 0 where
  pub channel : SpiceChannelId
  pub mouse_mode : Option ℤ

pub record Main : Type 0 where
  pub transfers : Transfers
  pub connection_id : Option ℤ
  pub mm_time : Option ℤ
  pub mouse_mode : Option ℤ
  pub display : Option SpiceChannelId
  pub inputs : Option Inputs
  pub cursor : Option SpiceChannelId
  pub ports : List SpiceChannelId
  pub extra_channels : List (ℕ × SpiceChannelId)
  pub host_clipboard_text : Option (List ℕ)
  pub guest_clipboard_text : Option (List ℕ)
  pub closed : List SpiceChannelId

unfoldable pub with_agent : (MainAgent → MainAgent) → Main → Main
with_agent f s = record s { transfers = record s.transfers { agent = f s.transfers.agent } }

abbrev pub set_mode : Option ℤ → Option Inputs → Option Inputs
set_mode mode none = none
set_mode mode (some i) = some (record i { mouse_mode = mode })

abbrev pub mode_request : Main → Main
unfolding with_agent send_msg
mode_request s =
    let request = (put16 (pos spice_mouse_mode_client) (record { buf = zeros 2; at = 0 })).1.buf in
    with_agent (send_msg (build_msg spice_msgc_main_mouse_mode_request 2 request)) s

unfoldable pub handle_mouse_mode : ℤ → ℤ → Main → Main
unfolding mode_request
handle_mouse_mode current supported s =
    let wanted =
      not (is current spice_mouse_mode_client)
      && not (bit_and (to_uint32 supported) spice_mouse_mode_client == 0) in
    let asked = if wanted then mode_request s else s in
    record asked { mouse_mode = some current; inputs = set_mode (some current) s.inputs }

abbrev pub is_type : ℕ → Option ℕ → Bool
is_type n none = false
is_type n (some t) = t == n

-- The branches of the loop on the channels of a list; `i` is the place in the list.
abbrev pub set_extra : ℕ → SpiceChannelId → List (ℕ × SpiceChannelId) → List (ℕ × SpiceChannelId)
set_extra i c [] = (i, c) ∷ []
set_extra i c ((j, d) ∷ cs) =
    let rest = set_extra i c cs in if i == j then (i, c) ∷ cs else (j, d) ∷ rest

unfoldable pub open_channel : ℕ → SpiceChannelId → Main → Main
open_channel i c s =
    let shown = if is_type 0 c.id then record s { display = some c } else s in
    let other = record s { extra_channels = set_extra i c s.extra_channels } in
    if is_type spice_channel_display c.type
    then shown
    else (if is_type spice_channel_inputs c.type
        then record s { inputs = some (record { channel = c; mouse_mode = s.mouse_mode }) }
        else (if is_type spice_channel_cursor c.type
            then record s { cursor = some c }
            else (if is_type spice_channel_playback c.type
                then record s { cursor = some c }
                else (if is_type spice_channel_port c.type
                    then record s { ports = s.ports ++ (c ∷ []) }
                    else other))))

unfoldable pub open_channels : ℕ → List SpiceChannelId → Main → Main
unfolding open_channel
open_channels i [] s = s
open_channels i (c ∷ cs) s = open_channels (suc i) cs (open_channel i c s)

abbrev pub all : Option SpiceChannelId → List SpiceChannelId
all none = []
all (some c) = c ∷ []

abbrev pub all_inputs : Option Inputs → List SpiceChannelId
all_inputs none = []
all_inputs (some i) = i.channel ∷ []

abbrev pub all_extra : List (ℕ × SpiceChannelId) → List SpiceChannelId
all_extra [] = []
all_extra ((i, c) ∷ cs) = c ∷ all_extra cs

-- stop, without the closing of the main channel itself.
unfoldable pub stop : Main → Main
stop s = record s {
  inputs = none;
  cursor = none;
  display = none;
  extra_channels = [];
  closed =
      s.closed
      ++ (all_inputs s.inputs ++ (all s.cursor ++ (all s.display ++ all_extra s.extra_channels)));
}
