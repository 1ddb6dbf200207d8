-- ===== src/Main/Modes.antt =====
-- main.js: the mouse mode, which the main channel and the inputs channel both keep.
use vm_automation_deployment.Common.{
  ℕ, suc, ◌≡◌, refl, Bool, true, false, List, [], ◌∷◌, Option, none, some, if◌then◌else◌, arith,
}
use vm_automation_deployment.Common.Int.{ℤ, pos}
use vm_automation_deployment.Wire.{Bytes}
use vm_automation_deployment.Messages.MiniData.{SpiceMiniData, bytes}
use vm_automation_deployment.Messages.Agent.{VdAgentMessage, clipboard, SpiceMsgMainAgentData}
use vm_automation_deployment.Agent.{
  MainAgent, send_msg, connect_agent, agent_connected_tokens, agent_disconnected,
}
use vm_automation_deployment.Messages.Agent.{read_clipboard, read_agent_tokens, read_agent_data}
use vm_automation_deployment.Main.{
  Main, Inputs, SpiceChannelId, SpiceMsgMainInit, handle_mouse_mode, set_mode, open_channel,
  open_channels, with_agent, read_mouse_mode, read_main_init, read_channels,
}
use vm_automation_deployment.Main.Handler.{
  process_agent_data, process_main_init, process_channel_message, on_clipboard, start, is_zero,
  attach,
}

abbrev pub Agree : Option ℤ → Option Inputs → Type 0
Agree mode none = Unit
Agree mode (some i) = i.mouse_mode ≡ mode

-- The inputs channel, if there is one, has the mode of the main channel.
abbrev pub ModesAgree : Main → Type 0
ModesAgree s = Agree s.mouse_mode s.inputs

ModesAgree-if :
    (b : Bool) (s s' : Main) → ModesAgree s → ModesAgree s' → ModesAgree (if b then s else s')
ModesAgree-if true s s' h h' = h
ModesAgree-if false s s' h h' = h'

-- The same for a handler's result.
ModesAgree-branch :
    (b : Bool) (p q : Bool × Main)
    → ModesAgree p.1
    → ModesAgree q.1
    → ModesAgree (if b then p else q).1
ModesAgree-branch true p q h h' = h
ModesAgree-branch false p q h h' = h'

set_mode-Agree : (mode : Option ℤ) (i : Option Inputs) → Agree mode (set_mode mode i)
set_mode-Agree mode none = tt
set_mode-Agree mode (some i) = refl

handle_mouse_mode-ModesAgree :
    (current supported : ℤ) (s : Main) → ModesAgree (handle_mouse_mode current supported s)
unfolding handle_mouse_mode
handle_mouse_mode-ModesAgree current supported s = set_mode-Agree (some current) s.inputs

open_channel-ModesAgree :
    (i : ℕ) (c : SpiceChannelId) (s : Main) → ModesAgree s → ModesAgree (open_channel i c s)
unfolding open_channel
open_channel-ModesAgree i c s h = ground arith

open_channels-ModesAgree :
    (i : ℕ) (cs : List SpiceChannelId) (s : Main) → ModesAgree s → ModesAgree (open_channels i cs s)
unfolding open_channels
open_channels-ModesAgree i [] s h = h
open_channels-ModesAgree i (c ∷ cs) s h =
    open_channels-ModesAgree (suc i) cs (open_channel i c s) (open_channel-ModesAgree i c s h)

with_agent-ModesAgree :
    (f : MainAgent → MainAgent) (s : Main) → ModesAgree s → ModesAgree (with_agent f s)
unfolding with_agent
with_agent-ModesAgree f s h = h

module _ (onagent : Option (MainAgent → MainAgent)) (encode : List ℕ → Bytes)
    (decode : Bytes → List ℕ) where
  on_clipboard-ModesAgree :
      (m : VdAgentMessage) (s : Main)
      → ModesAgree s
      → ModesAgree (on_clipboard onagent encode decode m s)
  unfolding on_clipboard
  on_clipboard-ModesAgree (clipboard type body) s h = ground arith
  on_clipboard-ModesAgree other s h = h

  process_agent_data-ModesAgree :
      (d : SpiceMsgMainAgentData) (s : Main)
      → ModesAgree s
      → ModesAgree (process_agent_data onagent encode decode d s).1
  unfolding process_agent_data with_agent
  process_agent_data-ModesAgree d s h =
      let said = on_clipboard-ModesAgree (read_clipboard (start (bytes d.body))).0 s h in
      ground (arith, said)

  process_main_init-ModesAgree :
      (i : SpiceMsgMainInit) (s : Main) → ModesAgree (process_main_init onagent encode decode i s)
  unfolding process_main_init with_agent
  process_main_init-ModesAgree i s =
      let begun : Main = record s {
        connection_id = some i.session_id;
        mm_time = some i.multi_media_time;
      } in
      let with_tokens = with_agent (λ a. record a { agent_tokens = i.agent_tokens }) begun in
      let moded = handle_mouse_mode i.current_mouse_mode i.supported_mouse_modes with_tokens in
      let h : ModesAgree moded =
        handle_mouse_mode-ModesAgree i.current_mouse_mode i.supported_mouse_modes with_tokens in
      let connected = with_agent (connect_agent onagent) moded in
      let zero = is_zero i.agent_connected in
      with_agent-ModesAgree (send_msg (attach onagent encode decode))
        (if zero then moded else connected)
        (ModesAgree-if zero moded connected h
          (with_agent-ModesAgree (connect_agent onagent) moded h))

  -- Every message of the main channel keeps that the inputs channel, if there is one, has the mouse
  -- mode of the main channel.
  pub process_channel_message-ModesAgree :
      (msg : SpiceMiniData) (s : Main)
      → ModesAgree s
      → ModesAgree (process_channel_message onagent encode decode msg s).1
  unfolding process_channel_message
  process_channel_message-ModesAgree msg s h =
      let body = bytes msg.body in
      let modes = (read_mouse_mode (start body)).0 in
      let num_tokens = (read_agent_tokens (start body)).0 in
      let begun = process_main_init-ModesAgree (read_main_init (start body)).0 s in
      let moded = handle_mouse_mode-ModesAgree (pos modes.1) (pos modes.0) s in
      let opened = open_channels-ModesAgree 0 (read_channels (start body)).0 s h in
      let connected = with_agent-ModesAgree (connect_agent onagent) s h in
      let given = with_agent-ModesAgree (agent_connected_tokens onagent num_tokens) s h in
      let gone = with_agent-ModesAgree agent_disconnected s h in
      let said = process_agent_data-ModesAgree (read_agent_data (start body)).0 s h in
      ground (arith, begun, moded, opened, connected, given, gone, said)
