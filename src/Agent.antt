-- ===== src/Agent.antt =====
-- portal/static/spice-html5/main.js: what the main channel sends to the agent in the guest. A
-- message is cut into chunks, which wait in `agent_msg_queue` until there is a token for each. The
-- state is the one from the main init on; `sent` is what send_msg was called with.
pub mod Queue
pub mod Chunks
pub mod Session
mod Tests
use vm_automation_deployment.Common.{
  ℕ, zero, suc, ◌+◌, ◌-◌, Bool, true, false, List, [], ◌∷◌, ◌++◌, Option, none, some, length, take,
  drop, ltb, ◌==◌, if◌then◌else◌, ◌^◌,
}
use Prim.Native.Nat.{min}
use vm_automation_deployment.Common.Int.{ℤ, pos, negsuc, ◌+ℤ◌}
use vm_automation_deployment.Constants.{
  vd_agent_max_data_size, vd_agent_monitors_config, vd_agent_clipboard,
  vd_agent_announce_capabilities, vd_agent_clipboard_grab, vd_agent_clipboard_request,
  vd_agent_clipboard_utf8_text, vd_agent_cap_mouse_state, vd_agent_cap_monitors_config,
  vd_agent_cap_reply, vd_agent_cap_clipboard, vd_agent_cap_clipboard_by_demand,
  spice_msgc_main_agent_start, spice_msgc_main_agent_data,
}
use vm_automation_deployment.Wire.{Bytes}
use vm_automation_deployment.Messages.MiniData.{SpiceMiniData, new, buffer_size, build_msg}
use vm_automation_deployment.Messages.Agent.{
  VdAgentMessage, announce_capabilities, monitors_config, clipboard_grab, clipboard_request,
  clipboard, agent_data_buffer,
}
use vm_automation_deployment.Messages.Cursor.{put32}
use vm_automation_deployment.Messages.Cursor.Laws.{zeros}

pub record MainAgent : Type 0 where
  pub agent_connected : Bool
  pub agent_tokens : ℤ
  pub agent_msg_queue : List SpiceMiniData
  pub sent : List SpiceMiniData

unfoldable pub send_msg : SpiceMiniData → MainAgent → MainAgent
send_msg mr s = record s { sent = s.sent ++ (mr ∷ []) }

-- `while (this.agent_tokens > 0 && this.agent_msg_queue.length > 0)`, on the queue and the tokens.
unfoldable pub send_queue : ℤ → List SpiceMiniData → List SpiceMiniData → MainAgent → MainAgent
send_queue tokens [] sent s = record s { agent_tokens = tokens; agent_msg_queue = []; sent = sent }
send_queue (pos zero) (mr ∷ queue) sent s = record s {
  agent_tokens = pos 0;
  agent_msg_queue = mr ∷ queue;
  sent = sent;
}
send_queue (pos (suc n)) (mr ∷ queue) sent s = send_queue (pos n) queue (sent ++ (mr ∷ [])) s
send_queue (negsuc n) (mr ∷ queue) sent s = record s {
  agent_tokens = negsuc n;
  agent_msg_queue = mr ∷ queue;
  sent = sent;
}

abbrev pub pushed : Option SpiceMiniData → List SpiceMiniData → List SpiceMiniData
pushed none queue = queue
pushed (some mr) queue = queue ++ (mr ∷ [])

unfoldable pub send_agent_message_queue : Option SpiceMiniData → MainAgent → MainAgent
unfolding send_queue
send_agent_message_queue message s =
    if s.agent_connected
    then send_queue s.agent_tokens (pushed message s.agent_msg_queue) s.sent s
    else s

-- The size of a frame without data.
abbrev pub max_size : ℕ
max_size = vd_agent_max_data_size - 6

abbrev pub chunk : ℕ → ℕ → Bytes → SpiceMiniData
chunk sb eb buffer = record {
  type = spice_msgc_main_agent_data;
  size = pos (eb - sb);
  body = some (take (eb - sb) (drop sb buffer));
}

-- `while (sb < agent_data.buffer_size())`, on fuel.
unfoldable pub send_from : ℕ → ℕ → Bytes → MainAgent → MainAgent
unfolding send_agent_message_queue
send_from zero sb buffer s = s
send_from (suc fuel) sb buffer s =
    let eb = min (sb + max_size) (length buffer) in
    let more = send_from fuel eb buffer (send_agent_message_queue (some (chunk sb eb buffer)) s) in
    if ltb sb (length buffer) then more else s

-- A chunk has at least a byte: a round for each byte is enough.
unfoldable pub send_agent_message : ℕ → VdAgentMessage → MainAgent → MainAgent
unfolding send_from agent_data_buffer
send_agent_message type message s =
    let buffer = agent_data_buffer type message in send_from (length buffer) 0 buffer s

-- The bits of the capabilities: 1 << 0, 1, 2, 3 and 5.
unfoldable pub announce_agent_capabilities : ℤ → MainAgent → MainAgent
unfolding send_agent_message
announce_agent_capabilities request s =
    let caps =
      2 ^ vd_agent_cap_mouse_state
      + 2 ^ vd_agent_cap_monitors_config
      + 2 ^ vd_agent_cap_reply
      + 2 ^ vd_agent_cap_clipboard
      + 2 ^ vd_agent_cap_clipboard_by_demand in
    send_agent_message vd_agent_announce_capabilities (announce_capabilities request (pos caps)) s

unfoldable pub set_host_clipboard : MainAgent → MainAgent
unfolding send_agent_message
set_host_clipboard s =
    send_agent_message vd_agent_clipboard_grab
      (clipboard_grab (pos vd_agent_clipboard_utf8_text ∷ [])) s

unfoldable pub resize_window : (flags width height depth x y : ℤ) → MainAgent → MainAgent
unfolding send_agent_message
resize_window flags width height depth x y s =
    send_agent_message vd_agent_monitors_config (monitors_config flags width height depth x y) s

-- `onagent` is the function of the page that is called when the agent is there.
unfoldable pub connect_agent : Option (MainAgent → MainAgent) → MainAgent → MainAgent
unfolding send_msg announce_agent_capabilities
connect_agent onagent s =
    let start = (put32 (negsuc 0) (record { buf = zeros 4; at = 0 })).1.buf in
    let agent_start = build_msg spice_msgc_main_agent_start 4 start in
    let announced =
      announce_agent_capabilities (pos 1)
        (send_msg agent_start (record s { agent_connected = true })) in
    elim onagent [ none ↦ announced | some f ↦ f announced ]

-- The branches of process_channel_message: agent connected with tokens, a token, disconnected.
unfoldable pub agent_connected_tokens : Option (MainAgent → MainAgent) → ℤ → MainAgent → MainAgent
unfolding connect_agent
agent_connected_tokens onagent num_tokens s =
    connect_agent onagent (record s { agent_tokens = num_tokens })

unfoldable pub agent_token : ℤ → MainAgent → MainAgent
unfolding send_agent_message_queue ◌+ℤ◌
agent_token num_tokens s =
    send_agent_message_queue none (record s { agent_tokens = s.agent_tokens +ℤ num_tokens })

unfoldable pub agent_disconnected : MainAgent → MainAgent
agent_disconnected s = record s { agent_connected = false }
