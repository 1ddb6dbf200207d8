-- ===== src/Main/Handler.antt =====
-- main.js: process_channel_message of the main channel. The functions of the page and of the
-- browser that it calls are parameters: `onagent`, and how text is encoded and decoded.
use vm_automation_deployment.Common.{
  ℕ, Bool, true, false, ◌||◌, List, [], ◌∷◌, Option, none, some, ◌==◌, if◌then◌else◌,
}
use vm_automation_deployment.Common.Int.{ℤ, pos, negsuc}
use vm_automation_deployment.Constants.{
  vd_agent_clipboard, vd_agent_announce_capabilities, vd_agent_clipboard_grab,
  vd_agent_clipboard_request, vd_agent_clipboard_release, vd_agent_clipboard_utf8_text,
  vd_agent_file_xfer_status, spice_msgc_main_attach_channels, spice_msg_main_migrate_begin,
  spice_msg_main_migrate_cancel, spice_msg_main_init, spice_msg_main_mouse_mode,
  spice_msg_main_multi_media_time, spice_msg_main_channels_list, spice_msg_main_agent_connected,
  spice_msg_main_agent_connected_tokens, spice_msg_main_agent_token,
  spice_msg_main_agent_disconnected, spice_msg_main_agent_data, spice_msg_main_migrate_switch_host,
  spice_msg_main_migrate_end, spice_msg_main_name, spice_msg_main_uuid,
  spice_msg_main_migrate_begin_seamless, spice_msg_main_migrate_dst_seamless_ack,
  spice_msg_main_migrate_dst_seamless_nack,
}
use vm_automation_deployment.Connection.{is}
use vm_automation_deployment.Wire.{Bytes}
use vm_automation_deployment.Messages.Cursor.{Cursor, u32}
use vm_automation_deployment.Messages.MiniData
use vm_automation_deployment.Messages.MiniData.{SpiceMiniData, bytes, buffer_size}
use vm_automation_deployment.Messages.Agent.{
  VdAgentMessage, announce_capabilities, clipboard_grab, clipboard_request, clipboard,
  file_xfer_status, SpiceMsgMainAgentData, read_agent_data, read_agent_tokens, read_capabilities,
  read_file_xfer_status, read_grab, read_clipboard,
}
use vm_automation_deployment.Agent.{
  MainAgent, send_msg, send_agent_message, announce_agent_capabilities, connect_agent,
  agent_connected_tokens, agent_disconnected,
}
use vm_automation_deployment.Transfer.{Transfers, tokens, handle_file_xfer_status}
use vm_automation_deployment.Main.{
  Main, SpiceMsgMainInit, read_main_init, read_mouse_mode, read_channels, handle_mouse_mode,
  open_channels, with_agent,
}

abbrev pub start : Bytes → Cursor
start a = record { buf = a; at = 0 }

abbrev pub is_zero : ℤ → Bool
is_zero (pos n) = n == 0
is_zero (negsuc n) = false

-- The branches for what the agent says.
unfoldable pub on_capabilities : VdAgentMessage → MainAgent → MainAgent
unfolding announce_agent_capabilities
on_capabilities (announce_capabilities request caps) s =
    if is_zero request then s else announce_agent_capabilities (pos 0) s
on_capabilities other s = s

-- Ids are not negative, since the client gives them.
unfoldable pub on_file_xfer_status : VdAgentMessage → Transfers → Transfers
unfolding handle_file_xfer_status
on_file_xfer_status (file_xfer_status (pos id) result) s = handle_file_xfer_status id result s
on_file_xfer_status other s = s

abbrev pub has_text : List ℤ → Bool
has_text [] = false
has_text (t ∷ ts) = is t vd_agent_clipboard_utf8_text || has_text ts

unfoldable pub on_grab : VdAgentMessage → MainAgent → MainAgent
unfolding send_agent_message
on_grab (clipboard_grab types) s =
    let request = clipboard_request (pos vd_agent_clipboard_utf8_text) in
    let asked = send_agent_message vd_agent_clipboard_request request s in
    if has_text types then asked else s
on_grab other s = s

module _ (onagent : Option (MainAgent → MainAgent)) (encode : List ℕ → Bytes)
    (decode : Bytes → List ℕ) where
  unfoldable pub on_request : ℤ → Option (List ℕ) → MainAgent → MainAgent
  unfolding send_agent_message
  on_request type none s = s
  on_request type (some text) s =
      let reply = clipboard (pos vd_agent_clipboard_utf8_text) (encode text) in
      let sent = send_agent_message vd_agent_clipboard reply s in
      if is type vd_agent_clipboard_utf8_text then sent else s

  unfoldable pub on_clipboard : VdAgentMessage → Main → Main
  on_clipboard (clipboard type body) s =
      if is type vd_agent_clipboard_utf8_text
      then record s { guest_clipboard_text = some (decode body) }
      else s
  on_clipboard other s = s

  unfoldable pub process_agent_data : SpiceMsgMainAgentData → Main → Bool × Main
  unfolding on_capabilities on_file_xfer_status on_grab on_request on_clipboard with_agent
  process_agent_data d s =
      let body = bytes d.body in
      let type = d.type in
      if is type vd_agent_announce_capabilities
      then (true, with_agent (on_capabilities (read_capabilities (start body)).0) s)
      else (if is type vd_agent_file_xfer_status
          then (
            true,
            record s {
              transfers = on_file_xfer_status (read_file_xfer_status (start body)).0 s.transfers;
            },
          )
          else (if is type vd_agent_clipboard_grab
              then (true, with_agent (on_grab (read_grab body)) s)
              else (if is type vd_agent_clipboard_request
                  then (true, with_agent (on_request (u32 (start body)).0 s.host_clipboard_text) s)
                  else (if is type vd_agent_clipboard
                      then (true, on_clipboard (read_clipboard (start body)).0 s)
                      else (if is type vd_agent_clipboard_release
                          then (true, record s { guest_clipboard_text = some [] })
                          else (false, s))))))

  abbrev pub attach : SpiceMiniData
  unfolding MiniData.new buffer_size
  attach = record MiniData.new {
    type = spice_msgc_main_attach_channels;
    size = pos (buffer_size MiniData.new);
  }

  unfoldable pub process_main_init : SpiceMsgMainInit → Main → Main
  process_main_init i s =
      let begun = record s {
        connection_id = some i.session_id;
        mm_time = some i.multi_media_time;
      } in
      let with_tokens = with_agent (λ a. record a { agent_tokens = i.agent_tokens }) begun in
      let moded = handle_mouse_mode i.current_mouse_mode i.supported_mouse_modes with_tokens in
      let connected = with_agent (connect_agent onagent) moded in
      with_agent (send_msg attach) (if is_zero i.agent_connected then moded else connected)

  -- The messages that are only noted.
  abbrev pub is_known : ℕ → Bool
  is_known t =
      t == spice_msg_main_migrate_begin
      || t == spice_msg_main_migrate_cancel
      || t == spice_msg_main_multi_media_time
      || t == spice_msg_main_migrate_switch_host
      || t == spice_msg_main_migrate_end
      || t == spice_msg_main_name
      || t == spice_msg_main_uuid
      || t == spice_msg_main_migrate_begin_seamless
      || t == spice_msg_main_migrate_dst_seamless_ack
      || t == spice_msg_main_migrate_dst_seamless_nack

  unfoldable pub process_channel_message : SpiceMiniData → Main → Bool × Main
  process_channel_message msg s =
      let body = bytes msg.body in
      let t = msg.type in
      let modes = (read_mouse_mode (start body)).0 in
      let num_tokens = (read_agent_tokens (start body)).0 in
      if t == spice_msg_main_init
      then (true, process_main_init (read_main_init (start body)).0 s)
      else (if t == spice_msg_main_mouse_mode
          then (true, handle_mouse_mode (pos modes.1) (pos modes.0) s)
          else (if t == spice_msg_main_channels_list
              then (true, open_channels 0 (read_channels (start body)).0 s)
              else (if t == spice_msg_main_agent_connected
                  then (true, with_agent (connect_agent onagent) s)
                  else (if t == spice_msg_main_agent_connected_tokens
                      then (true, with_agent (agent_connected_tokens onagent num_tokens) s)
                      else (if t == spice_msg_main_agent_token
                          then (true, record s { transfers = tokens num_tokens s.transfers })
                          else (if t == spice_msg_main_agent_disconnected
                              then (true, with_agent agent_disconnected s)
                              else (if t == spice_msg_main_agent_data
                                  then process_agent_data (read_agent_data (start body)).0 s
                                  else (is_known t, s))))))))
