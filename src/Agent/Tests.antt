-- ===== src/Agent/Tests.antt =====
-- main.js: a small session, and the witnesses.
use vm_automation_deployment.Common.{ℕ, ◌≡◌, refl, inl, List, [], ◌∷◌, ◌++◌, some, length, arith}
use vm_automation_deployment.Common.Int.{pos}
use vm_automation_deployment.Constants.{
  vd_agent_clipboard, vd_agent_clipboard_grab, vd_agent_clipboard_utf8_text,
}
use vm_automation_deployment.DataView.{set_uint8, set_uint16, set_uint32, set_uint64}
use vm_automation_deployment.Messages.Cursor.{put_bytes, put8, put32, put64, put_words}
use vm_automation_deployment.Messages.MiniData.{SpiceMiniData}
use vm_automation_deployment.Messages.Agent.{
  VdAgentMessage, clipboard, clipboard_grab, announce_capabilities, file_xfer_status,
  read_clipboard, read_grab, read_capabilities, read_file_xfer_status, agent_data_buffer,
  agent_data_size, size,
}
use vm_automation_deployment.Messages.Agent.Layout.{agent_data_buffer-layout, header, layout}
use vm_automation_deployment.Messages.Agent.RoundTrip.{read-layout, start}
use vm_automation_deployment.Agent.{
  MainAgent, send_agent_message, send_agent_message_queue, agent_token,
}
use vm_automation_deployment.Agent.Queue.{linked, send_agent_message_queue-take}
use vm_automation_deployment.Agent.Chunks.{joined, push_all, AreChunks, send_agent_message-chunks}
use vm_automation_deployment.Agent.Session.{
  Event, message, token, run, after, Reached, told, run-Reached, run-flush,
}

abbrev word_sent : VdAgentMessage
word_sent = clipboard (pos vd_agent_clipboard_utf8_text) (104 ∷ 105 ∷ [])

-- The clipboard is offered and sent, with a token for the first of the two.
abbrev events : List Event
events =
    message vd_agent_clipboard_grab (clipboard_grab (pos vd_agent_clipboard_utf8_text ∷ []))
    ∷ token 1
    ∷ message vd_agent_clipboard word_sent
    ∷ []

abbrev idle : MainAgent
idle = linked 0 [] []

run-Reached_example : Reached [] [] 1 (told events) (run events idle)
run-Reached_example = run-Reached events 0 [] [] (inl refl)

waiting : length (run events idle).agent_msg_queue ≡ 1
unfolding run after send_agent_message agent_token send_agent_message_queue put_bytes put8 set_uint8
    put32 set_uint32 set_uint16 put64 set_uint64 put_words
waiting = refl

run-flush_example :
    (n' : ℕ) × (new : List SpiceMiniData) × (agent_token (pos 1) (run events idle)
      ≡ linked n' [] ([] ++ new))
    × (joined new ≡ joined [] ++ told events)
run-flush_example = run-flush events 0 1 [] [] (inl refl) (omega (arith, waiting))

abbrev frame : SpiceMiniData
frame = record { type = 107; size = pos 1; body = some (7 ∷ []) }

send_agent_message_queue-take_example :
    (send_agent_message_queue (some frame) (linked 1 (frame ∷ []) [])
      ≡ linked 0 (frame ∷ []) (frame ∷ []))
    × (agent_token (pos 5) (linked 1 (frame ∷ []) []) ≡ linked 5 [] (frame ∷ []))
send_agent_message_queue-take_example =
    send_agent_message_queue-take 1 5 (some frame) (frame ∷ []) []

agent_data_buffer-layout_example :
    (agent_data_buffer vd_agent_clipboard word_sent
      ≡ header vd_agent_clipboard (size word_sent) ++ layout word_sent)
    × (length (agent_data_buffer vd_agent_clipboard word_sent) ≡ agent_data_size word_sent)
agent_data_buffer-layout_example =
    agent_data_buffer-layout vd_agent_clipboard word_sent (omega arith, (omega arith, tt))

send_agent_message-chunks_example :
    (cs : List SpiceMiniData) × (send_agent_message vd_agent_clipboard word_sent idle
      ≡ push_all cs idle)
    × (joined cs ≡ agent_data_buffer vd_agent_clipboard word_sent)
    × AreChunks cs
send_agent_message-chunks_example = send_agent_message-chunks vd_agent_clipboard word_sent idle

read-layout_example :
    ((read_clipboard (start (layout (clipboard (pos 1) (104 ∷ []))))).0
      ≡ clipboard (pos 1) (104 ∷ []))
    × (read_grab (layout (clipboard_grab (pos 1 ∷ pos 2 ∷ [])))
        ≡ clipboard_grab (pos 1 ∷ pos 2 ∷ []))
    × ((read_capabilities (start (layout (announce_capabilities (pos 1) (pos 2))))).0
        ≡ announce_capabilities (pos 1) (pos 2))
    × ((read_file_xfer_status (start (layout (file_xfer_status (pos 1) (pos 2))))).0
        ≡ file_xfer_status (pos 1) (pos 2))
read-layout_example = read-layout (pos 1) (pos 2) (pos 1 ∷ pos 2 ∷ []) (104 ∷ [])
