-- ===== src/Messages/Tests.antt =====
-- Messages written to new buffers.
use vm_automation_deployment.Common.{◌+◌, ◌≡◌, [], ◌∷◌, ◌++◌, some, length, arith}
use vm_automation_deployment.Common.Int.{pos}
use vm_automation_deployment.Wire.{Bytes}
use vm_automation_deployment.Messages.Cursor.Laws.{zeros}
use vm_automation_deployment.Messages.LinkHeader
use vm_automation_deployment.Messages.LinkHeader.{SpiceLinkHeader}
use vm_automation_deployment.Messages.LinkMess
use vm_automation_deployment.Messages.LinkMess.{SpiceLinkMess}
use vm_automation_deployment.Messages.LinkMess.Layout.{link_mess_layout}
use vm_automation_deployment.Messages.MiniData
use vm_automation_deployment.Messages.MiniData.{SpiceMiniData}
use vm_automation_deployment.Messages.MiniData.RoundTrip.{mini_data_roundtrip}

abbrev hello : SpiceLinkHeader
hello = record {
  magic = b'R' ∷ b'E' ∷ b'D' ∷ b'Q' ∷ [];
  major_version = pos 2;
  minor_version = pos 2;
  size = pos 26;
}

abbrev main_channel : SpiceLinkMess
main_channel = record {
  connection_id = pos 7;
  channel_type = some 1;
  channel_id = some 0;
  common_caps = pos 9 ∷ [];
  channel_caps = pos 4 ∷ [];
}

-- The link header goes in front.
abbrev header_bytes : Bytes
header_bytes = 82 ∷ 69 ∷ 68 ∷ 81 ∷ 2 ∷ 0 ∷ 0 ∷ 0 ∷ 2 ∷ 0 ∷ 0 ∷ 0 ∷ 26 ∷ 0 ∷ 0 ∷ 0 ∷ []

link_mess_layout_example :
    (LinkMess.to_buffer main_channel
        (header_bytes ++ zeros (LinkMess.buffer_size main_channel + 2))
        16
      ≡ (header_bytes ++ LinkMess.Layout.layout main_channel) ++ zeros 2)
    × (length (LinkMess.Layout.layout main_channel) ≡ LinkMess.buffer_size main_channel)
    × (length (LinkMess.Layout.fixed main_channel) ≡ 18)
link_mess_layout_example = link_mess_layout main_channel header_bytes 2

abbrev pong : SpiceMiniData
pong = record { type = 3; size = pos 8; body = some (1 ∷ 255 ∷ []) }

mini_data_roundtrip_example :
    let a = MiniData.to_buffer pong (zeros (MiniData.buffer_size pong)) 0 in
    (a ≡ MiniData.RoundTrip.layout pong)
    × (length a ≡ MiniData.buffer_size pong)
    × (MiniData.from_buffer a 0 ≡ record { type = 3; size = pos 2; body = some (1 ∷ 255 ∷ []) })
mini_data_roundtrip_example = mini_data_roundtrip pong (omega arith) (omega arith) (omega arith)
