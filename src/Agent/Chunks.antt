-- ===== src/Agent/Chunks.antt =====
-- main.js: the chunks of a message to the agent.
use Prim.Native.Nat.{min}
use vm_automation_deployment.Common.{
  ℕ, zero, suc, ◌+◌, ◌-◌, ◌≤◌, ◌<◌, ◌≡◌, refl, sym, ap, ◌∙◌, inl, inr, List, [], ◌∷◌, ◌++◌, some,
  length, take, drop, take-append-drop, length-take, length-drop, drop_all, ltb, Bool-cases, arith,
}
use vm_automation_deployment.Common.Int.{pos}
use vm_automation_deployment.Constants.{spice_msgc_main_agent_data}
use vm_automation_deployment.Wire.{Bytes}
use vm_automation_deployment.Messages.MiniData.{SpiceMiniData, bytes}
use vm_automation_deployment.Messages.Agent.{VdAgentMessage, agent_data_buffer}
use vm_automation_deployment.Agent.{
  MainAgent, send_agent_message_queue, max_size, chunk, send_from, send_agent_message,
}

-- The bytes in a list of chunks.
abbrev pub joined : List SpiceMiniData → Bytes
joined [] = []
joined (mr ∷ q) = bytes mr.body ++ joined q

abbrev pub push_all : List SpiceMiniData → MainAgent → MainAgent
push_all [] s = s
push_all (mr ∷ q) s = push_all q (send_agent_message_queue (some mr) s)

-- Agent data of 1 to 2042 bytes, with its size.
abbrev pub IsChunk : SpiceMiniData → Type 0
IsChunk mr =
    (mr.type ≡ spice_msgc_main_agent_data)
    × (mr.size ≡ pos (length (bytes mr.body)))
    × (1 ≤ length (bytes mr.body))
    × (length (bytes mr.body) ≤ 2042)

abbrev pub AreChunks : List SpiceMiniData → Type 0
AreChunks [] = Unit
AreChunks (mr ∷ q) = IsChunk mr × AreChunks q

drop-drop : (m n : ℕ) (xs : Bytes) → drop m (drop n xs) ≡ drop (n + m) xs
drop-drop m zero xs = ap (λ k. drop k xs) (omega arith)
drop-drop m (suc n) [] = drop_all m [] (omega arith) ∙ sym (drop_all (suc n + m) [] (omega arith))
drop-drop m (suc n) (x ∷ xs) =
    let e : suc n + m ≡ suc (n + m) = omega arith in rw e (drop-drop m n xs)

chunk-IsChunk :
    (sb : ℕ) (buffer : Bytes)
    → sb < length buffer
    → let eb = min (sb + max_size) (length buffer) in IsChunk (chunk sb eb buffer)
chunk-IsChunk sb buffer h =
    let eb = min (sb + max_size) (length buffer) in
    let size : length (take (eb - sb) (drop sb buffer)) ≡ eb - sb =
      omega (arith, length-take (eb - sb) (drop sb buffer), length-drop sb buffer) in
    (refl, ap pos (sym size), omega (arith, size), omega (arith, size))

-- The loop pushes chunks which together are the rest of the message.
send_from-chunks :
    (fuel sb : ℕ) (buffer : Bytes) (s : MainAgent)
    → length buffer - sb ≤ fuel
    → (cs : List SpiceMiniData) × (send_from fuel sb buffer s ≡ push_all cs s)
      × (joined cs ≡ drop sb buffer)
      × AreChunks cs
unfolding send_from
send_from-chunks zero sb buffer s h = ([], refl, sym (drop_all sb buffer (omega arith)), tt)
send_from-chunks (suc fuel) sb buffer s h = elim (Bool-cases (ltb sb (length buffer))) [
  | inl e ↦
      let within : sb < length buffer = ground arith in
      let eb = min (sb + max_size) (length buffer) in
      let s' = send_agent_message_queue (some (chunk sb eb buffer)) s in
      let (cs, same, rest, are) = send_from-chunks fuel eb buffer s' (omega arith) in
      let back : sb + (eb - sb) ≡ eb = omega arith in
      (
        chunk sb eb buffer ∷ cs,
        rw e same,
        ap (λ t. take (eb - sb) (drop sb buffer) ++ t)
              (rest ∙ ap (λ k. drop k buffer) (sym back) ∙ sym (drop-drop (eb - sb) sb buffer))
            ∙ take-append-drop (eb - sb) (drop sb buffer),
        (chunk-IsChunk sb buffer within, are),
      )
  | inr e ↦ ([], rw e refl, sym (drop_all sb buffer (ground arith)), tt)
]

-- A message to the agent is sent as chunks of 1 to 2042 bytes each, with their sizes, which are
-- pushed one after the other, and together are the message.
pub send_agent_message-chunks :
    (type : ℕ) (message : VdAgentMessage) (s : MainAgent)
    → (cs : List SpiceMiniData) × (send_agent_message type message s ≡ push_all cs s)
      × (joined cs ≡ agent_data_buffer type message)
      × AreChunks cs
unfolding send_agent_message
send_agent_message-chunks type message s =
    let buffer = agent_data_buffer type message in
    send_from-chunks (length buffer) 0 buffer s (omega arith)
