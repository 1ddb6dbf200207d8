-- ===== src/Agent/Queue.antt =====
-- main.js: the queue of chunks and its tokens, against the first and the last of a list.
use vm_automation_deployment.Common.{
  ℕ, zero, suc, ◌+◌, ◌-◌, ◌≡◌, refl, sym, ap, ◌∙◌, true, List, [], ◌∷◌, ◌++◌, Option, none, length,
  take, drop, append_assoc, append-nil, drop_all, arith,
}
use vm_automation_deployment.Common.Int.{pos, ◌+ℤ◌}
use vm_automation_deployment.Messages.MiniData.{SpiceMiniData}
use vm_automation_deployment.Agent.{
  MainAgent, send_queue, send_agent_message_queue, pushed, agent_token,
}

-- `n` tokens, with some chunks waiting and some sent.
abbrev pub linked : ℕ → List SpiceMiniData → List SpiceMiniData → MainAgent
linked n queue sent = record {
  agent_connected = true;
  agent_tokens = pos n;
  agent_msg_queue = queue;
  sent = sent;
}

pub linked-eq :
    {n n' : ℕ} {q q' a a' : List SpiceMiniData}
    → n ≡ n'
    → q ≡ q'
    → a ≡ a'
    → linked n q a ≡ linked n' q' a'
linked-eq e f g = λ i. linked (e i) (f i) (g i)

take_none : (n : ℕ) (sent : List SpiceMiniData) → sent ≡ sent ++ take n []
take_none zero sent = sym (append-nil sent)
take_none (suc n) sent = sym (append-nil sent)

send_queue-linked :
    (n k : ℕ) (queue sent q a : List SpiceMiniData)
    → send_queue (pos n) queue sent (linked k q a)
      ≡ linked (n - length queue) (drop n queue) (sent ++ take n queue)
unfolding send_queue
send_queue-linked n k [] sent q a =
    linked-eq (omega arith) (sym (drop_all n [] (omega arith))) (take_none n sent)
send_queue-linked zero k (mr ∷ queue) sent q a =
    linked-eq (omega arith) refl (sym (append-nil sent))
send_queue-linked (suc n) k (mr ∷ queue) sent q a =
    send_queue-linked n k queue (sent ++ (mr ∷ [])) q a
    ∙ linked-eq (omega arith) refl (append_assoc sent (mr ∷ []) (take n queue))

pos_sum : (n k : ℕ) → pos n +ℤ pos k ≡ pos (n + k)
unfolding ◌+ℤ◌
pos_sum n k = ground arith

-- For a connected agent, a call sends the first chunks of the queue, with the new one behind the
-- others, as many as there are tokens, and keeps the others and the tokens that are left; a token
-- message does so with its tokens added.
pub send_agent_message_queue-take :
    (n k : ℕ) (message : Option SpiceMiniData) (queue sent : List SpiceMiniData)
    → let waiting = pushed message queue in
      (send_agent_message_queue message (linked n queue sent)
        ≡ linked (n - length waiting) (drop n waiting) (sent ++ take n waiting))
      × (agent_token (pos k) (linked n queue sent)
          ≡ linked (n + k - length queue) (drop (n + k) queue) (sent ++ take (n + k) queue))
unfolding send_agent_message_queue agent_token
send_agent_message_queue-take n k message queue sent = (
  send_queue-linked n n (pushed message queue) sent queue sent,
  ap (λ t. send_agent_message_queue none (record (linked n queue sent) { agent_tokens = t }))
        (pos_sum n k)
      ∙ send_queue-linked (n + k) (n + k) queue sent queue sent,
)
