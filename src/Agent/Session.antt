-- ===== src/Agent/Session.antt =====
-- main.js: a session of messages to the agent and of tokens from it.
use vm_automation_deployment.Common.{
  ℕ, ◌+◌, ◌-◌, ◌≤◌, ◌≡◌, refl, sym, ap, subst, ◌∙◌, ◌⊎◌, inl, inr, List, [], ◌∷◌, ◌++◌, none, some,
  length, take, drop, append_assoc, append-nil, take-append-drop, length-append, length-take,
  drop_all, ltb, Bool-cases, arith,
}
use vm_automation_deployment.Common.Int.{pos}
use vm_automation_deployment.Wire.{Bytes}
use vm_automation_deployment.Messages.MiniData.{SpiceMiniData, bytes}
use vm_automation_deployment.Messages.Agent.{VdAgentMessage, agent_data_buffer}
use vm_automation_deployment.Agent.{
  MainAgent, send_agent_message_queue, send_agent_message, agent_token,
}
use vm_automation_deployment.Agent.Queue.{linked, linked-eq, send_agent_message_queue-take}
use vm_automation_deployment.Agent.Chunks.{joined, push_all, send_agent_message-chunks}

-- A message that the client sends, or tokens that the server gives.
pub data Event : Type 0 where
  message : ℕ → VdAgentMessage → Event
  token : ℕ → Event

unfoldable pub after : Event → MainAgent → MainAgent
unfolding send_agent_message agent_token
after (message type m) s = send_agent_message type m s
after (token n) s = agent_token (pos n) s

unfoldable pub run : List Event → MainAgent → MainAgent
unfolding after
run [] s = s
run (e ∷ es) s = run es (after e s)

abbrev pub given : List Event → ℕ
given [] = 0
given (message type m ∷ es) = given es
given (token n ∷ es) = n + given es

abbrev pub told : List Event → Bytes
told [] = []
told (message type m ∷ es) = agent_data_buffer type m ++ told es
told (token n ∷ es) = told es

-- No chunk waits while there is a token.
abbrev pub Settled : ℕ → List SpiceMiniData → Type 0
Settled n queue = (queue ≡ []) ⊎ (n ≡ 0)

-- A connected state, which from `queue` and `sent` has had `k` tokens and sent or queued `more`.
abbrev pub Reached : List SpiceMiniData → List SpiceMiniData → ℕ → Bytes → MainAgent → Type 0
Reached queue sent k more s =
    (n : ℕ) × (queue' : List SpiceMiniData) × (new : List SpiceMiniData) × (s
      ≡ linked n queue' (sent ++ new))
    × (joined (new ++ queue') ≡ joined queue ++ more)
    × (length new + n ≡ k)
    × Settled n queue'

joined-append : (a b : List SpiceMiniData) → joined (a ++ b) ≡ joined a ++ joined b
joined-append [] b = refl
joined-append (mr ∷ a) b =
    ap (λ t. bytes mr.body ++ t) (joined-append a b)
    ∙ sym (append_assoc (bytes mr.body) (joined a) (joined b))

-- First some chunks sent, then the rest.
first :
    (queue sent a b : List SpiceMiniData) (k k' : ℕ) (m more : Bytes) (s : MainAgent)
    → joined (a ++ b) ≡ joined queue ++ m
    → length a + k ≡ k'
    → Reached b (sent ++ a) k more s
    → Reached queue sent k' (m ++ more) s
first queue sent a b k k' m more s j l (n, queue', new, e, j', l', settled) = (
  n,
  queue',
  a ++ new,
  e ∙ linked-eq refl refl (append_assoc sent a new),
  ap joined (append_assoc a new queue')
      ∙ joined-append a (new ++ queue')
      ∙ ap (λ t. joined a ++ t) j'
      ∙ sym (append_assoc (joined a) (joined b) more)
      ∙ ap (λ t. t ++ more) (sym (joined-append a b) ∙ j)
      ∙ append_assoc (joined queue) m more,
  omega (arith, length-append a new, l, l'),
  settled,
)

here :
    (n : ℕ) (queue sent : List SpiceMiniData)
    → Settled n queue
    → Reached queue sent n [] (linked n queue sent)
here n queue sent settled = (
  n,
  queue,
  [],
  linked-eq refl refl (sym (append-nil sent)),
  sym (append-nil (joined queue)),
  omega arith,
  settled,
)

drained : (n : ℕ) (w : List SpiceMiniData) → Settled (n - length w) (drop n w)
drained n w = elim (Bool-cases (ltb n (length w))) [
  | inl e ↦ inr (ground arith)
  | inr e ↦ inl (drop_all n w (ground arith))
]

length-drained : (n : ℕ) (w : List SpiceMiniData) → length (take n w) + (n - length w) ≡ n
length-drained n w = omega (arith, length-take n w)

-- The chunks that wait, as far as there are tokens, and then the rest.
drain :
    (n : ℕ) (queue w sent : List SpiceMiniData) (m more : Bytes) (s : MainAgent)
    → joined w ≡ joined queue ++ m
    → Reached (drop n w) (sent ++ take n w) (n - length w) more s
    → Reached queue sent n (m ++ more) s
drain n queue w sent m more s j r =
    first queue sent (take n w) (drop n w) (n - length w) n m more s
      (ap joined (take-append-drop n w) ∙ j) (length-drained n w) r

joined-snoc :
    (queue : List SpiceMiniData) (mr : SpiceMiniData)
    → joined (queue ++ (mr ∷ [])) ≡ joined queue ++ bytes mr.body
joined-snoc queue mr =
    joined-append queue (mr ∷ []) ∙ ap (λ t. joined queue ++ t) (append-nil (bytes mr.body))

push_all-Reached :
    (cs : List SpiceMiniData) (n : ℕ) (queue sent : List SpiceMiniData)
    → Settled n queue
    → Reached queue sent n (joined cs) (push_all cs (linked n queue sent))
push_all-Reached [] n queue sent settled = here n queue sent settled
push_all-Reached (mr ∷ cs) n queue sent settled =
    let w = queue ++ (mr ∷ []) in
    let pushed_one = (send_agent_message_queue-take n 0 (some mr) queue sent).0 in
    drain n queue w sent (bytes mr.body) (joined cs)
      (push_all cs (send_agent_message_queue (some mr) (linked n queue sent)))
      (joined-snoc queue mr)
      (rw pushed_one
        (push_all-Reached cs (n - length w) (drop n w) (sent ++ take n w) (drained n w)))

-- From an agent that is connected, with no chunk waiting while there is a token, any run of
-- messages and tokens keeps that: the chunks sent and the tokens left are as many as the tokens
-- that there were and came, and the bytes sent and waiting are the ones that waited and the
-- messages, in order.
pub run-Reached :
    (es : List Event) (n : ℕ) (queue sent : List SpiceMiniData)
    → Settled n queue
    → Reached queue sent (n + given es) (told es) (run es (linked n queue sent))
unfolding run after
run-Reached [] n queue sent settled =
    let e : n + 0 ≡ n = omega arith in rw e (here n queue sent settled)
run-Reached (message type m ∷ es) n queue sent settled =
    let (cs, same, j, are) = send_agent_message-chunks type m (linked n queue sent) in
    let (n1, q1, new, e, j', l, settled') = push_all-Reached cs n queue sent settled in
    first queue sent new q1 (n1 + given es) (n + given es) (agent_data_buffer type m) (told es)
      (run es (send_agent_message type m (linked n queue sent)))
      (j' ∙ ap (λ t. joined queue ++ t) j) (omega (arith, l))
      (subst (Reached q1 (sent ++ new) (n1 + given es) (told es)) (ap (run es) (sym (same ∙ e)))
        (run-Reached es n1 q1 (sent ++ new) settled'))
run-Reached (token k ∷ es) n queue sent settled =
    let n' = n + k in
    let one = (send_agent_message_queue-take n k none queue sent).1 in
    let done =
      run-Reached es (n' - length queue) (drop n' queue) (sent ++ take n' queue)
        (drained n' queue) in
    first queue sent (take n' queue) (drop n' queue) (n' - length queue + given es)
      (n + (k + given es)) [] (told es) (run es (agent_token (pos k) (linked n queue sent)))
      (ap joined (take-append-drop n' queue) ∙ sym (append-nil (joined queue)))
      (omega (arith, length-drained n' queue))
      (subst
        (Reached (drop n' queue) (sent ++ take n' queue) (n' - length queue + given es) (told es))
        (ap (run es) (sym one)) done)

take_all : (n : ℕ) (w : List SpiceMiniData) → length w ≤ n → take n w ≡ w
take_all n w h =
    sym (append-nil (take n w))
    ∙ ap (λ t. take n w ++ t) (sym (drop_all n w h))
    ∙ take-append-drop n w

flush :
    (n k : ℕ) (queue sent : List SpiceMiniData)
    → length queue ≤ k
    → agent_token (pos k) (linked n queue sent) ≡ linked (n + k - length queue) [] (sent ++ queue)
flush n k queue sent h =
    (send_agent_message_queue-take n k none queue sent).1
    ∙ linked-eq refl (drop_all (n + k) queue (omega (arith, h)))
        (ap (λ t. sent ++ t) (take_all (n + k) queue (omega (arith, h))))

-- After any run of messages and tokens, a grant of as many tokens as chunks wait sends everything:
-- no chunk waits, and the bytes sent are the ones that waited before the run and the messages of
-- the run, in order.
pub run-flush :
    (es : List Event) (n k : ℕ) (queue sent : List SpiceMiniData)
    → Settled n queue
    → length (run es (linked n queue sent)).agent_msg_queue ≤ k
    → (n' : ℕ) × (new : List SpiceMiniData) × (agent_token (pos k) (run es (linked n queue sent))
        ≡ linked n' [] (sent ++ new))
      × (joined new ≡ joined queue ++ told es)
run-flush es n k queue sent settled h =
    let (n1, q1, new, e, j, l, settled') = run-Reached es n queue sent settled in
    let few : length q1 ≤ k = subst (λ s. length s.agent_msg_queue ≤ k) e h in
    (
      n1 + k - length q1,
      new ++ q1,
      ap (agent_token (pos k)) e
          ∙ flush n1 k q1 (sent ++ new) few
          ∙ linked-eq refl refl (append_assoc sent new q1),
      j,
    )
