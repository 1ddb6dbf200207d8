-- ===== src/Transfer/Slices.antt =====
-- main.js: the slices of one file that nobody cancels, which are read and sent.
use Prim.Native.Nat.{min}
use vm_automation_deployment.Common.{
  ℕ, zero, suc, ◌+◌, ◌-◌, ◌≤◌, ◌<◌, ◌≡◌, refl, sym, ap, ◌∙◌, ◌⊎◌, inl, inr, true, false, ◌&&◌, List,
  [], ◌∷◌, ◌++◌, length, take, drop, ltb, ◌==◌, append_assoc, append-nil, Bool-cases, arith,
}
use vm_automation_deployment.Common.Int.{ℤ, pos}
use vm_automation_deployment.Wire.{Bytes}
use vm_automation_deployment.Messages.Agent.{VdAgentMessage, file_xfer_data}
use vm_automation_deployment.Constants.{vd_agent_file_xfer_data}
use vm_automation_deployment.Agent.{MainAgent, send_agent_message}
use vm_automation_deployment.Transfer.{
  Task, FileReader, Transfers, send, chunk_size, no_tokens, wait_for_token, reader, read_slice,
  read_task, file_xfer_read, onload, load,
}

-- The data in some messages to the agent.
abbrev pub data_of : VdAgentMessage → Bytes
data_of (file_xfer_data id body) = body
data_of other = []

abbrev pub data_sent : List VdAgentMessage → Bytes
data_sent [] = []
data_sent (m ∷ ms) = data_of m ++ data_sent ms

abbrev pub task : ℕ → Bytes → ℕ → Task
task id file sb = record { id = id; file = file; cancelled = false; read_bytes = sb }

-- What goes on around the transfer: the agent, the next id, and the messages so far.
pub record Around : Type 0 where
  pub agent : MainAgent
  pub next_id : ℕ
  pub messages : List VdAgentMessage

abbrev pub with_one : Around → Task → List ℕ → List FileReader → Transfers
with_one a t queue readers = record {
  agent = a.agent;
  file_xfer_task_id = a.next_id;
  file_xfer_tasks = t ∷ [];
  file_xfer_read_queue = queue;
  readers = readers;
  messages = a.messages;
}

-- A slice is being read, the task waits for a token, or the whole file has been read; `rb` is what
-- the task read last.
abbrev pub Stage : ℕ → Bytes → ℕ → ℕ → Around → Transfers → Type 0
Stage id file sb rb a s =
    (s ≡ with_one a (task id file rb) [] (reader (task id file rb) sb ∷ []))
    ⊎ ((s ≡ with_one a (task id file sb) (id ∷ []) [])
        ⊎ ((s ≡ with_one a (task id file rb) [] []) × (0 < sb) × (sb ≡ length file)))

-- The first `sb` bytes of the file have been sent, in order.
abbrev pub InProgress : ℕ → Bytes → ℕ → Transfers → Type 0
InProgress id file sb s =
    (rb : ℕ) × (a : Around) × Stage id file sb rb a s
    × (data_sent a.messages ≡ take sb file)
    × (sb ≤ length file)

pub same_id : (id : ℕ) → (id == id) ≡ true
same_id id = ground arith

at_end-eq : (sb n : ℕ) → (ltb 0 sb && sb == n) ≡ true → (0 < sb) × (sb ≡ n)
at_end-eq sb n h = (ground arith, ground arith)

pub read_task-InProgress :
    (id : ℕ) (file : Bytes) (sb rb : ℕ) (a : Around)
    → data_sent a.messages ≡ take sb file
    → sb ≤ length file
    → InProgress id file sb (read_task sb (task id file rb) (with_one a (task id file rb) [] []))
unfolding read_task wait_for_token read_slice
read_task-InProgress id file sb rb a sent h = elim (Bool-cases (ltb 0 sb && sb == length file)) [
  | inl e ↦
      let (some_read, all_read) = at_end-eq sb (length file) e in
      (rb, a, inr (inr (rw e refl, some_read, all_read)), sent, h)
  | inr e ↦ elim (Bool-cases (no_tokens a.agent.agent_tokens)) [
    | inl e' ↦ (rb, a, inr (inl (rw (e, e', same_id id) refl)), sent, h)
    | inr e' ↦ (rb, a, inl (rw (e, e') refl), sent, h)
  ]
]

-- The task is found by its id.
read-InProgress :
    (id : ℕ) (file : Bytes) (sb rb : ℕ) (a : Around)
    → data_sent a.messages ≡ take sb file
    → sb ≤ length file
    → InProgress id file sb (file_xfer_read id sb (with_one a (task id file rb) [] []))
unfolding file_xfer_read
read-InProgress id file sb rb a sent h =
    rw (same_id id) (read_task-InProgress id file sb rb a sent h)

data_sent-snoc :
    (ms : List VdAgentMessage) (id : ℤ) (body : Bytes)
    → data_sent (ms ++ (file_xfer_data id body ∷ [])) ≡ data_sent ms ++ body
data_sent-snoc [] id body = append-nil body
data_sent-snoc (m ∷ ms) id body =
    ap (λ t. data_of m ++ t) (data_sent-snoc ms id body)
    ∙ sym (append_assoc (data_of m) (data_sent ms) body)

take_nil : (n : ℕ) → take {A = ℕ} n [] ≡ []
take_nil zero = refl
take_nil (suc n) = refl

take-next : (sb n : ℕ) (xs : Bytes) → take sb xs ++ take n (drop sb xs) ≡ take (sb + n) xs
take-next zero n xs = ap (λ k. take k xs) (omega arith)
take-next (suc sb) n [] = take_nil n ∙ sym (take_nil (suc sb + n))
take-next (suc sb) n (x ∷ xs) =
    let e : suc sb + n ≡ suc (sb + n) = omega arith in rw e (ap (λ t. x ∷ t) (take-next sb n xs))

-- A slice that has been read is sent, and the next one is read, or waits.
pub load-InProgress :
    (id : ℕ) (file : Bytes) (sb rb : ℕ) (a : Around)
    → data_sent a.messages ≡ take sb file
    → sb ≤ length file
    → InProgress id file
        (min (sb + chunk_size) (length file))
        (load 0 (with_one a (task id file rb) [] (reader (task id file rb) sb ∷ [])))
unfolding load onload send
load-InProgress id file sb rb a sent h =
    let eb = min (sb + chunk_size) (length file) in
    let slice = take (eb - sb) (drop sb file) in
    let message = file_xfer_data (pos id) slice in
    let a' : Around = record {
      agent = send_agent_message vd_agent_file_xfer_data message a.agent;
      next_id = a.next_id;
      messages = a.messages ++ (message ∷ []);
    } in
    let back : sb + (eb - sb) ≡ eb = omega (arith, h) in
    read-InProgress id file eb rb a'
      (data_sent-snoc a.messages (pos id) slice
        ∙ ap (λ t. t ++ slice) sent
        ∙ take-next sb (eb - sb) file
        ∙ ap (λ k. take k file) back)
      (omega arith)
