-- ===== src/Transfer.antt =====
-- portal/static/spice-html5/main.js: the transfer of files to the guest (file_xfer_start,
-- handle_file_xfer_status, file_xfer_read and its reader, file_xfer_completed). A task is known by
-- its id: behind a deleted one the source reads nothing. A file is its bytes; `readers` are the
-- FileReaders under way, each with what its onload uses, and `messages` the messages that
-- send_agent_message was called with. The progress bar and the log are left out.
pub mod Slices
pub mod Progress
mod Tests
use Prim.Native.Nat.{min}
use vm_automation_deployment.Common.{
  ℕ, zero, suc, ◌+◌, ◌-◌, ◌*◌, Bool, true, false, ◌&&◌, List, [], ◌∷◌, ◌++◌, Option, none, some,
  length, take, drop, get_elem?, ltb, ◌==◌, if◌then◌else◌,
}
use vm_automation_deployment.Common.Int.{ℤ, pos, negsuc, pos_part}
use vm_automation_deployment.Constants.{
  vd_agent_max_data_size, vd_agent_file_xfer_start, vd_agent_file_xfer_status,
  vd_agent_file_xfer_data, vd_agent_file_xfer_status_can_send_data,
  vd_agent_file_xfer_status_cancelled,
}
use vm_automation_deployment.Wire.{Bytes}
use vm_automation_deployment.Messages.Agent
use vm_automation_deployment.Messages.Agent.{VdAgentMessage, file_xfer_status, file_xfer_data}
use vm_automation_deployment.Agent.{MainAgent, send_agent_message, agent_token}

pub record Task : Type 0 where
  pub id : ℕ
  pub file : Bytes
  pub cancelled : Bool
  pub read_bytes : ℕ

-- A slice of the file of a task, read up to `eb`.
pub record FileReader : Type 0 where
  pub task : ℕ
  pub eb : ℕ
  pub slice : Bytes

pub record Transfers : Type 0 where
  pub agent : MainAgent
  pub file_xfer_task_id : ℕ
  pub file_xfer_tasks : List Task
  pub file_xfer_read_queue : List ℕ
  pub readers : List FileReader
  pub messages : List VdAgentMessage

abbrev pub find : ℕ → List Task → Option Task
find id [] = none
find id (t ∷ ts) = let rest = find id ts in if t.id == id then some t else rest

abbrev pub delete : ℕ → List Task → List Task
delete id [] = []
delete id (t ∷ ts) = let rest = delete id ts in if t.id == id then rest else t ∷ rest

-- Assignments to fields of the task.
abbrev pub cancel_task : ℕ → List Task → List Task
cancel_task id [] = []
cancel_task id (t ∷ ts) =
    (if t.id == id then record t { cancelled = true } else t) ∷ cancel_task id ts

abbrev pub set_read_bytes : ℕ → ℕ → List Task → List Task
set_read_bytes id sb [] = []
set_read_bytes id sb (t ∷ ts) =
    (if t.id == id then record t { read_bytes = sb } else t) ∷ set_read_bytes id sb ts

unfoldable pub send : ℕ → VdAgentMessage → Transfers → Transfers
unfolding send_agent_message
send type m s = record s {
  agent = send_agent_message type m s.agent;
  messages = s.messages ++ (m ∷ []);
}

abbrev pub chunk_size : ℕ
chunk_size = 32 * vd_agent_max_data_size

abbrev pub is_zero : ℤ → Bool
is_zero (pos n) = n == vd_agent_file_xfer_status_can_send_data
is_zero (negsuc n) = false

abbrev pub no_tokens : ℤ → Bool
no_tokens (pos n) = n == 0
no_tokens (negsuc n) = false

-- The branches of file_xfer_read: a task that was cancelled, no token, and a slice to be read.
unfoldable pub cancelled_read : Task → Transfers → Transfers
unfolding send
cancelled_read t s =
    let status = file_xfer_status (pos t.id) (pos vd_agent_file_xfer_status_cancelled) in
    let told = send vd_agent_file_xfer_status status s in
    record told { file_xfer_tasks = delete t.id told.file_xfer_tasks }

unfoldable pub wait_for_token : Task → ℕ → Transfers → Transfers
wait_for_token t sb s = record s {
  file_xfer_tasks = set_read_bytes t.id sb s.file_xfer_tasks;
  file_xfer_read_queue = s.file_xfer_read_queue ++ (t.id ∷ []);
}

abbrev pub reader : Task → ℕ → FileReader
reader t sb =
    let eb = min (sb + chunk_size) (length t.file) in
    record { task = t.id; eb = eb; slice = take (eb - sb) (drop sb t.file) }

unfoldable pub read_slice : Task → ℕ → Transfers → Transfers
read_slice t sb s = record s { readers = s.readers ++ (reader t sb ∷ []) }

-- A first byte that is undefined is 0.
unfoldable pub read_task : ℕ → Task → Transfers → Transfers
unfolding cancelled_read wait_for_token read_slice
read_task sb t s =
    let at_end = ltb 0 sb && sb == length t.file in
    let next =
      if no_tokens s.agent.agent_tokens then wait_for_token t sb s else read_slice t sb s in
    if at_end then s else (if t.cancelled then cancelled_read t s else next)

abbrev pub with_task : Option Task → (Task → Transfers → Transfers) → Transfers → Transfers
with_task none f s = s
with_task (some t) f s = f t s

unfoldable pub file_xfer_read : ℕ → ℕ → Transfers → Transfers
unfolding read_task
file_xfer_read id sb s = with_task (find id s.file_xfer_tasks) (read_task sb) s

-- `reader.onload`, with the other readers under way.
unfoldable pub onload : FileReader → List FileReader → Transfers → Transfers
unfolding send file_xfer_read
onload r others s =
    let loaded = record s { readers = others } in
    let sent = send vd_agent_file_xfer_data (file_xfer_data (pos r.task) r.slice) loaded in
    file_xfer_read r.task r.eb sent

-- One of the readers is done.
unfoldable pub load : ℕ → Transfers → Transfers
unfolding onload
load i s = elim (get_elem? s.readers i) [
  | none ↦ s
  | some r ↦ onload r (take i s.readers ++ drop (suc i) s.readers) s
]

-- The loop behind the tokens of the agent: a round for each token, while tasks wait.
abbrev pub resume_first : List ℕ → Transfers → Transfers
resume_first [] s = s
resume_first (id ∷ queue) s =
    let shifted = record s { file_xfer_read_queue = queue } in
    with_task (find id s.file_xfer_tasks) (λ t. read_task t.read_bytes t) shifted

abbrev pub is_empty : List ℕ → Bool
is_empty [] = true
is_empty (id ∷ queue) = false

unfoldable pub resume : ℕ → Transfers → Transfers
unfolding read_task
resume zero s = s
resume (suc remaining) s =
    let more = resume remaining (resume_first s.file_xfer_read_queue s) in
    if is_empty s.file_xfer_read_queue then s else more

unfoldable pub tokens : ℤ → Transfers → Transfers
unfolding resume agent_token
tokens num_tokens s =
    let agent = agent_token num_tokens s.agent in
    resume (pos_part agent.agent_tokens) (record s { agent = agent })

-- The text that announces a file; `decimal` writes its size.
unfoldable pub start_text : (ℕ → List ℕ) → List ℕ → ℕ → List ℕ
start_text decimal name size =
    b'['
    ∷ b'v'
    ∷ b'd'
    ∷ b'a'
    ∷ b'g'
    ∷ b'e'
    ∷ b'n'
    ∷ b't'
    ∷ b'-'
    ∷ b'f'
    ∷ b'i'
    ∷ b'l'
    ∷ b'e'
    ∷ b'-'
    ∷ b'x'
    ∷ b'f'
    ∷ b'e'
    ∷ b'r'
    ∷ b']'
    ∷ 10
    ∷ b'n'
    ∷ b'a'
    ∷ b'm'
    ∷ b'e'
    ∷ b'='
    ∷ (name ++ (10 ∷ b's' ∷ b'i' ∷ b'z' ∷ b'e' ∷ b'=' ∷ (decimal size ++ (10 ∷ []))))

unfoldable pub file_xfer_start : (ℕ → List ℕ) → List ℕ → Bytes → Transfers → Transfers
unfolding send start_text
file_xfer_start decimal name file s =
    let id = s.file_xfer_task_id in
    let task : Task = record { id = id; file = file; cancelled = false; read_bytes = 0 } in
    send vd_agent_file_xfer_start
      (Agent.file_xfer_start (pos id) (start_text decimal name (length file)))
      (record s { file_xfer_task_id = suc id; file_xfer_tasks = task ∷ s.file_xfer_tasks })

-- handle_file_xfer_status, for the id and the result of the status; every other result ends the
-- transfer.
unfoldable pub handle_file_xfer_status : ℕ → ℤ → Transfers → Transfers
unfolding read_task
handle_file_xfer_status id result s =
    let can_send = with_task (find id s.file_xfer_tasks) (read_task 0) s in
    let completed = record s { file_xfer_tasks = delete id s.file_xfer_tasks } in
    if is_zero result then can_send else completed

-- The button that cancels a task.
unfoldable pub cancel : ℕ → Transfers → Transfers
cancel id s = record s { file_xfer_tasks = cancel_task id s.file_xfer_tasks }
