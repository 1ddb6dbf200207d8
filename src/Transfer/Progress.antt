-- ===== src/Transfer/Progress.antt =====
-- main.js: the transfer of one file that nobody cancels.
use Prim.Native.Nat.{min}
use vm_automation_deployment.Common.{
  ℕ, zero, suc, ◌+◌, ◌≡◌, refl, sym, ap, subst, inl, inr, List, [], ◌∷◌, length, arith,
}
use vm_automation_deployment.Common.Int.{ℤ, pos, pos_part}
use vm_automation_deployment.Wire.{Bytes}
use vm_automation_deployment.Agent.{MainAgent, agent_token}
use vm_automation_deployment.Transfer.{
  Transfers, chunk_size, read_task, load, resume, tokens, handle_file_xfer_status,
}
use vm_automation_deployment.Transfer.Slices.{
  data_sent, task, Around, with_one, Stage, InProgress, same_id, read_task-InProgress,
  load-InProgress,
}

resume_idle : (n : ℕ) (s : Transfers) → s.file_xfer_read_queue ≡ [] → resume n s ≡ s
unfolding resume
resume_idle zero s h = refl
resume_idle (suc n) s h = rw h refl

resume-InProgress :
    (n : ℕ) (id : ℕ) (file : Bytes) (sb : ℕ) (s : Transfers)
    → InProgress id file sb s
    → InProgress id file sb (resume n s)
unfolding resume
resume-InProgress zero id file sb s p = p
resume-InProgress (suc n) id file sb s (rb, a, inl e, sent, h) =
    subst (InProgress id file sb)
      (sym (resume_idle (suc n) s (ap Transfers.file_xfer_read_queue e))) (rb, a, inl e, sent, h)
resume-InProgress (suc n) id file sb s (rb, a, inr (inl e), sent, h) =
    subst (InProgress id file sb) (ap (resume (suc n)) (sym e)) (
      rw (same_id id) (
        resume-InProgress n id file sb
          (read_task sb (task id file sb) (with_one a (task id file sb) [] []))
          (read_task-InProgress id file sb sb a sent h)))
resume-InProgress (suc n) id file sb s (rb, a, inr (inr (e, some_read, all_read)), sent, h) =
    subst (InProgress id file sb)
      (sym (resume_idle (suc n) s (ap Transfers.file_xfer_read_queue e)))
      (rb, a, inr (inr (e, some_read, all_read)), sent, h)

-- Another agent around the transfer.
abbrev with_agent : MainAgent → Around → Around
with_agent agent a = record a { agent = agent }

abbrev put_agent : MainAgent → Transfers → Transfers
put_agent agent s = record s { agent = agent }

put_agent-Stage :
    (agent : MainAgent) (id : ℕ) (file : Bytes) (sb rb : ℕ) (a : Around) (s : Transfers)
    → Stage id file sb rb a s
    → Stage id file sb rb (with_agent agent a) (put_agent agent s)
put_agent-Stage agent id file sb rb a s (inl e) = inl (ap (put_agent agent) e)
put_agent-Stage agent id file sb rb a s (inr (inl e)) = inr (inl (ap (put_agent agent) e))
put_agent-Stage agent id file sb rb a s (inr (inr (e, some_read, all_read))) =
    inr (inr (ap (put_agent agent) e, some_read, all_read))

tokens-InProgress :
    (k : ℤ) (id : ℕ) (file : Bytes) (sb : ℕ) (s : Transfers)
    → InProgress id file sb s
    → InProgress id file sb (tokens k s)
unfolding tokens
tokens-InProgress k id file sb s (rb, a, stage, sent, h) =
    let agent = agent_token k s.agent in
    resume-InProgress (pos_part agent.agent_tokens) id file sb (put_agent agent s)
      (rb, with_agent agent a, put_agent-Stage agent id file sb rb a s stage, sent, h)

load_idle : (s : Transfers) → s.readers ≡ [] → load 0 s ≡ s
unfolding load
load_idle s h = rw h refl

loaded-InProgress :
    (id : ℕ) (file : Bytes) (sb : ℕ) (s : Transfers)
    → InProgress id file sb s
    → (sb' : ℕ) × InProgress id file sb' (load 0 s)
loaded-InProgress id file sb s (rb, a, inl e, sent, h) = (
  min (sb + chunk_size) (length file),
  subst (InProgress id file (min (sb + chunk_size) (length file))) (ap (load 0) (sym e))
      (load-InProgress id file sb rb a sent h),
)
loaded-InProgress id file sb s (rb, a, inr (inl e), sent, h) = (
  sb,
  subst (InProgress id file sb) (sym (load_idle s (ap Transfers.readers e)))
      (rb, a, inr (inl e), sent, h),
)
loaded-InProgress id file sb s (rb, a, inr (inr (e, some_read, all_read)), sent, h) = (
  sb,
  subst (InProgress id file sb) (sym (load_idle s (ap Transfers.readers e)))
      (rb, a, inr (inr (e, some_read, all_read)), sent, h),
)

-- A slice has been read, or the agent gives tokens.
pub data Event : Type 0 where
  loaded : Event
  given : ℤ → Event

unfoldable pub run : List Event → Transfers → Transfers
unfolding load tokens
run [] s = s
run (loaded ∷ es) s = run es (load 0 s)
run (given k ∷ es) s = run es (tokens k s)

run-InProgress :
    (es : List Event) (id : ℕ) (file : Bytes) (sb : ℕ) (s : Transfers)
    → InProgress id file sb s
    → (sb' : ℕ) × InProgress id file sb' (run es s)
unfolding run
run-InProgress [] id file sb s p = (sb, p)
run-InProgress (loaded ∷ es) id file sb s p =
    let (sb', p') = loaded-InProgress id file sb s p in run-InProgress es id file sb' (load 0 s) p'
run-InProgress (given k ∷ es) id file sb s p =
    run-InProgress es id file sb (tokens k s) (tokens-InProgress k id file sb s p)

-- For a file that is transferred alone and not cancelled, whose transfer the agent accepts before
-- any data message: however slices are read and tokens come, the data messages hold the beginning
-- of the file, in order, and either one slice, the next one, is being read, or the task waits for
-- a token, or they hold the whole file.
pub transfer-InProgress :
    (es : List Event) (id : ℕ) (file : Bytes) (a : Around)
    → data_sent a.messages ≡ []
    → (sb : ℕ) × InProgress id file sb
        (run es (handle_file_xfer_status id (pos 0) (with_one a (task id file 0) [] [])))
unfolding handle_file_xfer_status
transfer-InProgress es id file a none_sent =
    run-InProgress es id file 0
      (handle_file_xfer_status id (pos 0) (with_one a (task id file 0) [] []))
      (rw (same_id id) (read_task-InProgress id file 0 0 a none_sent (omega arith)))
