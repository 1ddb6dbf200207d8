-- ===== src/Portal/Controls/Complete.antt =====
-- What the server allows, the page offers.
use vm_automation_deployment.Common.{
  ◌≡◌, refl, Bool, true, false, ◌||◌, subst, List, [], ◌∷◌, ◌↔◌, inl, inr, arith,
}
use vm_automation_deployment.Portal.Controls.{
  RequestStatus, completed, failed, other_status, Request, Action, start, stop, reboot,
  create_snapshot, retry_resize, restore_snapshot, delete_snapshot, rollback_resize,
  cleanup_resize_snapshot, Control, operation, is_available, is_open, filter_status,
  manual_controls, resize_controls, each, machine_controls, status_controls, lifecycle_controls,
  accepted, answer_action, answer, is_completed,
}
use vm_automation_deployment.Portal.Controls.Offered.{All, Distinct, Passes, status_controls-Passes}
use vm_automation_deployment.Portal.Controls.Snapshots.{
  Has, Has-left, Has-right, restore-Has, delete-Has, resize-rollback-Has, resize-cleanup-Has,
}

-- The rest of the actions.
machine_controls-Has :
    (is_admin : Bool) (r : Request)
    → (answer_action is_admin r start ≡ accepted → Has (operation start) (machine_controls r))
      × (answer_action is_admin r stop ≡ accepted → Has (operation stop) (machine_controls r))
      × (answer_action is_admin r reboot ≡ accepted → Has (operation reboot) (machine_controls r))
      × (answer_action is_admin r create_snapshot ≡ accepted
          → Has (operation create_snapshot) (machine_controls r))
      × (answer_action is_admin r retry_resize ≡ accepted
          → Has (operation retry_resize) (machine_controls r))
unfolding machine_controls answer_action
machine_controls-Has is_admin r = ground arith

in_machine :
    (c : Control) (is_admin : Bool) (r : Request)
    → Has c (machine_controls r)
    → Has c (status_controls completed is_admin r)
unfolding status_controls
in_machine c is_admin r h = Has-left c (machine_controls r) _ h

in_manual :
    (c : Control) (is_admin : Bool) (r : Request)
    → Has c (each (manual_controls r.vm_state) (filter_status is_available r.manual_snapshots))
    → Has c (status_controls completed is_admin r)
unfolding status_controls
in_manual c is_admin r h = Has-right c (machine_controls r) _ (
    Has-left c (each (manual_controls r.vm_state) (filter_status is_available r.manual_snapshots)) _
      h)

in_resize :
    (c : Control) (is_admin : Bool) (r : Request)
    → Has c (each (resize_controls is_admin r.vm_state) (filter_status is_open r.resize_snapshots))
    → Has c (status_controls completed is_admin r)
unfolding status_controls
in_resize c is_admin r h = Has-right c (machine_controls r) _ (
    Has-right c (each (manual_controls r.vm_state) (filter_status is_available r.manual_snapshots))
      _ h)

completed-Has :
    (is_admin : Bool) (r : Request) (a : Action)
    → answer_action is_admin r a ≡ accepted
    → Has (operation a) (status_controls completed is_admin r)
completed-Has is_admin r start h = in_machine _ is_admin r ((machine_controls-Has is_admin r).0 h)
completed-Has is_admin r stop h = in_machine _ is_admin r ((machine_controls-Has is_admin r).1 h)
completed-Has is_admin r reboot h = in_machine _ is_admin r ((machine_controls-Has is_admin r).2 h)
completed-Has is_admin r create_snapshot h =
    in_machine _ is_admin r ((machine_controls-Has is_admin r).3 h)
completed-Has is_admin r retry_resize h =
    in_machine _ is_admin r ((machine_controls-Has is_admin r).4 h)
completed-Has is_admin r (restore_snapshot id) h =
    in_manual _ is_admin r (restore-Has is_admin r id h)
completed-Has is_admin r (delete_snapshot id) h =
    in_manual _ is_admin r (delete-Has is_admin r id h)
completed-Has true r (rollback_resize id) h = in_resize _ true r (resize-rollback-Has r id h)
completed-Has true r (cleanup_resize_snapshot id) h = in_resize _ true r (resize-cleanup-Has r id h)
completed-Has false r (rollback_resize id) h = unfold answer_action in ground arith
completed-Has false r (cleanup_resize_snapshot id) h = unfold answer_action in ground arith

-- An action with a button is one of the buttons that pass.
Has-Passes :
    (is_admin owner : Bool) (r : Request) (a : Action) (cs : List Control)
    → All (Passes is_admin owner r) cs
    → Has (operation a) cs
    → answer is_admin owner true true r a ≡ accepted
Has-Passes is_admin owner r a [] p h = elim h [ ]
Has-Passes is_admin owner r a (c ∷ cs) (p, ps) (inl e) = subst (Passes is_admin owner r) e p
Has-Passes is_admin owner r a (c ∷ cs) (p, ps) (inr h) = Has-Passes is_admin owner r a cs ps h

answer-guards :
    (is_admin owner : Bool) (r : Request) (a : Action)
    → answer is_admin owner true true r a ≡ accepted
    → (is_completed r.status ≡ true) × (answer_action is_admin r a ≡ accepted)
unfolding answer
answer-guards is_admin owner r a h = ground arith

status_controls-Has :
    (status : RequestStatus) (is_admin : Bool) (r : Request) (a : Action)
    → is_completed status ≡ true
    → answer_action is_admin r a ≡ accepted
    → Has (operation a) (status_controls status is_admin r)
status_controls-Has completed is_admin r a e h = completed-Has is_admin r a h
status_controls-Has failed is_admin r a e h = ground arith
status_controls-Has other_status is_admin r a e h = ground arith

offered-there :
    (is_admin owner : Bool) (r : Request) (a : Action)
    → (is_admin || owner) ≡ true
    → Distinct r.resize_snapshots
    → Has (operation a) (lifecycle_controls is_admin true r)
      ↔ (answer is_admin owner true true r a ≡ accepted)
unfolding lifecycle_controls
offered-there is_admin owner r a h d = (
  Has-Passes is_admin owner r a _ (status_controls-Passes r.status is_admin owner r h refl d),
  λ k.
      let (e, tried) = answer-guards is_admin owner r a k in
      status_controls-Has r.status is_admin r a e tried,
)

no_controls :
    (is_admin : Bool) (r : Request) (c : Control) → Has c (lifecycle_controls is_admin false r) → ⊥
unfolding lifecycle_controls
no_controls is_admin r c h = h

-- Without the machine, or without the local hypervisor, nothing is tried.
answer-there :
    (is_admin owner local_qemu exists : Bool) (r : Request) (a : Action)
    → answer is_admin owner local_qemu exists r a ≡ accepted
    → (local_qemu ≡ true) × (exists ≡ true)
unfolding answer
answer-there is_admin owner local_qemu exists r a h = ground arith

-- For the one who has requested the machine, or an administrator, where no two snapshots of resizes
-- have one id: the server tries an action if and only if the page has a button for it and the
-- machine is there (`exists`). So every action that the server would try has its button; and a
-- button is answered with an error just where the machine is gone.
pub offered-accepted :
    (is_admin owner local_qemu exists : Bool) (r : Request) (a : Action)
    → (is_admin || owner) ≡ true
    → Distinct r.resize_snapshots
    → (Has (operation a) (lifecycle_controls is_admin local_qemu r) × (exists ≡ true))
      ↔ (answer is_admin owner local_qemu exists r a ≡ accepted)
offered-accepted is_admin owner true true r a h d =
    let (to, from) = offered-there is_admin owner r a h d in (λ p. to p.0, λ k. (from k, refl))
offered-accepted is_admin owner true false r a h d =
    (λ p. ground arith, λ k. let p = answer-there is_admin owner true false r a k in ground arith)
offered-accepted is_admin owner false exists r a h d = (
  λ p. absurd (no_controls is_admin r (operation a) p.0),
  λ k. let p = answer-there is_admin owner false exists r a k in ground arith,
)
