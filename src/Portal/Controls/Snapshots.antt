-- ===== src/Portal/Controls/Snapshots.antt =====
-- The buttons of snapshots: each one that the server allows is there.
use text.Mathlib.TextEquality.{eq_iff}
use Prim.Native.String.{String}
use vm_automation_deployment.Common.{
  ◌≡◌, refl, sym, ◌∙◌, Bool, true, ◌&&◌, List, [], ◌∷◌, ◌++◌, Bool-cases, ◌⊎◌, inl, inr, arith,
}
use vm_automation_deployment.Portal.Controls.{
  Snapshot, SnapshotStatus, Request, VmState, restore_snapshot, delete_snapshot, rollback_resize,
  cleanup_resize_snapshot, Control, operation, is_running, is_shut_off, is_available, is_active,
  is_expired, is_open, filter_status, manual_controls, resize_controls, each, Answer, accepted,
  conflict, forbidden, find_snapshot, found, has_id, unless, answer_action,
}

abbrev pub Has : Control → List Control → Type 0
Has c [] = ⊥
Has c (x ∷ xs) = (x ≡ c) ⊎ Has c xs

pub Has-left : (c : Control) (xs ys : List Control) → Has c xs → Has c (xs ++ ys)
Has-left c [] ys h = elim h [ ]
Has-left c (x ∷ xs) ys (inl e) = inl e
Has-left c (x ∷ xs) ys (inr h) = inr (Has-left c xs ys h)

pub Has-right : (c : Control) (xs ys : List Control) → Has c ys → Has c (xs ++ ys)
Has-right c [] ys h = h
Has-right c (x ∷ xs) ys h = inr (Has-right c xs ys h)

Has-found :
    (c : Control) (f : Snapshot → List Control) (q : SnapshotStatus → Bool) (m g : Snapshot → Bool)
    (ss : List Snapshot)
    → ((s : Snapshot) → m s ≡ true → g s ≡ true → (q s.status ≡ true) × Has c (f s))
    → found (find_snapshot m ss) g ≡ true
    → Has c (each f (filter_status q ss))
Has-found c f q m g [] k h = ground arith
Has-found c f q m g (s ∷ ss) k h =
    let rest = Has-found c f q m g ss k in
    elim (Bool-cases (m s)) [
      | inl e ↦
          let found_here : found (find_snapshot m (s ∷ ss)) g ≡ g s = rw e refl in
          let (kept, has) = k s e (sym found_here ∙ h) in
          rw kept (Has-left c (f s) (each f (filter_status q ss)) has)
      | inr e ↦
          let later : found (find_snapshot m (s ∷ ss)) g ≡ found (find_snapshot m ss) g =
            rw e refl in
          elim (Bool-cases (q s.status)) [
            | inl o ↦ rw o (Has-right c (f s) (each f (filter_status q ss)) (rest (sym later ∙ h)))
            | inr o ↦ rw o (rest (sym later ∙ h))
          ]
    ]

unless-conflict :
    (b : Bool) (x : Answer) → unless b conflict x ≡ accepted → (b ≡ true) × (x ≡ accepted)
unless-conflict b x h = ground arith

unless-forbidden :
    (b : Bool) (x : Answer) → unless b forbidden x ≡ accepted → (b ≡ true) × (x ≡ accepted)
unless-forbidden b x h = ground arith

-- The buttons of one snapshot.
manual_controls-Has :
    (id : String) (state : VmState) (s : Snapshot)
    → (has_id id s && is_available s.status) ≡ true
    → (is_available s.status ≡ true)
      × (is_shut_off state ≡ true → Has (operation (restore_snapshot id)) (manual_controls state s))
      × Has (operation (delete_snapshot id)) (manual_controls state s)
unfolding manual_controls
manual_controls-Has id state s h = ground (arith, eq_iff s.id id)

rollback-Has :
    (id : String) (state : VmState) (s : Snapshot)
    → has_id id s ≡ true
    → is_active s.status ≡ true
    → is_shut_off state ≡ true
    → (is_open s.status ≡ true)
      × Has (operation (rollback_resize id)) (resize_controls true state s)
unfolding resize_controls
rollback-Has id state s h k l = ground (arith, eq_iff s.id id)

cleanup-Has :
    (id : String) (state : VmState) (s : Snapshot)
    → (has_id id s && is_expired s.status) ≡ true
    → is_running state ≡ true
    → (is_open s.status ≡ true)
      × Has (operation (cleanup_resize_snapshot id)) (resize_controls true state s)
unfolding resize_controls
cleanup-Has id state s h l = ground (arith, eq_iff s.id id)

-- The four actions on snapshots.
pub restore-Has :
    (is_admin : Bool) (r : Request) (id : String)
    → answer_action is_admin r (restore_snapshot id) ≡ accepted
    → Has
        (operation (restore_snapshot id))
        (each (manual_controls r.vm_state) (filter_status is_available r.manual_snapshots))
unfolding answer_action
restore-Has is_admin r id h =
    let (there, rest) = unless-conflict _ (unless (is_shut_off r.vm_state) conflict accepted) h in
    let (down, tried) = unless-conflict (is_shut_off r.vm_state) accepted rest in
    Has-found _ (manual_controls r.vm_state) is_available
      (λ s. has_id id s && is_available s.status) (λ s. true) r.manual_snapshots
      (λ s e g.
        let (kept, restore, delete) = manual_controls-Has id r.vm_state s e in (kept, restore down))
      there

pub delete-Has :
    (is_admin : Bool) (r : Request) (id : String)
    → answer_action is_admin r (delete_snapshot id) ≡ accepted
    → Has
        (operation (delete_snapshot id))
        (each (manual_controls r.vm_state) (filter_status is_available r.manual_snapshots))
unfolding answer_action
delete-Has is_admin r id h =
    let (there, tried) = unless-conflict _ accepted h in
    Has-found _ (manual_controls r.vm_state) is_available
      (λ s. has_id id s && is_available s.status) (λ s. true) r.manual_snapshots
      (λ s e g.
        let (kept, restore, delete) = manual_controls-Has id r.vm_state s e in (kept, delete))
      there

pub resize-rollback-Has :
    (r : Request) (id : String)
    → answer_action true r (rollback_resize id) ≡ accepted
    → Has
        (operation (rollback_resize id))
        (each (resize_controls true r.vm_state) (filter_status is_open r.resize_snapshots))
unfolding answer_action
resize-rollback-Has r id h =
    let (there, rest) = unless-conflict _ (unless (is_shut_off r.vm_state) conflict accepted) h in
    let (down, tried) = unless-conflict (is_shut_off r.vm_state) accepted rest in
    Has-found _ (resize_controls true r.vm_state) is_open (has_id id) (λ s. is_active s.status)
      r.resize_snapshots (λ s e g. rollback-Has id r.vm_state s e g down) there

pub resize-cleanup-Has :
    (r : Request) (id : String)
    → answer_action true r (cleanup_resize_snapshot id) ≡ accepted
    → Has
        (operation (cleanup_resize_snapshot id))
        (each (resize_controls true r.vm_state) (filter_status is_open r.resize_snapshots))
unfolding answer_action
resize-cleanup-Has r id h =
    let (there, rest) = unless-conflict _ (unless (is_running r.vm_state) conflict accepted) h in
    let (up, tried) = unless-conflict (is_running r.vm_state) accepted rest in
    Has-found _ (resize_controls true r.vm_state) is_open (λ s. has_id id s && is_expired s.status)
      (λ s. true) r.resize_snapshots (λ s e g. cleanup-Has id r.vm_state s e up) there
