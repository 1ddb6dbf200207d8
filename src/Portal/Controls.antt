-- ===== src/Portal/Controls.antt =====
-- app.js: lifecycleControls, the buttons that the page shows for a request, against the guards of
-- app.py on the posts that they send: those of do_POST, lifecycle_action and the functions on
-- snapshots on roles, the state of the machine and the statuses of snapshots. The confirmations, the
-- name of a snapshot and what the server finds in files and chains of disks are left out. The state
-- of the machine is the one that the server has told the page.
pub mod Offered
pub mod Snapshots
pub mod Complete
use text.Mathlib.Text.{◌==◌ as str_eq}
use Prim.Native.String.{String}
use vm_automation_deployment.Common.{
  ℕ, Bool, true, false, not, ◌&&◌, ◌||◌, List, [], ◌∷◌, ◌++◌, Option, none, some, length, map, ltb,
  if◌then◌else◌,
}
use vm_automation_deployment.Portal.Approval.{when}

pub data RequestStatus : Type 0 where
  completed failed other_status : RequestStatus

-- `r.vm_state || "unknown"`, what virsh domstate says.
pub data VmState : Type 0 where
  running shut_off other_state : VmState

pub data SnapshotStatus : Type 0 where
  available active expired other_snapshot : SnapshotStatus

pub record Snapshot : Type 0 where
  pub id : String
  pub status : SnapshotStatus

pub record Request : Type 0 where
  pub status : RequestStatus
  pub vm_state : VmState
  pub manual_snapshots : List Snapshot
  pub resize_snapshots : List Snapshot
  pub last_failed_resize : Bool
  pub netbox_error : Bool

pub data Action : Type 0 where
  start stop reboot create_snapshot retry_resize : Action
  restore_snapshot delete_snapshot rollback_resize cleanup_resize_snapshot : String → Action

pub data Control : Type 0 where
  open_console netbox_retry delete_vm delete_failed_request : Control
  operation : Action → Control

abbrev pub is_running : VmState → Bool
is_running running = true
is_running shut_off = false
is_running other_state = false

abbrev pub is_shut_off : VmState → Bool
is_shut_off shut_off = true
is_shut_off running = false
is_shut_off other_state = false

abbrev pub is_available : SnapshotStatus → Bool
is_available available = true
is_available active = false
is_available expired = false
is_available other_snapshot = false

abbrev pub is_active : SnapshotStatus → Bool
is_active active = true
is_active available = false
is_active expired = false
is_active other_snapshot = false

abbrev pub is_expired : SnapshotStatus → Bool
is_expired expired = true
is_expired available = false
is_expired active = false
is_expired other_snapshot = false

abbrev pub filter_status : (SnapshotStatus → Bool) → List Snapshot → List Snapshot
filter_status p [] = []
filter_status p (s ∷ ss) = let rest = filter_status p ss in if p s.status then s ∷ rest else rest

-- The buttons of a snapshot that can be restored, and of one of a resize.
unfoldable pub manual_controls : VmState → Snapshot → List Control
manual_controls state s =
    when (is_shut_off state) (operation (restore_snapshot s.id))
    ++ (operation (delete_snapshot s.id) ∷ [])

unfoldable pub resize_controls : Bool → VmState → Snapshot → List Control
resize_controls is_admin state s =
    when (is_admin && (is_active s.status && is_shut_off state)) (operation (rollback_resize s.id))
    ++ when (is_admin && (is_expired s.status && is_running state))
        (operation (cleanup_resize_snapshot s.id))

abbrev pub each : (Snapshot → List Control) → List Snapshot → List Control
each f [] = []
each f (s ∷ ss) = f s ++ each f ss

-- The buttons of a machine, before the lists of its snapshots.
unfoldable pub machine_controls : Request → List Control
machine_controls r =
    let up = is_running r.vm_state in
    let down = is_shut_off r.vm_state in
    let few = ltb (length (filter_status is_available r.manual_snapshots)) 3 in
    when up open_console
    ++ (when ((up || down) && few) (operation create_snapshot)
        ++ (when down (operation start)
            ++ (when up (operation stop)
                ++ (when up (operation reboot)
                    ++ (when r.last_failed_resize (operation retry_resize)
                        ++ (when r.netbox_error netbox_retry ++ (delete_vm ∷ [])))))))

abbrev pub is_open : SnapshotStatus → Bool
is_open s = is_active s || is_expired s

-- The buttons by the status of the request.
unfoldable pub status_controls : RequestStatus → Bool → Request → List Control
unfolding machine_controls manual_controls resize_controls
status_controls failed is_admin r = delete_failed_request ∷ []
status_controls other_status is_admin r = []
status_controls completed is_admin r =
    machine_controls r
    ++ (each (manual_controls r.vm_state) (filter_status is_available r.manual_snapshots)
        ++ each (resize_controls is_admin r.vm_state) (filter_status is_open r.resize_snapshots))

unfoldable pub lifecycle_controls : (is_admin local_qemu : Bool) → Request → List Control
unfolding status_controls
lifecycle_controls is_admin local_qemu r =
    if local_qemu then status_controls r.status is_admin r else []

-- The server's answer to a post; `accepted` is that the operation is tried.
pub data Answer : Type 0 where
  accepted not_implemented forbidden conflict : Answer

abbrev pub is_completed : RequestStatus → Bool
is_completed completed = true
is_completed failed = false
is_completed other_status = false

-- `next((item for item in snapshots if …), None)`.
abbrev pub find_snapshot : (Snapshot → Bool) → List Snapshot → Option Snapshot
find_snapshot p [] = none
find_snapshot p (s ∷ ss) = let rest = find_snapshot p ss in if p s then some s else rest

abbrev pub found : Option Snapshot → (Snapshot → Bool) → Bool
found none p = false
found (some s) p = p s

abbrev pub has_id : String → Snapshot → Bool
has_id id s = str_eq s.id id

abbrev pub unless : Bool → Answer → Answer → Answer
unless true a b = b
unless false a b = a

-- The guards of each action, behind those of all.
unfoldable pub answer_action : Bool → Request → Action → Answer
answer_action is_admin r start = unless (is_shut_off r.vm_state) conflict accepted
answer_action is_admin r stop = unless (is_running r.vm_state) conflict accepted
answer_action is_admin r reboot = unless (is_running r.vm_state) conflict accepted
answer_action is_admin r create_snapshot =
    unless (ltb (length (filter_status is_available r.manual_snapshots)) 3) conflict
      (unless (is_running r.vm_state || is_shut_off r.vm_state) conflict accepted)
answer_action is_admin r retry_resize = unless r.last_failed_resize conflict accepted
answer_action is_admin r (restore_snapshot id) =
    let snapshot = find_snapshot (λ s. has_id id s && is_available s.status) r.manual_snapshots in
    unless (found snapshot (λ s. true)) conflict (unless (is_shut_off r.vm_state) conflict accepted)
answer_action is_admin r (delete_snapshot id) =
    let snapshot = find_snapshot (λ s. has_id id s && is_available s.status) r.manual_snapshots in
    unless (found snapshot (λ s. true)) conflict accepted
answer_action is_admin r (rollback_resize id) =
    let snapshot = find_snapshot (has_id id) r.resize_snapshots in
    unless is_admin forbidden (
      unless (found snapshot (λ s. is_active s.status)) conflict
        (unless (is_shut_off r.vm_state) conflict accepted))
answer_action is_admin r (cleanup_resize_snapshot id) =
    let snapshot = find_snapshot (λ s. has_id id s && is_expired s.status) r.resize_snapshots in
    unless is_admin forbidden (
      unless (found snapshot (λ s. true)) conflict
        (unless (is_running r.vm_state) conflict accepted))

-- `owner` is that the user has requested the machine, `exists` that the machine is there.
unfoldable pub answer : (is_admin owner local_qemu exists : Bool) → Request → Action → Answer
unfolding answer_action
answer is_admin owner local_qemu exists r action = unless local_qemu not_implemented (
    unless (is_admin || owner) forbidden
      (unless (is_completed r.status && exists) conflict (answer_action is_admin r action)))
