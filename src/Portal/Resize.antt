-- ===== src/Portal/Resize.antt =====
-- app.js: resizeForm and the submit handler of the form, against validate_resize and
-- request_data_disks of app.py. A value of the form is a natural number: the fields of the form are
-- numbers of at least the current size.
pub mod Limits
pub mod SelfService
pub mod Form
use Prim.Native.String.{String}
use vm_automation_deployment.Common.{
  ℕ, ◌+◌, ◌≤◌, Bool, true, false, ◌&&◌, List, [], ◌∷◌, ◌++◌, Option, none, some, map, length, ltb,
  ◌==◌, if◌then◌else◌, ◌⊎◌, inl, inr,
}
use vm_automation_deployment.Portal.{Resources, Disk, Policy}
use vm_automation_deployment.Portal.Approval.{when}
use vm_automation_deployment.Portal.Controls.{RequestStatus, completed, failed, other_status}

-- A request's machine: its sizes, its list of data disks, and the one disk of an older record.
pub record Machine : Type 0 where
  pub resources : Resources
  pub additional_disks : Option (List Disk)
  pub additional_disk : Option Disk

-- The limits of a field of the form.
pub record Field : Type 0 where
  pub min : ℕ
  pub max : ℕ

-- What the page sends.
pub record Payload : Type 0 where
  pub resources : Resources
  pub additional_disks : List ℕ

abbrev pub resize_disks : Machine → List Disk
resize_disks r = elim r.additional_disks [
  | some disks ↦ disks
  | none ↦ elim r.additional_disk [ some disk ↦ disk ∷ [] | none ↦ [] ]
]

abbrev pub disk_field : Disk → Field
disk_field disk = record { min = disk.size_gb; max = 8000 }

abbrev pub fields : Policy → Machine → List Field
fields policy r =
    record { min = r.resources.vcpu; max = policy.hard.vcpu }
    ∷ record { min = r.resources.memory_gb; max = policy.hard.memory_gb }
    ∷ record { min = r.resources.disk_gb; max = policy.hard.disk_gb }
    ∷ map disk_field (resize_disks r)

-- The fields of the form, if there is one.
unfoldable pub resize_form : (local_qemu : Bool) → RequestStatus → Policy → Machine → List Field
resize_form local_qemu completed policy r = if local_qemu then fields policy r else []
resize_form local_qemu failed policy r = []
resize_form local_qemu other_status policy r = []

-- What the page sends for the values in the fields.
abbrev pub resize_payload : (vcpu memory_gb disk_gb : ℕ) → List ℕ → Payload
resize_payload vcpu memory_gb disk_gb disks = record {
  resources = record { vcpu = vcpu; memory_gb = memory_gb; disk_gb = disk_gb };
  additional_disks = disks;
}

-- The server.
pub data Label : Type 0 where
  vcpu_label memory_label disk_label : Label

pub data ResizeError : Type 0 where
  reduced : Label → ResizeError
  hard_limit : Label → ℕ → ResizeError
  disks_missing : ResizeError
  disk_reduced disk_limit : String → ResizeError

pub data ApprovalReason : Type 0 where
  self_service : Label → ℕ → ℕ → ApprovalReason
  disk_self_service : String → ℕ → ℕ → ApprovalReason

abbrev pub larger : ℕ → ℕ → ℕ
larger a b = if ltb a b then b else a

-- The error and the reason of one value, at most one of them.
abbrev pub resource_check :
    Label → (value current automatic hard : ℕ) → List ResizeError × List ApprovalReason
resource_check label value current automatic hard =
    if ltb value current
    then (reduced label ∷ [], [])
    else (if ltb hard value
        then (hard_limit label hard ∷ [], [])
        else ([], when (ltb (larger current automatic) value) (self_service label value automatic)))

abbrev pub disk_check : Policy → Disk → ℕ → List ResizeError × List ApprovalReason
disk_check policy current size_gb =
    if ltb size_gb current.size_gb
    then (disk_reduced current.mountpoint ∷ [], [])
    else (if ltb 8000 size_gb then (disk_limit current.mountpoint ∷ [], []) else (
      [],
      when (ltb (larger current.size_gb policy.automatic.disk_gb) size_gb)
          (disk_self_service current.mountpoint size_gb policy.automatic.disk_gb),
    ))

abbrev pub also :
    List ResizeError × List ApprovalReason
    → List ResizeError × List ApprovalReason
    → List ResizeError × List ApprovalReason
also (es, rs) (fs, ss) = (es ++ fs, rs ++ ss)

abbrev pub disk_checks : Policy → List Disk → List ℕ → List ResizeError × List ApprovalReason
disk_checks policy (disk ∷ disks) (size ∷ sizes) =
    also (disk_check policy disk size) (disk_checks policy disks sizes)
disk_checks policy [] sizes = ([], [])
disk_checks policy (disk ∷ disks) [] = ([], [])

unfoldable pub request_data_disks : Machine → List Disk
request_data_disks request = elim request.additional_disks [
  | some disks ↦ disks
  | none ↦ elim request.additional_disk [ some disk ↦ disk ∷ [] | none ↦ [] ]
]

-- The errors and the reasons for approval.
unfoldable pub resize_checks : Policy → Payload → Machine → List ResizeError × List ApprovalReason
unfolding request_data_disks
resize_checks policy p request =
    let check = λ (label : Label) (size : Resources → ℕ).
      resource_check label (size p.resources) (size request.resources) (size policy.automatic)
        (size policy.hard) in
    let current = request_data_disks request in
    also (check vcpu_label (λ r. r.vcpu)) (
      also (check memory_label (λ r. r.memory_gb)) (
        also (check disk_label (λ r. r.disk_gb)) (
          if length p.additional_disks == length current
          then disk_checks policy current p.additional_disks
          else (disks_missing ∷ [], []))))

abbrev pub unless_errors :
    Payload
    → List ResizeError × List ApprovalReason
    → List ResizeError ⊎ (Payload × List ApprovalReason)
unless_errors p ([], reasons) = inr (p, reasons)
unless_errors p (e ∷ errors, reasons) = inl (e ∷ errors)

unfoldable pub validate_resize :
    Policy → Payload → Machine → List ResizeError ⊎ (Payload × List ApprovalReason)
unfolding resize_checks
validate_resize policy p request = unless_errors p (resize_checks policy p request)
