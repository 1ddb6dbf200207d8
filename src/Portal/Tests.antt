-- ===== src/Portal/Tests.antt =====
-- Runs of the portal's definitions, and the witnesses.
use vm_automation_deployment.Common.{
  ◌≡◌, refl, true, false, List, [], ◌∷◌, ◌++◌, ◌↔◌, some, none, arith,
}
use vm_automation_deployment.Portal.{Resources, Disk, policy, profiles, environments, entry}
use vm_automation_deployment.Portal.Summary.{nonempty, oversized, resource_values, update_summary}
use vm_automation_deployment.Portal.Approval.{
  requested_resources, approval_reasons, vcpu_exceeds, data_disk_exceeds,
}
use vm_automation_deployment.Portal.Agreement.{summary_agrees}
use vm_automation_deployment.Portal.Escape.{Text, esc, content, upto, esc-content}
use vm_automation_deployment.Portal.Controls.{
  completed, shut_off, available, active, expired, Request, operation, rollback_resize,
  lifecycle_controls, answer, accepted as Accepted,
}
use vm_automation_deployment.Portal.Controls.Snapshots.{Has}
use vm_automation_deployment.Portal.Controls.Complete.{offered-accepted}
use vm_automation_deployment.Portal.Resize.{
  Machine, resize_form, resize_payload, validate_resize, resize_checks,
}
use vm_automation_deployment.Portal.Resize.Limits.{AreWithin, IsAccepted}
use vm_automation_deployment.Portal.Resize.SelfService.{self_service_fields}
use vm_automation_deployment.Portal.Resize.Form.{resize_form-validate_resize}

abbrev form : Resources
form = record { vcpu = 12; memory_gb = 16; disk_gb = 100 }

abbrev two_disks : List Disk
two_disks =
    record { size_gb = 20; mountpoint = "/data1" }
    ∷ record { size_gb = 600; mountpoint = "/data2" }
    ∷ []

asked :
    approval_reasons policy form two_disks false
    ≡ vcpu_exceeds 8 ∷ data_disk_exceeds "/data2" 600 500 ∷ []
unfolding approval_reasons
asked = refl

warned : (update_summary policy form two_disks "test").disk_warnings ≡ false ∷ true ∷ []
unfolding update_summary oversized
warned = refl

accepted : requested_resources policy profiles "custom" form ≡ some form
unfolding requested_resources
accepted = refl

known : entry "test" environments ≡ some false
unfolding entry
known = refl

summary_agrees_example :
    (resource_values profiles "custom" form ≡ some form)
    × ((update_summary policy form two_disks "test").approval_required
        ≡ nonempty (approval_reasons policy form two_disks false))
summary_agrees_example = summary_agrees "custom" form form two_disks "test" false accepted known

abbrev tag : Text
tag = b'<' ∷ b'a' ∷ b'"' ∷ b'&' ∷ b';' ∷ []

esc-content_example :
    (upto 34 (esc tag ++ (34 ∷ tag)) ≡ (esc tag, tag))
    × (upto 60 (esc tag ++ (60 ∷ tag)) ≡ (esc tag, tag))
    × (content 5 (esc tag) ≡ tag)
esc-content_example = esc-content tag tag 5 (omega arith)

abbrev machine_off : Request
machine_off = record {
  status = completed;
  vm_state = shut_off;
  manual_snapshots = record { id = "m"; status = available } ∷ [];
  resize_snapshots =
      record { id = "a"; status = active } ∷ record { id = "b"; status = expired } ∷ [];
  last_failed_resize = false;
  netbox_error = false;
}

offered-accepted_example :
    (Has (operation (rollback_resize "a")) (lifecycle_controls true true machine_off)
      × (false ≡ true))
    ↔ (answer true false true false machine_off (rollback_resize "a") ≡ Accepted)
offered-accepted_example =
    offered-accepted true false true false machine_off (rollback_resize "a") refl
      ((refl, tt), (tt, tt))

abbrev machine : Machine
machine = record {
  resources = record { vcpu = 2; memory_gb = 4; disk_gb = 40 };
  additional_disks = some two_disks;
  additional_disk = none;
}

resize_form-validate_resize_example :
    (AreWithin (resize_form true completed policy machine) (4 ∷ 4 ∷ 40 ∷ 30 ∷ 700 ∷ [])
      ↔ IsAccepted (validate_resize policy (resize_payload 4 4 40 (30 ∷ 700 ∷ [])) machine))
    × (AreWithin (resize_form true completed policy machine) (4 ∷ 4 ∷ 40 ∷ 30 ∷ 700 ∷ [])
        → ((resize_checks policy (resize_payload 4 4 40 (30 ∷ 700 ∷ [])) machine).1 ≡ []
            ↔ AreWithin (self_service_fields policy machine) (4 ∷ 4 ∷ 40 ∷ 30 ∷ 700 ∷ [])))
resize_form-validate_resize_example =
    resize_form-validate_resize policy machine 4 4 40 (30 ∷ 700 ∷ [])
