-- ===== src/Portal/Approval.antt =====
-- app.py: the part of `validate` that decides whether a valid request wants approval.
use text.Mathlib.Text.{◌==◌ as str_eq}
use Prim.Native.String.{String}
use vm_automation_deployment.Common.{
  ℕ, Bool, true, false, List, [], ◌∷◌, ◌++◌, Option, none, some, ltb, leb, ◌&&◌, if◌then◌else◌,
}
use vm_automation_deployment.Portal.{Resources, Disk, Policy, entry}

pub data Reason : Type 0 where
  vcpu_exceeds memory_exceeds : ℕ → Reason
  os_disk_exceeds : ℕ → ℕ → Reason
  data_disk_exceeds : String → ℕ → ℕ → Reason
  production_always : Reason

abbrev pub when {ℓ} : {A : Type ℓ} → Bool → A → List A
when true a = a ∷ []
when false a = []

-- The sizes of the profile, or the positive numbers of the form, all within the hard limits; none
-- stands for an error.
unfoldable pub requested_resources :
    Policy → List (String × Resources) → String → Resources → Option Resources
unfolding entry
requested_resources policy profiles profile custom =
    let within = λ (r : Resources).
      if leb r.vcpu policy.hard.vcpu
        && leb r.memory_gb policy.hard.memory_gb
        && leb r.disk_gb policy.hard.disk_gb
      then some r
      else none in
    elim (entry profile profiles) [
      | some r ↦ within r
      | none ↦
          if str_eq profile "custom"
          then (if leb 1 custom.vcpu && leb 1 custom.memory_gb && leb 1 custom.disk_gb
              then within custom
              else none)
          else none
    ]

unfoldable pub disk_reasons : Policy → List Disk → List Reason
disk_reasons policy [] = []
disk_reasons policy (disk ∷ disks) =
    when (ltb policy.automatic.disk_gb disk.size_gb)
      (data_disk_exceeds disk.mountpoint disk.size_gb policy.automatic.disk_gb)
    ++ disk_reasons policy disks

-- `approval` is the environment's flag in ENVIRONMENTS.
unfoldable pub approval_reasons : Policy → Resources → List Disk → Bool → List Reason
unfolding disk_reasons
approval_reasons policy r disks approval =
    when (ltb policy.automatic.vcpu r.vcpu) (vcpu_exceeds policy.automatic.vcpu)
    ++ (when (ltb policy.automatic.memory_gb r.memory_gb)
          (memory_exceeds policy.automatic.memory_gb)
        ++ (when (ltb policy.automatic.disk_gb r.disk_gb)
              (os_disk_exceeds r.disk_gb policy.automatic.disk_gb)
            ++ (disk_reasons policy disks ++ when approval production_always)))
