-- ===== src/Portal/Summary.antt =====
-- app.js: resourceValues and updateSummary, what the request form says about the request.
use text.Mathlib.Text.{◌==◌ as str_eq}
use Prim.Native.String.{String}
use vm_automation_deployment.Common.{
  ℕ, Bool, true, false, ◌||◌, List, [], ◌∷◌, Option, none, some, ltb, map, if◌then◌else◌,
}
use vm_automation_deployment.Portal.{Resources, Disk, Policy, entry}

pub data Key : Type 0 where
  vcpu memory_gb disk_gb : Key

abbrev pub amount : Resources → Key → ℕ
amount r vcpu = r.vcpu
amount r memory_gb = r.memory_gb
amount r disk_gb = r.disk_gb

-- `custom` is what the number fields hold; none stands for an unknown profile.
unfoldable pub resource_values : List (String × Resources) → String → Resources → Option Resources
unfolding entry
resource_values profiles selected_profile custom =
    if str_eq selected_profile "custom" then some custom else entry selected_profile profiles

-- `keys.filter(key => r[key] > config.policy.automatic[key])`
unfoldable pub over_automatic : Policy → Resources → List Key → List Key
over_automatic policy r [] = []
over_automatic policy r (key ∷ keys) =
    if ltb (amount policy.automatic key) (amount r key)
    then key ∷ over_automatic policy r keys
    else over_automatic policy r keys

unfoldable pub compute_reasons : Policy → Resources → List Key
unfolding over_automatic
compute_reasons policy r = over_automatic policy r (vcpu ∷ memory_gb ∷ disk_gb ∷ [])

unfoldable pub oversized : Policy → Disk → Bool
oversized policy disk = ltb policy.automatic.disk_gb disk.size_gb

-- `disks.some(…)`
unfoldable pub oversized_additional_disk : Policy → List Disk → Bool
unfolding oversized
oversized_additional_disk policy [] = false
oversized_additional_disk policy (disk ∷ disks) =
    oversized policy disk || oversized_additional_disk policy disks

abbrev pub nonempty {ℓ} : {A : Type ℓ} → List A → Bool
nonempty [] = false
nonempty (x ∷ xs) = true

pub data Notice : Type 0 where
  production_requests custom_size : Notice

-- What updateSummary writes into the page: whether approval is said to be required, the notice
-- with its text if it is shown, and for each disk row whether its warning is shown.
pub record Shown : Type 0 where
  pub approval_required : Bool
  pub policy_notice : Option Notice
  pub disk_warnings : List Bool

unfoldable pub update_summary : Policy → Resources → List Disk → String → Shown
update_summary policy r disks environment =
    let production = str_eq environment "production" in
    let reasons = nonempty (compute_reasons policy r) in
    record {
      approval_required = reasons || oversized_additional_disk policy disks || production;
      policy_notice =
          if reasons || production
          then some (if production then production_requests else custom_size)
          else none;
      disk_warnings = map (oversized policy) disks;
    }
