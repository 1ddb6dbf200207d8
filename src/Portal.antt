-- ===== src/Portal.antt =====
-- The portal: portal/static/app.js, the page, and the parts of portal/app.py, the server, that
-- decide on the page's requests. Sizes are natural numbers; texts shown to the user are the facts
-- that they report.
pub mod Summary
pub mod Approval
pub mod Agreement
pub mod Escape
pub mod Controls
pub mod Resize
mod Tests
use text.Mathlib.Text.{◌==◌ as str_eq}
use Prim.Native.String.{String}
use vm_automation_deployment.Common.{ℕ, Bool, List, [], ◌∷◌, Option, none, some, if◌then◌else◌}

pub record Resources : Type 0 where
  pub vcpu : ℕ
  pub memory_gb : ℕ
  pub disk_gb : ℕ

pub record Disk : Type 0 where
  pub size_gb : ℕ
  pub mountpoint : String

-- POLICY of app.py, which /api/config hands to the page.
pub record Policy : Type 0 where
  pub automatic : Resources
  pub hard : Resources

abbrev pub policy : Policy
policy = record {
  automatic = record { vcpu = 8; memory_gb = 32; disk_gb = 500 };
  hard = record { vcpu = 32; memory_gb = 512; disk_gb = 8000 };
}

-- PROFILES and ENVIRONMENTS of app.py: the sizes of each profile, and whether an environment wants
-- approval.
abbrev pub profiles : List (String × Resources)
profiles =
    ("small", record { vcpu = 2; memory_gb = 4; disk_gb = 40 })
    ∷ ("medium", record { vcpu = 4; memory_gb = 8; disk_gb = 80 })
    ∷ ("large", record { vcpu = 8; memory_gb = 32; disk_gb = 200 })
    ∷ []

abbrev pub environments : List (String × Bool)
environments = ("development", Bool.false) ∷ ("test", Bool.false) ∷ ("production", Bool.true) ∷ []

-- A property of an object, an entry of a dictionary.
unfoldable pub entry {ℓ} : {A : Type ℓ} → String → List (String × A) → Option A
entry key [] = none
entry key ((k, v) ∷ map) = if str_eq k key then some v else entry key map
