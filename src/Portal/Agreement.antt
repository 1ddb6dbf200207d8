-- ===== src/Portal/Agreement.antt =====
-- app.js against app.py: what the page announces is what the server decides.
use text.Mathlib.Text.{◌==◌ as str_eq}
use text.Mathlib.TextEquality.{eq_iff}
use Prim.Native.String.{String}
use mathlib.Core.Bool.{or_assoc}
use vm_automation_deployment.Common.{
  ◌≡◌, refl, ap, ◌∙◌, sym, Bool, true, false, ◌||◌, List, [], ◌∷◌, ◌++◌, none, some, ltb,
  if◌then◌else◌, arith, ◌⊎◌, subst, inl, inr,
}
use vm_automation_deployment.Portal.{Resources, Disk, Policy, policy, profiles, environments, entry}
use vm_automation_deployment.Portal.Summary.{
  nonempty, compute_reasons, oversized_additional_disk, resource_values, update_summary,
}
use vm_automation_deployment.Portal.Approval.{
  when, requested_resources, disk_reasons, approval_reasons,
}

nonempty-append {ℓ} :
    {A : Type ℓ} (xs ys : List A) → nonempty (xs ++ ys) ≡ (nonempty xs || nonempty ys)
nonempty-append [] ys = refl
nonempty-append (x ∷ xs) ys = refl

nonempty-when {ℓ} : {A : Type ℓ} (b : Bool) (a : A) → nonempty (when b a) ≡ b
nonempty-when true a = refl
nonempty-when false a = refl

nonempty-disk_reasons :
    (p : Policy) (disks : List Disk)
    → nonempty (disk_reasons p disks) ≡ oversized_additional_disk p disks
unfolding disk_reasons oversized_additional_disk
nonempty-disk_reasons p [] = refl
nonempty-disk_reasons p (disk ∷ disks) =
    simp (nonempty-append, nonempty-when, nonempty-disk_reasons p disks)

nonempty-compute_reasons :
    (p : Policy) (r : Resources)
    → nonempty (compute_reasons p r) ≡ (
        ltb p.automatic.vcpu r.vcpu
        || (ltb p.automatic.memory_gb r.memory_gb || ltb p.automatic.disk_gb r.disk_gb))
unfolding compute_reasons
nonempty-compute_reasons p r = ground arith

-- The server's reasons, each by the test that gives it.
nonempty-approval_reasons :
    (p : Policy) (r : Resources) (disks : List Disk) (approval : Bool)
    → nonempty (approval_reasons p r disks approval)
      ≡ (nonempty (compute_reasons p r) || (oversized_additional_disk p disks || approval))
unfolding approval_reasons
nonempty-approval_reasons p r disks approval =
    simp (nonempty-append, nonempty-when, nonempty-disk_reasons, nonempty-compute_reasons, or_assoc)

entry-cases {ℓ} :
    {A : Type ℓ} (key k : String) (v a : A) (map : List (String × A))
    → entry key ((k, v) ∷ map) ≡ some a
    → ((k ≡ key) × (v ≡ a)) ⊎ (entry key map ≡ some a)
unfolding entry
entry-cases key k v a map h = ground (arith, eq_iff k key)

-- Of the environments, production is the one that wants approval.
environment_approval :
    (environment : String) (approval : Bool)
    → entry environment environments ≡ some approval
    → approval ≡ str_eq environment "production"
unfolding entry
environment_approval e a h =
    elim (entry-cases e "development" false a (("test", false) ∷ ("production", true) ∷ []) h) [
      | inl (p, q) ↦ sym q ∙ ap (λ x. str_eq x "production") p
      | inr h ↦ elim (entry-cases e "test" false a (("production", true) ∷ []) h) [
        | inl (p, q) ↦ sym q ∙ ap (λ x. str_eq x "production") p
        | inr h ↦ elim (entry-cases e "production" true a [] h) [
          | inl (p, q) ↦ sym q ∙ ap (λ x. str_eq x "production") p
          | inr h ↦ ground arith
        ]
      ]
    ]

within_lem :
    (profile_sizes r : Resources) (b : Bool)
    → (if b then some profile_sizes else none) ≡ some r
    → profile_sizes ≡ r
within_lem s r b h = ground arith

custom_unlisted :
    (profile : String) → str_eq profile "custom" ≡ true → entry profile profiles ≡ none
unfolding entry
custom_unlisted profile h =
    subst (λ p. entry p profiles ≡ none) (sym ((eq_iff profile "custom").0 h)) refl

requested-resource_values :
    (profile : String) (custom r : Resources)
    → requested_resources policy profiles profile custom ≡ some r
    → resource_values profiles profile custom ≡ some r
unfolding requested_resources resource_values
requested-resource_values profile custom r h = ground (arith, custom_unlisted profile)

approval_required_lem :
    (p : Policy) (r : Resources) (disks : List Disk) (environment : String)
    → (update_summary p r disks environment).approval_required ≡ (
        nonempty (compute_reasons p r)
        || (oversized_additional_disk p disks || str_eq environment "production"))
unfolding update_summary
approval_required_lem p r disks environment =
    or_assoc (nonempty (compute_reasons p r)) (oversized_additional_disk p disks)
      (str_eq environment "production")

-- For a request that the server finds valid (its profile and sizes are accepted, and its
-- environment is known), the page shows the sizes that the server uses, and says that approval is
-- required exactly if the server has a reason to ask for it.
pub summary_agrees :
    (profile : String) (custom r : Resources) (disks : List Disk) (environment : String)
    (approval : Bool)
    → requested_resources policy profiles profile custom ≡ some r
    → entry environment environments ≡ some approval
    → (resource_values profiles profile custom ≡ some r)
      × ((update_summary policy r disks environment).approval_required
          ≡ nonempty (approval_reasons policy r disks approval))
summary_agrees profile custom r disks environment approval accepted known = (
  requested-resource_values profile custom r accepted,
  approval_required_lem policy r disks environment
      ∙ sym (
          nonempty-approval_reasons policy r disks approval
          ∙ ap
              (λ x.
                nonempty (compute_reasons policy r)
                || (oversized_additional_disk policy disks || x))
              (environment_approval environment approval known)),
)
