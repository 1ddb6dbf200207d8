-- ===== src/Portal/Resize/Limits.antt =====
-- The limits of the form's fields against the checks of the server.
use vm_automation_deployment.Common.{
  ℕ, suc, ◌≤◌, ◌≡◌, refl, ap, ◌↔◌, List, [], ◌∷◌, ◌++◌, map, length, ◌==◌, if◌then◌else◌, ◌⊎◌, inl,
  inr, arith,
}
use vm_automation_deployment.Portal.{Disk, Policy}
use vm_automation_deployment.Portal.Resize.{
  Machine, Field, Payload, resize_disks, disk_field, fields, resize_payload, Label, ResizeError,
  ApprovalReason, resource_check, disk_check, also, disk_checks, request_data_disks, resize_checks,
  unless_errors, disks_missing, vcpu_label, memory_label, disk_label,
}

-- The values are within the limits of the fields, one for each.
abbrev pub AreWithin : List Field → List ℕ → Type 0
AreWithin [] [] = Unit
AreWithin [] (v ∷ vs) = ⊥
AreWithin (f ∷ fs) [] = ⊥
AreWithin (f ∷ fs) (v ∷ vs) = (f.min ≤ v) × (v ≤ f.max) × AreWithin fs vs

abbrev pub IsAccepted : List ResizeError ⊎ (Payload × List ApprovalReason) → Type 0
IsAccepted (inl errors) = ⊥
IsAccepted (inr accepted) = Unit

resource_check-errors :
    (label : Label) (v current automatic hard : ℕ)
    → (resource_check label v current automatic hard).0 ≡ [] ↔ (current ≤ v) × (v ≤ hard)
resource_check-errors label v current automatic hard = ground arith

disk_check-errors :
    (policy : Policy) (d : Disk) (v : ℕ)
    → (disk_check policy d v).0 ≡ [] ↔ (d.size_gb ≤ v) × (v ≤ 8000)
disk_check-errors policy d v = ground arith

append-empty : (xs ys : List ResizeError) → (xs ++ ys) ≡ [] ↔ (xs ≡ []) × (ys ≡ [])
append-empty [] ys = (λ h. (refl, h), λ h. h.1)
append-empty (x ∷ xs) ys = ground arith

-- The errors of one field in front of those of others.
also-AreWithin :
    (c rest : List ResizeError × List ApprovalReason) (f : Field) (fs : List Field) (v : ℕ)
    (vs : List ℕ)
    → (c.0 ≡ [] ↔ (f.min ≤ v) × (v ≤ f.max))
    → (rest.0 ≡ [] ↔ AreWithin fs vs)
    → (also c rest).0 ≡ [] ↔ AreWithin (f ∷ fs) (v ∷ vs)
also-AreWithin (es, rs) (fs, ss) f fields v vs here others =
    let both = append-empty es fs in
    (
      λ h. let (e, more) = both.0 h in let (low, high) = here.0 e in (low, high, others.0 more),
      λ h. let (low, high, more) = h in both.1 (here.1 (low, high), others.1 more),
    )

pub disk_checks-errors :
    (policy : Policy) (ds : List Disk) (vs : List ℕ)
    → (length vs ≡ length ds) × ((disk_checks policy ds vs).0 ≡ [])
      ↔ AreWithin (map disk_field ds) vs
disk_checks-errors policy [] [] = (λ h. tt, λ h. (refl, refl))
disk_checks-errors policy [] (v ∷ vs) = ground arith
disk_checks-errors policy (d ∷ ds) [] = ground arith
disk_checks-errors policy (d ∷ ds) (v ∷ vs) =
    let rest = disk_checks-errors policy ds vs in
    let all = λ (lengths : length vs ≡ length ds).
      also-AreWithin (disk_check policy d v) (disk_checks policy ds vs) (disk_field d)
        (map disk_field ds) v vs (disk_check-errors policy d v)
        (λ e. rest.0 (lengths, e), λ w. (rest.1 w).1) in
    (
      λ h. (all (omega (arith, h.0))).0 h.1,
      λ h. let lengths = (rest.1 h.2).0 in (ap suc lengths, (all lengths).1 h),
    )

pub unless_errors-IsAccepted :
    (p : Payload) (checks : List ResizeError × List ApprovalReason)
    → checks.0 ≡ [] ↔ IsAccepted (unless_errors p checks)
unless_errors-IsAccepted p ([], reasons) = (λ h. tt, λ h. refl)
unless_errors-IsAccepted p (e ∷ es, reasons) = ground arith

-- The checks of the disks of a payload.
unfoldable pub disks : Policy → List Disk → List ℕ → List ResizeError × List ApprovalReason
disks policy ds vs =
    if length vs == length ds then disk_checks policy ds vs else (disks_missing ∷ [], [])

disks-errors :
    (policy : Policy) (ds : List Disk) (vs : List ℕ)
    → (disks policy ds vs).0 ≡ [] ↔ AreWithin (map disk_field ds) vs
unfolding disks
disks-errors policy ds vs = ground (arith, disk_checks-errors policy ds vs)

pub resize_checks-errors :
    (policy : Policy) (r : Machine) (v m d : ℕ) (sizes : List ℕ)
    → (resize_checks policy (resize_payload v m d sizes) r).0 ≡ []
      ↔ AreWithin (fields policy r) (v ∷ m ∷ d ∷ sizes)
unfolding resize_checks request_data_disks disks
resize_checks-errors policy r v m d sizes =
    let a = policy.automatic in
    let h = policy.hard in
    let c = r.resources in
    let vs = resource_check vcpu_label v c.vcpu a.vcpu h.vcpu in
    let ms = resource_check memory_label m c.memory_gb a.memory_gb h.memory_gb in
    let ds = resource_check disk_label d c.disk_gb a.disk_gb h.disk_gb in
    let rest = disks policy (resize_disks r) sizes in
    let others = map disk_field (resize_disks r) in
    let fv : Field = record { min = c.vcpu; max = h.vcpu } in
    let fm : Field = record { min = c.memory_gb; max = h.memory_gb } in
    let fd : Field = record { min = c.disk_gb; max = h.disk_gb } in
    also-AreWithin vs (also ms (also ds rest)) fv (fm ∷ fd ∷ others) v (m ∷ d ∷ sizes)
      (resource_check-errors vcpu_label v c.vcpu a.vcpu h.vcpu)
      (also-AreWithin ms (also ds rest) fm (fd ∷ others) m (d ∷ sizes)
        (resource_check-errors memory_label m c.memory_gb a.memory_gb h.memory_gb)
        (also-AreWithin ds rest fd others d sizes
          (resource_check-errors disk_label d c.disk_gb a.disk_gb h.disk_gb)
          (disks-errors policy (resize_disks r) sizes)))
