-- ===== src/Portal/Resize/SelfService.antt =====
-- The reasons for which a resize wants approval, against the limits of the self-service.
use vm_automation_deployment.Common.{ℕ, ◌≤◌, ◌≡◌, refl, ◌↔◌, List, [], ◌∷◌, ◌++◌, map, arith}
use vm_automation_deployment.Portal.{Disk, Policy}
use vm_automation_deployment.Portal.Resize.{
  Machine, Field, resize_disks, disk_field, fields, resize_payload, Label, ResizeError,
  ApprovalReason, larger, resource_check, disk_check, also, disk_checks, request_data_disks,
  resize_checks, vcpu_label, memory_label, disk_label,
}
use vm_automation_deployment.Portal.Resize.Limits.{AreWithin, disks, disk_checks-errors}

-- The fields whose largest values want no approval: the current size, or the self-service limit.
abbrev pub field_within : ℕ → ℕ → Field
field_within current automatic = record { min = current; max = larger current automatic }

abbrev pub self_service_disk : Policy → Disk → Field
self_service_disk policy d = field_within d.size_gb policy.automatic.disk_gb

abbrev pub self_service_fields : Policy → Machine → List Field
self_service_fields policy r =
    field_within r.resources.vcpu policy.automatic.vcpu
    ∷ field_within r.resources.memory_gb policy.automatic.memory_gb
    ∷ field_within r.resources.disk_gb policy.automatic.disk_gb
    ∷ map (self_service_disk policy) (resize_disks r)

resource_check-reasons :
    (label : Label) (v current automatic hard : ℕ)
    → current ≤ v
    → v ≤ hard
    → (resource_check label v current automatic hard).1 ≡ [] ↔ v ≤ larger current automatic
resource_check-reasons label v current automatic hard h k = ground arith

disk_check-reasons :
    (policy : Policy) (d : Disk) (v : ℕ)
    → d.size_gb ≤ v
    → v ≤ 8000
    → (disk_check policy d v).1 ≡ [] ↔ v ≤ larger d.size_gb policy.automatic.disk_gb
disk_check-reasons policy d v h k = ground arith

append_reasons-empty : (xs ys : List ApprovalReason) → (xs ++ ys) ≡ [] ↔ (xs ≡ []) × (ys ≡ [])
append_reasons-empty [] ys = (λ h. (refl, h), λ h. h.1)
append_reasons-empty (x ∷ xs) ys = ground arith

-- The reasons of one field in front of those of others.
also_reasons-AreWithin :
    (c rest : List ResizeError × List ApprovalReason) (f : Field) (fs : List Field) (v : ℕ)
    (vs : List ℕ)
    → f.min ≤ v
    → (c.1 ≡ [] ↔ v ≤ f.max)
    → (rest.1 ≡ [] ↔ AreWithin fs vs)
    → (also c rest).1 ≡ [] ↔ AreWithin (f ∷ fs) (v ∷ vs)
also_reasons-AreWithin (es, rs) (fs, ss) f fields v vs low here others =
    let both = append_reasons-empty rs ss in
    (
      λ h. let (e, more) = both.0 h in (low, here.0 e, others.0 more),
      λ h. let (low2, high, more) = h in both.1 (here.1 high, others.1 more),
    )

disk_checks-reasons :
    (policy : Policy) (ds : List Disk) (vs : List ℕ)
    → AreWithin (map disk_field ds) vs
    → (disk_checks policy ds vs).1 ≡ [] ↔ AreWithin (map (self_service_disk policy) ds) vs
disk_checks-reasons policy [] [] h = (λ h. tt, λ h. refl)
disk_checks-reasons policy [] (v ∷ vs) h = elim h [ ]
disk_checks-reasons policy (d ∷ ds) [] h = elim h [ ]
disk_checks-reasons policy (d ∷ ds) (v ∷ vs) (low, high, more) =
    also_reasons-AreWithin (disk_check policy d v) (disk_checks policy ds vs)
      (self_service_disk policy d) (map (self_service_disk policy) ds) v vs low
      (disk_check-reasons policy d v low high) (disk_checks-reasons policy ds vs more)

disks-reasons :
    (policy : Policy) (ds : List Disk) (vs : List ℕ)
    → AreWithin (map disk_field ds) vs
    → (disks policy ds vs).1 ≡ [] ↔ AreWithin (map (self_service_disk policy) ds) vs
unfolding disks
disks-reasons policy ds vs h =
    let lengths = ((disk_checks-errors policy ds vs).1 h).0 in
    ground (arith, disk_checks-reasons policy ds vs h)

pub resize_checks-reasons :
    (policy : Policy) (r : Machine) (v m d : ℕ) (sizes : List ℕ)
    → AreWithin (fields policy r) (v ∷ m ∷ d ∷ sizes)
    → (resize_checks policy (resize_payload v m d sizes) r).1 ≡ []
      ↔ AreWithin (self_service_fields policy r) (v ∷ m ∷ d ∷ sizes)
unfolding resize_checks request_data_disks disks
resize_checks-reasons policy r v m d sizes w =
    let (vlow, vhigh, wm) = w in
    let (mlow, mhigh, wd) = wm in
    let (dlow, dhigh, wsizes) = wd in
    let a = policy.automatic in
    let h = policy.hard in
    let c = r.resources in
    let vs = resource_check vcpu_label v c.vcpu a.vcpu h.vcpu in
    let ms = resource_check memory_label m c.memory_gb a.memory_gb h.memory_gb in
    let ds = resource_check disk_label d c.disk_gb a.disk_gb h.disk_gb in
    let rest = disks policy (resize_disks r) sizes in
    let others = map (self_service_disk policy) (resize_disks r) in
    let fv = field_within c.vcpu a.vcpu in
    let fm = field_within c.memory_gb a.memory_gb in
    let fd = field_within c.disk_gb a.disk_gb in
    also_reasons-AreWithin vs (also ms (also ds rest)) fv (fm ∷ fd ∷ others) v (m ∷ d ∷ sizes) vlow
      (resource_check-reasons vcpu_label v c.vcpu a.vcpu h.vcpu vlow vhigh)
      (also_reasons-AreWithin ms (also ds rest) fm (fd ∷ others) m (d ∷ sizes) mlow
        (resource_check-reasons memory_label m c.memory_gb a.memory_gb h.memory_gb mlow mhigh)
        (also_reasons-AreWithin ds rest fd others d sizes dlow
          (resource_check-reasons disk_label d c.disk_gb a.disk_gb h.disk_gb dlow dhigh)
          (disks-reasons policy (resize_disks r) sizes wsizes)))
