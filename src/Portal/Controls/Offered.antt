-- ===== src/Portal/Controls/Offered.antt =====
-- The buttons of the page against the guards of the server.
use text.Mathlib.Text.{◌==◌ as str_eq}
use text.Mathlib.TextPositions.{eq_refl}
use vm_automation_deployment.Common.{
  ◌≡◌, refl, Bool, true, false, ◌&&◌, ◌||◌, List, [], ◌∷◌, ◌++◌, Bool-cases, inl, inr, arith,
}
use vm_automation_deployment.Portal.Approval.{when}
use vm_automation_deployment.Portal.Controls.{
  RequestStatus, completed, failed, other_status, Snapshot, SnapshotStatus, Request, Control,
  open_console, netbox_retry, delete_vm, delete_failed_request, operation, is_available, is_active,
  is_expired, is_open, filter_status, manual_controls, resize_controls, each, machine_controls,
  status_controls, accepted, find_snapshot, found, has_id, answer_action, answer,
}

abbrev pub All {ℓ κ} : {A : Type ℓ} → (A → Type κ) → List A → Type κ
All P [] = Unit
All P (x ∷ xs) = P x × All P xs

All-append {ℓ κ} :
    {A : Type ℓ} (P : A → Type κ) (xs ys : List A) → All P xs → All P ys → All P (xs ++ ys)
All-append P [] ys h k = k
All-append P (x ∷ xs) ys (h, hs) k = (h, All-append P xs ys hs k)

All-map {ℓ κ} :
    {A : Type ℓ} (P Q : A → Type κ) (xs : List A) → ((x : A) → P x → Q x) → All P xs → All Q xs
All-map P Q [] f h = tt
All-map P Q (x ∷ xs) f (h, hs) = (f x h, All-map P Q xs f hs)

All-when {ℓ κ} :
    {A : Type ℓ} (P : A → Type κ) (b : Bool) (x : A) → (b ≡ true → P x) → All P (when b x)
All-when P true x h = (h refl, tt)
All-when P false x h = tt

All-each {κ} :
    (P : Control → Type κ) (f : Snapshot → List Control) (ss : List Snapshot)
    → All (λ s. All P (f s)) ss
    → All P (each f ss)
All-each P f [] h = tt
All-each P f (s ∷ ss) (h, hs) = All-append P (f s) (each f ss) h (All-each P f ss hs)

All-filter {κ} :
    (P : Snapshot → Type κ) (p : SnapshotStatus → Bool) (ss : List Snapshot)
    → All P ss
    → All P (filter_status p ss)
All-filter P p [] h = tt
All-filter P p (s ∷ ss) (h, hs) = elim (Bool-cases (p s.status)) [
  | inl e ↦ rw e (h, All-filter P p ss hs)
  | inr e ↦ rw e (All-filter P p ss hs)
]

-- A snapshot with the status is found by its id and status.
abbrev IsFound : (SnapshotStatus → Bool) → List Snapshot → Snapshot → Type 0
IsFound p ss s =
    p s.status ≡ true
    → found (find_snapshot (λ t. has_id s.id t && p t.status) ss) (λ t. true) ≡ true

found-cons :
    (q : Snapshot → Bool) (t : Snapshot) (ss : List Snapshot)
    → found (find_snapshot q ss) (λ s. true) ≡ true
    → found (find_snapshot q (t ∷ ss)) (λ s. true) ≡ true
found-cons q t ss h = elim (Bool-cases (q t)) [ inl e ↦ rw e refl | inr e ↦ rw e h ]

All-IsFound : (p : SnapshotStatus → Bool) (ss : List Snapshot) → All (IsFound p ss) ss
All-IsFound p [] = tt
All-IsFound p (s ∷ ss) = (
  λ e. rw (eq_refl s.id, e) refl,
  All-map (IsFound p ss) (IsFound p (s ∷ ss)) ss
      (λ t h e. found-cons (λ u. has_id t.id u && p u.status) s ss (h e)) (All-IsFound p ss),
)

-- No two snapshots of a list have one id.
abbrev pub Distinct : List Snapshot → Type 0
Distinct [] = Unit
Distinct (s ∷ ss) = All (λ t. str_eq s.id t.id ≡ false) ss × Distinct ss

-- Where ids are distinct, an active snapshot is found by its id.
abbrev IsNamed : List Snapshot → Snapshot → Type 0
IsNamed ss s =
    is_active s.status ≡ true
    → found (find_snapshot (has_id s.id) ss) (λ t. is_active t.status) ≡ true

All-IsNamed_cons :
    (s : Snapshot) (us ss : List Snapshot)
    → All (λ t. str_eq s.id t.id ≡ false) us
    → All (IsNamed ss) us
    → All (IsNamed (s ∷ ss)) us
All-IsNamed_cons s [] ss d h = tt
All-IsNamed_cons s (u ∷ us) ss (d, ds) (h, hs) = (λ e. rw d (h e), All-IsNamed_cons s us ss ds hs)

All-IsNamed : (ss : List Snapshot) → Distinct ss → All (IsNamed ss) ss
All-IsNamed [] d = tt
All-IsNamed (s ∷ ss) (d, ds) =
    (λ e. rw (eq_refl s.id) e, All-IsNamed_cons s ss ss d (All-IsNamed ss ds))

-- What a button's post is answered; the buttons that are no posts of an action are left out.
abbrev pub Passes : Bool → Bool → Request → Control → Type 0
Passes is_admin owner r open_console = Unit
Passes is_admin owner r netbox_retry = Unit
Passes is_admin owner r delete_vm = Unit
Passes is_admin owner r delete_failed_request = Unit
Passes is_admin owner r (operation a) = answer is_admin owner true true r a ≡ accepted

-- The guards of an action hold.
abbrev Allows : Bool → Request → Control → Type 0
Allows is_admin r open_console = Unit
Allows is_admin r netbox_retry = Unit
Allows is_admin r delete_vm = Unit
Allows is_admin r delete_failed_request = Unit
Allows is_admin r (operation a) = answer_action is_admin r a ≡ accepted

Allows-Passes :
    (is_admin owner : Bool) (r : Request) (c : Control)
    → (is_admin || owner) ≡ true
    → r.status ≡ completed
    → Allows is_admin r c
    → Passes is_admin owner r c
unfolding answer
Allows-Passes is_admin owner r open_console h k p = tt
Allows-Passes is_admin owner r netbox_retry h k p = tt
Allows-Passes is_admin owner r delete_vm h k p = tt
Allows-Passes is_admin owner r delete_failed_request h k p = tt
Allows-Passes is_admin owner r (operation a) h k p = rw (h, k) p

machine_controls-Allows :
    (is_admin : Bool) (r : Request) → All (Allows is_admin r) (machine_controls r)
unfolding machine_controls answer_action
machine_controls-Allows is_admin r = ground arith

resize_controls-Allows :
    (is_admin : Bool) (r : Request) (s : Snapshot)
    → IsFound is_expired r.resize_snapshots s × IsNamed r.resize_snapshots s
    → All (Allows is_admin r) (resize_controls is_admin r.vm_state s)
unfolding resize_controls answer_action
resize_controls-Allows is_admin r s (h, k) = ground arith

manual_controls-Allows :
    (is_admin : Bool) (r : Request) (s : Snapshot)
    → IsFound is_available r.manual_snapshots s × (is_available s.status ≡ true)
    → All (Allows is_admin r) (manual_controls r.vm_state s)
unfolding manual_controls answer_action
manual_controls-Allows is_admin r s (h, k) = ground arith

All-join {ℓ κ μ} :
    {A : Type ℓ} (P : A → Type κ) (Q : A → Type μ) (xs : List A)
    → All P xs
    → All Q xs
    → All (λ x. P x × Q x) xs
All-join P Q [] h k = tt
All-join P Q (x ∷ xs) (h, hs) (k, ks) = ((h, k), All-join P Q xs hs ks)

-- Those that are kept have the status.
filter_status-All :
    (p : SnapshotStatus → Bool) (ss : List Snapshot)
    → All (λ s. p s.status ≡ true) (filter_status p ss)
filter_status-All p [] = tt
filter_status-All p (s ∷ ss) = elim (Bool-cases (p s.status)) [
  | inl e ↦ rw e (e, filter_status-All p ss)
  | inr e ↦ rw e (filter_status-All p ss)
]

status_controls-Allows :
    (status : RequestStatus) (is_admin : Bool) (r : Request)
    → Distinct r.resize_snapshots
    → All (Allows is_admin r) (status_controls status is_admin r)
unfolding status_controls
status_controls-Allows failed is_admin r d = (tt, tt)
status_controls-Allows other_status is_admin r d = tt
status_controls-Allows completed is_admin r d =
    let P = Allows is_admin r in
    let resized =
      All-join (IsFound is_expired r.resize_snapshots) (IsNamed r.resize_snapshots) _
        (All-IsFound is_expired r.resize_snapshots) (All-IsNamed r.resize_snapshots d) in
    let manual =
      All-join (IsFound is_available r.manual_snapshots) (λ s. is_available s.status ≡ true)
        (filter_status is_available r.manual_snapshots)
        (All-filter (IsFound is_available r.manual_snapshots) is_available r.manual_snapshots
          (All-IsFound is_available r.manual_snapshots))
        (filter_status-All is_available r.manual_snapshots) in
    All-append P (machine_controls r) _ (machine_controls-Allows is_admin r) (
      All-append P
        (each (manual_controls r.vm_state) (filter_status is_available r.manual_snapshots)) _
        (All-each P (manual_controls r.vm_state) (filter_status is_available r.manual_snapshots)
          (All-map _ _ _ (manual_controls-Allows is_admin r) manual))
        (All-each P (resize_controls is_admin r.vm_state) (filter_status is_open r.resize_snapshots)
          (All-map _ _ _ (resize_controls-Allows is_admin r)
            (All-filter _ is_open r.resize_snapshots resized))))

pub status_controls-Passes :
    (status : RequestStatus) (is_admin owner : Bool) (r : Request)
    → (is_admin || owner) ≡ true
    → r.status ≡ status
    → Distinct r.resize_snapshots
    → All (Passes is_admin owner r) (status_controls status is_admin r)
status_controls-Passes failed is_admin owner r h k d = unfold status_controls in (tt, tt)
status_controls-Passes other_status is_admin owner r h k d = unfold status_controls in tt
status_controls-Passes completed is_admin owner r h k d =
    All-map (Allows is_admin r) _ _ (λ c. Allows-Passes is_admin owner r c h k)
      (status_controls-Allows completed is_admin r d)
