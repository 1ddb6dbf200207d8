-- ===== src/Portal/Resize/Form.antt =====
-- The form for a resize against the server's answer to it.
use vm_automation_deployment.Common.{ℕ, ◌≡◌, true, ◌↔◌, List, [], ◌∷◌}
use vm_automation_deployment.Portal.{Policy}
use vm_automation_deployment.Portal.Controls.{completed}
use vm_automation_deployment.Portal.Resize.{
  Machine, resize_form, resize_payload, resize_checks, validate_resize,
}
use vm_automation_deployment.Portal.Resize.Limits.{
  AreWithin, IsAccepted, resize_checks-errors, unless_errors-IsAccepted,
}
use vm_automation_deployment.Portal.Resize.SelfService.{self_service_fields, resize_checks-reasons}

-- Whatever the values, the server takes the payload just when they are within the limits of the
-- form's fields, one for each; and then it wants no approval just when each value is at most the
-- current one or the self-service limit.
pub resize_form-validate_resize :
    (policy : Policy) (r : Machine) (v m d : ℕ) (sizes : List ℕ)
    → (AreWithin (resize_form true completed policy r) (v ∷ m ∷ d ∷ sizes)
        ↔ IsAccepted (validate_resize policy (resize_payload v m d sizes) r))
      × (AreWithin (resize_form true completed policy r) (v ∷ m ∷ d ∷ sizes)
          → ((resize_checks policy (resize_payload v m d sizes) r).1 ≡ []
              ↔ AreWithin (self_service_fields policy r) (v ∷ m ∷ d ∷ sizes)))
unfolding validate_resize resize_form
resize_form-validate_resize policy r v m d sizes =
    let p = resize_payload v m d sizes in
    let errors = resize_checks-errors policy r v m d sizes in
    let taken = unless_errors-IsAccepted p (resize_checks policy p r) in
    (
      (λ w. taken.0 (errors.1 w), λ k. errors.0 (taken.1 k)),
      resize_checks-reasons policy r v m d sizes,
    )
