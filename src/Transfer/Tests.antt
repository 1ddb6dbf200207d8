-- ===== src/Transfer/Tests.antt =====
-- main.js: a small transfer, and the witnesses.
use vm_automation_deployment.Common.{ℕ, refl, [], ◌∷◌}
use vm_automation_deployment.Common.Int.{pos}
use vm_automation_deployment.Wire.{Bytes}
use vm_automation_deployment.Agent.Queue.{linked}
use vm_automation_deployment.Transfer.{handle_file_xfer_status}
use vm_automation_deployment.Transfer.Slices.{Around, InProgress, task, with_one}
use vm_automation_deployment.Transfer.Progress.{loaded, given, run, transfer-InProgress}

abbrev around : Around
around = record { agent = linked 1 [] []; next_id = 4; messages = [] }

abbrev file : Bytes
file = 10 ∷ 20 ∷ 30 ∷ []

transfer-InProgress_example :
    (sb : ℕ) × InProgress 3 file sb (
      run
        (loaded ∷ given (pos 2) ∷ loaded ∷ [])
        (handle_file_xfer_status 3 (pos 0) (with_one around (task 3 file 0) [] [])))
transfer-InProgress_example =
    transfer-InProgress (loaded ∷ given (pos 2) ∷ loaded ∷ []) 3 file around refl
