-- ===== src/ScanCodes/Tests.antt =====
-- The codes of two keys.
use vm_automation_deployment.Common.{◌+◌, ◌≡◌, ◌≢◌, refl, false}
use vm_automation_deployment.ScanCodes.{
  entry, get_scancode, keycode_to_start_scan, keycode_to_end_scan,
}
use vm_automation_deployment.ScanCodes.Break.{end_scan-start_scan}

-- The key Home has a code of two bytes.
end_scan-start_scan_example :
    (keycode_to_start_scan false 36 ≡ 0x47e0)
    × (keycode_to_end_scan false 36 ≡ keycode_to_start_scan false 36 + 0x8000)
    × (keycode_to_end_scan false 36 ≢ keycode_to_start_scan false 36)
end_scan-start_scan_example =
    end_scan-start_scan false 36 0x47e0 (unfold get_scancode entry in refl)

-- The key code 44 has no scan code: the press is sent as 0.
system_request : keycode_to_start_scan false 44 ≡ 0
unfolding keycode_to_start_scan get_scancode entry
system_request = refl
