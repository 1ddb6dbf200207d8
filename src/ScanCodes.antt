-- ===== src/ScanCodes.antt =====
-- portal/static/spice-html5/utils.js: from the key codes of browsers to the scan codes of an AT
-- keyboard. The tables are association lists; no key code stands twice in one.
-- The entry of the key code 44 names KEY_SysReqest, which atKeynames.js does not have: the source
-- stores undefined there, as for a key code with no entry.
pub mod Break
mod Tests
use Prim.Native.Nat.{bit_or}
use vm_automation_deployment.Common.{
  ℕ, ◌*◌, ◌^◌, Bool, List, [], ◌∷◌, Option, none, some, ltb, ◌==◌, if◌then◌else◌,
}
use vm_automation_deployment.KeyNames.{
  key_0, key_1, key_2, key_3, key_4, key_5, key_6, key_7, key_8, key_9, key_a, key_alt, key_b,
  key_b_slash, key_back_space, key_c, key_caps_lock, key_comma, key_d, key_e, key_enter, key_equal,
  key_escape, key_f, key_f1, key_f10, key_f11, key_f12, key_f2, key_f3, key_f4, key_f5, key_f6,
  key_f7, key_f8, key_f9, key_g, key_h, key_i, key_j, key_k, key_kp_0, key_kp_1, key_kp_2, key_kp_3,
  key_kp_4, key_kp_5, key_kp_6, key_kp_7, key_kp_8, key_kp_9, key_kp_decimal, key_kp_multiply,
  key_kp_plus, key_l, key_l_brace, key_l_ctrl, key_m, key_minus, key_n, key_num_lock, key_o, key_p,
  key_period, key_q, key_quote, key_r, key_r_brace, key_s, key_scroll_lock, key_semi_colon,
  key_shift_l, key_slash, key_space, key_t, key_tab, key_tilde, key_u, key_v, key_w, key_x, key_y,
  key_z,
}

-- A key that was grey on the AT keyboard, behind its prefix 0xE0.
abbrev pub grey : ℕ → ℕ
grey code = bit_or 0xe0 (code * 2 ^ 8)

abbrev pub common_scanmap : List (ℕ × ℕ)
common_scanmap =
    (b'1', key_1)
    ∷ (b'2', key_2)
    ∷ (b'3', key_3)
    ∷ (b'4', key_4)
    ∷ (b'5', key_5)
    ∷ (b'6', key_6)
    ∷ (b'7', key_7)
    ∷ (b'8', key_8)
    ∷ (b'9', key_9)
    ∷ (b'0', key_0)
    ∷ (145, key_scroll_lock)
    ∷ (103, key_kp_7)
    ∷ (104, key_kp_8)
    ∷ (105, key_kp_9)
    ∷ (100, key_kp_4)
    ∷ (101, key_kp_5)
    ∷ (102, key_kp_6)
    ∷ (107, key_kp_plus)
    ∷ (97, key_kp_1)
    ∷ (98, key_kp_2)
    ∷ (99, key_kp_3)
    ∷ (96, key_kp_0)
    ∷ (109, key_minus)
    ∷ (110, key_kp_decimal)
    ∷ (191, key_slash)
    ∷ (190, key_period)
    ∷ (188, key_comma)
    ∷ (220, key_b_slash)
    ∷ (192, key_tilde)
    ∷ (222, key_quote)
    ∷ (219, key_l_brace)
    ∷ (221, key_r_brace)
    ∷ (b'Q', key_q)
    ∷ (b'W', key_w)
    ∷ (b'E', key_e)
    ∷ (b'R', key_r)
    ∷ (b'T', key_t)
    ∷ (b'Y', key_y)
    ∷ (b'U', key_u)
    ∷ (b'I', key_i)
    ∷ (b'O', key_o)
    ∷ (b'P', key_p)
    ∷ (b'A', key_a)
    ∷ (b'S', key_s)
    ∷ (b'D', key_d)
    ∷ (b'F', key_f)
    ∷ (b'G', key_g)
    ∷ (b'H', key_h)
    ∷ (b'J', key_j)
    ∷ (b'K', key_k)
    ∷ (b'L', key_l)
    ∷ (b'Z', key_z)
    ∷ (b'X', key_x)
    ∷ (b'C', key_c)
    ∷ (b'V', key_v)
    ∷ (b'B', key_b)
    ∷ (b'N', key_n)
    ∷ (b'M', key_m)
    ∷ (b' ', key_space)
    ∷ (13, key_enter)
    ∷ (27, key_escape)
    ∷ (8, key_back_space)
    ∷ (9, key_tab)
    ∷ (16, key_shift_l)
    ∷ (17, key_l_ctrl)
    ∷ (18, key_alt)
    ∷ (20, key_caps_lock)
    ∷ (144, key_num_lock)
    ∷ (112, key_f1)
    ∷ (113, key_f2)
    ∷ (114, key_f3)
    ∷ (115, key_f4)
    ∷ (116, key_f5)
    ∷ (117, key_f6)
    ∷ (118, key_f7)
    ∷ (119, key_f8)
    ∷ (120, key_f9)
    ∷ (121, key_f10)
    ∷ (122, key_f11)
    ∷ (123, key_f12)
    ∷ (42, 99)
    ∷ (19, 101)
    ∷ (111, grey key_slash)
    ∷ (106, grey key_kp_multiply)
    ∷ (36, grey key_kp_7)
    ∷ (38, grey key_kp_8)
    ∷ (33, grey key_kp_9)
    ∷ (37, grey key_kp_4)
    ∷ (39, grey key_kp_6)
    ∷ (35, grey key_kp_1)
    ∷ (40, grey key_kp_2)
    ∷ (34, grey key_kp_3)
    ∷ (45, grey key_kp_0)
    ∷ (46, grey key_kp_decimal)
    ∷ (91, grey 0x5b)
    ∷ (92, grey 0x5c)
    ∷ (93, grey 0x5d)
    ∷ []

abbrev pub firefox_scanmap : List (ℕ × ℕ)
firefox_scanmap = (173, key_minus) ∷ (61, key_equal) ∷ (59, key_semi_colon) ∷ []

abbrev pub dom_scanmap : List (ℕ × ℕ)
dom_scanmap = (189, key_minus) ∷ (187, key_equal) ∷ (186, key_semi_colon) ∷ []

-- `map[code]`
unfoldable pub entry : ℕ → List (ℕ × ℕ) → Option ℕ
entry code [] = none
entry code ((k, scan) ∷ map) = if k == code then some scan else entry code map

-- `firefox` says whether the user agent names Firefox.
unfoldable pub get_scancode : Bool → ℕ → Option ℕ
get_scancode firefox code = elim (entry code common_scanmap) [
  | none ↦ if firefox then entry code firefox_scanmap else entry code dom_scanmap
  | some scan ↦ some scan
]

unfoldable pub keycode_to_start_scan : Bool → ℕ → ℕ
keycode_to_start_scan firefox code = elim (get_scancode firefox code) [
  | none ↦ 0
  | some scan ↦ scan
]

unfoldable pub keycode_to_end_scan : Bool → ℕ → ℕ
keycode_to_end_scan firefox code = elim (get_scancode firefox code) [
  | none ↦ 0
  | some scan ↦ if ltb scan 0x100 then bit_or scan 0x80 else bit_or scan 0x8000
]
