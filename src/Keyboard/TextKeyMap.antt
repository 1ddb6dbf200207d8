-- ===== src/Keyboard/TextKeyMap.antt =====
-- portal/static/spice-html5/inputs.js: TEXT_KEY_MAP, by the characters' codes: the key, and whether
-- it wants the shift key.
use vm_automation_deployment.Common.{ℕ, Bool, true, false, List, [], ◌∷◌}
use vm_automation_deployment.KeyNames.{
  key_0, key_1, key_2, key_3, key_4, key_5, key_6, key_7, key_8, key_9, key_a, key_b, key_b_slash,
  key_c, key_comma, key_d, key_e, key_enter, key_equal, key_f, key_g, key_h, key_i, key_j, key_k,
  key_l, key_l_brace, key_m, key_minus, key_n, key_o, key_p, key_period, key_q, key_quote, key_r,
  key_r_brace, key_s, key_semi_colon, key_slash, key_space, key_t, key_tab, key_tilde, key_u, key_v,
  key_w, key_x, key_y, key_z,
}

abbrev pub text_key_map : List (ℕ × (ℕ × Bool))
text_key_map =
    (49, (key_1, false))
    ∷ (33, (key_1, true))
    ∷ (50, (key_2, false))
    ∷ (64, (key_2, true))
    ∷ (51, (key_3, false))
    ∷ (35, (key_3, true))
    ∷ (52, (key_4, false))
    ∷ (36, (key_4, true))
    ∷ (53, (key_5, false))
    ∷ (37, (key_5, true))
    ∷ (54, (key_6, false))
    ∷ (94, (key_6, true))
    ∷ (55, (key_7, false))
    ∷ (38, (key_7, true))
    ∷ (56, (key_8, false))
    ∷ (42, (key_8, true))
    ∷ (57, (key_9, false))
    ∷ (40, (key_9, true))
    ∷ (48, (key_0, false))
    ∷ (41, (key_0, true))
    ∷ (45, (key_minus, false))
    ∷ (95, (key_minus, true))
    ∷ (61, (key_equal, false))
    ∷ (43, (key_equal, true))
    ∷ (91, (key_l_brace, false))
    ∷ (123, (key_l_brace, true))
    ∷ (93, (key_r_brace, false))
    ∷ (125, (key_r_brace, true))
    ∷ (59, (key_semi_colon, false))
    ∷ (58, (key_semi_colon, true))
    ∷ (39, (key_quote, false))
    ∷ (34, (key_quote, true))
    ∷ (96, (key_tilde, false))
    ∷ (126, (key_tilde, true))
    ∷ (92, (key_b_slash, false))
    ∷ (124, (key_b_slash, true))
    ∷ (44, (key_comma, false))
    ∷ (60, (key_comma, true))
    ∷ (46, (key_period, false))
    ∷ (62, (key_period, true))
    ∷ (47, (key_slash, false))
    ∷ (63, (key_slash, true))
    ∷ (32, (key_space, false))
    ∷ (9, (key_tab, false))
    ∷ (10, (key_enter, false))
    ∷ (97, (key_a, false))
    ∷ (65, (key_a, true))
    ∷ (98, (key_b, false))
    ∷ (66, (key_b, true))
    ∷ (99, (key_c, false))
    ∷ (67, (key_c, true))
    ∷ (100, (key_d, false))
    ∷ (68, (key_d, true))
    ∷ (101, (key_e, false))
    ∷ (69, (key_e, true))
    ∷ (102, (key_f, false))
    ∷ (70, (key_f, true))
    ∷ (103, (key_g, false))
    ∷ (71, (key_g, true))
    ∷ (104, (key_h, false))
    ∷ (72, (key_h, true))
    ∷ (105, (key_i, false))
    ∷ (73, (key_i, true))
    ∷ (106, (key_j, false))
    ∷ (74, (key_j, true))
    ∷ (107, (key_k, false))
    ∷ (75, (key_k, true))
    ∷ (108, (key_l, false))
    ∷ (76, (key_l, true))
    ∷ (109, (key_m, false))
    ∷ (77, (key_m, true))
    ∷ (110, (key_n, false))
    ∷ (78, (key_n, true))
    ∷ (111, (key_o, false))
    ∷ (79, (key_o, true))
    ∷ (112, (key_p, false))
    ∷ (80, (key_p, true))
    ∷ (113, (key_q, false))
    ∷ (81, (key_q, true))
    ∷ (114, (key_r, false))
    ∷ (82, (key_r, true))
    ∷ (115, (key_s, false))
    ∷ (83, (key_s, true))
    ∷ (116, (key_t, false))
    ∷ (84, (key_t, true))
    ∷ (117, (key_u, false))
    ∷ (85, (key_u, true))
    ∷ (118, (key_v, false))
    ∷ (86, (key_v, true))
    ∷ (119, (key_w, false))
    ∷ (87, (key_w, true))
    ∷ (120, (key_x, false))
    ∷ (88, (key_x, true))
    ∷ (121, (key_y, false))
    ∷ (89, (key_y, true))
    ∷ (122, (key_z, false))
    ∷ (90, (key_z, true))
    ∷ []
