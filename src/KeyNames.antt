-- ===== src/KeyNames.antt =====
-- The scan codes of portal/static/spice-html5/atKeynames.js that the modelled code uses.
use vm_automation_deployment.Common.{ℕ}

abbrev pub key_escape : ℕ
key_escape = 1

abbrev pub key_1 : ℕ
key_1 = 2

abbrev pub key_2 : ℕ
key_2 = 3

abbrev pub key_3 : ℕ
key_3 = 4

abbrev pub key_4 : ℕ
key_4 = 5

abbrev pub key_5 : ℕ
key_5 = 6

abbrev pub key_6 : ℕ
key_6 = 7

abbrev pub key_7 : ℕ
key_7 = 8

abbrev pub key_8 : ℕ
key_8 = 9

abbrev pub key_9 : ℕ
key_9 = 10

abbrev pub key_0 : ℕ
key_0 = 11

abbrev pub key_minus : ℕ
key_minus = 12

abbrev pub key_equal : ℕ
key_equal = 13

abbrev pub key_back_space : ℕ
key_back_space = 14

abbrev pub key_tab : ℕ
key_tab = 15

abbrev pub key_q : ℕ
key_q = 16

abbrev pub key_w : ℕ
key_w = 17

abbrev pub key_e : ℕ
key_e = 18

abbrev pub key_r : ℕ
key_r = 19

abbrev pub key_t : ℕ
key_t = 20

abbrev pub key_y : ℕ
key_y = 21

abbrev pub key_u : ℕ
key_u = 22

abbrev pub key_i : ℕ
key_i = 23

abbrev pub key_o : ℕ
key_o = 24

abbrev pub key_p : ℕ
key_p = 25

abbrev pub key_l_brace : ℕ
key_l_brace = 26

abbrev pub key_r_brace : ℕ
key_r_brace = 27

abbrev pub key_enter : ℕ
key_enter = 28

abbrev pub key_l_ctrl : ℕ
key_l_ctrl = 29

abbrev pub key_a : ℕ
key_a = 30

abbrev pub key_s : ℕ
key_s = 31

abbrev pub key_d : ℕ
key_d = 32

abbrev pub key_f : ℕ
key_f = 33

abbrev pub key_g : ℕ
key_g = 34

abbrev pub key_h : ℕ
key_h = 35

abbrev pub key_j : ℕ
key_j = 36

abbrev pub key_k : ℕ
key_k = 37

abbrev pub key_l : ℕ
key_l = 38

abbrev pub key_semi_colon : ℕ
key_semi_colon = 39

abbrev pub key_quote : ℕ
key_quote = 40

abbrev pub key_tilde : ℕ
key_tilde = 41

abbrev pub key_shift_l : ℕ
key_shift_l = 42

abbrev pub key_b_slash : ℕ
key_b_slash = 43

abbrev pub key_z : ℕ
key_z = 44

abbrev pub key_x : ℕ
key_x = 45

abbrev pub key_c : ℕ
key_c = 46

abbrev pub key_v : ℕ
key_v = 47

abbrev pub key_b : ℕ
key_b = 48

abbrev pub key_n : ℕ
key_n = 49

abbrev pub key_m : ℕ
key_m = 50

abbrev pub key_comma : ℕ
key_comma = 51

abbrev pub key_period : ℕ
key_period = 52

abbrev pub key_slash : ℕ
key_slash = 53

abbrev pub key_kp_multiply : ℕ
key_kp_multiply = 55

abbrev pub key_alt : ℕ
key_alt = 56

abbrev pub key_space : ℕ
key_space = 57

abbrev pub key_caps_lock : ℕ
key_caps_lock = 58

abbrev pub key_f1 : ℕ
key_f1 = 59

abbrev pub key_f2 : ℕ
key_f2 = 60

abbrev pub key_f3 : ℕ
key_f3 = 61

abbrev pub key_f4 : ℕ
key_f4 = 62

abbrev pub key_f5 : ℕ
key_f5 = 63

abbrev pub key_f6 : ℕ
key_f6 = 64

abbrev pub key_f7 : ℕ
key_f7 = 65

abbrev pub key_f8 : ℕ
key_f8 = 66

abbrev pub key_f9 : ℕ
key_f9 = 67

abbrev pub key_f10 : ℕ
key_f10 = 68

abbrev pub key_num_lock : ℕ
key_num_lock = 69

abbrev pub key_scroll_lock : ℕ
key_scroll_lock = 70

abbrev pub key_kp_7 : ℕ
key_kp_7 = 71

abbrev pub key_kp_8 : ℕ
key_kp_8 = 72

abbrev pub key_kp_9 : ℕ
key_kp_9 = 73

abbrev pub key_kp_4 : ℕ
key_kp_4 = 75

abbrev pub key_kp_5 : ℕ
key_kp_5 = 76

abbrev pub key_kp_6 : ℕ
key_kp_6 = 77

abbrev pub key_kp_plus : ℕ
key_kp_plus = 78

abbrev pub key_kp_1 : ℕ
key_kp_1 = 79

abbrev pub key_kp_2 : ℕ
key_kp_2 = 80

abbrev pub key_kp_3 : ℕ
key_kp_3 = 81

abbrev pub key_kp_0 : ℕ
key_kp_0 = 82

abbrev pub key_kp_decimal : ℕ
key_kp_decimal = 83

abbrev pub key_f11 : ℕ
key_f11 = 87

abbrev pub key_f12 : ℕ
key_f12 = 88
