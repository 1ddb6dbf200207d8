-- ===== src/Constants.antt =====
-- The constants of portal/static/spice-html5/enums.js that the modelled code uses.
use vm_automation_deployment.Common.{ℕ, List, [], ◌∷◌}

abbrev pub spice_magic : List ℕ
spice_magic = b'R' ∷ b'E' ∷ b'D' ∷ b'Q' ∷ []

abbrev pub spice_version_major : ℕ
spice_version_major = 2

abbrev pub spice_version_minor : ℕ
spice_version_minor = 2

abbrev pub spice_common_cap_auth_spice : ℕ
spice_common_cap_auth_spice = 1

abbrev pub spice_ticket_key_pair_length : ℕ
spice_ticket_key_pair_length = 1024

abbrev pub spice_link_err_ok : ℕ
spice_link_err_ok = 0

abbrev pub spice_link_err_permission_denied : ℕ
spice_link_err_permission_denied = 7

abbrev pub spice_msg_set_ack : ℕ
spice_msg_set_ack = 3

abbrev pub spice_msg_ping : ℕ
spice_msg_ping = 4

abbrev pub spice_msg_notify : ℕ
spice_msg_notify = 7

abbrev pub spice_msg_main_migrate_begin : ℕ
spice_msg_main_migrate_begin = 101

abbrev pub spice_msg_main_migrate_cancel : ℕ
spice_msg_main_migrate_cancel = 102

abbrev pub spice_msg_main_init : ℕ
spice_msg_main_init = 103

abbrev pub spice_msg_main_channels_list : ℕ
spice_msg_main_channels_list = 104

abbrev pub spice_msg_main_mouse_mode : ℕ
spice_msg_main_mouse_mode = 105

abbrev pub spice_msg_main_multi_media_time : ℕ
spice_msg_main_multi_media_time = 106

abbrev pub spice_msg_main_agent_connected : ℕ
spice_msg_main_agent_connected = 107

abbrev pub spice_msg_main_agent_disconnected : ℕ
spice_msg_main_agent_disconnected = 108

abbrev pub spice_msg_main_agent_data : ℕ
spice_msg_main_agent_data = 109

abbrev pub spice_msg_main_agent_token : ℕ
spice_msg_main_agent_token = 110

abbrev pub spice_msg_main_migrate_switch_host : ℕ
spice_msg_main_migrate_switch_host = 111

abbrev pub spice_msg_main_migrate_end : ℕ
spice_msg_main_migrate_end = 112

abbrev pub spice_msg_main_name : ℕ
spice_msg_main_name = 113

abbrev pub spice_msg_main_uuid : ℕ
spice_msg_main_uuid = 114

abbrev pub spice_msg_main_agent_connected_tokens : ℕ
spice_msg_main_agent_connected_tokens = 115

abbrev pub spice_msg_main_migrate_begin_seamless : ℕ
spice_msg_main_migrate_begin_seamless = 116

abbrev pub spice_msg_main_migrate_dst_seamless_ack : ℕ
spice_msg_main_migrate_dst_seamless_ack = 117

abbrev pub spice_msg_main_migrate_dst_seamless_nack : ℕ
spice_msg_main_migrate_dst_seamless_nack = 118

abbrev pub spice_msgc_ack_sync : ℕ
spice_msgc_ack_sync = 1

abbrev pub spice_msgc_ack : ℕ
spice_msgc_ack = 2

abbrev pub spice_msgc_pong : ℕ
spice_msgc_pong = 3

abbrev pub spice_msgc_main_attach_channels : ℕ
spice_msgc_main_attach_channels = 104

abbrev pub spice_msgc_main_mouse_mode_request : ℕ
spice_msgc_main_mouse_mode_request = 105

abbrev pub spice_msgc_main_agent_start : ℕ
spice_msgc_main_agent_start = 106

abbrev pub spice_msgc_main_agent_data : ℕ
spice_msgc_main_agent_data = 107

abbrev pub spice_msgc_display_init : ℕ
spice_msgc_display_init = 101

abbrev pub spice_msg_inputs_init : ℕ
spice_msg_inputs_init = 101

abbrev pub spice_msg_inputs_key_modifiers : ℕ
spice_msg_inputs_key_modifiers = 102

abbrev pub spice_msg_inputs_mouse_motion_ack : ℕ
spice_msg_inputs_mouse_motion_ack = 111

abbrev pub spice_msgc_inputs_key_down : ℕ
spice_msgc_inputs_key_down = 101

abbrev pub spice_msgc_inputs_key_up : ℕ
spice_msgc_inputs_key_up = 102

abbrev pub spice_msgc_inputs_mouse_motion : ℕ
spice_msgc_inputs_mouse_motion = 111

abbrev pub spice_msgc_inputs_mouse_position : ℕ
spice_msgc_inputs_mouse_position = 112

abbrev pub spice_msgc_inputs_mouse_press : ℕ
spice_msgc_inputs_mouse_press = 113

abbrev pub spice_msgc_inputs_mouse_release : ℕ
spice_msgc_inputs_mouse_release = 114

abbrev pub spice_msg_playback_data : ℕ
spice_msg_playback_data = 101

abbrev pub spice_msg_playback_mode : ℕ
spice_msg_playback_mode = 102

abbrev pub spice_msg_playback_start : ℕ
spice_msg_playback_start = 103

abbrev pub spice_msg_playback_stop : ℕ
spice_msg_playback_stop = 104

abbrev pub spice_msg_playback_volume : ℕ
spice_msg_playback_volume = 105

abbrev pub spice_msg_playback_mute : ℕ
spice_msg_playback_mute = 106

abbrev pub spice_msg_playback_latency : ℕ
spice_msg_playback_latency = 107

abbrev pub spice_audio_data_mode_opus : ℕ
spice_audio_data_mode_opus = 3

abbrev pub spice_audio_fmt_s16 : ℕ
spice_audio_fmt_s16 = 1

abbrev pub spice_channel_main : ℕ
spice_channel_main = 1

abbrev pub spice_channel_display : ℕ
spice_channel_display = 2

abbrev pub spice_channel_inputs : ℕ
spice_channel_inputs = 3

abbrev pub spice_channel_cursor : ℕ
spice_channel_cursor = 4

abbrev pub spice_channel_playback : ℕ
spice_channel_playback = 5

abbrev pub spice_channel_port : ℕ
spice_channel_port = 10

abbrev pub spice_notify_severity_warn : ℕ
spice_notify_severity_warn = 1

abbrev pub spice_notify_severity_error : ℕ
spice_notify_severity_error = 2

abbrev pub spice_mouse_mode_client : ℕ
spice_mouse_mode_client = 2

abbrev pub spice_clip_type_rects : ℕ
spice_clip_type_rects = 1

abbrev pub spice_image_type_bitmap : ℕ
spice_image_type_bitmap = 0

abbrev pub spice_image_type_quic : ℕ
spice_image_type_quic = 1

abbrev pub spice_image_type_lz_rgb : ℕ
spice_image_type_lz_rgb = 101

abbrev pub spice_image_type_surface : ℕ
spice_image_type_surface = 104

abbrev pub spice_image_type_jpeg : ℕ
spice_image_type_jpeg = 105

abbrev pub spice_image_type_jpeg_alpha : ℕ
spice_image_type_jpeg_alpha = 108

abbrev pub spice_bitmap_flags_pal_from_cache : ℕ
spice_bitmap_flags_pal_from_cache = 2

abbrev pub spice_bitmap_flags_top_down : ℕ
spice_bitmap_flags_top_down = 4

abbrev pub spice_bitmap_fmt_32bit : ℕ
spice_bitmap_fmt_32bit = 8

abbrev pub spice_bitmap_fmt_rgba : ℕ
spice_bitmap_fmt_rgba = 9

abbrev pub spice_cursor_flags_none : ℕ
spice_cursor_flags_none = 1

abbrev pub spice_mouse_button_mask_left : ℕ
spice_mouse_button_mask_left = 1

abbrev pub spice_mouse_button_left : ℕ
spice_mouse_button_left = 1

abbrev pub spice_mouse_button_up : ℕ
spice_mouse_button_up = 4

abbrev pub spice_mouse_button_down : ℕ
spice_mouse_button_down = 5

abbrev pub spice_brush_type_solid : ℕ
spice_brush_type_solid = 1

abbrev pub spice_brush_type_pattern : ℕ
spice_brush_type_pattern = 2

abbrev pub lz_image_type_rgb32 : ℕ
lz_image_type_rgb32 = 8

abbrev pub lz_image_type_rgba : ℕ
lz_image_type_rgba = 9

abbrev pub lz_image_type_xxxa : ℕ
lz_image_type_xxxa = 10

abbrev pub spice_input_motion_ack_bunch : ℕ
spice_input_motion_ack_bunch = 4

abbrev pub vd_agent_protocol : ℕ
vd_agent_protocol = 1

abbrev pub vd_agent_max_data_size : ℕ
vd_agent_max_data_size = 2048

abbrev pub vd_agent_monitors_config : ℕ
vd_agent_monitors_config = 2

abbrev pub vd_agent_clipboard : ℕ
vd_agent_clipboard = 4

abbrev pub vd_agent_announce_capabilities : ℕ
vd_agent_announce_capabilities = 6

abbrev pub vd_agent_clipboard_grab : ℕ
vd_agent_clipboard_grab = 7

abbrev pub vd_agent_clipboard_request : ℕ
vd_agent_clipboard_request = 8

abbrev pub vd_agent_clipboard_release : ℕ
vd_agent_clipboard_release = 9

abbrev pub vd_agent_file_xfer_start : ℕ
vd_agent_file_xfer_start = 10

abbrev pub vd_agent_file_xfer_status : ℕ
vd_agent_file_xfer_status = 11

abbrev pub vd_agent_file_xfer_data : ℕ
vd_agent_file_xfer_data = 12

abbrev pub vd_agent_cap_mouse_state : ℕ
vd_agent_cap_mouse_state = 0

abbrev pub vd_agent_cap_monitors_config : ℕ
vd_agent_cap_monitors_config = 1

abbrev pub vd_agent_cap_reply : ℕ
vd_agent_cap_reply = 2

abbrev pub vd_agent_cap_clipboard : ℕ
vd_agent_cap_clipboard = 3

abbrev pub vd_agent_cap_clipboard_by_demand : ℕ
vd_agent_cap_clipboard_by_demand = 5

abbrev pub vd_agent_clipboard_utf8_text : ℕ
vd_agent_clipboard_utf8_text = 1

abbrev pub vd_agent_file_xfer_status_can_send_data : ℕ
vd_agent_file_xfer_status_can_send_data = 0

abbrev pub vd_agent_file_xfer_status_cancelled : ℕ
vd_agent_file_xfer_status_cancelled = 1

abbrev pub vd_agent_file_xfer_status_error : ℕ
vd_agent_file_xfer_status_error = 2

abbrev pub vd_agent_file_xfer_status_success : ℕ
vd_agent_file_xfer_status_success = 3

abbrev pub spice_ticket_pubkey_bytes : ℕ
spice_ticket_pubkey_bytes = 162
