-- ===== src/Messages/Display/Tests.antt =====
-- Runs of the readers of the display's messages, and the witness.
use vm_automation_deployment.Common.{◌≡◌, refl, true, [], ◌∷◌, some, arith}
use vm_automation_deployment.Common.Int.{pos, ◌+ℤ◌, ◌-ℤ◌}
use vm_automation_deployment.DataView.RoundTrip.{word, half_word}
use vm_automation_deployment.Types.{SpiceRect, is_same_size}
use vm_automation_deployment.Types.Place.{Place, read8, read16, read32, read64, forward}
use vm_automation_deployment.DataView.{get_uint16, get_uint32, get_uint64}
use vm_automation_deployment.Types.Layout.{point_bytes, rect_bytes, clip_bytes, rects_bytes}
use vm_automation_deployment.Types.Pictures.{Picture}
use vm_automation_deployment.Messages.Display.{
  read_draw_copy, read_inval_list, read_resources, read_stream_data, read_stream_header, subarray,
}
use vm_automation_deployment.Messages.Display.DrawCopy.{
  Copying, received_base, received_copy, draw_copy_bytes, base_bytes, area_bytes, mask_bytes,
  read_draw_copy-bytes,
}

abbrev box : SpiceRect
box = record { top = pos 1; left = pos 2; bottom = pos 3; right = pos 4 }

abbrev copying : Copying
copying = record {
  surface_id = pos 0;
  box = box;
  clip = some (box ∷ []);
  src_area = box;
  rop_descriptor = 8;
  scale_mode = 0;
  mask_flags = 0;
  mask_pos = record { x = pos 0; y = pos 0 };
}

abbrev picture : Picture
picture = record {
  id_low = pos 7;
  id_high = pos 0;
  flags = 0;
  width = pos 2;
  height = pos 2;
  version = pos 65537;
  lz_type = pos 8;
  lz_width = pos 2;
  lz_height = pos 2;
  stride = pos 8;
  top_down = pos 1;
  body = 0 ∷ 1 ∷ 2 ∷ [];
}

read_draw_copy-bytes_example :
    (read_draw_copy (record { buf = draw_copy_bytes copying picture (9 ∷ []); at = pos 0 })).0
    ≡ (record { base = received_base copying; body = received_copy copying picture })
unfolding base_bytes area_bytes mask_bytes point_bytes rect_bytes clip_bytes rects_bytes word
    half_word
read_draw_copy-bytes_example =
    read_draw_copy-bytes copying picture (9 ∷ []) (omega arith) (omega arith) (omega arith)

abbrev inval : Place
inval = record { buf = 1 ∷ 0 ∷ 3 ∷ 5 ∷ 0 ∷ 0 ∷ 0 ∷ 0 ∷ 0 ∷ 0 ∷ 0 ∷ []; at = pos 0 }

inval_list : (read_inval_list inval).0 ≡ record { type = some 3; id = pos 5 } ∷ []
unfolding read_inval_list read_resources read16 get_uint16 read8 read64 forward get_uint64
    get_uint32
inval_list = refl

stream_data :
    (read_stream_data (record {
      buf = 1 ∷ 0 ∷ 0 ∷ 0 ∷ 2 ∷ 0 ∷ 0 ∷ 0 ∷ 2 ∷ 0 ∷ 0 ∷ 0 ∷ 7 ∷ 8 ∷ 9 ∷ [];
      at = pos 0;
    })).0.body
    ≡ 7 ∷ 8 ∷ []
unfolding read_stream_data subarray ◌+ℤ◌ read32 forward read_stream_header get_uint32 get_uint16
stream_data = refl

same_size : is_same_size box box ≡ true
unfolding is_same_size ◌-ℤ◌
same_size = refl
