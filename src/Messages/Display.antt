-- ===== src/Messages/Display.antt =====
-- spicemsg.js: the messages of the display channel, over the parts of Types. A reader is the body of
-- from_buffer at position 0.
pub mod DrawCopy
mod Tests
use vm_automation_deployment.Common.{
  ℕ, zero, suc, ◌+◌, true, List, [], ◌∷◌, Option, none, some, length,
}
use vm_automation_deployment.Common.Int.{ℤ, pos, negsuc, ◌+ℤ◌}
use vm_automation_deployment.Wire.{Bytes}
use vm_automation_deployment.ArrayBuffer.Slice.{array_buffer_slice}
use vm_automation_deployment.Types.{
  SpicePoint, SpiceRect, SpiceClip, SpiceSurface, read_point, read_rect, read_clip, read_surface,
}
use vm_automation_deployment.Types.Place.{N, Place, ret, ◌>>=◌, ◌>>◌, read8, read16, read32, read64}
use vm_automation_deployment.Types.Draw.{SpiceCopy, SpiceFill, read_copy, read_fill}

pub record SpiceMsgDisplayBase : Type 0 where
  pub surface_id : ℤ
  pub box : SpiceRect
  pub clip : SpiceClip

unfoldable pub read_base : N SpiceMsgDisplayBase
read_base = do
  surface_id ← read32
  box ← read_rect
  clip ← read_clip
  ret (record { surface_id = surface_id; box = box; clip = clip })

pub record SpiceMsgDisplayDrawCopy : Type 0 where
  pub base : SpiceMsgDisplayBase
  pub body : SpiceCopy

unfoldable pub read_draw_copy : N SpiceMsgDisplayDrawCopy
read_draw_copy = do base ← read_base; body ← read_copy; ret (record { base = base; body = body })

pub record SpiceMsgDisplayDrawFill : Type 0 where
  pub base : SpiceMsgDisplayBase
  pub body : SpiceFill

unfoldable pub read_draw_fill : N SpiceMsgDisplayDrawFill
read_draw_fill = do base ← read_base; body ← read_fill; ret (record { base = base; body = body })

pub record SpiceMsgDisplayCopyBits : Type 0 where
  pub base : SpiceMsgDisplayBase
  pub src_pos : SpicePoint

unfoldable pub read_copy_bits : N SpiceMsgDisplayCopyBits
read_copy_bits = do
  base ← read_base
  src_pos ← read_point
  ret (record { base = base; src_pos = src_pos })

-- SpiceMsgSurfaceCreate, SpiceMsgSurfaceDestroy and SpiceMsgDisplayStreamDestroy are their one part.
unfoldable pub read_surface_create : N SpiceSurface
read_surface_create = read_surface

unfoldable pub read_surface_destroy : N ℤ
read_surface_destroy = read32

unfoldable pub read_stream_destroy : N ℤ
read_stream_destroy = read32

pub record SpiceMsgDisplayStreamCreate : Type 0 where
  pub surface_id : ℤ
  pub id : ℤ
  pub flags : Option ℕ
  pub codec_type : Option ℕ
  pub stamp : ℤ
  pub stream_width : ℤ
  pub stream_height : ℤ
  pub src_width : ℤ
  pub src_height : ℤ
  pub dest : SpiceRect
  pub clip : SpiceClip

unfoldable pub read_stream_create : N SpiceMsgDisplayStreamCreate
read_stream_create = do
  surface_id ← read32
  id ← read32
  flags ← read8
  codec_type ← read8
  stamp ← read64
  stream_width ← read32
  stream_height ← read32
  src_width ← read32
  src_height ← read32
  dest ← read_rect
  clip ← read_clip
  ret (record {
    surface_id = surface_id;
    id = id;
    flags = flags;
    codec_type = codec_type;
    stamp = stamp;
    stream_width = stream_width;
    stream_height = stream_height;
    src_width = src_width;
    src_height = src_height;
    dest = dest;
    clip = clip;
  })

pub record SpiceStreamDataHeader : Type 0 where
  pub id : ℤ
  pub multi_media_time : ℤ

unfoldable pub read_stream_header : N SpiceStreamDataHeader
read_stream_header = do
  id ← read32
  multi_media_time ← read32
  ret (record { id = id; multi_media_time = multi_media_time })

-- `dv.u8.subarray(at, at + size)`, which counts and clamps as ArrayBuffer.slice does.
unfoldable pub subarray : ℤ → N Bytes
subarray size c = (array_buffer_slice c.buf (some c.at) (some (c.at +ℤ size)), c)

pub record SpiceMsgDisplayStreamData : Type 0 where
  pub base : SpiceStreamDataHeader
  pub data_size : ℤ
  pub body : Bytes

unfoldable pub read_stream_data : N SpiceMsgDisplayStreamData
read_stream_data = do
  base ← read_stream_header
  data_size ← read32
  body ← subarray data_size
  ret (record { base = base; data_size = data_size; body = body })

pub record SpiceMsgDisplayStreamDataSized : Type 0 where
  pub base : SpiceStreamDataHeader
  pub width : ℤ
  pub height : ℤ
  pub dest : SpiceRect
  pub data_size : ℤ
  pub body : Bytes

unfoldable pub read_stream_data_sized : N SpiceMsgDisplayStreamDataSized
read_stream_data_sized = do
  base ← read_stream_header
  width ← read32
  height ← read32
  dest ← read_rect
  data_size ← read32
  body ← subarray data_size
  ret (record {
    base = base;
    width = width;
    height = height;
    dest = dest;
    data_size = data_size;
    body = body;
  })

pub record SpiceMsgDisplayStreamClip : Type 0 where
  pub id : ℤ
  pub clip : SpiceClip

unfoldable pub read_stream_clip : N SpiceMsgDisplayStreamClip
read_stream_clip = do id ← read32; clip ← read_clip; ret (record { id = id; clip = clip })

pub record SpiceMsgDisplayStreamActivateReport : Type 0 where
  pub stream_id : ℤ
  pub unique_id : ℤ
  pub max_window_size : ℤ
  pub timeout_ms : ℤ

unfoldable pub read_activate_report : N SpiceMsgDisplayStreamActivateReport
read_activate_report = do
  stream_id ← read32
  unique_id ← read32
  max_window_size ← read32
  timeout_ms ← read32
  ret (record {
    stream_id = stream_id;
    unique_id = unique_id;
    max_window_size = max_window_size;
    timeout_ms = timeout_ms;
  })

-- An entry of SpiceMsgDisplayInvalList.
pub record Resource : Type 0 where
  pub type : Option ℕ
  pub id : ℤ

unfoldable pub read_resources : ℕ → N (List Resource)
read_resources zero = ret []
read_resources (suc n) = do
  type ← read8
  id ← read64
  resources ← read_resources n
  ret (record { type = type; id = id } ∷ resources)

unfoldable pub read_inval_list : N (List Resource)
read_inval_list = do count ← read16; read_resources count
