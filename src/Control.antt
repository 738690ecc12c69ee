-- ===== src/Control.antt =====
-- src/control-file.c, and the `set_drm_*` functions of src/display.c. The camera driver, the JSON
-- library and the structs of drm/sun4i_drm.h are not part of the repository: they are parameters.
-- A value of ℤ stands for an `int32_t`: nothing computes with it.
pub mod Set
pub mod Write
pub mod Read
pub mod Params
pub mod RoundTrip
pub mod Persist
pub mod File
mod Tests
use Prim.Native.String.{String}
use text.Mathlib.Text.{◌==◌ as str_eq}
use camview_opipc.Base.{
  ℕ, ◌+◌, ◌≡◌, ◌≢◌, Bool, true, false, Option, none, some, List, ◌==◌, if◌then◌else◌,
}
use camview_opipc.Base.Int.{ℤ, pos, negsuc}

-- json-c. A `json_object *` is an `Option J`, where `none` is NULL; `items` are the answers of
-- `json_object_array_get_idx` below `json_object_array_length`.
pub record JsonLib : Type 1 where
  pub J : Type 0
  pub new_object : J
  pub new_array : J
  pub new_int : ℤ → J
  pub new_string : String → J
  pub object_add : J → String → J → J
  pub array_add : J → J → J
  pub object_get : Option J → String → Option J
  pub items : Option J → List J
  pub get_int : Option J → ℤ
  pub get_string : Option J → Option String
  pub print : J → List ℕ
  pub parse : List ℕ → Option J

-- The values of `enum v4l2_ctrl_type`; `unknown` is any other number.
pub data CtrlType : Type 0 where
  integer boolean menu button integer64 ctrl_class string bitmask integer_menu u8 u16 u32 area
        hdr10_cll_info hdr10_mastering_display unknown :
      CtrlType

pub record QueryCtrl : Type 0 where
  pub name : String
  pub type : CtrlType
  pub maximum : ℤ
  pub minimum : ℤ
  pub step : ℤ
  pub default_value : ℤ

pub record QueryMenu : Type 0 where
  pub name : String
  pub value : ℤ

-- The camera driver: what the ioctls on `device_file` do in a state of the camera. They answer
-- `none` where they fail. The ids run from V4L2_CID_BASE over `count` ids.
pub record Driver : Type 1 where
  pub S : Type 0
  pub query : S → ℕ → Option QueryCtrl
  pub query_menu : S → ℕ → ℕ → Option QueryMenu
  pub g_ctrl : S → ℕ → Option ℤ
  pub s_ctrl : S → ℕ → ℤ → S
  pub base : ℕ
  pub count : ℕ
