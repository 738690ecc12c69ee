-- ===== src/Control/Write.antt =====
-- The part of src/control-file.c that makes the JSON of the controls.
pub mod Menu
use Prim.Native.String.{String}
use camview_opipc.Base.{
  ℕ, zero, suc, ◌+◌, Bool, true, false, Option, none, some, List, [], ◌∷◌, ◌||◌, if◌then◌else◌,
}
use camview_opipc.Base.Int.{ℤ, pos}
use camview_opipc.Control.{JsonLib, CtrlType, QueryCtrl, QueryMenu, Driver}
use camview_opipc.Control.Params.{Block, Controls, get_drm}

unfoldable pub control_type_name : CtrlType → Option String
control_type_name CtrlType.integer = some "V4L2_CTRL_TYPE_INTEGER"
control_type_name CtrlType.boolean = some "V4L2_CTRL_TYPE_BOOLEAN"
control_type_name CtrlType.menu = some "V4L2_CTRL_TYPE_MENU"
control_type_name CtrlType.button = some "V4L2_CTRL_TYPE_BUTTON"
control_type_name CtrlType.integer64 = some "V4L2_CTRL_TYPE_INTEGER64"
control_type_name CtrlType.ctrl_class = some "V4L2_CTRL_TYPE_CTRL_CLASS"
control_type_name CtrlType.string = some "V4L2_CTRL_TYPE_STRING"
control_type_name CtrlType.bitmask = some "V4L2_CTRL_TYPE_BITMASK"
control_type_name CtrlType.integer_menu = some "V4L2_CTRL_TYPE_INTEGER_MENU"
control_type_name CtrlType.u8 = some "V4L2_CTRL_TYPE_U8"
control_type_name CtrlType.u16 = some "V4L2_CTRL_TYPE_U16"
control_type_name CtrlType.u32 = some "V4L2_CTRL_TYPE_U32"
control_type_name CtrlType.area = some "V4L2_CTRL_TYPE_AREA"
control_type_name CtrlType.hdr10_cll_info = some "V4L2_CTRL_TYPE_HDR10_CLL_INFO"
control_type_name CtrlType.hdr10_mastering_display = some "V4L2_CTRL_TYPE_HDR10_MASTERING_DISPLAY"
control_type_name CtrlType.unknown = none

abbrev pub is_menu : CtrlType → Bool
is_menu CtrlType.menu = true
is_menu CtrlType.integer_menu = true
is_menu _ = false

abbrev pub is_integer_menu : CtrlType → Bool
is_integer_menu CtrlType.integer_menu = true
is_integer_menu _ = false

-- The fields of a struct, by the names they have in the file.
unfoldable pub field_names : Block → List String
field_names Block.fcc =
    "enable" ∷ "hr_hue_min" ∷ "hr_hue_max" ∷ "hg_hue_min" ∷ "hg_hue_max" ∷ "hb_hue_min"
    ∷ "hb_hue_max" ∷ "hc_hue_min" ∷ "hc_hue_max" ∷ "hm_hue_min" ∷ "hm_hue_max" ∷ "hy_hue_min"
    ∷ "hy_hue_max" ∷ "hr_hue_gain" ∷ "hr_sat_gain" ∷ "hg_hue_gain" ∷ "hg_sat_gain" ∷ "hb_hue_gain"
    ∷ "hb_sat_gain" ∷ "hc_hue_gain" ∷ "hc_sat_gain" ∷ "hm_hue_gain" ∷ "hm_sat_gain" ∷ "hy_hue_gain"
    ∷ "hy_sat_gain" ∷ []
field_names Block.bws =
    "enable" ∷ "min" ∷ "black" ∷ "white" ∷ "max" ∷ "slope0" ∷ "slope1" ∷ "slope2" ∷ "slope3" ∷ []
field_names Block.lti =
    "enable" ∷ "c0" ∷ "c1" ∷ "c2" ∷ "c3" ∷ "c4" ∷ "fir_gain" ∷ "cor_th" ∷ "diff_offset"
    ∷ "diff_slope" ∷ "edge_gain" ∷ "core_x" ∷ "clip_y" ∷ "peak_limit" ∷ "win_expansion"
    ∷ "edge_level_th" ∷ []

module _ (l : JsonLib) where
  open l use {J, new_object, new_array, new_int, new_string, object_add, array_add}

  unfoldable pub add_fields : List String → List ℤ → l.J → l.J
  add_fields (k ∷ ks) (v ∷ vs) o = add_fields ks vs (object_add o k (new_int v))
  add_fields _ _ o = o

  unfoldable pub block_json : Block → Controls → l.J
  unfolding add_fields field_names get_drm
  block_json b c = add_fields (field_names b) (get_drm b c) new_object

  -- The function makes one object, and not an array.
  unfoldable pub get_display_ctrls_json_array : Controls → l.J
  unfolding block_json
  get_display_ctrls_json_array c =
      object_add
        (object_add (object_add new_object "fcc" (block_json Block.fcc c)) "bws"
          (block_json Block.bws c))
        "lti" (block_json Block.lti c)

  unfoldable pub menu_entry : QueryMenu → ℕ → CtrlType → l.J
  menu_entry menu index type =
      let entry = object_add new_object "menuItemName" (new_string menu.name) in
      if is_integer_menu type
      then object_add entry "menuItemValue" (new_int menu.value)
      else object_add entry "menuItemValue" (new_int (pos index))

  module _ (d : Driver) where
    open d use {query, query_menu, g_ctrl, base, count}

    -- The loop from `index` on, as long as the fuel lasts.
    unfoldable pub menu_loop : d.S → ℕ → CtrlType → ℕ → ℕ → l.J → l.J
    unfolding menu_entry
    menu_loop s id type zero index json = json
    menu_loop s id type (suc n) index json = elim (query_menu s id index) [
      | none ↦ json
      | some menu ↦ menu_loop s id type n (index + 1) (array_add json (menu_entry menu index type))
    ]

    unfoldable pub get_menu_ctrls_json : ℕ → d.S → ℕ → CtrlType → l.J
    unfolding menu_loop
    get_menu_ctrls_json fuel s id type = menu_loop s id type fuel 0 new_array

    unfoldable pub add_value : Option ℤ → l.J → l.J
    add_value none o = o
    add_value (some v) o = object_add o "ctrlValue" (new_int v)

    unfoldable pub ctrl_json : ℕ → d.S → ℕ → QueryCtrl → String → l.J
    unfolding get_menu_ctrls_json add_value
    ctrl_json fuel s id q type =
        let named = object_add new_object "ctrlName" (new_string q.name) in
        let to_max = object_add named "ctrlMax" (new_int q.maximum) in
        let to_min = object_add to_max "ctrlMin" (new_int q.minimum) in
        let to_step = object_add to_min "ctrlStep" (new_int q.step) in
        let to_default = object_add to_step "ctrlDefault" (new_int q.default_value) in
        let typed = object_add to_default "ctrlType" (new_string type) in
        let valued = add_value (g_ctrl s id) typed in
        if is_menu q.type
        then object_add valued "ctrlMenu" (get_menu_ctrls_json fuel s id q.type)
        else valued

    unfoldable pub add_ctrl : ℕ → d.S → ℕ → l.J → l.J
    unfolding ctrl_json control_type_name
    add_ctrl fuel s id json = elim (query s id) [
      | none ↦ json
      | some q ↦ elim (control_type_name q.type) [
        | none ↦ json
        | some type ↦ array_add json (ctrl_json fuel s id q type)
      ]
    ]

    unfoldable pub ctrls_loop : ℕ → d.S → ℕ → ℕ → l.J → l.J
    unfolding add_ctrl
    ctrls_loop fuel s zero id json = json
    ctrls_loop fuel s (suc n) id json = ctrls_loop fuel s n (id + 1) (add_ctrl fuel s id json)

    unfoldable pub get_device_ctrls_json_array : ℕ → d.S → l.J
    unfolding ctrls_loop
    get_device_ctrls_json_array fuel s = ctrls_loop fuel s count base new_array

    -- The object of the file; `fuel` bounds the number of items of a menu.
    unfoldable pub file_json : ℕ → d.S → Controls → l.J
    unfolding get_device_ctrls_json_array get_display_ctrls_json_array
    file_json fuel s c =
        let device = object_add new_object "device" (get_device_ctrls_json_array fuel s) in
        object_add device "display" (get_display_ctrls_json_array c)

    -- The text that is written to the file.
    unfoldable pub write_file : ℕ → d.S → Controls → List ℕ
    unfolding file_json
    write_file fuel s c = l.print (file_json fuel s c)
