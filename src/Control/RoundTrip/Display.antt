-- ===== src/Control/RoundTrip/Display.antt =====
-- The parameters of the display, written and read back.
use Prim.Native.String.{String}
use camview_opipc.Base.{◌≡◌, refl, ◌∙◌, true, false, Option, some, List, [], ◌∷◌}
use camview_opipc.Base.Int.{ℤ}
use camview_opipc.Control.{JsonLib}
use camview_opipc.Control.Params.{Block, Controls, get_drm, set_drm, memcmp, get}
use camview_opipc.Control.Write.{field_names, block_json, get_display_ctrls_json_array}
use camview_opipc.Control.Read.{read_block, read_display_controls}
use camview_opipc.Control.Set.Settle.{eq_ℤ_refl}
use camview_opipc.Control.RoundTrip.Json.{JsonLaws, Fits, read_fields-block_json}

memcmp_refl : (v : List ℤ) → memcmp v v ≡ true
unfolding memcmp
memcmp_refl [] = refl
memcmp_refl (x ∷ xs) = rw (eq_ℤ_refl x) (memcmp_refl xs)

set_drm-get_drm : (b : Block) → (c : Controls) → set_drm b (get_drm b c) c ≡ (c, false)
unfolding set_drm get_drm
set_drm-get_drm b c = rw (memcmp_refl (get b c.params)) refl

-- Every struct holds values that its fields can hold.
abbrev pub ControlsFit : (String → ℤ → ℤ) → Controls → Type 0
ControlsFit cast c = (b : Block) → Fits cast (field_names b) (get_drm b c)

module _ (l : JsonLib) (law : JsonLaws l) (cast : String → ℤ → ℤ) where
  read_block-same :
      (json : Option l.J)
      → (name : String) → (b : Block) → (c : Controls)
      → l.object_get json name ≡ some (block_json l b c)
      → Fits cast (field_names b) (get_drm b c)
      → read_block l cast json name b c ≡ (c, false)
  unfolding read_block
  read_block-same json name b c g t =
      rw (g, read_fields-block_json l law cast b c t) (set_drm-get_drm b c)

  -- Where json-c behaves as documented and the fields hold their values, reading the parameters
  -- that `get_display_ctrls_json_array` wrote changes nothing and returns 0.
  pub read_display_controls-get_display_ctrls_json_array :
      (c : Controls)
      → ControlsFit cast c
      → read_display_controls l cast (some (get_display_ctrls_json_array l c)) c ≡ (c, false)
  unfolding read_display_controls get_display_ctrls_json_array
  read_display_controls-get_display_ctrls_json_array c t =
      let o1 = l.object_add l.new_object "fcc" (block_json l Block.fcc c) in
      let o2 = l.object_add o1 "bws" (block_json l Block.bws c) in
      let json = some (l.object_add o2 "lti" (block_json l Block.lti c)) in
      let fcc =
        law.get_other o2 (block_json l Block.lti c) "lti" "fcc" refl
        ∙ law.get_other o1 (block_json l Block.bws c) "bws" "fcc" refl
        ∙ law.get_added l.new_object (block_json l Block.fcc c) "fcc" in
      let bws =
        law.get_other o2 (block_json l Block.lti c) "lti" "bws" refl
        ∙ law.get_added o1 (block_json l Block.bws c) "bws" in
      let lti = law.get_added o2 (block_json l Block.lti c) "lti" in
      rw
        (
          read_block-same json "fcc" Block.fcc c fcc (t Block.fcc),
          read_block-same json "bws" Block.bws c bws (t Block.bws),
          read_block-same json "lti" Block.lti c lti (t Block.lti),
        )
        refl
