-- ===== src/Display/Start.antt =====
-- `start_drm` of src/display.c over what libdrm answers. `composite` and `hdmi` are the numbers of the
-- connector types. The ids of the HDMI side are read and not used, and are left out; its mode is
-- copied.
pub mod Loops
pub mod Output
mod Tests
use camview_opipc.Base.{
  ℕ, Bool, true, false, Option, none, some, List, [], ◌∷◌, ◌++◌, ◌==◌, if◌then◌else◌, ◌>>=◌,
}

-- `mode` is `conn->modes[0]`, and `none` if there are no modes.
pub record Connector : Type 0 where
  pub connector_id : ℕ
  pub connector_type : ℕ
  pub encoder_id : ℕ
  pub mode : Option ℕ

pub record Encoder : Type 0 where
  pub encoder_id : ℕ
  pub crtc_id : ℕ

pub record Crtc : Type 0 where
  pub crtc_id : ℕ
  pub buffer_id : ℕ

pub record ActivePlane : Type 0 where
  pub plane_id : ℕ
  pub fb_id : ℕ

-- `composite_connector_id`, `composite_encoder_id` and `composite_mode`.
pub record Composite : Type 0 where
  pub connector_id : ℕ
  pub encoder_id : ℕ
  pub mode : ℕ

pub data Call : Type 0 where
  set_master set_universal_planes : Call
  set_crtc : (crtc buffer connector mode : ℕ) → Call
  disable_plane : (plane : ℕ) → Call

-- The copy of a mode that is not there is undefined.
unfoldable pub take_connector :
    (is_composite is_hdmi : Bool)
    → (id encoder : ℕ) → (mode : Option ℕ) → Composite
    → Option Composite
take_connector true is_hdmi id encoder none found = none
take_connector true is_hdmi id encoder (some m) found =
    some (record { connector_id = id; encoder_id = encoder; mode = m })
take_connector false true id encoder none found = none
take_connector false true id encoder (some m) found = some found
take_connector false false id encoder mode found = some found

module _ (composite hdmi : ℕ) where
  unfoldable pub connectors_loop : List Connector → Composite → Option Composite
  unfolding take_connector
  connectors_loop [] found = some found
  connectors_loop (c ∷ cs) found = do
    found' ←
        take_connector (c.connector_type == composite) (c.connector_type == hdmi) c.connector_id
          c.encoder_id c.mode found
    connectors_loop cs found'

-- The loop over the encoders: `composite_crtc_id`.
unfoldable pub encoders_loop : (encoder_id : ℕ) → List Encoder → (crtc_id : ℕ) → ℕ
encoders_loop encoder_id [] crtc_id = crtc_id
encoders_loop encoder_id (e ∷ es) crtc_id =
    encoders_loop encoder_id es (if e.encoder_id == encoder_id then e.crtc_id else crtc_id)

-- The loop over the CRTCs.
unfoldable pub crtcs_loop : Composite → (composite_crtc_id : ℕ) → List Crtc → List Call
crtcs_loop found id [] = []
crtcs_loop found id (c ∷ cs) =
    (if c.crtc_id == id
      then Call.set_crtc id c.buffer_id found.connector_id found.mode ∷ []
      else [])
    ++ crtcs_loop found id cs

-- The loop over the planes that are in use; `none` stands for NULL.
unfoldable pub clear_loop : List (Option ActivePlane) → List Call
clear_loop [] = []
clear_loop (none ∷ ps) = clear_loop ps
clear_loop (some p ∷ ps) =
    (if p.fb_id == 0 then [] else Call.disable_plane p.plane_id ∷ []) ++ clear_loop ps

abbrev pub nothing_found : Composite
nothing_found = record { connector_id = 0; encoder_id = 0; mode = 0 }

module _ (composite hdmi : ℕ) where
  -- `none` is undefined behaviour.
  unfoldable pub start_drm :
      List Connector → List Encoder → List Crtc → List (Option ActivePlane) → Option (List Call)
  unfolding connectors_loop encoders_loop crtcs_loop clear_loop
  start_drm connectors encoders crtcs planes = do
    found ← connectors_loop composite hdmi connectors nothing_found
    some (
        Call.set_master
        ∷ Call.set_universal_planes
        ∷ (crtcs_loop found (encoders_loop found.encoder_id encoders 0) crtcs ++ clear_loop planes))
