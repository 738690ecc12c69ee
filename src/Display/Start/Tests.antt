-- ===== src/Display/Start/Tests.antt =====
-- A run of `start_drm` with a composite and an HDMI output.
use camview_opipc.Base.{◌≡◌, refl, Option, none, some, List, [], ◌∷◌, arith, All}
use camview_opipc.Display.Start.{Connector, Encoder, Crtc, ActivePlane, Call, start_drm}
use camview_opipc.Display.Start.Output.{SetCall, start_drm-SetCall}

abbrev connectors : List Connector
connectors =
    record { connector_id = 41; connector_type = 11; encoder_id = 51; mode = some 1080 }
    ∷ record { connector_id = 42; connector_type = 5; encoder_id = 52; mode = some 576 }
    ∷ []

abbrev encoders : List Encoder
encoders = record { encoder_id = 51; crtc_id = 61 } ∷ record { encoder_id = 52; crtc_id = 62 } ∷ []

abbrev crtcs : List Crtc
crtcs = record { crtc_id = 61; buffer_id = 71 } ∷ record { crtc_id = 62; buffer_id = 72 } ∷ []

abbrev planes : List (Option ActivePlane)
planes =
    some (record { plane_id = 31; fb_id = 71 })
    ∷ none
    ∷ some (record { plane_id = 32; fb_id = 0 })
    ∷ []

runs :
    start_drm 5 11 connectors encoders crtcs planes
    ≡ some (
        Call.set_master
        ∷ Call.set_universal_planes
        ∷ Call.set_crtc 62 72 42 576
        ∷ Call.disable_plane 31
        ∷ [])
unfolding start_drm
runs = refl

-- A connector without modes.
unplugged :
    start_drm 5 11
      (record { connector_id = 41; connector_type = 11; encoder_id = 0; mode = none } ∷ [])
      encoders
      crtcs
      planes
    ≡ none
unfolding start_drm
unplugged = refl

start_drm-SetCall_example :
    (calls : List Call) × (start_drm 5 11 connectors encoders crtcs planes ≡ some calls)
    × All (SetCall 5 11 connectors encoders crtcs) calls
start_drm-SetCall_example =
    start_drm-SetCall 5 11 connectors encoders crtcs ((λ e. ground arith), ((λ e. ground arith), _))
      ((λ e. ground arith), ((λ e. ground arith), _)) planes
      ((λ e. absurd (cc)), ((λ e. absurd (cc)), _))
