-- ===== src/Display/Start/Output.antt =====
-- What `start_drm` of src/display.c sets up for the composite output.
use mathlib.Core.Path.{subst}
use camview_opipc.Base.{
  ℕ, ◌≡◌, ◌≢◌, refl, ap, sym, ◌∙◌, Bool, true, false, ◌⊎◌, inl, inr, Option, none, some, List, [],
  ◌∷◌, ◌++◌, ◌==◌, ◌>>=◌, All, All-append,
}
use camview_opipc.Display.Start.{
  Connector, Encoder, Crtc, ActivePlane, Composite, Call, take_connector, connectors_loop,
  encoders_loop, crtcs_loop, clear_loop, nothing_found, start_drm,
}
use camview_opipc.Display.Start.Loops.{
  In, All-map, all-In, All-at, bind_split, take_connector-holds, encoders_loop-holds,
  crtcs_loop-holds, clear_loop-holds,
}

take_connector-total :
    (b h : Bool) (id encoder : ℕ) (mode : Option ℕ) (found : Composite)
    → mode ≢ none
    → (found' : Composite) × (take_connector b h id encoder mode found ≡ some found')
unfolding take_connector
take_connector-total b h id encoder none found ne = absurd (ne refl)
take_connector-total true h id encoder (some m) found ne = (_, refl)
take_connector-total false true id encoder (some m) found ne = (found, refl)
take_connector-total false false id encoder (some m) found ne = (found, refl)

module _ (composite hdmi : ℕ) where
  connectors_loop-total :
      (cs : List Connector) (found : Composite)
      → All (λ c. c.mode ≢ none) cs
      → (found' : Composite) × (connectors_loop composite hdmi cs found ≡ some found')
  unfolding connectors_loop
  connectors_loop-total [] found all = (found, refl)
  connectors_loop-total (c ∷ cs) found (ne, all) =
      let (mid, first) =
        take_connector-total (c.connector_type == composite) (c.connector_type == hdmi)
          c.connector_id c.encoder_id c.mode found ne in
      let (last, rest) = connectors_loop-total cs mid all in
      (last, ap (λ o. o >>= connectors_loop composite hdmi cs) first ∙ rest)

  connectors_loop-holds :
      (P : Composite → Type 0) (cs : List Connector) (found found' : Composite)
      → P found
      → All
          (λ c.
            (c.connector_type == composite) ≡ true
            → (m : ℕ) → c.mode ≡ some m
            → P (record { connector_id = c.connector_id; encoder_id = c.encoder_id; mode = m }))
          cs
      → connectors_loop composite hdmi cs found ≡ some found'
      → P found'
  unfolding connectors_loop
  connectors_loop-holds P [] found found' p all e = let same : found ≡ found' = cc in subst P same p
  connectors_loop-holds P (c ∷ cs) found found' p (q, all) e =
      let (mid, first, rest) = bind_split _ _ found' e in
      connectors_loop-holds P cs mid found'
        (take_connector-holds P (c.connector_type == composite) (c.connector_type == hdmi)
          c.connector_id c.encoder_id c.mode found mid p q first)
        all rest

  module _ (connectors : List Connector) (encoders : List Encoder) (crtcs : List Crtc) where
    -- The CRTC is driven by the encoder of a composite connector, and keeps its buffer.
    pub record IsComposite (crtc buffer connector mode : ℕ) : Type 0 where
      pub source : Connector
      pub source_listed : In source connectors
      pub typed : (source.connector_type == composite) ≡ true
      pub source_id : source.connector_id ≡ connector
      pub source_mode : source.mode ≡ some mode
      pub encoder : Encoder
      pub encoder_listed : In encoder encoders
      pub encoder_id : encoder.encoder_id ≡ source.encoder_id
      pub drives : encoder.crtc_id ≡ crtc
      pub shown : Crtc
      pub shown_listed : In shown crtcs
      pub shown_id : shown.crtc_id ≡ crtc
      pub shown_buffer : shown.buffer_id ≡ buffer

    abbrev pub SetCall : Call → Type 0
    SetCall (Call.set_crtc crtc buffer connector mode) = IsComposite crtc buffer connector mode
    SetCall call = Unit

    -- What is known of the connector that was found.
    abbrev Known : Composite → Type 0
    Known found =
        (found.encoder_id ≡ 0)
        ⊎ ((c : Connector) × In c connectors
            × ((c.connector_type == composite) ≡ true)
            × (c.connector_id ≡ found.connector_id)
            × (c.encoder_id ≡ found.encoder_id)
            × (c.mode ≡ some found.mode))

    connectors_loop-Known :
        (found : Composite)
        → connectors_loop composite hdmi connectors nothing_found ≡ some found
        → Known found
    connectors_loop-Known found e =
        connectors_loop-holds Known connectors nothing_found found (inl refl)
          (All-map _ _ (λ c at typed m mode. inr (c, at, typed, refl, refl, mode)) connectors
            (all-In connectors))
          e

    Driven : (id crtc : ℕ) → Type 0
    Driven id crtc =
        (crtc ≡ 0) ⊎ ((e : Encoder) × In e encoders × (e.encoder_id ≡ id) × (e.crtc_id ≡ crtc))

    encoders_loop-Driven : (id : ℕ) → Driven id (encoders_loop id encoders 0)
    unfolding Driven
    encoders_loop-Driven id =
        encoders_loop-holds (Driven id) id encoders 0 (inl refl)
          (All-map _ _ (λ e at same. inr (e, at, same, refl)) encoders (all-In encoders))

    module _ (encoders_ne : All (λ e. e.encoder_id ≢ 0) encoders)
        (crtcs_ne : All (λ c. c.crtc_id ≢ 0) crtcs) where
      crtc_found :
          (found : Composite) (id : ℕ)
          → Known found
          → Driven found.encoder_id id
          → (c : Crtc) → In c crtcs
          → c.crtc_id ≡ id
          → IsComposite id c.buffer_id found.connector_id found.mode
      unfolding Driven
      crtc_found found id known (inl zero_id) c at same =
          absurd (All-at (λ c. c.crtc_id ≢ 0) c crtcs crtcs_ne at (same ∙ zero_id))
      crtc_found found id (inl zero_encoder) (inr (e, e_at, e_id, e_crtc)) c at same =
          absurd (All-at (λ e. e.encoder_id ≢ 0) e encoders encoders_ne e_at (e_id ∙ zero_encoder))
      crtc_found found id (inr (k, k_at, typed, k_id, k_encoder, k_mode))
            (inr (e, e_at, e_id, e_crtc)) c at same =
          record {
            source = k;
            source_listed = k_at;
            typed = typed;
            source_id = k_id;
            source_mode = k_mode;
            encoder = e;
            encoder_listed = e_at;
            encoder_id = e_id ∙ sym k_encoder;
            drives = e_crtc;
            shown = c;
            shown_listed = at;
            shown_id = same;
            shown_buffer = refl;
          }

      crtcs_loop-SetCall :
          (found : Composite)
          → Known found
          → All SetCall (crtcs_loop found (encoders_loop found.encoder_id encoders 0) crtcs)
      crtcs_loop-SetCall found known =
          let id = encoders_loop found.encoder_id encoders 0 in
          crtcs_loop-holds SetCall found id crtcs (
            All-map _ _
              (λ c at same.
                crtc_found found id known (encoders_loop-Driven found.encoder_id) c at same)
              crtcs (all-In crtcs))

      -- If each connector has a mode and no encoder and no CRTC has the id 0, `start_drm` gets through, and
      -- sets no CRTC but one that an encoder of a composite connector drives, with the buffer that
      -- it has, that connector, and its first mode.
      pub start_drm-SetCall :
          (planes : List (Option ActivePlane))
          → All (λ c. c.mode ≢ none) connectors
          → (calls : List Call) × (start_drm composite hdmi connectors encoders crtcs planes
              ≡ some calls)
            × All SetCall calls
      unfolding start_drm
      start_drm-SetCall planes modes =
          let (found, e) = connectors_loop-total connectors nothing_found modes in
          let id = encoders_loop found.encoder_id encoders 0 in
          (
            Call.set_master
                ∷ Call.set_universal_planes
                ∷ (crtcs_loop found id crtcs ++ clear_loop planes),
            rw e refl,
            (
              _,
              (
                _,
                All-append SetCall _ _ (crtcs_loop-SetCall found (connectors_loop-Known found e))
                    (clear_loop-holds SetCall (λ plane. _) planes),
              ),
            ),
          )
