-- ===== src/Display/Start/Loops.antt =====
-- What the loops of `start_drm` of src/display.c keep, for any predicate.
use mathlib.Core.Path.{subst}
use camview_opipc.Base.{
  ℕ, zero, suc, ◌≡◌, refl, sym, Bool, true, false, inl, inr, Option, none, some, List, [], ◌∷◌,
  ◌==◌, ◌>>=◌, get_elem?, All, All-append, Bool-cases, if_both, if_true, if_false, ==_iff,
}
use camview_opipc.Display.Start.{
  Encoder, Crtc, ActivePlane, Composite, Call, take_connector, encoders_loop, crtcs_loop,
  clear_loop,
}

abbrev pub In : {A : Type 0} → A → List A → Type 0
In x xs = (i : ℕ) × (get_elem? xs i ≡ some x)

pub All-map :
    {A : Type 0} (P Q : A → Type 0) → ((x : A) → P x → Q x) → (xs : List A) → All P xs → All Q xs
All-map P Q f [] all = _
All-map P Q f (x ∷ xs) (h, all) = (f x h, All-map P Q f xs all)

pub all-In : {A : Type 0} (xs : List A) → All (λ x. In x xs) xs
all-In [] = _
all-In (x ∷ xs) = ((0, refl), All-map _ _ (λ y (i, e). (suc i, e)) xs (all-In xs))

pub All-at : {A : Type 0} (P : A → Type 0) (x : A) (xs : List A) → All P xs → In x xs → P x
All-at P x [] all (i, e) = absurd (cc)
All-at P x (y ∷ xs) (h, all) (zero, e) = let same : y ≡ x = cc in subst P same h
All-at P x (y ∷ xs) (h, all) (suc i, e) = All-at P x xs all (i, e)

pub bind_split :
    (o : Option Composite) (f : Composite → Option Composite) (y : Composite)
    → (o >>= f) ≡ some y
    → (x : Composite) × (o ≡ some x) × (f x ≡ some y)
bind_split none f y e = absurd (cc)
bind_split (some x) f y e = (x, refl, e)

pub take_connector-holds :
    (P : Composite → Type 0) (b h : Bool) (id encoder : ℕ) (mode : Option ℕ)
    (found found' : Composite)
    → P found
    → (b ≡ true
        → (m : ℕ) → mode ≡ some m
        → P (record { connector_id = id; encoder_id = encoder; mode = m }))
    → take_connector b h id encoder mode found ≡ some found'
    → P found'
unfolding take_connector
take_connector-holds P true h id encoder none found found' p q e = absurd (cc)
take_connector-holds P true h id encoder (some m) found found' p q e =
    let same : ◌≡◌ {A = Composite} (record { connector_id = id; encoder_id = encoder; mode = m })
        found' =
      cc in
    subst P same (q refl m refl)
take_connector-holds P false true id encoder none found found' p q e = absurd (cc)
take_connector-holds P false true id encoder (some m) found found' p q e =
    let same : found ≡ found' = cc in subst P same p
take_connector-holds P false false id encoder mode found found' p q e =
    let same : found ≡ found' = cc in subst P same p

pub encoders_loop-holds :
    (P : ℕ → Type 0) (id : ℕ) (es : List Encoder) (before : ℕ)
    → P before
    → All (λ e. e.encoder_id ≡ id → P e.crtc_id) es
    → P (encoders_loop id es before)
unfolding encoders_loop
encoders_loop-holds P id [] before p all = p
encoders_loop-holds P id (e ∷ es) before p (q, all) = elim (Bool-cases (e.encoder_id == id)) [
  | inl same ↦
      encoders_loop-holds P id es _
        (subst P (sym (if_true _ _ _ same)) (q ((==_iff e.encoder_id id).0 same))) all
  | inr other ↦ encoders_loop-holds P id es _ (subst P (sym (if_false _ _ _ other)) p) all
]

pub crtcs_loop-holds :
    (P : Call → Type 0) (found : Composite) (id : ℕ) (cs : List Crtc)
    → All (λ c. c.crtc_id ≡ id → P (Call.set_crtc id c.buffer_id found.connector_id found.mode)) cs
    → All P (crtcs_loop found id cs)
unfolding crtcs_loop
crtcs_loop-holds P found id [] all = _
crtcs_loop-holds P found id (c ∷ cs) (q, all) = elim (Bool-cases (c.crtc_id == id)) [
  | inl same ↦
      All-append P _ _
        (subst (All P) (sym (if_true _ _ _ same)) (q ((==_iff c.crtc_id id).0 same), _))
        (crtcs_loop-holds P found id cs all)
  | inr other ↦
      All-append P _ _ (subst (All P) (sym (if_false _ _ _ other)) _)
        (crtcs_loop-holds P found id cs all)
]

pub clear_loop-holds :
    (P : Call → Type 0)
    → ((plane : ℕ) → P (Call.disable_plane plane))
    → (ps : List (Option ActivePlane)) → All P (clear_loop ps)
unfolding clear_loop
clear_loop-holds P q [] = _
clear_loop-holds P q (none ∷ ps) = clear_loop-holds P q ps
clear_loop-holds P q (some p ∷ ps) =
    All-append P _ _ (if_both (All P) (p.fb_id == 0) _ _ _ (q p.plane_id, _))
      (clear_loop-holds P q ps)
