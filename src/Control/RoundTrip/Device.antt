-- ===== src/Control/RoundTrip/Device.antt =====
-- The controls of the camera, written and read back.
use Prim.Native.String.{String}
use text.Mathlib.Text.{◌==◌ as str_eq}
use mathlib.Core.Path.{subst}
use mathlib.Core.List.{append-nil, append_assoc}
use camview_opipc.Base.{
  ℕ, zero, suc, ◌+◌, ◌≡◌, ◌≢◌, refl, sym, ◌∙◌, ap, false, none, some, List, [], ◌∷◌, ◌++◌,
  Bool-cases, Option-cases, inl, inr, ◌==◌, ne_of_test, arith, All, All-append,
}
use camview_opipc.Base.Int.{ℤ}
use camview_opipc.Control.{JsonLib, Driver, QueryCtrl}
use camview_opipc.Control.Set.{should_set, set_control}
use camview_opipc.Control.Set.Settle.{unchanged, should_set-same, set_loop_calm}
use camview_opipc.Control.Write.{
  control_type_name, is_menu, add_value, ctrl_json, add_ctrl, ctrls_loop, get_menu_ctrls_json,
  get_device_ctrls_json_array,
}
use camview_opipc.Control.Read.{read_control, read_loop, read_device_controls}
use camview_opipc.Control.RoundTrip.Json.{JsonLaws}

-- No two controls of the camera have the same name.
abbrev pub DistinctNames : (d : Driver) → d.S → Type 0
DistinctNames d s =
    (i j : ℕ)
    → (q q' : QueryCtrl) → i ≢ j
    → d.query s i ≡ some q
    → d.query s j ≡ some q'
    → str_eq q'.name q.name ≡ false

module _ (l : JsonLib) (law : JsonLaws l) (d : Driver) (fuel : ℕ) (s : d.S) where
  open l use {J, object_add, object_get, new_int, new_string, new_object}
  open d use {query, g_ctrl}

  get-ctrl_json :
      (i : ℕ)
      → (q : QueryCtrl) → (type : String)
      → (object_get (some (ctrl_json l d fuel s i q type)) "ctrlName" ≡ some (new_string q.name))
        × ((v : ℤ)
            → g_ctrl s i ≡ some v
            → object_get (some (ctrl_json l d fuel s i q type)) "ctrlValue" ≡ some (new_int v))
  unfolding ctrl_json add_value
  get-ctrl_json i q type =
      let named = object_add new_object "ctrlName" (new_string q.name) in
      let to_max = object_add named "ctrlMax" (new_int q.maximum) in
      let to_min = object_add to_max "ctrlMin" (new_int q.minimum) in
      let to_step = object_add to_min "ctrlStep" (new_int q.step) in
      let to_default = object_add to_step "ctrlDefault" (new_int q.default_value) in
      let typed = object_add to_default "ctrlType" (new_string type) in
      let valued = add_value l d (g_ctrl s i) typed in
      let menu = get_menu_ctrls_json l d fuel s i q.type in
      let name_typed : object_get (some typed) "ctrlName" ≡ some (new_string q.name) =
        law.get_other to_default (new_string type) "ctrlType" "ctrlName" refl
        ∙ law.get_other to_step (new_int q.default_value) "ctrlDefault" "ctrlName" refl
        ∙ law.get_other to_min (new_int q.step) "ctrlStep" "ctrlName" refl
        ∙ law.get_other to_max (new_int q.minimum) "ctrlMin" "ctrlName" refl
        ∙ law.get_other named (new_int q.maximum) "ctrlMax" "ctrlName" refl
        ∙ law.get_added new_object (new_string q.name) "ctrlName" in
      let name_valued : object_get (some valued) "ctrlName" ≡ some (new_string q.name) =
        elim (Option-cases (g_ctrl s i)) [
          | inl e ↦ rw e name_typed
          | inr (v, e) ↦
              rw e (law.get_other typed (new_int v) "ctrlValue" "ctrlName" refl ∙ name_typed)
        ] in
      elim (Bool-cases (is_menu q.type)) [
        | inl e ↦ rw e (
          law.get_other valued menu "ctrlMenu" "ctrlName" refl ∙ name_valued,
          λ v h.
              law.get_other valued menu "ctrlMenu" "ctrlValue" refl
              ∙ rw h (law.get_added typed (new_int v) "ctrlValue"),
        )
        | inr e ↦ rw e (name_valued, λ v h. rw h (law.get_added typed (new_int v) "ctrlValue"))
      ]

  unreadable : (name : String) → (v : ℤ) → (q : QueryCtrl) → should_set name v (some q) none ≡ false
  unfolding should_set
  unreadable name v q = refl

  should_set_other :
      (name : String)
      → (v : ℤ) → (i : ℕ) → (q : QueryCtrl) → query s i ≡ some q
      → q.name ≡ name
      → DistinctNames d s
      → (j : ℕ) → i ≢ j
      → should_set name v (query s j) (g_ctrl s j) ≡ false
  unfolding should_set
  should_set_other name v i q e n distinct j ne = elim (Option-cases (query s j)) [
    | inl e' ↦ rw e' refl
    | inr (q', e') ↦ elim (Option-cases (g_ctrl s j)) [
      | inl g ↦ rw (e', g) refl
      | inr (w, g) ↦ rw (e', g, sym n, distinct i j q q' ne e e') refl
    ]
  ]

  module _ (cast : String → ℤ → ℤ) (distinct : DistinctNames d s) where
    set_control-written :
        (i : ℕ)
        → (q : QueryCtrl) → (v : ℤ) → query s i ≡ some q
        → should_set q.name v (query s i) (g_ctrl s i) ≡ false
        → set_control d q.name v s ≡ unchanged s
    unfolding set_control
    set_control-written i q v e here = set_loop_calm d q.name v d.count d.base s (λ j le lt.
        elim (Bool-cases (i == j)) [
          | inl t ↦
              let same : i ≡ j = ground arith in
              subst (λ k. should_set q.name v (query s k) (g_ctrl s k) ≡ false) same here
          | inr t ↦ should_set_other q.name v i q e refl distinct j (ne_of_test i j t)
        ])

    read_control-same :
        (ctrl name : l.J)
        → (i : ℕ) → (q : QueryCtrl) → query s i ≡ some q
        → object_get (some ctrl) "ctrlName" ≡ some name
        → l.get_string (some name) ≡ some q.name
        → should_set q.name
            (l.get_int (object_get (some ctrl) "ctrlValue"))
            (query s i)
            (g_ctrl s i)
          ≡ false
        → read_control l cast d ctrl s ≡ some (unchanged s)
    unfolding read_control
    read_control-same ctrl name i q e n str here =
        rw (read_control, n, str)
          (ap some
            (set_control-written i q (l.get_int (object_get (some ctrl) "ctrlValue")) e here))

    pub read_control-ctrl_json :
        (i : ℕ)
        → (q : QueryCtrl) → (type : String) → query s i ≡ some q
        → read_control l cast d (ctrl_json l d fuel s i q type) s ≡ some (unchanged s)
    read_control-ctrl_json i q type e =
        let (n, value) = get-ctrl_json i q type in
        let json = ctrl_json l d fuel s i q type in
        let v = l.get_int (object_get (some json) "ctrlValue") in
        read_control-same json (new_string q.name) i q e n (law.string q.name)
          (elim (Option-cases (g_ctrl s i)) [
            | inl g ↦ rw (e, g) (unreadable q.name v q)
            | inr (w, g) ↦ rw (g, value w g, law.int w) (should_set-same q.name w (query s i))
          ])

    -- The entries that `ctrls_loop` adds for `n` ids from `id` on.
    abbrev entry : ℕ → List l.J
    entry id = elim (query s id) [
      | none ↦ []
      | some q ↦ elim (control_type_name q.type) [
        | none ↦ []
        | some type ↦ ctrl_json l d fuel s id q type ∷ []
      ]
    ]

    abbrev entries : ℕ → ℕ → List l.J
    entries zero id = []
    entries (suc n) id = entry id ++ entries n (id + 1)

    items-add_ctrl :
        (id : ℕ)
        → (json : l.J)
        → l.items (some (add_ctrl l d fuel s id json)) ≡ l.items (some json) ++ entry id
    unfolding add_ctrl
    items-add_ctrl id json = elim (Option-cases (query s id)) [
      | inl e ↦ rw (add_ctrl, entry, e) (sym (append-nil (l.items (some json))))
      | inr (q, e) ↦ elim (Option-cases (control_type_name q.type)) [
        | inl t ↦ rw (add_ctrl, entry, e, t) (sym (append-nil (l.items (some json))))
        | inr (type, t) ↦
            rw (add_ctrl, entry, e, t) (law.added_item json (ctrl_json l d fuel s id q type))
      ]
    ]

    items-ctrls_loop :
        (n id : ℕ)
        → (json : l.J)
        → l.items (some (ctrls_loop l d fuel s n id json)) ≡ l.items (some json) ++ entries n id
    unfolding ctrls_loop
    items-ctrls_loop zero id json = sym (append-nil (l.items (some json)))
    items-ctrls_loop (suc n) id json =
        items-ctrls_loop n (id + 1) (add_ctrl l d fuel s id json)
        ∙ ap (λ xs. xs ++ entries n (id + 1)) (items-add_ctrl id json)
        ∙ append_assoc (l.items (some json)) (entry id) (entries n (id + 1))

    abbrev IsSame : l.J → Type 0
    IsSame x = read_control l cast d x s ≡ some (unchanged s)

    entry-IsSame : (id : ℕ) → All IsSame (entry id)
    entry-IsSame id = elim (Option-cases (query s id)) [
      | inl e ↦ rw (entry, e) tt
      | inr (q, e) ↦ elim (Option-cases (control_type_name q.type)) [
        | inl t ↦ rw (entry, e, t) tt
        | inr (type, t) ↦ rw (entry, e, t) (read_control-ctrl_json id q type e, tt)
      ]
    ]

    entries-IsSame : (n id : ℕ) → All IsSame (entries n id)
    entries-IsSame zero id = tt
    entries-IsSame (suc n) id =
        All-append IsSame (entry id) (entries n (id + 1)) (entry-IsSame id)
          (entries-IsSame n (id + 1))

    read_loop_same : (xs : List l.J) → All IsSame xs → read_loop l cast d xs s ≡ some (unchanged s)
    unfolding read_loop
    read_loop_same [] all = refl
    read_loop_same (x ∷ xs) (e, es) = rw (e, read_loop_same xs es) refl

    -- Where json-c behaves as documented and no two controls of the camera share a name, reading
    -- the controls that `get_device_ctrls_json_array` wrote makes no call and returns 0.
    pub read_device_controls-get_device_ctrls_json_array :
        read_device_controls l cast d (some (get_device_ctrls_json_array l d fuel s)) s
        ≡ some (unchanged s)
    unfolding read_device_controls get_device_ctrls_json_array
    read_device_controls-get_device_ctrls_json_array =
        let e = items-ctrls_loop d.count d.base l.new_array in
        rw (e, law.no_items)
          (read_loop_same (entries d.count d.base) (entries-IsSame d.count d.base))
