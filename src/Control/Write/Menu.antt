-- ===== src/Control/Write/Menu.antt =====
-- The items of a menu control.
use camview_opipc.Base.{
  ℕ, zero, suc, ◌+◌, ◌≤◌, ◌≡◌, sym, ◌∙◌, ap, none, some, List, [], ◌∷◌, ◌++◌, arith,
}
use camview_opipc.Base.{length}
use camview_opipc.Control.{JsonLib, Driver, CtrlType, QueryMenu}
use camview_opipc.Control.Write.{menu_entry, menu_loop, get_menu_ctrls_json}
use mathlib.Core.List.{append-nil, append_assoc}

module _ (l : JsonLib) (no_items : l.items (some l.new_array) ≡ [])
    (added_item : (a x : l.J) → l.items (some (l.array_add a x)) ≡ l.items (some a) ++ (x ∷ []))
    (d : Driver) (s : d.S) (id : ℕ) (type : CtrlType) where
  -- The entries of the items from `index` on.
  abbrev pub menu_entries : List QueryMenu → ℕ → List l.J
  menu_entries [] index = []
  menu_entries (m ∷ ms) index = menu_entry l m index type ∷ menu_entries ms (index + 1)

  -- The driver answers the items `ms` from `index` on, and fails after them.
  abbrev pub Answers : List QueryMenu → ℕ → Type 0
  Answers [] index = d.query_menu s id index ≡ none
  Answers (m ∷ ms) index = (d.query_menu s id index ≡ some m) × Answers ms (index + 1)

  menu_loop-items :
      (ms : List QueryMenu)
      → (fuel index : ℕ) → (json : l.J) → Answers ms index
      → length ms ≤ fuel
      → l.items (some (menu_loop l d s id type fuel index json))
        ≡ l.items (some json) ++ menu_entries ms index
  unfolding menu_loop
  menu_loop-items [] zero index json e le = sym (append-nil (l.items (some json)))
  menu_loop-items [] (suc fuel) index json e le =
      rw (menu_loop, e) (sym (append-nil (l.items (some json))))
  menu_loop-items (m ∷ ms) zero index json e le = absurd (omega arith)
  menu_loop-items (m ∷ ms) (suc fuel) index json (e, es) le =
      let entry = menu_entry l m index type in
      rw (menu_loop, e)
        (menu_loop-items ms fuel (index + 1) (l.array_add json entry) es (omega arith)
          ∙ ap (λ xs. xs ++ menu_entries ms (index + 1)) (added_item json entry)
          ∙ append_assoc (l.items (some json)) (entry ∷ []) (menu_entries ms (index + 1)))

  -- Where json-c's arrays behave as documented, the array of a menu has one entry for each item that
  -- the driver answers before it first fails, in order, for any fuel of at least their number.
  pub get_menu_ctrls_json-items :
      (ms : List QueryMenu)
      → (fuel : ℕ) → Answers ms 0
      → length ms ≤ fuel
      → l.items (some (get_menu_ctrls_json l d fuel s id type)) ≡ menu_entries ms 0
  unfolding get_menu_ctrls_json
  get_menu_ctrls_json-items ms fuel e le =
      menu_loop-items ms fuel 0 l.new_array e le ∙ ap (λ xs. xs ++ menu_entries ms 0) no_items
