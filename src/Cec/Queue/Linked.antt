-- ===== src/Cec/Queue/Linked.antt =====
-- What a heap holds from an address on: a list of messages, each in a node of its own.
use camview_opipc.Base.{ℕ, ◌≡◌, ◌≢◌, refl, sym, List, [], ◌∷◌, ◌++◌, arith, All}
use mathlib.Core.Path.{subst}
use camview_opipc.Cec.Queue.{Message, Node, Heap, update}

-- Address and message of each node, in order.
abbrev pub Cells : Type 0
Cells = List (ℕ × Message)

abbrev pub NotAt : ℕ → Cells → Type 0
NotAt a = All (λ c. c.0 ≢ a)

-- From `p` the links lead through the nodes of the cells, at distinct addresses, to NULL.
abbrev pub Linked : Heap → ℕ → Cells → Type 0
Linked h p [] = p ≡ 0
Linked h p ((a, m) ∷ xs) =
    (p ≡ a) × (a ≢ 0) × ((h a).message ≡ m) × NotAt a xs × Linked h (h a).next xs

-- The address of the last node, or NULL.
abbrev pub last : Cells → ℕ
last [] = 0
last ((a, m) ∷ []) = a
last ((a, m) ∷ x ∷ xs) = last (x ∷ xs)

pub Linked-update :
    (h : Heap) (p a : ℕ) (n : Node) (xs : Cells)
    → NotAt a xs
    → Linked h p xs
    → Linked (update h a n) p xs
Linked-update h p a n [] f l = l
Linked-update h p a n ((b, m) ∷ xs) f l =
    let same : update h a n b ≡ h b = ground arith in
    rw same (l.0, l.1, l.2, l.3, Linked-update h (h b).next a n xs f.1 l.4)

pub NotAt-append :
    (a b : ℕ) (m : Message) (xs : Cells) → NotAt a xs → b ≢ a → NotAt a (xs ++ ((b, m) ∷ []))
NotAt-append a b m [] f n = (n, tt)
NotAt-append a b m (x ∷ xs) f n = (f.0, NotAt-append a b m xs f.1 n)

last-ne : (a : ℕ) (x : ℕ × Message) (xs : Cells) → NotAt a (x ∷ xs) → last (x ∷ xs) ≢ a
last-ne a (b, m) [] f = f.0
last-ne a (b, m) (y ∷ ys) f = last-ne a y ys f.1

pub last-ne-zero :
    (h : Heap) (p : ℕ) (x : ℕ × Message) (xs : Cells) → Linked h p (x ∷ xs) → last (x ∷ xs) ≢ 0
last-ne-zero h p (a, m) [] l = l.1
last-ne-zero h p (a, m) (y ∷ ys) l = last-ne-zero h (h a).next y ys l.4

pub last-append : (xs : Cells) (a : ℕ) (m : Message) → last (xs ++ ((a, m) ∷ [])) ≡ a
last-append [] a m = refl
last-append (x ∷ []) a m = refl
last-append (x ∷ y ∷ ys) a m = last-append (y ∷ ys) a m

-- The last node with its link set to `f`.
abbrev pub linked_to : Heap → ℕ → ℕ → Heap
linked_to h e f = update h e (record { message = (h e).message; next = f })

-- Linking the last node to a new one appends the new one.
pub Linked-append :
    (h : Heap) (p f : ℕ) (m : Message) (x : ℕ × Message) (xs : Cells)
    → f ≢ 0
    → NotAt f (x ∷ xs)
    → h f ≡ record { message = m; next = 0 }
    → Linked h p (x ∷ xs)
    → Linked (linked_to h (last (x ∷ xs)) f) p ((x ∷ xs) ++ ((f, m) ∷ []))
Linked-append h p f m (a, n) [] nz out new l =
    let here : linked_to h a f a ≡ record { message = (h a).message; next = f } = ground arith in
    let there : linked_to h a f f ≡ record { message = m; next = 0 } = ground (arith, out.0) in
    rw (here, there) (l.0, l.1, l.2, (λ e. out.0 (sym e), tt), (refl, nz, refl, tt, refl))
Linked-append h p f m (a, n) (y ∷ ys) nz out new l =
    let same : linked_to h (last (y ∷ ys)) f a ≡ h a = ground (arith, last-ne a y ys l.3) in
    rw same (
      l.0,
      l.1,
      l.2,
      NotAt-append a f m (y ∷ ys) l.3 (λ e. out.0 (sym e)),
      Linked-append h (h a).next f m y ys nz out.1 new l.4,
    )

pub Linked-append_at :
    (h : Heap) (p e f : ℕ) (m : Message) (x : ℕ × Message) (xs : Cells)
    → e ≡ last (x ∷ xs)
    → f ≢ 0
    → NotAt f (x ∷ xs)
    → h f ≡ record { message = m; next = 0 }
    → Linked h p (x ∷ xs)
    → Linked (linked_to h e f) p ((x ∷ xs) ++ ((f, m) ∷ []))
Linked-append_at h p e f m x xs q nz out new l =
    subst (λ z. Linked (linked_to h z f) p ((x ∷ xs) ++ ((f, m) ∷ []))) (sym q)
      (Linked-append h p f m x xs nz out new l)
