-- ===== src/Ve/Scan.antt =====
-- The search of `ve_malloc` of src/ve.c ends at a chunk of the very size; it finds what a full search
-- finds.
use camview_opipc.Base.{
  ℕ, suc, ◌≤◌, ◌≡◌, refl, ◌∙◌, inl, inr, Bool, true, ◌&&◌, Option, none, some, List, [], ◌∷◌, leb,
  ◌==◌, if◌then◌else◌, arith, Bool-cases, if_true, if_false,
}
use camview_opipc.Ve.{Chunk, is_free, is_better, best_loop, best_chunk}

-- Whether the chunk is no larger than what is found behind it.
abbrev pub no_larger : ℕ → Option (ℕ × Chunk) → Bool
no_larger size none = true
no_larger size (some (k, c)) = leb size c.size

-- The first of the smallest free chunks that hold `size` bytes, and its place.
unfoldable pub first_smallest : ℕ → ℕ → List Chunk → Option (ℕ × Chunk)
first_smallest size i [] = none
first_smallest size i (c ∷ cs) =
    let rest = first_smallest size (suc i) cs in
    if (is_free c && leb size c.size) && no_larger c.size rest then some (i, c) else rest

-- The second, if it is smaller.
abbrev smaller_of : Option (ℕ × Chunk) → Option (ℕ × Chunk) → Option (ℕ × Chunk)
smaller_of best none = best
smaller_of best (some (k, c)) = if is_better c.size best then some (k, c) else best

abbrev Holds : ℕ → Option (ℕ × Chunk) → Type 0
Holds size none = Unit
Holds size (some (k, c)) = size ≤ c.size

first_smallest-Holds : (size i : ℕ) (cs : List Chunk) → Holds size (first_smallest size i cs)
unfolding first_smallest
first_smallest-Holds size i [] = tt
first_smallest-Holds size i (c ∷ cs) = ground (arith, first_smallest-Holds size (suc i) cs)

-- What the round at a chunk keeps.
abbrev kept : ℕ → ℕ → Chunk → Option (ℕ × Chunk) → Option (ℕ × Chunk)
kept size i c best =
    if (is_free c && leb size c.size) && is_better c.size best then some (i, c) else best

kept-smaller :
    (size i : ℕ) (c : Chunk) (best rest : Option (ℕ × Chunk))
    → smaller_of (kept size i c best) rest
      ≡ smaller_of best
          (if (is_free c && leb size c.size) && no_larger c.size rest then some (i, c) else rest)
kept-smaller size i c none none = ground arith
kept-smaller size i c (some (k, d)) none = ground arith
kept-smaller size i c none (some (m, f)) = ground arith
kept-smaller size i c (some (k, d)) (some (m, f)) = ground arith

-- A chunk of the very size is not improved on.
kept-exact :
    (size i : ℕ) (c : Chunk) (best rest : Option (ℕ × Chunk))
    → ((is_free c && leb size c.size) && (c.size == size)) ≡ true
    → Holds size rest
    → kept size i c best
      ≡ smaller_of best
          (if (is_free c && leb size c.size) && no_larger c.size rest then some (i, c) else rest)
kept-exact size i c none none exact h = ground arith
kept-exact size i c (some (k, d)) none exact h = ground arith
kept-exact size i c none (some (m, f)) exact h = ground arith
kept-exact size i c (some (k, d)) (some (m, f)) exact h = ground arith

best_loop-smallest :
    (size i : ℕ) (best : Option (ℕ × Chunk)) (cs : List Chunk)
    → best_loop size i best cs ≡ smaller_of best (first_smallest size i cs)
unfolding best_loop first_smallest
best_loop-smallest size i best [] = refl
best_loop-smallest size i best (c ∷ cs) =
    let rest = first_smallest size (suc i) cs in
    elim (Bool-cases ((is_free c && leb size c.size) && (c.size == size))) [
      | inl exact ↦
          if_true _ _ _ exact
          ∙ kept-exact size i c best rest exact (first_smallest-Holds size (suc i) cs)
      | inr other ↦
          if_false _ _ _ other
          ∙ best_loop-smallest size (suc i) (kept size i c best) cs
          ∙ kept-smaller size i c best rest
    ]

-- `best_chunk`, which stops at the first chunk of the very size, finds on any list the first of the
-- smallest free chunks that hold the bytes, and nothing if there is none.
pub best_chunk-eq : (size : ℕ) (cs : List Chunk) → best_chunk size cs ≡ first_smallest size 0 cs
unfolding best_chunk
best_chunk-eq size cs = best_loop-smallest size 0 none cs ∙ none-smaller (first_smallest size 0 cs)
  where
    none-smaller : (r : Option (ℕ × Chunk)) → smaller_of none r ≡ r
    none-smaller none = refl
    none-smaller (some (k, c)) = refl
