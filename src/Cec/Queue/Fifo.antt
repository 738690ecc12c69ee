-- ===== src/Cec/Queue/Fifo.antt =====
-- The message queue refines a first-in first-out list of messages.
use camview_opipc.Base.{
  ℕ, ◌≡◌, ◌≢◌, refl, sym, ap, ◌∙◌, true, false, test_of_ne, Option, none, some, List, [], ◌∷◌, ◌++◌,
  map, arith, ◌==◌, ==_iff,
}
use mathlib.Core.List.{map-append}
use camview_opipc.Cec.Queue.{Message, Node, Heap, update, Queue, add_message_to_queue, take_message}
use camview_opipc.Cec.Queue.Linked.{
  Cells, NotAt, Linked, last, Linked-update, last-ne-zero, last-append, Linked-append_at,
}

pub record IsQueue (q : Queue) (xs : Cells) : Type 0 where
  pub chain : Linked q.heap q.message_queue_start xs
  pub end : q.message_queue_end ≡ last xs

add-cons :
    (q : Queue) (a : ℕ) (m : Message) (x : ℕ × Message) (xs : Cells)
    → a ≢ 0
    → NotAt a (x ∷ xs)
    → IsQueue q (x ∷ xs)
    → IsQueue (add_message_to_queue a m q) ((x ∷ xs) ++ ((a, m) ∷ []))
unfolding add_message_to_queue
add-cons q a m x xs nz f v =
    rw (more, add_message_to_queue)
      (record {
        chain =
            Linked-append_at h q.message_queue_start q.message_queue_end a m x xs v.end nz f
              (ground arith) (Linked-update q.heap q.message_queue_start a new (x ∷ xs) f v.chain);
        end = sym (last-append (x ∷ xs) a m);
      })
  where
    new : Node
    new = record { message = m; next = 0 }

    h : Heap
    h = update q.heap a new

    more : (q.message_queue_end == 0) ≡ false
    more =
        test_of_ne q.message_queue_end 0
          (λ e. last-ne-zero q.heap q.message_queue_start x xs v.chain (sym v.end ∙ e))

-- Adding a message in a node of its own puts it behind all others.
pub add_message_to_queue-append :
    (q : Queue) (a : ℕ) (m : Message) (xs : Cells)
    → a ≢ 0
    → NotAt a xs
    → IsQueue q xs
    → IsQueue (add_message_to_queue a m q) (xs ++ ((a, m) ∷ []))
unfolding add_message_to_queue
add_message_to_queue-append q a m [] nz f v =
    let none_yet : (q.message_queue_end == 0) ≡ true = (==_iff q.message_queue_end 0).1 v.end in
    rw (none_yet, add_message_to_queue) (record { chain = ground arith; end = refl })
add_message_to_queue-append q a m (x ∷ xs) nz f v = add-cons q a m x xs nz f v

pub take_message-nil : (q : Queue) → IsQueue q [] → take_message q ≡ none
unfolding take_message
take_message-nil q v = ground arith

-- The first message is taken, and the others stay in order.
pub take_message-cons :
    (q : Queue) (a : ℕ) (m : Message) (xs : Cells)
    → IsQueue q ((a, m) ∷ xs)
    → (q' : Queue) × (take_message q ≡ some (m, q')) × IsQueue q' xs
unfolding take_message
take_message-cons q a m [] v = (
  record q { message_queue_start = 0; message_queue_end = 0 },
  ground arith,
  record { chain = refl; end = refl },
)
take_message-cons q a m (y ∷ ys) v = (
  record q { message_queue_start = (q.heap a).next },
  ground arith,
  record { chain = v.chain.4; end = v.end },
)

-- What the two threads do to the queue, in the order in which they hold the mutex.
pub data Op : Type 0 where
  adds : (node : ℕ) → Message → Op
  takes : Op

pub run : Queue → List Op → List (Option Message)
run q [] = []
run q (adds a m ∷ ops) = run (add_message_to_queue a m q) ops
run q (takes ∷ ops) = elim (take_message q) [
  | none ↦ none ∷ run q ops
  | some (m, q') ↦ some m ∷ run q' ops
]

-- The same on a list of messages, oldest first.
unfoldable pub run_list : List Message → List Op → List (Option Message)
run_list ms [] = []
run_list ms (adds a m ∷ ops) = run_list (ms ++ (m ∷ [])) ops
run_list [] (takes ∷ ops) = none ∷ run_list [] ops
run_list (m ∷ ms) (takes ∷ ops) = some m ∷ run_list ms ops

abbrev pub messages : Cells → List Message
messages = map (λ c. c.1)

-- `malloc` returns no NULL and no node that is in the queue.
abbrev pub Mallocs : Cells → List Op → Type 0
Mallocs xs [] = Unit
Mallocs xs (adds a m ∷ ops) = (a ≢ 0) × NotAt a xs × Mallocs (xs ++ ((a, m) ∷ [])) ops
Mallocs [] (takes ∷ ops) = Mallocs [] ops
Mallocs (x ∷ xs) (takes ∷ ops) = Mallocs xs ops

-- Any sequence of additions and removals takes the messages that a first-in first-out list would
-- give, if `malloc` returns no NULL and no node that is in the queue.
pub run_refines :
    (q : Queue) (xs : Cells) (ops : List Op)
    → IsQueue q xs
    → Mallocs xs ops
    → run q ops ≡ run_list (messages xs) ops
unfolding run run_list
run_refines q xs [] v f = refl
run_refines q xs (adds a m ∷ ops) v f =
    run_refines (add_message_to_queue a m q) (xs ++ ((a, m) ∷ [])) ops
      (add_message_to_queue-append q a m xs f.0 f.1 v) f.2
    ∙ ap (λ ms. run_list ms ops) (map-append (λ c. c.1) xs ((a, m) ∷ []))
run_refines q [] (takes ∷ ops) v f =
    rw (take_message-nil q v, run) (ap (◌∷◌ none) (run_refines q [] ops v f))
run_refines q ((a, m) ∷ xs) (takes ∷ ops) v f =
    let (q', e, v') = take_message-cons q a m xs v in
    rw (e, run) (ap (◌∷◌ (some m)) (run_refines q' xs ops v' f))
