-- ===== src/Cec/Queue.antt =====
-- src/cec_controls.c, `add_message_to_queue` and the removal in `poll_cec_events`: a linked list
-- with a pointer to its last node, in an explicit heap. Both run under `message_queue_mutex`, so a
-- call is one step. Address 0 is NULL; what `malloc` returns is an argument. A freed node is never
-- read again and stays in the heap.
pub mod Linked
pub mod Fifo
use camview_opipc.Base.{
  ℕ, zero, suc, ◌≡◌, Bool, Option, none, some, List, [], ◌∷◌, leb, ◌==◌, if◌then◌else◌, get_or_zero,
}

-- What a `struct message_node` holds beside its link.
pub record Message : Type 0 where
  pub code : ℕ
  pub data1 : ℕ
  pub data2 : ℕ
  pub has_data2 : Bool

pub record Node : Type 0 where
  pub message : Message
  pub next : ℕ

abbrev pub Heap : Type 0
Heap = ℕ → Node

abbrev pub update : Heap → ℕ → Node → Heap
update h a n b = if a == b then n else h b

pub record Queue : Type 0 where
  pub heap : Heap
  pub message_queue_start : ℕ
  pub message_queue_end : ℕ

-- `init_cec_controls`
abbrev pub empty : Heap → Queue
empty h = record { heap = h; message_queue_start = 0; message_queue_end = 0 }

-- The node's fields from `msg->msg`, a buffer of 16 bytes, and `msg->len`.
unfoldable pub read_message : List ℕ → ℕ → Message
read_message msg len = record {
  code = get_or_zero msg 1;
  data1 = get_or_zero msg 2;
  data2 = get_or_zero msg 3;
  has_data2 = leb 4 len;
}

unfoldable pub add_message_to_queue : ℕ → Message → Queue → Queue
add_message_to_queue node m q =
    let h = update q.heap node (record { message = m; next = 0 }) in
    if q.message_queue_end == 0
    then record { heap = h; message_queue_start = node; message_queue_end = node }
    else record q {
      heap =
          update h q.message_queue_end
            (record { message = (h q.message_queue_end).message; next = node });
      message_queue_end = node;
    }

-- The critical section of `poll_cec_events`: the first message, if there is one.
pub take_message : Queue → Option (Message × Queue)
take_message q =
    let first = q.heap q.message_queue_start in
    if q.message_queue_start == 0
    then none
    else some (
      first.message,
      record q {
        message_queue_start = first.next;
        message_queue_end = if first.next == 0 then 0 else q.message_queue_end;
      },
    )
