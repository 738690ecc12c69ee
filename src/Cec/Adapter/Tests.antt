-- ===== src/Cec/Adapter/Tests.antt =====
-- Two sessions with a television, and one without.
use camview_opipc.Base.{ℕ, ◌≡◌, refl, Bool, true, false, none, some, List, [], ◌∷◌, arith, ◌≤◌}
use camview_opipc.Cec.Queue.{Node, empty}
use camview_opipc.Cec.Adapter.{Adapter, Answers, Request, sessions}
use camview_opipc.Cec.Adapter.Sessions.{
  count, opens_fd, closes_fd, creates_thread, joins_thread, sessions-balanced,
}

abbrev no_node : Node
no_node = record {
  message = record { code = 0; data1 = 0; data2 = 0; has_data2 = false };
  next = 0;
}

abbrev at_start : Adapter
at_start = record {
  cec_fd = some 0;
  self_addr = 0;
  rx_thread = 0;
  rx_run = false;
  queue = empty (λ n. no_node);
}

abbrev answers : (fd thread : ℕ) (tv : Bool) → Answers
answers fd thread tv = record {
  opened = some fd;
  log_addrs_cap = true;
  log_addr = 1;
  tv_answers = tv;
  thread = thread;
}

-- Without a television the receiving thread of the session before is joined again.
joins_again :
    sessions (answers 5 77 true ∷ answers 6 0 false ∷ []) at_start
    ≡ Request.opens 5
      ∷ Request.gets_caps
      ∷ Request.clears_log_addrs
      ∷ Request.sets_log_addrs
      ∷ Request.sets_mode
      ∷ Request.gets_log_addrs
      ∷ Request.polls_tv 1
      ∷ Request.sends_init_code 1
      ∷ Request.sets_nonblock
      ∷ Request.inits_mutex
      ∷ Request.creates 77
      ∷ Request.joins 77
      ∷ Request.destroys_mutex
      ∷ Request.closes 5
      ∷ Request.opens 6
      ∷ Request.gets_caps
      ∷ Request.clears_log_addrs
      ∷ Request.sets_log_addrs
      ∷ Request.sets_mode
      ∷ Request.gets_log_addrs
      ∷ Request.polls_tv 1
      ∷ Request.joins 77
      ∷ Request.destroys_mutex
      ∷ Request.closes 6
      ∷ []
unfolding sessions
joins_again = refl

-- A television, none, a descriptor that cannot be opened, and a television again.
abbrev four : List Answers
four =
    answers 5 77 true
    ∷ answers 6 0 false
    ∷ record (answers 0 0 false) { opened = none }
    ∷ answers 5 78 true
    ∷ []

sessions-balanced_example :
    (count (opens_fd 5) (sessions four at_start) ≡ count (closes_fd 5) (sessions four at_start))
    × (count (creates_thread 5) (sessions four at_start)
        ≤ count (joins_thread 5) (sessions four at_start))
sessions-balanced_example = sessions-balanced 5 four at_start (omega arith)
