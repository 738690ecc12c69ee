-- ===== src/Cec/Adapter.antt =====
-- `init_cec_controls` and `stop_cec_controls` of src/cec_controls.c with what they call. The answers of
-- the kernel are a record, and the requests are a list. The numbers of messages and flags are those
-- of the kernel's headers and are left out of the requests.
pub mod Sessions
mod Tests
use camview_opipc.Base.{
  ℕ, Bool, true, false, Option, none, some, List, [], ◌∷◌, ◌++◌, ◌==◌, if◌then◌else◌,
}
use camview_opipc.Cec.Queue.{Queue, empty}

-- The statics. `cec_fd` is `none` after an `open` that failed, and 0 before the first.
pub record Adapter : Type 0 where
  pub cec_fd : Option ℕ
  pub self_addr : ℕ
  pub rx_thread : ℕ
  pub rx_run : Bool
  pub queue : Queue

-- `log_addrs_cap` tells if the adapter has CEC_CAP_LOG_ADDRS, `tv_answers` if the message to the
-- television is acknowledged, and `thread` is what `pthread_create` gives.
pub record Answers : Type 0 where
  pub opened : Option ℕ
  pub log_addrs_cap : Bool
  pub log_addr : ℕ
  pub tv_answers : Bool
  pub thread : ℕ

pub data Request : Type 0 where
  opens closes : (fd : ℕ) → Request
  closes_invalid : Request
  gets_caps clears_log_addrs sets_log_addrs sets_mode gets_log_addrs sets_nonblock : Request
  polls_tv sends_init_code : (self_addr : ℕ) → Request
  inits_mutex destroys_mutex : Request
  creates joins : (thread : ℕ) → Request

unfoldable pub setup_cec : Answers → List Request
setup_cec a =
    Request.gets_caps
    ∷ (if a.log_addrs_cap then Request.clears_log_addrs ∷ Request.sets_log_addrs ∷ [] else [])

-- `false` is a return of -1.
unfoldable pub detect_devices : Answers → Adapter → Bool × Adapter × List Request
detect_devices a s = (
  a.tv_answers,
  record s { self_addr = a.log_addr },
  Request.gets_log_addrs ∷ Request.polls_tv a.log_addr ∷ [],
)

unfoldable pub send_init_code : Adapter → List Request
send_init_code s = Request.sends_init_code s.self_addr ∷ []

-- `init_cec_controls` from the answer of the television on.
unfoldable pub start_rx : (tv_found : Bool) → (thread : ℕ) → Adapter → Adapter × List Request
unfolding send_init_code
start_rx false thread s = (s, [])
start_rx true thread s = (
  record s { rx_thread = thread; rx_run = true; queue = empty s.queue.heap },
  send_init_code s ++ (Request.sets_nonblock ∷ Request.inits_mutex ∷ Request.creates thread ∷ []),
)

-- `init_cec_controls` from the result of `open` on; a descriptor of 0 counts as a failure.
unfoldable pub with_fd : Option ℕ → Answers → Adapter → Adapter × List Request
unfolding setup_cec detect_devices start_rx
with_fd none a s = (record s { cec_fd = none }, [])
with_fd (some fd) a s =
    let (found, s', detected) = detect_devices a (record s { cec_fd = some fd }) in
    let rest = start_rx found a.thread s' in
    if fd == 0
    then (record s { cec_fd = some fd }, Request.opens fd ∷ [])
    else (rest.0, Request.opens fd ∷ (setup_cec a ++ (Request.sets_mode ∷ (detected ++ rest.1))))

unfoldable pub init_cec_controls : Answers → Adapter → Adapter × List Request
unfolding with_fd
init_cec_controls a s = with_fd a.opened a s

unfoldable pub join_rx : (rx_thread : ℕ) → List Request
join_rx thread = if thread == 0 then [] else Request.joins thread ∷ []

unfoldable pub close_cec : Option ℕ → List Request
close_cec none = Request.closes_invalid ∷ []
close_cec (some fd) = if fd == 0 then [] else Request.closes fd ∷ []

-- `rx_thread` and `cec_fd` keep their values.
unfoldable pub stop_cec_controls : Adapter → Adapter × List Request
unfolding join_rx close_cec
stop_cec_controls s = (
  record s { rx_run = false },
  join_rx s.rx_thread ++ (Request.destroys_mutex ∷ close_cec s.cec_fd),
)

-- The sessions of the program, each from `init_cec_controls` to `stop_cec_controls`.
unfoldable pub sessions : List Answers → Adapter → List Request
unfolding init_cec_controls stop_cec_controls
sessions [] s = []
sessions (a ∷ answers) s =
    let (started, begin) = init_cec_controls a s in
    let (stopped, end) = stop_cec_controls started in begin ++ (end ++ sessions answers stopped)
