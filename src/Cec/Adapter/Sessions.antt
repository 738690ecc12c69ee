-- ===== src/Cec/Adapter/Sessions.antt =====
-- What the sessions of src/cec_controls.c open and create, they close and join.
use camview_opipc.Base.{
  ℕ, ◌+◌, ◌≡◌, ◌≢◌, ◌≤◌, refl, Bool, false, Option, none, some, List, [], ◌∷◌, ◌++◌, ◌==◌,
  if◌then◌else◌, arith, Bool-cases, inl, inr,
}
use camview_opipc.Cec.Adapter.{
  Adapter, Answers, Request, setup_cec, detect_devices, send_init_code, start_rx, with_fd,
  init_cec_controls, join_rx, close_cec, stop_cec_controls, sessions,
}

abbrev pub opens_fd : ℕ → Request → Bool
opens_fd q (Request.opens fd) = fd == q
opens_fd q r = false

abbrev pub closes_fd : ℕ → Request → Bool
closes_fd q (Request.closes fd) = fd == q
closes_fd q r = false

abbrev pub creates_thread : ℕ → Request → Bool
creates_thread q (Request.creates t) = t == q
creates_thread q r = false

abbrev pub joins_thread : ℕ → Request → Bool
joins_thread q (Request.joins t) = t == q
joins_thread q r = false

unfoldable pub count : (Request → Bool) → List Request → ℕ
count p [] = 0
count p (r ∷ rs) = (if p r then 1 else 0) + count p rs

count-nil : (p : Request → Bool) → count p [] ≡ 0
unfolding count
count-nil p = refl

count-append :
    (p : Request → Bool) (xs ys : List Request) → count p (xs ++ ys) ≡ count p xs + count p ys
unfolding count
count-append p [] ys = omega arith
count-append p (x ∷ xs) ys = omega (arith, count-append p xs ys)

-- The requests of one session, from the result of `open` on.
abbrev begins : Option ℕ → Answers → Adapter → List Request
begins o a s = (with_fd o a s).1

abbrev ends : Option ℕ → Answers → Adapter → List Request
ends o a s = (stop_cec_controls (with_fd o a s).0).1

-- What the requests of a session do to the descriptor and the thread `q`.
record IsEven (q : ℕ) (begin end : List Request) : Type 0 where
  fds :
      count (opens_fd q) begin + count (opens_fd q) end
      ≡ count (closes_fd q) begin + count (closes_fd q) end
  threads :
      count (creates_thread q) begin + count (creates_thread q) end
      ≤ count (joins_thread q) begin + count (joins_thread q) end

with_fd-IsEven :
    (q : ℕ) (o : Option ℕ) (a : Answers) (s : Adapter)
    → q ≢ 0
    → IsEven q (begins o a s) (ends o a s)
unfolding with_fd detect_devices start_rx setup_cec send_init_code stop_cec_controls join_rx
    close_cec count
with_fd-IsEven q none a s ne = record { fds = ground arith; threads = ground arith }
with_fd-IsEven q (some fd) a s ne = elim (Bool-cases (fd == 0)) [
  | inl zero_fd ↦ rw zero_fd (record { fds = ground arith; threads = ground arith })
  | inr good ↦ elim (Bool-cases a.tv_answers) [
    | inl tv ↦ elim (Bool-cases a.log_addrs_cap) [
      | inl cap ↦ rw (good, tv, cap) (record { fds = ground arith; threads = ground arith })
      | inr cap ↦ rw (good, tv, cap) (record { fds = ground arith; threads = ground arith })
    ]
    | inr tv ↦ elim (Bool-cases a.log_addrs_cap) [
      | inl cap ↦ rw (good, tv, cap) (record { fds = ground arith; threads = ground arith })
      | inr cap ↦ rw (good, tv, cap) (record { fds = ground arith; threads = ground arith })
    ]
  ]
]

-- Whatever the kernel and the television answer in the sessions, each descriptor but 0 is closed as
-- often as it is opened, and each receiving thread is joined at least as often as it is created.
pub sessions-balanced :
    (q : ℕ) (answers : List Answers) (s : Adapter)
    → q ≢ 0
    → (count (opens_fd q) (sessions answers s) ≡ count (closes_fd q) (sessions answers s))
      × (count (creates_thread q) (sessions answers s)
          ≤ count (joins_thread q) (sessions answers s))
unfolding sessions init_cec_controls count
sessions-balanced q [] s ne = (refl, omega arith)
sessions-balanced q (a ∷ answers) s ne =
    let even = with_fd-IsEven q a.opened a s ne in
    let (fds, threads) =
      sessions-balanced q answers (stop_cec_controls (with_fd a.opened a s).0).0 ne in
    (omega (arith, count-append, even.fds, fds), omega (arith, count-append, even.threads, threads))
