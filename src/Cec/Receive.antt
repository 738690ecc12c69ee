-- ===== src/Cec/Receive.antt =====
-- src/cec_controls.c, `int_ioctl` and `rx_loop`. The kernel's answers in one round of the loop are
-- an argument: the result of `select`, whether it found the adapter readable, and what CEC_RECEIVE
-- gives. The part of a round that reads an event prints it and goes on, whatever the answer.
use camview_opipc.Base.{
  ℕ, ◌≡◌, refl, Bool, true, false, ◌&&◌, ◌||◌, ◌⊎◌, ◌/◌, Option, none, some, List, [], ◌∷◌, arith,
  ◌==◌, if◌then◌else◌, inl, inr, not, get_or_zero,
}
use camview_opipc.Cec.Queue.{Message, read_message}

-- ENODEV, and CEC_LOG_ADDR_TV
abbrev pub enodev : ℕ
enodev = 19

abbrev pub tv_addr : ℕ
tv_addr = 0

-- The bytes of a `struct cec_msg`, and its length.
pub record CecMsg : Type 0 where
  pub msg : List ℕ
  pub len : ℕ

-- An ioctl returns 0, or fails with an `errno`.
pub data Answer : Type 0 where
  succeeds : Answer
  fails : (errno : ℕ) → Answer

pub int_ioctl : Answer → ℕ
int_ioctl succeeds = 0
int_ioctl (fails errno) = errno

pub record Round : Type 0 where
  pub select_failed : Bool
  pub readable : Bool
  pub receive : Answer
  pub received : CecMsg

-- `cec_msg_initiator`: the high half of the first byte.
abbrev pub initiator : CecMsg → ℕ
initiator m = get_or_zero m.msg 0 / 16

-- What a round does: it ends the loop, or goes on, having added a message or not.
pub data Effect : Type 0 where
  stops : Effect
  goes_on : Option Message → Effect

pub rx_round : Round → Effect
unfolding int_ioctl read_message
rx_round r =
    let res = int_ioctl r.receive in
    if r.select_failed
    then stops
    else if not r.readable
    then goes_on none
    else if res == enodev
    then stops
    else if not (res == 0)
    then goes_on none
    else if not (initiator r.received == tv_addr)
    then goes_on none
    else goes_on (some (read_message r.received.msg r.received.len))

-- The messages that the loop adds in the rounds that it is given, while `rx_run` holds.
pub rx_loop : List Round → List Message
unfolding rx_round
rx_loop [] = []
rx_loop (r ∷ rs) = elim (rx_round r) [
  | stops ↦ []
  | goes_on none ↦ rx_loop rs
  | goes_on (some m) ↦ m ∷ rx_loop rs
]

abbrev is_gone : Answer → Bool
is_gone succeeds = false
is_gone (fails e) = e == enodev

abbrev is_success : Answer → Bool
is_success succeeds = true
is_success (fails e) = e == 0

-- A round that ends the loop: `select` fails, or the adapter is gone.
abbrev pub is_fatal : Round → Bool
is_fatal r = r.select_failed || (r.readable && is_gone r.receive)

-- A round that receives a message from the television.
abbrev pub has_message : Round → Bool
has_message r = r.readable && is_success r.receive && (initiator r.received == tv_addr)

-- The rounds before the first fatal one.
abbrev pub before_fatal : List Round → List Round
before_fatal [] = []
before_fatal (r ∷ rs) = if is_fatal r then [] else r ∷ before_fatal rs

abbrev pub tv_messages : List Round → List Message
tv_messages [] = []
tv_messages (r ∷ rs) =
    if has_message r
    then read_message r.received.msg r.received.len ∷ tv_messages rs
    else tv_messages rs

-- The loop adds, in order, the messages that come from the television before `select` fails or the
-- adapter is gone, and no other.
pub rx_loop-eq : (rs : List Round) → rx_loop rs ≡ tv_messages (before_fatal rs)
unfolding rx_loop
rx_loop-eq [] = refl
rx_loop-eq (r ∷ rs) = ground (arith, rx_loop-eq rs, split r.receive)
  where
    split : (a : Answer) → (a ≡ succeeds) ⊎ ((e : ℕ) × (a ≡ fails e))
    split succeeds = inl refl
    split (fails e) = inr (e, refl)
