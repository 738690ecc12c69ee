-- ===== src/Display/Buffers.antt =====
-- src/display.c: how `init_display` creates and maps the three frame buffers and how
-- `deallocate_buffers` gives them back. A return of the driver is `none` for an error, which
-- leaves the variable of the program 0. The address that a mapping that failed has is not 0, and
-- painting there is undefined behaviour.
pub mod Balance
mod Tests
use camview_opipc.Base.{
  ℕ, zero, suc, ◌+◌, Bool, true, false, Option, none, some, List, [], ◌∷◌, ◌++◌, ◌==◌,
  if◌then◌else◌, ◌>>=◌,
}

-- The variables of a buffer: `data.handle`, `buf_id`, `buf_fd` and `buffer_map`.
pub record Buffer : Type 0 where
  pub handle : ℕ
  pub buf_id : ℕ
  pub buf_fd : ℕ
  pub buffer_map : ℕ

pub record Buffers : Type 0 where
  pub first : Buffer
  pub second : Buffer
  pub third : Buffer

-- What the driver answers for one buffer; `mmap` is `none` for `MAP_FAILED`.
pub record Answers : Type 0 where
  pub gem_create : Option ℕ
  pub add_fb2 : Option ℕ
  pub prime : Option ℕ
  pub mmap : Option ℕ

pub data Resource : Type 0 where
  gem framebuffer descriptor mapping : ℕ → Resource

abbrev pub or_zero : Option ℕ → ℕ
or_zero none = 0
or_zero (some n) = n

-- `none` is undefined behaviour.
unfoldable pub create_buffer : Answers → Option Buffer
create_buffer a = do
  address ← a.mmap
  some (record {
    handle = or_zero a.gem_create;
    buf_id = or_zero a.add_fb2;
    buf_fd = or_zero a.prime;
    buffer_map = address;
  })

pub data Outcome : Type 0 where
  undefined exits : Outcome
  shows : Buffers → Outcome

unfoldable pub three_buffers : Answers → Answers → Answers → Option Buffers
unfolding create_buffer
three_buffers a b c = do
  first ← create_buffer a
  second ← create_buffer b
  third ← create_buffer c
  some (record { first = first; second = second; third = third })

-- The end of `init_display`; `thread` tells if `pthread_create` succeeds.
unfoldable pub start_thread : (thread : Bool) → Option Buffers → Outcome
start_thread thread none = Outcome.undefined
start_thread thread (some bs) =
    if bs.first.buf_id == 0
    then Outcome.exits
    else if thread
    then Outcome.shows bs
    else Outcome.exits

-- The part of `init_display` from the first buffer on.
unfoldable pub create_buffers : (thread : Bool) → Answers → Answers → Answers → Outcome
unfolding three_buffers start_thread
create_buffers thread a b c = start_thread thread (three_buffers a b c)

-- A call that is made only when the variable is not 0.
unfoldable pub unless_zero : (ℕ → Resource) → ℕ → List Resource
unless_zero make n = if n == 0 then [] else make n ∷ []

unfoldable pub release_ids : Buffer → List Resource
unfolding unless_zero
release_ids b = unless_zero Resource.framebuffer b.buf_id ++ unless_zero Resource.gem b.handle

-- The calls, and the variables, which keep their values.
unfoldable pub deallocate_buffers : Buffers → List Resource × Buffers
unfolding release_ids
deallocate_buffers bs = (
  unless_zero Resource.mapping bs.first.buffer_map
      ++ (unless_zero Resource.mapping bs.second.buffer_map
          ++ (unless_zero Resource.mapping bs.third.buffer_map
              ++ (Resource.descriptor bs.first.buf_fd
                  ∷ Resource.descriptor bs.second.buf_fd
                  ∷ Resource.descriptor bs.third.buf_fd
                  ∷ (release_ids bs.first ++ (release_ids bs.second ++ release_ids bs.third))))),
  bs,
)
