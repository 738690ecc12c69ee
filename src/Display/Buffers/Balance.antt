-- ===== src/Display/Buffers/Balance.antt =====
-- What `init_display` of src/display.c takes from the driver is what `deallocate_buffers` gives back.
use camview_opipc.Base.{
  ℕ, zero, suc, ◌+◌, ◌*◌, ◌≡◌, ◌≢◌, refl, ◌∙◌, sym, ap, Bool, true, false, Option, none, some, List,
  [], ◌∷◌, ◌++◌, ◌==◌, if◌then◌else◌, ◌>>=◌, arith, test_of_ne,
}
use camview_opipc.Display.Buffers.{
  Buffer, Buffers, Answers, Resource, or_zero, create_buffer, Outcome, create_buffers,
  three_buffers, start_thread, unless_zero, release_ids, deallocate_buffers,
}

abbrev pub taken : (ℕ → Resource) → Option ℕ → List Resource
taken make none = []
taken make (some n) = make n ∷ []

-- What the driver has given for a buffer.
unfoldable pub acquired : Answers → List Resource
acquired a =
    taken Resource.gem a.gem_create
    ++ (taken Resource.framebuffer a.add_fb2
        ++ (taken Resource.descriptor a.prime ++ taken Resource.mapping a.mmap))

abbrev pub same : Resource → Resource → Bool
same (Resource.gem n) (Resource.gem m) = n == m
same (Resource.framebuffer n) (Resource.framebuffer m) = n == m
same (Resource.descriptor n) (Resource.descriptor m) = n == m
same (Resource.mapping n) (Resource.mapping m) = n == m
same r s = false

-- How often a resource is in a list.
unfoldable pub times : Resource → List Resource → ℕ
times r [] = 0
times r (s ∷ rs) = (if same r s then 1 else 0) + times r rs

times-append : (r : Resource) (xs ys : List Resource) → times r (xs ++ ys) ≡ times r xs + times r ys
unfolding times
times-append r [] ys = omega arith
times-append r (x ∷ xs) ys = omega (arith, times-append r xs ys)

-- The driver's numbers and the address of a mapping are not 0, and the buffer has a descriptor.
pub record IsSound (a : Answers) : Type 0 where
  pub gem_ne : (n : ℕ) → a.gem_create ≡ some n → n ≢ 0
  pub fb_ne : (n : ℕ) → a.add_fb2 ≡ some n → n ≢ 0
  pub map_ne : (n : ℕ) → a.mmap ≡ some n → n ≢ 0
  pub fd : ℕ
  pub prime_fd : a.prime ≡ some fd

unless_zero-taken :
    (make : ℕ → Resource) (o : Option ℕ)
    → ((n : ℕ) → o ≡ some n → n ≢ 0)
    → unless_zero make (or_zero o) ≡ taken make o
unfolding unless_zero
unless_zero-taken make none ne = refl
unless_zero-taken make (some n) ne = rw (test_of_ne n 0 (ne n refl)) refl

times-cons :
    (r s : Resource) (rs : List Resource)
    → times r (s ∷ rs) ≡ (if same r s then 1 else 0) + times r rs
unfolding times
times-cons r s rs = refl

-- The share of a buffer in what `deallocate_buffers` gives back.
abbrev share : Resource → Buffer → ℕ
share r b =
    times r (unless_zero Resource.mapping b.buffer_map)
    + ((if same r (Resource.descriptor b.buf_fd) then 1 else 0) + times r (release_ids b))

descriptor-taken :
    (r : Resource) (o : Option ℕ) (fd : ℕ)
    → o ≡ some fd
    → (if same r (Resource.descriptor (or_zero o)) then 1 else 0)
      ≡ times r (taken Resource.descriptor o)
unfolding times
descriptor-taken r none fd e = absurd (cc)
descriptor-taken r (some n) fd e = omega arith

-- The variables of a buffer whose mapping has not failed.
abbrev created : Answers → Buffer
created a = record {
  handle = or_zero a.gem_create;
  buf_id = or_zero a.add_fb2;
  buf_fd = or_zero a.prime;
  buffer_map = or_zero a.mmap;
}

mapped :
    (h f d : ℕ) (m : Option ℕ) (b : Buffer)
    → ◌≡◌ {A = Option Buffer}
        (m >>= (λ address.
          some (record { handle = h; buf_id = f; buf_fd = d; buffer_map = address })))
        (some b)
    → ◌≡◌ {A = Buffer} (record { handle = h; buf_id = f; buf_fd = d; buffer_map = or_zero m }) b
mapped h f d none b e = absurd (cc)
mapped h f d (some m) b e = cc

create_buffer-created : (a : Answers) (b : Buffer) → create_buffer a ≡ some b → created a ≡ b
unfolding create_buffer
create_buffer-created a b e =
    mapped (or_zero a.gem_create) (or_zero a.add_fb2) (or_zero a.prime) a.mmap b e

share-created :
    (r : Resource) (a : Answers) → IsSound a → share r (created a) ≡ times r (acquired a)
unfolding release_ids acquired
share-created r a sound =
    let m = ap (times r) (unless_zero-taken Resource.mapping a.mmap sound.map_ne) in
    let f = ap (times r) (unless_zero-taken Resource.framebuffer a.add_fb2 sound.fb_ne) in
    let g = ap (times r) (unless_zero-taken Resource.gem a.gem_create sound.gem_ne) in
    let d = descriptor-taken r a.prime sound.fd sound.prime_fd in omega (arith, times-append)

times-parts :
    (r : Resource) (m1 m2 m3 : List Resource) (d1 d2 d3 : Resource) (i1 i2 i3 : List Resource)
    → times r (m1 ++ (m2 ++ (m3 ++ (d1 ∷ d2 ∷ d3 ∷ (i1 ++ (i2 ++ i3))))))
      ≡ times r m1
        + ((if same r d1 then 1 else 0) + times r i1)
        + (times r m2
            + ((if same r d2 then 1 else 0) + times r i2)
            + (times r m3 + ((if same r d3 then 1 else 0) + times r i3)))
times-parts r m1 m2 m3 d1 d2 d3 i1 i2 i3 = omega (arith, times-append, times-cons)

times-deallocate :
    (r : Resource) (bs : Buffers)
    → times r (deallocate_buffers bs).0 ≡ share r bs.first + (share r bs.second + share r bs.third)
unfolding deallocate_buffers
times-deallocate r bs = times-parts r _ _ _ _ _ _ _ _ _

-- What `deallocate_buffers` gives back when it is called this often.
unfoldable pub closings : ℕ → Buffers → List Resource
closings zero bs = []
closings (suc n) bs = let (calls, next) = deallocate_buffers bs in calls ++ closings n next

times-closings :
    (r : Resource) (n : ℕ) (bs : Buffers)
    → times r (closings n bs) ≡ n * times r (deallocate_buffers bs).0
unfolding closings times deallocate_buffers
times-closings r zero bs = grind arith
times-closings r (suc n) bs =
    let ih = times-closings r n bs in
    let split = times-append r (deallocate_buffers bs).0 (closings n bs) in grind arith

all_some :
    (x y z : Option Buffer) (bs : Buffers)
    → ◌≡◌ {A = Option Buffers}
        (do
          first ← x
          second ← y
          third ← z
          some (record { first = first; second = second; third = third }))
        (some bs)
    → (x ≡ some bs.first) × (y ≡ some bs.second) × (z ≡ some bs.third)
all_some none y z bs e = absurd (cc)
all_some (some x) none z bs e = absurd (cc)
all_some (some x) (some y) none bs e = absurd (cc)
all_some (some x) (some y) (some z) bs e = (cc, cc, cc)

three_buffers-created :
    (a b c : Answers) (bs : Buffers)
    → three_buffers a b c ≡ some bs
    → (created a ≡ bs.first) × (created b ≡ bs.second) × (created c ≡ bs.third)
unfolding three_buffers
three_buffers-created a b c bs e =
    let (x, y, z) = all_some (create_buffer a) (create_buffer b) (create_buffer c) bs e in
    (
      create_buffer-created a bs.first x,
      create_buffer-created b bs.second y,
      create_buffer-created c bs.third z,
    )

start_thread-some :
    (thread : Bool) (o : Option Buffers) (bs : Buffers)
    → start_thread thread o ≡ Outcome.shows bs
    → o ≡ some bs
unfolding start_thread
start_thread-some thread none bs e = absurd (cc)
start_thread-some true (some b) bs e = ground arith
start_thread-some false (some b) bs e = ground arith

-- When `init_display` has shown the buffers, each call of `deallocate_buffers` gives back each resource
-- as often as the driver has given it, the calls after the first as well. The driver answers no
-- number 0, and each buffer has a descriptor.
pub times-closings-acquired :
    (thread : Bool) (a b c : Answers) (bs : Buffers)
    → IsSound a
    → IsSound b
    → IsSound c
    → create_buffers thread a b c ≡ Outcome.shows bs
    → (n : ℕ) (r : Resource)
    → times r (closings n bs) ≡ n * times r (acquired a ++ (acquired b ++ acquired c))
unfolding create_buffers
times-closings-acquired thread a b c bs sound_a sound_b sound_c e n r =
    let (x, y, z) = three_buffers-created a b c bs (start_thread-some thread _ bs e) in
    let sa = ap (share r) (sym x) ∙ share-created r a sound_a in
    let sb = ap (share r) (sym y) ∙ share-created r b sound_b in
    let sc = ap (share r) (sym z) ∙ share-created r c sound_c in
    let all : times r (deallocate_buffers bs).0
        ≡ times r (acquired a ++ (acquired b ++ acquired c)) =
      omega (arith, times-deallocate r bs, times-append) in
    times-closings r n bs ∙ ap (λ m. n * m) all
