-- ===== src/Display/Buffers/Tests.antt =====
-- Runs of Display/Buffers; the driver gives no framebuffer for the second buffer.
use camview_opipc.Base.{ℕ, ◌+◌, ◌*◌, ◌≡◌, ◌≢◌, refl, true, Option, none, some, ◌++◌, arith}
use camview_opipc.Display.Buffers.{Answers, Buffer, Buffers, Outcome, Resource, create_buffers}
use camview_opipc.Display.Buffers.Balance.{
  acquired, closings, times, IsSound, times-closings-acquired,
}

abbrev answers : (n : ℕ) → Option ℕ → Answers
answers n fb = record {
  gem_create = some (n + 1);
  add_fb2 = fb;
  prime = some (n + 20);
  mmap = some (n + 4096);
}

abbrev buffer : (n fb : ℕ) → Buffer
buffer n fb = record { handle = n + 1; buf_id = fb; buf_fd = n + 20; buffer_map = n + 4096 }

abbrev buffers : Buffers
buffers = record { first = buffer 0 7; second = buffer 1 0; third = buffer 2 8 }

created_runs :
    create_buffers true (answers 0 (some 7)) (answers 1 none) (answers 2 (some 8))
    ≡ Outcome.shows buffers
unfolding create_buffers
created_runs = refl

no_framebuffer :
    create_buffers true (answers 0 none) (answers 1 none) (answers 2 (some 8)) ≡ Outcome.exits
unfolding create_buffers
no_framebuffer = refl

answers-IsSound : (n : ℕ) (fb : Option ℕ) → ((m : ℕ) → fb ≡ some m → m ≢ 0) → IsSound (answers n fb)
answers-IsSound n fb ne = record {
  gem_ne = λ m e. ground arith;
  fb_ne = ne;
  map_ne = λ m e. ground arith;
  fd = n + 20;
  prime_fd = refl;
}

times-closings-acquired_example :
    times (Resource.gem 2) (closings 2 buffers)
    ≡ 2
      * times (Resource.gem 2) (
          acquired (answers 0 (some 7))
          ++ (acquired (answers 1 none) ++ acquired (answers 2 (some 8))))
times-closings-acquired_example =
    times-closings-acquired true (answers 0 (some 7)) (answers 1 none) (answers 2 (some 8)) buffers
      (answers-IsSound 0 (some 7) (λ m e. ground arith))
      (answers-IsSound 1 none (λ m e. ground arith))
      (answers-IsSound 2 (some 8) (λ m e. ground arith)) created_runs 2 (Resource.gem 2)
