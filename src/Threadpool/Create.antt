-- ===== src/Threadpool/Create.antt =====
-- threadpool.c: `create_threadpool` and its errors.
use macsad.Prelude.{ℕ, ◌≡◌, ◌<◌, ◌≤◌, Bool, true, false, none, some, Option, [], if◌then◌else◌, ◌⊎◌}
use macsad.Threadpool.{Work, ThreadPool, Granted, make_threads, empty_pool}
use macsad.Threadpool.Queue.{IsQueue}
use macsad.Threadpool.Refine.{IsOpen}

-- An empty and open pool of `num` threads.
pub record IsFreshPool (num : ℕ) (pool : ThreadPool) : Type 0 where
  pub queue : IsQueue pool []
  pub opened : IsOpen pool
  pub threads : pool.num_threads ≡ num

-- The number of threads is allowed, and all that is asked for in front of the threads is granted.
pub record IsGranted (num : ℕ) (g : Granted) : Type 0 where
  pub some_thread : 0 < num
  pub not_too_many : num ≤ 200
  pub pool_given : g.pool_allocated ≡ true
  pub threads_given : g.threads_allocated ≡ true
  pub lock_given : g.lock_made ≡ true
  pub empty_given : g.empty_made ≡ true
  pub not_empty_given : g.not_empty_made ≡ true

unfoldable pub CreateOutcome : Granted → ℕ → Option ThreadPool × ℕ → Type 0
CreateOutcome g num r =
    ((pool : ThreadPool) × (r ≡ (some pool, num))
      × IsFreshPool num pool
      × IsGranted num g
      × ((i : ℕ) → i < num → g.thread_made i ≡ true))
    ⊎ (((r ≡ (none, 0)) × (IsGranted num g → ⊥))
        ⊎ ((i : ℕ) × (r ≡ (none, i))
            × (i < num)
            × IsGranted num g
            × (g.thread_made i ≡ false)
            × ((j : ℕ) → j < i → g.thread_made j ≡ true)))

module _ (g : Granted) (works : ℕ → Work) (num : ℕ) where
  threads : Bool × ℕ
  threads = make_threads g.thread_made 0 num

  -- The last part of `create_threadpool`, with the rest granted.
  last_part : Bool → Option ThreadPool × ℕ
  last_part all = if all then (some (empty_pool works num), threads.1) else (none, threads.1)
