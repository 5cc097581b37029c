-- ===== src/Examples/Threads.antt =====
-- Thread pools of one and two threads.
use macsad.Prelude.{
  ℕ, ◌≡◌, ◌<◌, ◌^◌, ◌+◌, true, false, none, some, List, [], ◌∷◌, refl, arith, length, ◌==◌,
  if◌then◌else◌, Apart, Distinct,
}
use macsad.Prelude.Int.{pos}
use macsad.Threadpool.{Work, ThreadPool, Granted, create_threadpool}
use macsad.Threadpool.Queue.{Linked, IsQueue}
use macsad.Threadpool.Refine.{IsOpen, dispatch-refines}
use macsad.Threadpool.Workers.{
  Worker, ready, unlocked, blocked, System, Event, dispatched, quiet, IsFresh, Apart-IsFresh, Run,
  done, then_step, dispatch_quietly, dispatched_in, taken_in,
}
use macsad.Threadpool.Stuck.{IsUnwoken, IsStuck, Run-Stuck}
use macsad.Threadpool.Alone.{IsDrained, do_work-drains, dispatch-Missed}

abbrev junk : ℕ → Work
junk y = record { routine = 165; arg = 165; next = some 165 }

-- Everything but the second of the threads.
abbrev first_only : Granted
first_only = record {
  pool_allocated = true;
  threads_allocated = true;
  lock_made = true;
  empty_made = true;
  not_empty_made = true;
  thread_made = λ i. i == 0;
}

abbrev start : ThreadPool
start = record {
  works = junk;
  num_threads = 1;
  qsize = 0;
  qhead = none;
  qtail = none;
  qlock = false;
  shutdown = false;
  dont_accept = false;
}

start-IsQueue : IsQueue start []
unfolding Linked Distinct
start-IsQueue = record {
  linked = refl;
  ends = refl;
  size = refl;
  small = omega arith;
  distinct = tt;
}

start-IsOpen : IsOpen start
start-IsOpen = record { free = refl; running = refl; accepts = refl }

start-created :
    create_threadpool (record first_only { thread_made = λ i. true }) junk (pos 1) ≡ (some start, 1)
unfolding create_threadpool
start-created = refl

abbrev two_works : ℕ → Work
two_works y =
    if y == 7
    then record { routine = 1; arg = 10; next = some 8 }
    else record { routine = 2; arg = 20; next = none }

abbrev two_queued : ThreadPool
two_queued = record start { works = two_works; qsize = 2; qhead = some 7; qtail = some 8 }

two_queued-IsQueue : IsQueue two_queued (7 ∷ 8 ∷ [])
unfolding Linked Distinct Apart
two_queued-IsQueue = record {
  linked = (refl, (refl, refl));
  ends = refl;
  size = refl;
  small = omega arith;
  distinct = (((λ e. omega arith), tt), (tt, tt));
}

two_queued-IsOpen : IsOpen two_queued
two_queued-IsOpen = record { free = refl; running = refl; accepts = refl }

nine-Apart : Apart 9 (7 ∷ 8 ∷ [])
unfolding Apart
nine-Apart = ((λ e. omega arith), ((λ e. omega arith), tt))

abbrev two_ready : System
two_ready = record { pool = two_queued; worker = λ i. ready; wait_releases_nothing = true }

do_work-drains_example : IsDrained 3 2 two_ready ((1, 10) ∷ (2, 20) ∷ [])
do_work-drains_example =
    do_work-drains 2 two_ready (7 ∷ 8 ∷ []) (omega arith) two_queued-IsQueue two_queued-IsOpen refl

nine-IsFresh : IsFresh two_queued 9
nine-IsFresh = Apart-IsFresh two_queued 9 (7 ∷ 8 ∷ []) two_queued-IsQueue.linked nine-Apart

abbrev nine_dispatched : List Event
nine_dispatched = dispatched (3, 30) ∷ []

nine_run :
    (worker : ℕ → Worker)
    → (t : System) × Run 3
        (record { pool = two_queued; worker = worker; wait_releases_nothing = true })
        (dispatched (3, 30) ∷ [])
        t
nine_run worker =
    let (pool', e, r) =
      dispatch-refines two_queued (7 ∷ 8 ∷ []) 9 3 30 two_queued-IsQueue two_queued-IsOpen
        nine-Apart (omega arith) in
    (
      record { pool = pool'; worker = worker; wait_releases_nothing = true },
      then_step (dispatch_quietly 9 3 30 refl nine-IsFresh e) done,
    )

abbrev two_blocked : System
two_blocked = record { pool = two_queued; worker = λ i. blocked; wait_releases_nothing = true }

two_blocked-IsStuck : IsStuck 3 two_blocked 2
two_blocked-IsStuck = record {
  works = 7 ∷ 8 ∷ [];
  queue = two_queued-IsQueue;
  opened = two_queued-IsOpen;
  queued = omega arith;
  counted = refl;
  asleep = λ i h. refl;
}

Run-Stuck_example :
    (taken_in nine_dispatched ≡ [])
    × (length (dispatched_in nine_dispatched) ≡ 1)
    × IsStuck 3 (nine_run (λ i. blocked)).0 3
unfolding IsUnwoken
Run-Stuck_example = Run-Stuck (nine_run (λ i. blocked)).1 two_blocked-IsStuck tt (omega arith)

abbrev waiting_one : System
waiting_one = record { pool = start; worker = λ i. unlocked; wait_releases_nothing = true }

start-IsFresh : (y : ℕ) → IsFresh start y
unfolding IsFresh Linked Apart
start-IsFresh y [] l = tt
start-IsFresh y (x ∷ xs) (h, l) = absurd (cc h)

dispatch-Missed_example :
    (t : System) × Run 1 waiting_one (dispatched (1, 10) ∷ quiet ∷ []) t
    × ((es : List Event) (u : System)
        → Run 1 t es u
        → IsUnwoken es
        → 1 + length es < 2 ^ 32
        → taken_in es ≡ [])
dispatch-Missed_example =
    dispatch-Missed waiting_one 5 1 10 start-IsQueue start-IsOpen (start-IsFresh 5) refl refl
