-- ===== src/Threadpool.antt =====
-- threadpool.c: the pool of threads and its queue of work. A `work_t` is named by the number of its
-- address; NULL is `none`. Each function is one critical section of `qlock`.
pub mod Queue
pub mod Refine
pub mod Workers
pub mod Order
pub mod Stuck
pub mod Alone
pub mod Create
use macsad.Prelude.{
  ℕ, zero, suc, ◌+◌, ◌-◌, ◌%◌, ◌^◌, Bool, true, false, Option, none, some, ltb, ◌==◌, if◌then◌else◌,
}
use macsad.Prelude.Int.{ℤ, pos, negsuc}

-- `work_t`; the routine and its argument are addresses.
pub record Work : Type 0 where
  pub routine : ℕ
  pub arg : ℕ
  pub next : Option ℕ

-- `_threadpool`, with the memory of its works. The condition variables and the threads' handles are
-- left out; `qlock` tells whether the mutex is held between two critical sections. An `int` is its
-- bit pattern.
pub record ThreadPool : Type 0 where
  pub works : ℕ → Work
  pub num_threads : ℕ
  pub qsize : ℕ
  pub qhead : Option ℕ
  pub qtail : Option ℕ
  pub qlock : Bool
  pub shutdown : Bool
  pub dont_accept : Bool

-- MAXT_IN_POOL
abbrev pub maxt_in_pool : ℕ
maxt_in_pool = 200

unfoldable pub set_work : (ℕ → Work) → ℕ → Work → ℕ → Work
set_work works x v y = if y == x then v else works y

-- The part of `dispatch` that puts `cur` behind the queue; the Boolean is whether `q_not_empty` is
-- signalled, and `none` the fault of a `qtail` that is NULL.
unfoldable pub enqueue : ThreadPool → ℕ → Option (Bool × ThreadPool)
unfolding set_work
enqueue pool cur =
    let qsize = (pool.qsize + 1) % 2 ^ 32 in
    if pool.qsize == 0
    then some (true, record pool { qhead = some cur; qtail = some cur; qsize = qsize })
    else elim pool.qtail [
      | none ↦ none
      | some t ↦
          let works = set_work pool.works t (record (pool.works t) { next = some cur }) in
          some (false, record pool { works = works; qtail = some cur; qsize = qsize })
    ]

-- `node` is the result of `malloc`. A pool that does not accept work leaves with `qlock` held.
unfoldable pub dispatch : Option ℕ → ℕ → ℕ → ThreadPool → Option (Bool × ThreadPool)
unfolding set_work enqueue
dispatch none dispatch_to_here arg pool = some (false, pool)
dispatch (some cur) dispatch_to_here arg pool =
    let new : Work = record { routine = dispatch_to_here; arg = arg; next = none } in
    let pool' = record pool { works = set_work pool.works cur new } in
    if pool.dont_accept then some (false, record pool' { qlock = true }) else enqueue pool' cur

-- How a critical section of `do_work` ends, with `qlock` given back each time: in `pthread_exit`, in
-- front of `pthread_cond_wait`, or with a routine to call on its argument.
pub data Round : Type 0 where
  exit : Round
  wait : Round
  call : ℕ → ℕ → Round

-- The part of `do_work` that takes the first work. Only the thread that took it reads and frees it.
unfoldable pub take_work : ThreadPool → Option (Round × ThreadPool)
take_work pool = elim pool.qhead [
  | none ↦ none
  | some cur ↦
      let qsize = (pool.qsize + (2 ^ 32 - 1)) % 2 ^ 32 in
      let pool' =
        if qsize == 0
        then record pool { qsize = qsize; qhead = none; qtail = none }
        else record pool { qsize = qsize; qhead = (pool.works cur).next } in
      some (call (pool.works cur).routine (pool.works cur).arg, pool')
]

-- From the test of `qsize` on, with `qlock` held.
unfoldable pub do_work : ThreadPool → Option (Round × ThreadPool)
unfolding take_work
do_work pool =
    if pool.qsize == 0
    then if pool.shutdown then some (exit, pool) else some (wait, pool)
    else take_work pool

-- Behind `pthread_cond_wait`, with `qlock` held.
unfoldable pub do_work_woken : ThreadPool → Option (Round × ThreadPool)
unfolding do_work
do_work_woken pool = if pool.shutdown then some (exit, pool) else do_work pool

-- What the system grants: the two allocations, the mutex, the condition variables, and the i-th
-- thread.
pub record Granted : Type 0 where
  pub pool_allocated : Bool
  pub threads_allocated : Bool
  pub lock_made : Bool
  pub empty_made : Bool
  pub not_empty_made : Bool
  pub thread_made : ℕ → Bool

-- The loop over the threads, of which `n` are left: whether all were made, and how many run.
unfoldable pub make_threads : (ℕ → Bool) → ℕ → ℕ → Bool × ℕ
make_threads made i zero = (true, i)
make_threads made i (suc n) =
    let rest = make_threads made (i + 1) n in if made i then rest else (false, i)

-- The pool as its fields are set before the threads are made.
unfoldable pub empty_pool : (ℕ → Work) → ℕ → ThreadPool
empty_pool works num = record {
  works = works;
  num_threads = num;
  qsize = 0;
  qhead = none;
  qtail = none;
  qlock = false;
  shutdown = false;
  dont_accept = false;
}

-- The result, where `none` is NULL, and the number of threads that run afterwards.
unfoldable pub create_threadpool : Granted → (ℕ → Work) → ℤ → Option ThreadPool × ℕ
unfolding make_threads empty_pool
create_threadpool g works (negsuc n) = (none, 0)
create_threadpool g works (pos num) =
    let threads = make_threads g.thread_made 0 num in
    if num == 0
    then (none, 0)
    else if ltb maxt_in_pool num
    then (none, 0)
    else if g.pool_allocated
    then if g.threads_allocated
      then if g.lock_made
        then if g.empty_made
          then if g.not_empty_made
            then if threads.0 then (some (empty_pool works num), threads.1) else (none, threads.1)
            else (none, 0)
          else (none, 0)
        else (none, 0)
      else (none, 0)
    else (none, 0)
