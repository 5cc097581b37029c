-- ===== src/Threadpool/Refine.antt =====
-- threadpool.c: `dispatch` and `do_work` behave as the two ends of a queue of jobs.
use macsad.Prelude.{
  ℕ, suc, ◌≡◌, ◌∙◌, ◌<◌, ◌+◌, ◌-◌, ◌%◌, ◌^◌, ◌==◌, Bool, true, false, none, some, List, [], ◌∷◌,
  ◌++◌, if◌then◌else◌, refl, sym, ap, ap₂, arith, length, length-append, Apart, Distinct,
}
use macsad.Threadpool.{
  Work, ThreadPool, set_work, enqueue, dispatch, Round, wait, call, take_work, do_work,
}
use macsad.Threadpool.Queue.{
  Linked, Job, job, jobs, IsQueue, set_work-here, Linked-set_work, jobs-set_work, link, jobs-link,
  Linked-snoc, Distinct-snoc, last-snoc, last-cons,
}

-- Nobody is inside a critical section, and the pool neither refuses work nor ends its threads.
pub record IsOpen (pool : ThreadPool) : Type 0 where
  pub free : pool.qlock ≡ false
  pub running : pool.shutdown ≡ false
  pub accepts : pool.dont_accept ≡ false

jobs-snoc :
    (works : ℕ → Work) (xs : List ℕ) (y : ℕ)
    → jobs works (xs ++ y ∷ []) ≡ jobs works xs ++ job works y ∷ []
jobs-snoc works [] y = refl
jobs-snoc works (x ∷ xs) y = ap (λ js. job works x ∷ js) (jobs-snoc works xs y)

pub if_false : {A : Type 0} {b : Bool} (x : A) {y : A} → b ≡ false → (if b then x else y) ≡ y
if_false x h = rw h refl

-- The queue `xs` with the new work `y` behind it.
pub record IsAdded (pool : ThreadPool) (xs : List ℕ) (y : ℕ) (js : List Job) : Type 0 where
  pub queue : IsQueue pool (xs ++ y ∷ [])
  pub content : jobs pool.works (xs ++ y ∷ []) ≡ js
  pub opened : IsOpen pool

module _ (pool : ThreadPool) (y : ℕ) (unlinked : (pool.works y).next ≡ none) (o : IsOpen pool) where
  enqueue-IsAdded :
      (xs : List ℕ)
      → IsQueue pool xs
      → Apart y xs
      → suc (length xs) < 2 ^ 32
      → (pool' : ThreadPool) × (enqueue pool y ≡ some (length xs == 0, pool'))
        × IsAdded pool' xs y (jobs pool.works xs ++ job pool.works y ∷ [])
  unfolding enqueue Linked Distinct
  enqueue-IsAdded [] q a s =
      let first : (pool.qsize == 0) ≡ true = rw q.size refl in
      (
        record pool { qhead = some y; qtail = some y; qsize = (pool.qsize + 1) % 2 ^ 32 },
        rw first refl,
        record {
          queue = record {
            linked = (refl, unlinked);
            ends = refl;
            size = rw q.size refl;
            small = omega arith;
            distinct = Distinct-snoc [] y tt a;
          };
          content = refl;
          opened = record { free = o.free; running = o.running; accepts = o.accepts };
        },
      )
  enqueue-IsAdded (x ∷ xs) q a s =
      let (t, e) = last-cons x xs in
      let n = q.size in
      let many : (pool.qsize == 0) ≡ false = ground arith in
      let some_left : (length (x ∷ xs) == 0) ≡ false = ground arith in
      let tail = q.ends ∙ e in
      let len = length-append (x ∷ xs) (y ∷ []) in
      (
        record pool {
          works = link pool.works t y;
          qtail = some y;
          qsize = (pool.qsize + 1) % 2 ^ 32;
        },
        rw (many, some_left, tail) refl,
        record {
          queue = record {
            linked =
                Linked-snoc pool.works pool.qhead (x ∷ xs) t y q.distinct a e unlinked q.linked;
            ends = sym (last-snoc (x ∷ xs) y);
            size = omega arith;
            small = omega arith;
            distinct = Distinct-snoc (x ∷ xs) y q.distinct a;
          };
          content = jobs-link pool.works t y (x ∷ xs ++ y ∷ []) ∙ jobs-snoc pool.works (x ∷ xs) y;
          opened = record { free = o.free; running = o.running; accepts = o.accepts };
        },
      )

-- For a queue of fewer than 2 ^ 32 - 1 works, and a work that `malloc` returned and that is not in
-- it, `dispatch` on an open pool puts the job behind the others, and signals exactly if the queue
-- was empty.
pub dispatch-refines :
    (pool : ThreadPool) (xs : List ℕ) (y routine arg : ℕ)
    → IsQueue pool xs
    → IsOpen pool
    → Apart y xs
    → suc (length xs) < 2 ^ 32
    → (pool' : ThreadPool) × (dispatch (some y) routine arg pool ≡ some (length xs == 0, pool'))
      × IsAdded pool' xs y (jobs pool.works xs ++ (routine, arg) ∷ [])
unfolding dispatch
dispatch-refines pool xs y routine arg q o a s =
    let new : Work = record { routine = routine; arg = arg; next = none } in
    let works = set_work pool.works y new in
    let here = set_work-here pool.works y new in
    let (pool', e, r) =
      enqueue-IsAdded (record pool { works = works }) y (ap (λ d. d.next) here)
        (record { free = o.free; running = o.running; accepts = o.accepts }) xs
        (record {
          linked = Linked-set_work pool.works y new pool.qhead xs a q.linked;
          ends = q.ends;
          size = q.size;
          small = q.small;
          distinct = q.distinct;
        })
        a s in
    (
      pool',
      if_false _ o.accepts ∙ e,
      record {
        queue = r.queue;
        content =
            r.content
            ∙ ap₂ (λ js j. js ++ j ∷ []) (jobs-set_work pool.works y new xs a)
                (ap (λ d. (d.routine, d.arg)) here);
        opened = r.opened;
      },
    )

-- What `do_work` does with the queue `xs`: it waits if there is none, and otherwise calls the first
-- job and leaves the others.
pub data Takes (pool : ThreadPool) : List ℕ → Round × ThreadPool → Type 0 where
  idle : Takes pool [] (wait, pool)
  first :
      {x : ℕ} {xs : List ℕ} {pool' : ThreadPool}
      → pool'.works ≡ pool.works
      → IsQueue pool' xs
      → IsOpen pool'
      → Takes pool (x ∷ xs) (call (pool.works x).routine (pool.works x).arg, pool')

-- On an open pool whose works are `xs`, `do_work` with the lock ends: with nothing queued it goes to
-- wait, otherwise it takes the first job, and leaves a pool with the others.
pub do_work-refines :
    (pool : ThreadPool) (xs : List ℕ)
    → IsQueue pool xs
    → IsOpen pool
    → (r : Round × ThreadPool) × (do_work pool ≡ some r) × Takes pool xs r
unfolding do_work take_work Linked Distinct
do_work-refines pool [] q o =
    let none_left : (pool.qsize == 0) ≡ true = rw q.size refl in
    ((wait, pool), rw (none_left, o.running) refl, idle)
do_work-refines pool (x ∷ []) q o =
    let n = q.size in
    let many : (pool.qsize == 0) ≡ false = ground arith in
    let (h, l) = q.linked in
    (
      (
        call (pool.works x).routine (pool.works x).arg,
        record pool { qsize = 0; qhead = none; qtail = none },
      ),
      rw (many, h, q.size) refl,
      first refl
          (record { linked = refl; ends = refl; size = refl; small = omega arith; distinct = tt })
          (record { free = o.free; running = o.running; accepts = o.accepts }),
    )
do_work-refines pool (x ∷ y ∷ xs) q o =
    let n = q.size in
    let many : (pool.qsize == 0) ≡ false = ground arith in
    let (h, l) = q.linked in
    let small = q.small in
    let down : (pool.qsize + (2 ^ 32 - 1)) % 2 ^ 32 ≡ length (y ∷ xs) = omega arith in
    let left : (length (y ∷ xs) == 0) ≡ false = ground arith in
    (
      (
        call (pool.works x).routine (pool.works x).arg,
        record pool { qsize = length (y ∷ xs); qhead = (pool.works x).next },
      ),
      rw (many, h, down, left) refl,
      first refl
          (record {
            linked = l;
            ends = q.ends;
            size = refl;
            small = omega arith;
            distinct = q.distinct.1;
          })
          (record { free = o.free; running = o.running; accepts = o.accepts }),
    )
