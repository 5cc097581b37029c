-- ===== src/Threadpool/Workers.antt =====
-- threadpool.c: the threads of a pool and those that dispatch work to it, interleaved. Each step is
-- one critical section of `qlock`, or one between two of them. `pthread_cond_wait` is called without
-- the lock, which POSIX leaves undefined: the call is a step only in a system in which such a call
-- releases nothing, blocks until it is signalled or woken by itself, and returns with the lock; in
-- any other system a run ends in front of it.
use macsad.Prelude.{
  sym, ◌∙◌, subst, Option, ℕ, ◌≡◌, ◌<◌, ◌==◌, Bool, true, false, none, some, List, [], ◌∷◌,
  if◌then◌else◌, Apart,
}
use macsad.Threadpool.{Work, ThreadPool, dispatch, Round, exit, wait, call, do_work, do_work_woken}
use macsad.Threadpool.Queue.{Job, Linked}

-- Where a thread of the pool is: in front of the lock, between the lock and the condition variable,
-- blocked on it, signalled, in a routine, or gone.
pub data Worker : Type 0 where
  ready : Worker
  unlocked : Worker
  blocked : Worker
  signalled : Worker
  busy : ℕ → ℕ → Worker
  gone : Worker

abbrev pub after : Round → Worker
after exit = gone
after wait = unlocked
after (call routine arg) = busy routine arg

pub record System : Type 0 where
  pub pool : ThreadPool
  pub worker : ℕ → Worker
  -- What `pthread_cond_wait` does that is called without the lock: whether it releases nothing.
  pub wait_releases_nothing : Bool

-- An assignment to one worker.
unfoldable pub move : (ℕ → Worker) → ℕ → Worker → ℕ → Worker
move worker i w j = if j == i then w else worker j

-- What an observer sees of a step.
pub data Event : Type 0 where
  dispatched : Job → Event
  taken : Job → Event
  woken_by_itself : Event
  quiet : Event

abbrev pub event_of : Round → Event
event_of (call routine arg) = taken (routine, arg)
event_of exit = quiet
event_of wait = quiet

-- `malloc` returns no work that is in the queue.
unfoldable pub IsFresh : ThreadPool → ℕ → Type 0
IsFresh pool y = (xs : List ℕ) → Linked pool.works pool.qhead xs → Apart y xs

pub data Step (n : ℕ) (s : System) : Event → System → Type 0 where
  -- A dispatch that signals nobody, and those whose signal wakes worker `i`, or meets no worker that
  -- is blocked.
  dispatch_quietly :
      (y routine arg : ℕ) {pool' : ThreadPool}
      → s.pool.qlock ≡ false
      → IsFresh s.pool y
      → dispatch (some y) routine arg s.pool ≡ some (false, pool')
      → Step n s (dispatched (routine, arg)) (record s { pool = pool' })
  dispatch_waking :
      (y routine arg i : ℕ) {pool' : ThreadPool}
      → s.pool.qlock ≡ false
      → IsFresh s.pool y
      → dispatch (some y) routine arg s.pool ≡ some (true, pool')
      → i < n
      → s.worker i ≡ blocked
      → Step n s
          (dispatched (routine, arg))
          (record s { pool = pool'; worker = move s.worker i signalled })
  dispatch_unheard :
      (y routine arg : ℕ) {pool' : ThreadPool}
      → s.pool.qlock ≡ false
      → IsFresh s.pool y
      → dispatch (some y) routine arg s.pool ≡ some (true, pool')
      → ((i : ℕ) → i < n → s.worker i ≡ blocked → ⊥)
      → Step n s (dispatched (routine, arg)) (record s { pool = pool' })
  enter :
      (i : ℕ) (round : Round) (pool' : ThreadPool)
      → i < n
      → s.worker i ≡ ready
      → s.pool.qlock ≡ false
      → do_work s.pool ≡ some (round, pool')
      → Step n s
          (event_of round)
          (record s { pool = pool'; worker = move s.worker i (after round) })
  block :
      (i : ℕ)
      → i < n
      → s.worker i ≡ unlocked
      → s.wait_releases_nothing ≡ true
      → Step n s quiet (record s { worker = move s.worker i blocked })
  wake_by_itself :
      (i : ℕ)
      → i < n
      → s.worker i ≡ blocked
      → Step n s woken_by_itself (record s { worker = move s.worker i signalled })
  enter_woken :
      (i : ℕ) (round : Round) (pool' : ThreadPool)
      → i < n
      → s.worker i ≡ signalled
      → s.pool.qlock ≡ false
      → do_work_woken s.pool ≡ some (round, pool')
      → Step n s
          (event_of round)
          (record s { pool = pool'; worker = move s.worker i (after round) })
  finish :
      (i : ℕ) {routine arg : ℕ}
      → i < n
      → s.worker i ≡ busy routine arg
      → Step n s quiet (record s { worker = move s.worker i ready })

pub data Run (n : ℕ) : System → List Event → System → Type 0 where
  done : {s : System} → Run n s [] s
  then_step :
      {s t u : System} {e : Event} {es : List Event}
      → Step n s e t
      → Run n t es u
      → Run n s (e ∷ es) u

-- The worker whose step it is; none for a dispatch, which is the step of another thread.
abbrev pub actor : {n : ℕ} {s t : System} {e : Event} → Step n s e t → Option ℕ
actor (dispatch_quietly y routine arg l f d) = none
actor (dispatch_waking y routine arg i l f d h w) = none
actor (dispatch_unheard y routine arg l f d w) = none
actor (enter i round pool' h w l d) = some i
actor (block i h w r) = some i
actor (wake_by_itself i h w) = some i
actor (enter_woken i round pool' h w l d) = some i
actor (finish i h w) = some i

-- Every step of the run is one of worker `i`.
unfoldable pub AllBy : {n : ℕ} {s t : System} {es : List Event} (i : ℕ) → Run n s es t → Type 0
AllBy i done = Unit {0}
AllBy i (then_step step run) = (actor step ≡ some i) × AllBy i run

abbrev pub dispatched_in : List Event → List Job
dispatched_in [] = []
dispatched_in (dispatched j ∷ es) = j ∷ dispatched_in es
dispatched_in (taken j ∷ es) = dispatched_in es
dispatched_in (woken_by_itself ∷ es) = dispatched_in es
dispatched_in (quiet ∷ es) = dispatched_in es

abbrev pub taken_in : List Event → List Job
taken_in [] = []
taken_in (dispatched j ∷ es) = taken_in es
taken_in (taken j ∷ es) = j ∷ taken_in es
taken_in (woken_by_itself ∷ es) = taken_in es
taken_in (quiet ∷ es) = taken_in es

Linked-Apart :
    (works : ℕ → Work) (h : Option ℕ) (y : ℕ) (xs ys : List ℕ)
    → Linked works h xs
    → Apart y xs
    → Linked works h ys
    → Apart y ys
unfolding Linked Apart
Linked-Apart works h y xs [] l a k = tt
Linked-Apart works h y [] (z ∷ ys) l a (k, _) = absurd (cc (l, k))
Linked-Apart works h y (x ∷ xs) (z ∷ ys) (l, ls) (n, a) (k, ks) =
    let same : x ≡ z = cc (l, k) in
    (
      (λ e. n (e ∙ sym same)),
      Linked-Apart works (works x).next y xs ys ls a
          (subst (λ v. Linked works (works v).next ys) (sym same) ks),
    )

-- A node that is not in the queue may be returned.
pub Apart-IsFresh :
    (pool : ThreadPool) (y : ℕ) (xs : List ℕ)
    → Linked pool.works pool.qhead xs
    → Apart y xs
    → IsFresh pool y
unfolding IsFresh
Apart-IsFresh pool y xs l a ys k = Linked-Apart pool.works pool.qhead y xs ys l a k
