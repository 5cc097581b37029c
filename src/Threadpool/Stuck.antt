-- ===== src/Threadpool/Stuck.antt =====
-- threadpool.c: `q_not_empty` is signalled only for the first job of an empty queue, and a worker
-- does not hold the lock while it goes to wait.
use macsad.Prelude.{
  ℕ, suc, ◌≡◌, ◌<◌, ◌+◌, ◌^◌, ◌==◌, Bool, true, some, List, [], ◌∷◌, ◌++◌, refl, ap, arith, subst,
  length, length-append,
}
use macsad.Threadpool.{ThreadPool, dispatch}
use macsad.Threadpool.Queue.{Job, IsQueue}
use macsad.Threadpool.Refine.{IsOpen}
use macsad.Threadpool.Order.{dispatch-Added}
use macsad.Threadpool.Workers.{
  blocked, System, Event, dispatched, taken, woken_by_itself, quiet, IsFresh, Step,
  dispatch_quietly, dispatch_waking, dispatch_unheard, enter, block, wake_by_itself, enter_woken,
  finish, Run, done, then_step, dispatched_in, taken_in,
}

-- No worker woke up without a signal.
unfoldable pub IsUnwoken : List Event → Type 0
IsUnwoken [] = Unit {0}
IsUnwoken (dispatched j ∷ es) = IsUnwoken es
IsUnwoken (taken j ∷ es) = IsUnwoken es
IsUnwoken (woken_by_itself ∷ es) = ⊥
IsUnwoken (quiet ∷ es) = IsUnwoken es

-- Every worker is blocked on the condition variable, although there is work.
pub record IsStuck (n : ℕ) (s : System) (size : ℕ) : Type 0 where
  pub works : List ℕ
  pub queue : IsQueue s.pool works
  pub opened : IsOpen s.pool
  pub queued : 0 < length works
  pub counted : length works ≡ size
  pub asleep : (i : ℕ) → i < n → s.worker i ≡ blocked

not_first : (n : ℕ) → 0 < n → true ≡ (n == 0) → ⊥
not_first n h e = ground arith

-- A dispatch to a queue that is not empty signals nobody.
module _ {n : ℕ} {s : System} {size : ℕ} (k : IsStuck n s size) where
  added-Stuck :
      (y routine arg : ℕ) {signal : Bool} {pool' : ThreadPool}
      → IsFresh s.pool y
      → suc size < 2 ^ 32
      → dispatch (some y) routine arg s.pool ≡ some (signal, pool')
      → (signal ≡ (length k.works == 0)) × IsStuck n (record s { pool = pool' }) (suc size)
  added-Stuck y routine arg f b e =
      let c = k.counted in
      let (h, r) =
        dispatch-Added s.pool k.works k.queue k.opened y routine arg _ _ f (omega arith) e in
      let m = length-append k.works (y ∷ []) in
      (
        h,
        record {
          works = k.works ++ y ∷ [];
          queue = r.queue;
          opened = r.opened;
          queued = omega arith;
          counted = omega arith;
          asleep = k.asleep;
        },
      )

  never_signals :
      (y routine arg : ℕ) {pool' : ThreadPool}
      → IsFresh s.pool y
      → suc size < 2 ^ 32
      → dispatch (some y) routine arg s.pool ≡ some (true, pool')
      → ⊥
  never_signals y routine arg f b e =
      not_first (length k.works) k.queued (added-Stuck y routine arg f b e).0

  -- What a step of a stuck system leads to.
  Step-Stuck :
      {e : Event} {t : System}
      → Step n s e t
      → IsUnwoken (e ∷ [])
      → suc size < 2 ^ 32
      → (j : Job) × (e ≡ dispatched j) × IsStuck n t (suc size)
  unfolding IsUnwoken
  Step-Stuck (dispatch_quietly y routine arg l f d) w b =
      ((routine, arg), refl, (added-Stuck y routine arg f b d).1)
  Step-Stuck (dispatch_waking y routine arg i l f d h a) w b =
      absurd (never_signals y routine arg f b d)
  Step-Stuck (dispatch_unheard y routine arg l f d a) w b =
      absurd (never_signals y routine arg f b d)
  Step-Stuck (enter i round pool' h a l d) w b = let z = k.asleep i h in absurd (cc (a, z))
  Step-Stuck (block i h a r) w b = let z = k.asleep i h in absurd (cc (a, z))
  Step-Stuck (wake_by_itself i h a) w b = absurd w
  Step-Stuck (enter_woken i round pool' h a l d) w b = let z = k.asleep i h in absurd (cc (a, z))
  Step-Stuck (finish i h a) w b = let z = k.asleep i h in absurd (cc (a, z))

-- Once every worker is blocked while work is queued, no job is ever taken again, whatever is
-- dispatched, unless a worker wakes up without a signal: every event is another dispatch, and every
-- worker stays blocked. (At most so many jobs that `qsize` does not wrap.)
pub Run-Stuck :
    {n : ℕ} {s t : System} {es : List Event} {size : ℕ}
    → Run n s es t
    → IsStuck n s size
    → IsUnwoken es
    → size + length es < 2 ^ 32
    → (taken_in es ≡ []) × (length (dispatched_in es) ≡ length es) × IsStuck n t (size + length es)
unfolding IsUnwoken
Run-Stuck {size = size} done k w b = (refl, refl, subst (IsStuck _ _) (omega arith) k)
Run-Stuck {size = size} (then_step {e = dispatched j} {es} step run) k w b =
    let (_, _, k') = Step-Stuck k step tt (omega arith) in
    let (a, c, k'') = Run-Stuck run k' w (omega arith) in
    (a, ap suc c, subst (IsStuck _ _) (omega arith) k'')
Run-Stuck (then_step {e = taken j} step run) k w b =
    let (_, h, _) = Step-Stuck k step tt (omega arith) in absurd (cc h)
Run-Stuck (then_step {e = woken_by_itself} step run) k w b = absurd w
Run-Stuck (then_step {e = quiet} step run) k w b =
    let (_, h, _) = Step-Stuck k step tt (omega arith) in absurd (cc h)
