-- ===== src/Threadpool/Alone.antt =====
-- threadpool.c: a worker that is not waiting takes all the work that is queued; one that is about to
-- wait misses the work that is dispatched before it waits.
use macsad.Prelude.{
  ℕ, ◌≡◌, ◌∙◌, ◌<◌, ◌+◌, ◌^◌, ◌==◌, true, some, List, [], ◌∷◌, refl, sym, ap, arith, subst, length,
}
use macsad.Threadpool.{ThreadPool, Round, wait, call, do_work}
use macsad.Threadpool.Queue.{Job, jobs, Linked, IsQueue}
use macsad.Threadpool.Refine.{IsOpen, Takes, idle, first, dispatch-refines, do_work-refines}
use macsad.Threadpool.Workers.{
  Worker, ready, unlocked, blocked, after, System, move, Event, dispatched, quiet, event_of,
  IsFresh, dispatch_unheard, enter, block, finish, Run, done, then_step, AllBy, dispatched_in,
  taken_in,
}
use macsad.Threadpool.Stuck.{IsUnwoken, Run-Stuck}

move-here : (worker : ℕ → Worker) (i : ℕ) (w : Worker) → move worker i w i ≡ w
unfolding move
move-here worker i w = let on : (i == i) ≡ true = ground arith in rw on

-- Where worker `i` has come to by steps of its own: it has taken `js`, nobody dispatched anything,
-- and it goes to wait.
pub record IsDrained (n i : ℕ) (s : System) (js : List Job) : Type 0 where
  pub events : List Event
  pub end : System
  pub run : Run n s events end
  pub alone : AllBy i run
  pub nothing_new : dispatched_in events ≡ []
  pub all_taken : taken_in events ≡ js
  pub queue : IsQueue end.pool []
  pub opened : IsOpen end.pool
  pub waits : end.worker i ≡ unlocked

module _ {n : ℕ} (i : ℕ) (s : System) (h : i < n) (o : IsOpen s.pool) (w : s.worker i ≡ ready) where
  last_round :
      (r : Round × ThreadPool)
      → do_work s.pool ≡ some r
      → IsQueue s.pool []
      → Takes s.pool [] r
      → IsDrained n i s []
  unfolding AllBy
  last_round _ e q idle = record {
    events = quiet ∷ [];
    end = record s { worker = move s.worker i unlocked };
    run = then_step (enter i wait s.pool h w o.free e) done;
    alone = (refl, tt);
    nothing_new = refl;
    all_taken = refl;
    queue = q;
    opened = o;
    waits = move-here s.worker i unlocked;
  }

  one_round :
      (x : ℕ) (xs : List ℕ) (r : Round × ThreadPool)
      → do_work s.pool ≡ some r
      → Takes s.pool (x ∷ xs) r
      → ((t : System)
          → IsQueue t.pool xs
          → IsOpen t.pool
          → t.worker i ≡ ready
          → IsDrained n i t (jobs t.pool.works xs))
      → IsDrained n i s (jobs s.pool.works (x ∷ xs))
  unfolding AllBy
  one_round x xs _ e (first {pool'} same q' o') later =
      let round = call (s.pool.works x).routine (s.pool.works x).arg in
      let s1 : System = record s { pool = pool'; worker = move s.worker i (after round) } in
      let rest =
        later (record s1 { worker = move s1.worker i ready }) q' o' (move-here s1.worker i ready) in
      record {
        events = event_of round ∷ quiet ∷ rest.events;
        end = rest.end;
        run =
            then_step (enter i round pool' h w o.free e)
              (then_step (finish i h (move-here s.worker i (after round))) rest.run);
        alone = (refl, (refl, rest.alone));
        nothing_new = rest.nothing_new;
        all_taken =
            ap (λ js. ((s.pool.works x).routine, (s.pool.works x).arg) ∷ js)
              (rest.all_taken ∙ ap (λ d. jobs d xs) same);
        queue = rest.queue;
        opened = rest.opened;
        waits = rest.waits;
      }

-- From every state of an open pool with the queue `xs` in which worker `i` is in front of the lock,
-- there is a run in which every step is that worker's, which takes all the jobs that are queued, in
-- their order, and at whose end the queue is empty and the worker goes to wait.
pub do_work-drains :
    {n : ℕ} (i : ℕ) (s : System) (xs : List ℕ)
    → i < n
    → IsQueue s.pool xs
    → IsOpen s.pool
    → s.worker i ≡ ready
    → IsDrained n i s (jobs s.pool.works xs)
do_work-drains i s [] h q o w =
    let (r, e, t) = do_work-refines s.pool [] q o in last_round i s h o w r e q t
do_work-drains i s (x ∷ xs) h q o w =
    let (r, e, t) = do_work-refines s.pool (x ∷ xs) q o in
    one_round i s h o w x xs r e t (λ u q' o' w'. do_work-drains i u xs h q' o' w')

not_blocked : {w : Worker} → w ≡ unlocked → w ≡ blocked → ⊥
not_blocked h k = cc (h, k)

-- Of an open pool with one thread, which has found nothing queued and is about to wait, where
-- `pthread_cond_wait` without the lock is taken to release nothing: there is a run in which a job is
-- dispatched and the thread then waits, such that in every run from there of fewer than 2 ^ 32 - 1
-- events (so that `qsize` does not wrap) in which the thread does not wake up without a signal, no
-- job is taken.
pub dispatch-Missed :
    (s : System) (y routine arg : ℕ)
    → IsQueue s.pool []
    → IsOpen s.pool
    → IsFresh s.pool y
    → s.worker 0 ≡ unlocked
    → s.wait_releases_nothing ≡ true
    → (t : System) × Run 1 s (dispatched (routine, arg) ∷ quiet ∷ []) t
      × ((es : List Event) (u : System)
          → Run 1 t es u
          → IsUnwoken es
          → 1 + length es < 2 ^ 32
          → taken_in es ≡ [])
unfolding IsFresh Linked
dispatch-Missed s y routine arg q o f w r =
    let (pool', e, added) =
      dispatch-refines s.pool [] y routine arg q o (f [] q.linked) (omega arith) in
    let s1 : System = record s { pool = pool' } in
    let t : System = record s1 { worker = move s.worker 0 blocked } in
    let only : (i : ℕ) → i < 1 → i ≡ 0 = λ i h. omega arith in
    (
      t,
      then_step
          (dispatch_unheard y routine arg o.free f e
            (λ i h b. not_blocked (ap s.worker (only i h) ∙ w) b))
          (then_step (block 0 (omega arith) w r) done),
      λ es u run unwoken bound.
          (Run-Stuck run
            (record {
              works = y ∷ [];
              queue = added.queue;
              opened = added.opened;
              queued = omega arith;
              counted = refl;
              asleep = λ i h.
                  subst (λ j. move s.worker 0 blocked j ≡ blocked) (sym (only i h))
                    (move-here s.worker 0 blocked);
            })
            unwoken bound).0,
    )
