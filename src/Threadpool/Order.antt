-- ===== src/Threadpool/Order.antt =====
-- threadpool.c: the order in which works are taken and dispatched.
use macsad.Prelude.{
  ℕ, suc, ◌≡◌, ◌∙◌, ◌<◌, ◌^◌, ◌==◌, Bool, some, Option, List, [], ◌∷◌, ◌++◌, sym, ap, subst, length,
}
use macsad.Threadpool.{ThreadPool, dispatch, Round, do_work, do_work_woken}
use macsad.Threadpool.Queue.{Job, jobs, IsQueue}
use macsad.Threadpool.Refine.{if_false, IsOpen, IsAdded, Takes, dispatch-refines, do_work-refines}
use macsad.Threadpool.Workers.{Event, dispatched, taken, woken_by_itself, quiet, IsFresh}

-- A queue of jobs: what an event does to it.
abbrev pub Change : Event → List Job → List Job → Type 0
Change (dispatched j) before behind = behind ≡ before ++ j ∷ []
Change (taken j) before behind = before ≡ j ∷ behind
Change woken_by_itself before behind = before ≡ behind
Change quiet before behind = before ≡ behind

-- The works `ys` of an open pool, whose jobs are those of `before` after the event.
pub record Follows (before : List Job) (e : Event) (pool : ThreadPool) : Type 0 where
  pub works_left : List ℕ
  pub queue : IsQueue pool works_left
  pub opened : IsOpen pool
  pub change : Change e before (jobs pool.works works_left)

same_result : {A : Type 0} {o : Option A} {a b : A} → o ≡ some a → o ≡ some b → a ≡ b
same_result h k = cc (h, k)

module _ (pool : ThreadPool) (xs : List ℕ) (q : IsQueue pool xs) (o : IsOpen pool) where
  pub dispatch-Added :
      (y routine arg : ℕ) (signal : Bool) (pool' : ThreadPool)
      → IsFresh pool y
      → suc (length xs) < 2 ^ 32
      → dispatch (some y) routine arg pool ≡ some (signal, pool')
      → (signal ≡ (length xs == 0)) × IsAdded pool' xs y (jobs pool.works xs ++ (routine, arg) ∷ [])
  unfolding IsFresh
  dispatch-Added y routine arg signal pool' f s e =
      let (pool1, e1, r) = dispatch-refines pool xs y routine arg q o (f xs q.linked) s in
      let same = same_result e1 e in
      (
        sym (ap (λ p. p.0) same),
        subst (λ p. IsAdded p xs y (jobs pool.works xs ++ (routine, arg) ∷ [])) (ap (λ p. p.1) same)
            r,
      )

  pub do_work-Takes :
      (round : Round) (pool' : ThreadPool)
      → do_work pool ≡ some (round, pool')
      → Takes pool xs (round, pool')
  do_work-Takes round pool' e =
      let (r, e', t) = do_work-refines pool xs q o in subst (Takes pool xs) (same_result e' e) t

  pub do_work_woken-Takes :
      (round : Round) (pool' : ThreadPool)
      → do_work_woken pool ≡ some (round, pool')
      → Takes pool xs (round, pool')
  unfolding do_work_woken
  do_work_woken-Takes round pool' e = do_work-Takes round pool' (sym (if_false _ o.running) ∙ e)
