-- ===== src/Fifo/Refine.antt =====
-- The ring of fifo.c behaves as the bounded queue of its messages.
use macsad.Prelude.{
  ◌⊎◌, ◌↔◌, ◌&&◌, sym, ℕ, zero, suc, ◌+◌, ◌-◌, ◌%◌, ◌^◌, ◌≤◌, ◌<◌, ◌≡◌, ◌≢◌, refl, ap, ap₂, ◌∙◌,
  Bool, true, Option, List, [], ◌∷◌, ◌++◌, arith, length,
}
use macsad.Fifo.{Fifo, assign, fifo_init, fifo_add_msg, fifo_remove_msg, fifo_size, fifo_wait}
use macsad.Fifo.Queue
use macsad.Fifo.Queue.{Call, put, get}

-- `tail` is the last used slot, so one step on it is the first free one.
pub record IsValid {A : Type 0} (q : Fifo A) : Type 0 where
  pub head_in : q.head < 1024
  pub size_in : q.size ≤ 1024
  pub tail_in : q.tail < 2 ^ 32
  pub tail_next : (q.tail + 1) % 2 ^ 32 % 1024 ≡ (q.head + q.size) % 1024
  pub tail_last : (q.tail ≡ 2 ^ 32 - 1) ⊎ (q.tail < 1024)

-- At the level of the pointers' types, where `ground` splits on numbers.
module _ {A : Type 0} where
  -- The `n` slots from `h` on, round the ring.
  abbrev pub slots : (ℕ → A) → ℕ → ℕ → List A
  slots queue h zero = []
  slots queue h (suc n) = queue h ∷ slots queue ((h + 1) % 1024) n

  abbrev pub contents : Fifo A → List A
  contents q = slots q.queue q.head q.size

  pub length-slots : (queue : ℕ → A) (h n : ℕ) → length (slots queue h n) ≡ n
  length-slots queue h zero = refl
  length-slots queue h (suc n) = ap suc (length-slots queue ((h + 1) % 1024) n)

  -- Writing the slot behind the used ones puts a message at the end.
  slots-assign :
      (queue : ℕ → A) (v : A) (n h i : ℕ)
      → h < 1024
      → n < 1024
      → i ≡ (h + n) % 1024
      → slots (assign queue i v) h (suc n) ≡ slots queue h n ++ (v ∷ [])
  slots-assign queue v zero h i hh hn e = let here : i ≡ h = omega arith in ground arith
  slots-assign queue v (suc n) h i hh hn e =
      let apart : i ≢ h = omega arith in
      let first : assign queue i v h ≡ queue h = ground arith in
      ap₂ ◌∷◌ first
        (slots-assign queue v n ((h + 1) % 1024) i (omega arith) (omega arith) (omega arith))

  -- The code tests `size > 0`, `slots` matches on `suc`.
  slots_of_pos :
      (queue : ℕ → A) (h n : ℕ)
      → 0 < n
      → slots queue h n ≡ queue h ∷ slots queue ((h + 1) % 1024) (n - 1)
  slots_of_pos queue h zero p = absurd (omega arith)
  slots_of_pos queue h (suc n) p = ap (λ k. slots queue h (suc k)) (omega arith)

  pub fifo_add_msg-IsValid : {q : Fifo A} (x : A) → IsValid q → IsValid (fifo_add_msg q x)
  unfolding fifo_add_msg
  fifo_add_msg-IsValid x v = ground arith

  pub fifo_remove_msg-IsValid : {q : Fifo A} → IsValid q → IsValid (fifo_remove_msg q).1
  unfolding fifo_remove_msg
  fifo_remove_msg-IsValid v = ground arith

  -- On a valid queue `fifo_add_msg` puts the message behind the others if fewer than 1024 are queued,
  -- and drops it otherwise.
  pub fifo_add_msg-refines :
      {q : Fifo A} (x : A) → IsValid q → contents (fifo_add_msg q x) ≡ Queue.add (contents q) x
  unfolding fifo_add_msg Queue.add
  fifo_add_msg-refines {q} x v = ground (
    arith,
    length-slots q.queue q.head q.size,
    slots-assign q.queue x q.size q.head ((q.head + q.size) % 1024),
  )

  -- On a valid queue `fifo_remove_msg` returns and removes the first message, or returns none if there
  -- is none.
  fifo_remove_msg-refines :
      {q : Fifo A}
      → IsValid q
      → let (x, q') = fifo_remove_msg q in (x, contents q') ≡ Queue.remove (contents q)
  unfolding fifo_remove_msg Queue.remove
  fifo_remove_msg-refines {q} v = ground (arith, slots_of_pos q.queue q.head q.size)

  -- The calls of any threads, in the order in which they take the lock.
  pub run : Fifo A → List (Call A) → List (Option A)
  run q [] = []
  run q (put x ∷ calls) = run (fifo_add_msg q x) calls
  run q (get ∷ calls) = let (x, q') = fifo_remove_msg q in x ∷ run q' calls

  -- Whatever calls the threads make on a valid queue, and in whatever order they take the lock,
  -- every `fifo_remove_msg` returns what the bounded first-in first-out queue returns.
  pub run_refines :
      (calls : List (Call A)) {q : Fifo A}
      → IsValid q
      → run q calls ≡ Queue.serve (contents q) calls
  unfolding run Queue.serve
  run_refines [] v = refl
  run_refines (put x ∷ calls) v =
      run_refines calls (fifo_add_msg-IsValid x v)
      ∙ ap (λ xs. Queue.serve xs calls) (fifo_add_msg-refines x v)
  run_refines (get ∷ calls) v =
      rw (run_refines calls (fifo_remove_msg-IsValid v), ← fifo_remove_msg-refines v)

  -- A queue that `fifo_init` returns is valid and empty, and one is returned exactly if the mutex
  -- and both condition variables could be made.
  pub fifo_init_lem :
      (a b c : Bool) (q : Fifo A)
      → let (ok, q') = fifo_init a b c q in (ok ≡ (a && (b && c))) × IsValid q' × (contents q' ≡ [])
  unfolding fifo_init
  fifo_init_lem a b c q = ground arith

  -- `fifo_wait` blocks exactly on an empty queue, and `fifo_size` is the number of messages.
  fifo_size_lem :
      (q : Fifo A)
      → (fifo_size q ≡ length (contents q)) × ((fifo_wait q ≡ true) ↔ (contents q ≡ []))
  unfolding fifo_size fifo_wait
  fifo_size_lem q =
      (sym (length-slots q.queue q.head q.size), ((λ h. ground arith), λ h. empty (ap length h)))
    where
      empty : length (contents q) ≡ 0 → fifo_wait q ≡ true
      empty e = ground (arith, length-slots q.queue q.head q.size)
