-- ===== src/Fifo.antt =====
-- fifo.c: the bounded queue of pointers between threads. Each function is one critical section of
-- `lock`, so it is one step on the queue; signals change no field. `A` stands for the non-null
-- pointers. An `int` is its bit pattern, so that the first `tail`, -1, is 2 ^ 32 - 1.
pub mod Queue
pub mod Refine
use macsad.Prelude.{
  ℕ, ◌+◌, ◌-◌, ◌%◌, ◌^◌, Bool, true, false, Option, none, some, ltb, ◌==◌, if◌then◌else◌,
}

-- P4_BG_QUEUE_SIZE
abbrev pub p4_bg_queue_size : ℕ
p4_bg_queue_size = 1024

-- The mutex and the condition variables are left out. A slot that was never written holds whatever
-- the memory held.
pub record Fifo {ℓ} (A : Type ℓ) : Type ℓ where
  pub queue : ℕ → A
  pub head : ℕ
  pub size : ℕ
  pub tail : ℕ

abbrev pub add_int : ℕ → ℕ → ℕ
add_int a b = (a + b) % 2 ^ 32

-- `a % b` on `int` for 0 < b, which takes the sign of a.
abbrev pub rem_int : ℕ → ℕ → ℕ
rem_int a b = if ltb a (2 ^ 31) then a % b else (2 ^ 32 - (2 ^ 32 - a) % b) % 2 ^ 32

-- `a > 0` and `a < b` on `int`
abbrev pub positive_int : ℕ → Bool
positive_int a = if ltb a (2 ^ 31) then ltb 0 a else false

abbrev pub lt_int : ℕ → ℕ → Bool
lt_int a b =
    if ltb a (2 ^ 31)
    then (if ltb b (2 ^ 31) then ltb a b else false)
    else if ltb b (2 ^ 31)
    then true
    else ltb a b

module _ {ℓ} {A : Type ℓ} where
  -- An assignment to an element of `queue`.
  abbrev pub assign : (ℕ → A) → ℕ → A → ℕ → A
  assign queue i v j = if j == i then v else queue j

  -- The flags say whether the mutex and the two condition variables could be initialised; the
  -- result is whether the queue is returned, and the queue as it is left.
  unfoldable pub fifo_init : Bool → Bool → Bool → Fifo A → Bool × Fifo A
  fifo_init lock_made empty_made not_empty_made q =
      let q' = record q { head = 0; size = 0; tail = 2 ^ 32 - 1 } in
      if lock_made
      then if empty_made then if not_empty_made then (true, q') else (false, q') else (false, q')
      else (false, q')

  -- The queue is returned whether or not there was room.
  unfoldable pub fifo_add_msg : Fifo A → A → Fifo A
  fifo_add_msg q element =
      if lt_int q.size p4_bg_queue_size
      then (let tail = rem_int (add_int q.tail 1) p4_bg_queue_size in
          record q { tail = tail; size = add_int q.size 1; queue = assign q.queue tail element })
      else q

  -- `none` is the 0 of an empty queue.
  unfoldable pub fifo_remove_msg : Fifo A → Option A × Fifo A
  fifo_remove_msg q =
      if positive_int q.size
      then (
        some (q.queue q.head),
        record q {
          head = rem_int (add_int q.head 1) p4_bg_queue_size;
          size = add_int q.size (2 ^ 32 - 1);
        },
      )
      else (none, q)

  unfoldable pub fifo_size : Fifo A → ℕ
  fifo_size q = q.size

  -- Whether `fifo_wait` blocks on `not_empty`; when it is woken it does not test again.
  unfoldable pub fifo_wait : Fifo A → Bool
  fifo_wait q = q.size == 0
