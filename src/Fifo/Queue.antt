-- ===== src/Fifo/Queue.antt =====
-- The contract of the queue: first in, first out, with room for 1024 messages; what does not fit
-- is dropped.
use macsad.Prelude.{Option, none, some, List, [], ◌∷◌, ◌++◌, ltb, if◌then◌else◌, length}
use macsad.Fifo.{p4_bg_queue_size}

module _ {ℓ} {A : Type ℓ} where
  unfoldable pub add : List A → A → List A
  add xs x = if ltb (length xs) p4_bg_queue_size then xs ++ (x ∷ []) else xs

  unfoldable pub remove : List A → Option A × List A
  remove [] = (none, [])
  remove (x ∷ xs) = (some x, xs)

-- A call of some thread, and what the calls in that order return.
pub data Call {ℓ} (A : Type ℓ) : Type ℓ where
  put : A → Call A
  get : Call A

module _ {ℓ} {A : Type ℓ} where
  unfoldable pub serve : List A → List (Call A) → List (Option A)
  unfolding add remove
  serve xs [] = []
  serve xs (put x ∷ calls) = serve (add xs x) calls
  serve xs (get ∷ calls) = let (x, rest) = remove xs in x ∷ serve rest calls
