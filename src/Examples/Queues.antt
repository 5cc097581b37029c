-- ===== src/Examples/Queues.antt =====
-- A queue of fifo.c that holds numbers, in memory that held something else.
use macsad.Prelude.{ℕ, true, false, [], ◌∷◌, ◌≡◌, arith, inr, refl, ◌&&◌}
use macsad.Fifo.{Fifo, fifo_init, fifo_add_msg}
use macsad.Fifo.Queue
use macsad.Fifo.Queue.{put, get}
use macsad.Fifo.Refine.{IsValid, contents, run, run_refines, fifo_init_lem, fifo_add_msg-refines}

abbrev dirty : Fifo ℕ
dirty = record { queue = λ i. 165; head = 165; size = 165; tail = 165 }

abbrev fresh : Fifo ℕ
unfolding fifo_init
fresh = (fifo_init true true true dirty).1

fresh-IsValid : IsValid fresh
unfolding fresh fifo_init
fresh-IsValid = (fifo_init_lem true true true dirty).1

-- The last slots before the end of the ring: the next message is put at index 0.
abbrev turning : Fifo ℕ
turning = record { queue = λ i. i; head = 1022; size = 2; tail = 1023 }

turning-IsValid : IsValid turning
turning-IsValid = record {
  head_in = omega arith;
  size_in = omega arith;
  tail_in = omega arith;
  tail_next = refl;
  tail_last = inr (omega arith);
}

run_refines_example :
    run fresh (put 3 ∷ put 4 ∷ get ∷ get ∷ get ∷ [])
    ≡ Queue.serve (contents fresh) (put 3 ∷ put 4 ∷ get ∷ get ∷ get ∷ [])
run_refines_example = run_refines (put 3 ∷ put 4 ∷ get ∷ get ∷ get ∷ []) fresh-IsValid

fifo_init_lem_example :
    let (ok, q') = fifo_init true false true dirty in
    (ok ≡ (true && (false && true))) × IsValid q' × (contents q' ≡ [])
fifo_init_lem_example = fifo_init_lem true false true dirty

fifo_add_msg-refines_example : contents (fifo_add_msg turning 7) ≡ 1022 ∷ 1023 ∷ 7 ∷ []
unfolding Queue.add
fifo_add_msg-refines_example = fifo_add_msg-refines 7 turning-IsValid
