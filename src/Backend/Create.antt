-- ===== src/Backend/Create.antt =====
-- ctrl_plane_backend.c, `create_backend`: the pool of a new backend.
use macsad.Prelude.{
  Apart, Distinct, ℕ, zero, suc, ◌+◌, ◌≡◌, ◌≢◌, ◌≤◌, ◌<◌, ◌==◌, Bool, true, false, none, some,
  Option, List, [], ◌∷◌, ◌&&◌, ◌*◌, ◌^◌, leb, refl, ap, sym, subst, arith, Bool-cases, inl, inr,
  if◌then◌else◌,
}
use macsad.Prelude.Int.{ℤ, pos, pos_part}
use macsad.Memory.{Mem}
use macsad.Sockets.{is_nonpositive}
use macsad.Fifo.{fifo_init}
use macsad.Fifo.Refine.{IsValid, contents, fifo_init_lem}
use macsad.Backend.{MemCell, Backend, set_cell}
use macsad.Backend.Chain.{Disjoint, Chain}
use macsad.Backend.Line.{Line, FirstFree, Line-set_cell}
use macsad.Backend.Pool.{IsPool}
use macsad.Backend.Chain.{set_cell-here}

-- What the calls of the system give: whether `malloc` returns memory for the backend, the buffer and
-- the i-th cell, whether the lock and the condition variables of the backend and of its queues can
-- be made, whether there is a socket, and whether the controller's name is known.
pub record System : Type 0 where
  pub backend_allocated : Bool
  pub buffer_allocated : Bool
  pub cell_allocated : ℕ → Bool
  pub lock_made : Bool
  pub mem_empty_made : Bool
  pub mem_not_empty_made : Bool
  pub queue_made : Bool × Bool × Bool
  pub socket_made : Bool
  pub server_found : Bool

-- The loop over the cells, with the rounds left, and `i` as it stands. The i-th cell is named i, and
-- `old i` is what its 2048 bytes of the buffer hold, which `create_backend` has made large enough.
unfoldable pub init_cells : (ℕ → Bool) → (ℕ → Mem) → ℕ → ℕ → Backend → Option Backend
unfolding set_cell
init_cells allocated old zero i bg = some bg
init_cells allocated old (suc n) i bg = elim (allocated i) [
  | false ↦ none
  | true ↦
      let tmp : MemCell = record {
        data_bytes = old i;
        size = 2048;
        next = bg.unused_head;
        prev = none;
      } in
      init_cells allocated old n (i + 1)
        (record bg { cells = set_cell bg.cells i tmp; unused_head = some i })
]

-- `bg` is what the new memory holds. The initialisations of the queues are not looked at. The buffer
-- of the cells is asked for with 2048 * queue_size in an `int`: where that overflows, which C leaves
-- undefined, there is no backend either. Below, each cell has its 2048 bytes of the buffer.
unfoldable pub create_backend : System → (ℕ → Mem) → ℤ → ℤ → Backend → Option Backend
unfolding init_cells fifo_init
create_backend s old num_of_threads queue_size bg =
    if is_nonpositive num_of_threads
    then none
    else if is_nonpositive queue_size
    then none
    else if leb (2 ^ 31) (2048 * pos_part queue_size)
    then none
    else if s.backend_allocated && s.buffer_allocated
    then elim (init_cells s.cell_allocated old (pos_part queue_size) 0
        (record bg { unused_head = none; used_head = none })) [
          | none ↦ none
          | some bg' ↦
              if s.lock_made
                && (s.mem_empty_made && (s.mem_not_empty_made && (s.socket_made && s.server_found)))
              then some (record bg' {
                input_queue =
                    (fifo_init s.queue_made.0 s.queue_made.1 s.queue_made.2 bg'.input_queue).1;
                output_queue =
                    (fifo_init s.queue_made.0 s.queue_made.1 s.queue_made.2 bg'.output_queue).1;
              })
              else none
        ]
    else none

-- The cells from i - 1 down to 0.
unfoldable pub countdown : ℕ → List ℕ
countdown zero = []
countdown (suc i) = i ∷ countdown i

countdown-Apart : (x i : ℕ) → i ≤ x → Apart x (countdown i)
unfolding Apart countdown
countdown-Apart x zero h = tt
countdown-Apart x (suc i) h =
    let n : x ≢ i = λ e. absurd (omega arith) in (n, countdown-Apart x i (omega arith))

countdown-Distinct : (i : ℕ) → Distinct (countdown i)
unfolding Distinct countdown
countdown-Distinct zero = tt
countdown-Distinct (suc i) = (countdown-Apart i i (omega arith), countdown-Distinct i)

-- The pool of `i` cells, none of which is in use, each of the cells' size.
pub record Fresh (bg : Backend) (i : ℕ) : Type 0 where
  pub pool : IsPool bg [] (countdown i)
  pub sized : (x : ℕ) → x < i → (bg.cells x).size ≡ 2048

module _ (old : ℕ → Mem) where
  abbrev grown : ℕ → Backend → Backend
  unfolding set_cell
  grown i bg = record bg {
    cells =
        set_cell bg.cells i
          (record { data_bytes = old i; size = 2048; next = bg.unused_head; prev = none });
    unused_head = some i;
  }

  grown-IsPool :
      (i : ℕ) (bg : Backend)
      → IsPool bg [] (countdown i)
      → IsPool (grown i bg) [] (countdown (suc i))
  unfolding grown Chain Line FirstFree Distinct Disjoint countdown
  grown-IsPool i bg v =
      let apart = countdown-Apart i i (omega arith) in
      let here = set_cell-here bg.cells i _ in
      record {
        used = v.used;
        unused = (
          refl,
          subst (λ d. Line (grown i bg).cells d.next (countdown i)) (sym here)
              (Line-set_cell bg.cells i _ bg.unused_head (countdown i) apart v.unused),
        );
        unused_first = ap (λ d. d.prev) here;
        used_distinct = tt;
        unused_distinct = (apart, v.unused_distinct);
        disjoint = tt;
      }

  grown-Fresh : (i : ℕ) (bg : Backend) → Fresh bg i → Fresh (grown i bg) (i + 1)
  unfolding grown set_cell
  grown-Fresh i bg f = record {
    pool =
        subst (λ j. IsPool (grown i bg) [] (countdown j)) (omega arith) (grown-IsPool i bg f.pool);
    sized = λ x h. elim (Bool-cases (x == i)) [
      | inl last ↦ rw last
      | inr other ↦ rw other (f.sized x (ground arith))
    ];
  }

  init_cells-Fresh :
      (n i e : ℕ) (bg : Backend)
      → i + n ≡ e
      → Fresh bg i
      → (bg' : Backend) × (init_cells (λ x. true) old n i bg ≡ some bg') × Fresh bg' e
  unfolding init_cells grown
  init_cells-Fresh zero i e bg q f = (bg, refl, subst (Fresh bg) (omega arith) f)
  init_cells-Fresh (suc n) i e bg q f =
      init_cells-Fresh n (i + 1) e (grown i bg) (omega arith) (grown-Fresh i bg f)

  abbrev pub ready : System
  ready = record {
    backend_allocated = true;
    buffer_allocated = true;
    cell_allocated = λ x. true;
    lock_made = true;
    mem_empty_made = true;
    mem_not_empty_made = true;
    queue_made = (true, true, true);
    socket_made = true;
    server_found = true;
  }

-- New queues do not concern the pool.
with_queues : Backend → Backend
unfolding fifo_init
with_queues bg = record bg {
  input_queue = (fifo_init true true true bg.input_queue).1;
  output_queue = (fifo_init true true true bg.output_queue).1;
}

with_queues-Fresh : (i : ℕ) (bg : Backend) → Fresh bg i → Fresh (with_queues bg) i
unfolding with_queues
with_queues-Fresh i bg f = record {
  pool = record {
    used = f.pool.used;
    unused = f.pool.unused;
    unused_first = f.pool.unused_first;
    used_distinct = f.pool.used_distinct;
    unused_distinct = f.pool.unused_distinct;
    disjoint = f.pool.disjoint;
  };
  sized = f.sized;
}

-- A backend with a pool of `n` cells, none in use, and two empty queues.
pub record Started (bg : Backend) (n : ℕ) : Type 0 where
  pub fresh : Fresh bg n
  pub input_valid : IsValid bg.input_queue
  pub input_empty : contents bg.input_queue ≡ []
  pub output_valid : IsValid bg.output_queue
  pub output_empty : contents bg.output_queue ≡ []

with_queues-Started : (i : ℕ) (bg : Backend) → Fresh bg i → Started (with_queues bg) i
unfolding with_queues
with_queues-Started i bg f =
    let (a, v, e) = fifo_init_lem true true true bg.input_queue in
    let (a', v', e') = fifo_init_lem true true true bg.output_queue in
    record {
      fresh = with_queues-Fresh i bg f;
      input_valid = v;
      input_empty = e;
      output_valid = v';
      output_empty = e';
    }

empty-IsPool :
    (bg : Backend) → IsPool (record bg { unused_head = none; used_head = none }) [] (countdown 0)
unfolding Chain Line FirstFree Distinct Disjoint countdown
empty-IsPool bg = record {
  used = refl;
  unused = refl;
  unused_first = tt;
  used_distinct = tt;
  unused_distinct = tt;
  disjoint = tt;
}

-- With a thread and a queue size above 0 and below 2 ^ 20, and if every call of the system succeeds, `create_backend`
-- ends with a backend whose pool is valid and has as many cells of 2048 bytes as the queue size
-- says, all of them unused, and whose queues are valid and empty, whatever the memory held.
pub create_backend-Started :
    (old : ℕ → Mem) (t n : ℕ) (bg : Backend)
    → suc n < 2 ^ 20
    → (bg' : Backend) × (create_backend (ready old) old (pos (suc t)) (pos (suc n)) bg ≡ some bg')
      × Started bg' (suc n)
unfolding create_backend with_queues
create_backend-Started old t n bg small =
    let fits : leb (2 ^ 31) (2048 * suc n) ≡ false = ground arith in
    let (made, e, f) = init_cells-Fresh old (suc n) 0 (suc n) emptied (omega arith) begun in
    (with_queues made, rw fits (ap queued e), with_queues-Started (suc n) made f)
  where
    emptied : Backend
    emptied = record bg { unused_head = none; used_head = none }

    begun : Fresh emptied 0
    begun = record { pool = empty-IsPool bg; sized = λ x h. absurd (omega arith) }

    queued : Option Backend → Option Backend
    queued none = none
    queued (some bg') = some (with_queues bg')
