-- ===== src/Workers/Assigned.antt =====
-- odp_lib.c: what `macs_set_worker_afinity` leaves.
use macsad.Prelude.{
  ℕ, zero, suc, ◌≡◌, ◌≢◌, ◌∙◌, ◌<◌, ◌≤◌, ◌+◌, ◌==◌, true, false, Option, some, refl, sym, ap, arith,
  subst, ltb, leb, if◌then◌else◌, Ends, ◌and_then◌, Bool-cases, ◌⊎◌, inl, inr,
}
use macsad.Workers.{
  MacGlobal, uint8, at, set_rx, receive_from, send_to_others, share_workers,
  macs_set_worker_afinity,
}
use macsad.Workers.Slots.{num, rx, at-here, at-other, receive_from_lem}
use macsad.Workers.Shares.{IsSharedOut, macs_set_worker_afinity-IsSharedOut}
use macsad.Workers.Staff.{turn, turn-lt, turn-first, IsStaffed, IsSending, send_to_others-IsSending}

-- The end of a round of the loop over the workers: worker `m` is set up for sending.
module _ (if_count m r : ℕ) (g set_up : MacGlobal) (s : IsSending g m r 0 if_count set_up) where
  abbrev staffed : MacGlobal
  staffed = set_rx set_up m r

  staffed-other : (k : ℕ) → k ≢ m → staffed.mconf k ≡ g.mconf k
  staffed-other k d = at-other set_up.mconf m k _ d ∙ s.others k d

  staffed-IsStaffed : num g m ≡ 0 → r < 256 → IsStaffed if_count staffed m r
  staffed-IsStaffed z inside =
      let old = set_up.mconf m in
      let empty : old.num_rx_pktio ≡ 0 = s.receivers ∙ z in
      let conf = at-here set_up.mconf m (record old {
        rx_idx = at old.rx_idx old.num_rx_pktio (uint8 r);
        num_rx_pktio = uint8 (old.num_rx_pktio + 1);
      }) in
      record {
        single = ap (λ c. c.num_rx_pktio) conf ∙ omega arith;
        receives =
            ap (λ c. c.rx_idx 0) conf
            ∙ subst (λ i. at old.rx_idx i (uint8 r) 0 ≡ r) (sym empty)
                (at-here old.rx_idx 0 (uint8 r) ∙ omega arith);
        sends = λ t h d. ap (λ c. c.tx_idx t) conf ∙ s.here t (omega arith) (omega arith) d;
      }

-- The workers from `m` on, of which there are `n`, have got their interfaces.
record AreStaffed (if_count m n : ℕ) (g g' : MacGlobal) : Type 0 where
  pub before : (k : ℕ) → k < m → g'.mconf k ≡ g.mconf k
  pub each : (k : ℕ) → m ≤ k → k < m + n → IsStaffed if_count g' k (turn if_count k)

IsStaffed-kept :
    (if_count : ℕ) (g g' : MacGlobal) (m r : ℕ)
    → g'.mconf m ≡ g.mconf m
    → IsStaffed if_count g m r
    → IsStaffed if_count g' m r
IsStaffed-kept if_count g g' m r e s = record {
  single = ap (λ c. c.num_rx_pktio) e ∙ s.single;
  receives = ap (λ c. c.rx_idx 0) e ∙ s.receives;
  sends = λ t h d. ap (λ c. c.tx_idx t) e ∙ s.sends t h d;
}

one_more :
    (if_count m n : ℕ) (g g1 g' : MacGlobal)
    → ((k : ℕ) → k ≢ m → g1.mconf k ≡ g.mconf k)
    → IsStaffed if_count g1 m (turn if_count m)
    → AreStaffed if_count (m + 1) n g1 g'
    → AreStaffed if_count m (suc n) g g'
one_more if_count m n g g1 g' other s a = record {
  before = λ k h. a.before k (omega arith) ∙ other k (λ q. omega arith);
  each = λ k h l. elim (Bool-cases (k == m)) [
    | inl q ↦
        subst (λ i. IsStaffed if_count g' i (turn if_count i)) (same k q)
          (IsStaffed-kept if_count g1 g' m (turn if_count m) (a.before m (omega arith)) s)
    | inr q ↦ a.each k (ground arith) (omega arith)
  ];
}
  where
    same : (k : ℕ) → (k == m) ≡ true → m ≡ k
    same k q = ground arith

turn-next :
    (if_count m r : ℕ)
    → r ≡ turn if_count m
    → (if leb if_count (r + 1) then 0 else r + 1) ≡ turn if_count (m + 1)
unfolding turn
turn-next if_count m r e =
    let next : suc m ≡ m + 1 = omega arith in
    ap (λ i. if leb if_count (i + 1) then 0 else i + 1) e ∙ ap (turn if_count) next

two_steps :
    (o : Option MacGlobal) (f h : MacGlobal → Option MacGlobal) {a b : MacGlobal}
    → o ≡ some a
    → f a ≡ some b
    → (o and_then f and_then h) ≡ h b
two_steps o f h e d = ap (λ x. x and_then f and_then h) e ∙ ap (λ x. x and_then h) d

share_workers-AreStaffed :
    (if_count n m r : ℕ) (g : MacGlobal)
    → 0 < if_count
    → if_count ≤ 8
    → m + n ≤ 32
    → r ≡ turn if_count m
    → ((k : ℕ) → m ≤ k → num g k ≡ 0)
    → Ends (share_workers if_count g m r n) (AreStaffed if_count m n g)
unfolding share_workers
share_workers-AreStaffed if_count zero m r g p b w e z =
    (g, refl, record { before = λ k h. refl; each = λ k h l. absurd (omega arith) })
share_workers-AreStaffed if_count (suc n) m r g p b w e z =
    let inside : r < if_count = subst (λ i. i < if_count) (sym e) (turn-lt if_count m p) in
    let (g1, d, s) = send_to_others-IsSending if_count g m r 0 (omega arith) (omega arith) in
    let none_yet = s.receivers in
    let z' = z m (omega arith) in
    let other = staffed-other if_count m r g g1 s in
    let first = staffed-IsStaffed if_count m r g g1 s z' (omega arith) in
    let (g', c, a) =
      share_workers-AreStaffed if_count n (m + 1) _ (set_rx g1 m r) p b (omega arith)
        (turn-next if_count m r e)
        (λ k h. ap (λ c. c.num_rx_pktio) (other k (λ q. omega arith)) ∙ z k (omega arith)) in
    (
      g',
      two_steps (send_to_others g m r 0 if_count) (λ g'. receive_from g' m r) _ d
            (receive_from_lem g1 m r (omega arith) (omega arith) (omega arith))
          ∙ c,
      one_more if_count m n g (set_rx g1 m r) g' other
          (subst (IsStaffed if_count (set_rx g1 m r) m) e first) a,
    )

turn-start : (if_count : ℕ) → 0 ≡ turn if_count 0
unfolding turn
turn-start if_count = refl

not_more :
    (if_count num_workers : ℕ) (g : MacGlobal)
    → ltb num_workers if_count ≡ false
    → macs_set_worker_afinity if_count num_workers g ≡ share_workers if_count g 0 0 num_workers
unfolding macs_set_worker_afinity
not_more if_count num_workers g h = rw h refl

-- What macs_set_worker_afinity leaves: with more interfaces than workers they are shared out, and
-- otherwise each worker has one, in turn.
abbrev pub IsAssigned : ℕ → ℕ → MacGlobal → Type 0
IsAssigned if_count num_workers g =
    ((num_workers < if_count) × IsSharedOut if_count num_workers g)
    ⊎ ((if_count ≤ num_workers)
        × ((m : ℕ) → m < num_workers → IsStaffed if_count g m (turn if_count m))
        × ((r : ℕ) → r < if_count → rx g r 0 ≡ r))

-- There are at most 8 interfaces and at most 32 workers, at least one of each, and no worker has an
-- interface yet: macs_set_worker_afinity ends without an access out of its arrays. With more
-- interfaces than workers, it puts every interface in exactly one slot of exactly one worker, no
-- slot has anything else, and no worker has two interfaces more than another. Otherwise the m-th
-- worker gets one interface, round the interfaces, so that each has a worker, and is set up to send
-- to all the others.
pub macs_set_worker_afinity-IsAssigned :
    (if_count num_workers : ℕ) (g : MacGlobal)
    → 0 < if_count
    → 0 < num_workers
    → if_count ≤ 8
    → num_workers ≤ 32
    → ((m : ℕ) → num g m ≡ 0)
    → Ends (macs_set_worker_afinity if_count num_workers g) (IsAssigned if_count num_workers)
macs_set_worker_afinity-IsAssigned if_count num_workers g p w b c z =
    elim (Bool-cases (ltb num_workers if_count)) [
      | inl h ↦
          let more : num_workers < if_count = ground arith in
          let (g', e, s) =
            macs_set_worker_afinity-IsSharedOut if_count num_workers g w more b c z in
          (g', e, inl (more, s))
      | inr h ↦
          let (g', e, s) =
            share_workers-AreStaffed if_count num_workers 0 0 g p b (omega arith)
              (turn-start if_count) (λ k _. z k) in
          (
            g',
            not_more if_count num_workers g h ∙ e,
            inr (
              ground arith,
              (λ m l. s.each m (omega arith) (omega arith)),
              λ r l. (s.each r (omega arith) (ground arith)).receives ∙ turn-first if_count r l,
            ),
          )
    ]
