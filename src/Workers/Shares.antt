-- ===== src/Workers/Shares.antt =====
-- odp_lib.c: with more interfaces than workers, the interfaces are shared out in turn.
use macsad.Prelude.{
  ℕ, zero, suc, ◌≡◌, ◌<◌, ◌≤◌, ◌+◌, true, refl, arith, if◌then◌else◌, Ends, Ends-next, subst, ltb,
  leb, Bool-cases, ◌⊎◌, inl, inr,
}
use macsad.Workers.{MacGlobal, set_rx, receive_from, share_interfaces, macs_set_worker_afinity}
use macsad.Workers.Slots.{
  num, IsPlaced, IsCounted, placed, IsCounted-on, IsCounted-round, receive_from_lem,
}

-- All interfaces are placed, and no worker has two more than another.
pub record IsSharedOut (if_count num_workers : ℕ) (g : MacGlobal) : Type 0 where
  pub placed : IsPlaced num_workers g if_count
  pub balanced : (m m' : ℕ) → m < num_workers → m' < num_workers → num g m ≤ num g m' + 1

count_of :
    (workers : ℕ) (g : MacGlobal) (id k q m : ℕ)
    → IsCounted workers g id k q
    → m < workers
    → (num g m ≡ q) ⊎ (num g m ≡ q + 1)
count_of workers g id k q m c l = elim (Bool-cases (ltb m id)) [
  | inl h ↦ inr (c.more m (ground arith))
  | inr h ↦ inl (c.fewer m (ground arith) l)
]

close : (a b q : ℕ) → (a ≡ q) ⊎ (a ≡ q + 1) → (b ≡ q) ⊎ (b ≡ q + 1) → a ≤ b + 1
close a b q (inl h) (inl i) = omega arith
close a b q (inl h) (inr i) = omega arith
close a b q (inr h) (inl i) = omega arith
close a b q (inr h) (inr i) = omega arith

share_interfaces-IsSharedOut :
    (workers n : ℕ) (g : MacGlobal) (id k q : ℕ)
    → k + n ≤ 8
    → workers ≤ 32
    → IsPlaced workers g k
    → IsCounted workers g id k q
    → Ends (share_interfaces workers g id k n) (IsSharedOut (k + n) workers)
unfolding share_interfaces
share_interfaces-IsSharedOut workers zero g id k q b w p c = (
  g,
  refl,
  record {
    placed = subst (IsPlaced workers g) (omega arith) p;
    balanced = λ m m' l l'.
        close (num g m) (num g m') q (count_of workers g id k q m c l)
          (count_of workers g id k q m' c l');
  },
)
share_interfaces-IsSharedOut workers (suc n) g id k q b w p c =
    let e = c.fewer id (omega arith) c.next_in in
    let t = c.turns_in in
    let i = c.next_in in
    let p' = placed g id k q e (omega arith) (omega arith) workers c.next_in p in
    let there : (k + 1) + n ≡ k + suc n = omega arith in
    let first = receive_from_lem g id k (omega arith) (omega arith) (omega arith) in
    Ends-next (receive_from g id k) (set_rx g id k) _ (IsSharedOut (k + suc n) workers) first (
      subst
        (λ a.
          Ends
            (share_interfaces workers (set_rx g id k) (if leb workers (id + 1) then 0 else id + 1)
              (k + 1) n)
            (IsSharedOut a workers))
        there
        (elim (Bool-cases (leb workers (id + 1))) [
          | inl h ↦ rw h (
              share_interfaces-IsSharedOut workers n (set_rx g id k) 0 (k + 1) (q + 1) (omega arith)
                w p'
                (IsCounted-round g id k q e (omega arith) (omega arith) workers (ground arith) c))
          | inr h ↦ rw h (
              share_interfaces-IsSharedOut workers n (set_rx g id k) (id + 1) (k + 1) q
                (omega arith) w p'
                (IsCounted-on g id k q e (omega arith) (omega arith) workers (ground arith) c))
        ]))

-- With at most 8 interfaces, more than workers, of which there is at least one, and no worker that
-- has an interface yet: after macs_set_worker_afinity every interface is in exactly one slot of exactly one
-- worker, no slot has anything else, and no worker has two interfaces more than another.
pub macs_set_worker_afinity-IsSharedOut :
    (if_count num_workers : ℕ) (g : MacGlobal)
    → 0 < num_workers
    → num_workers < if_count
    → if_count ≤ 8
    → num_workers ≤ 32
    → ((m : ℕ) → num g m ≡ 0)
    → Ends (macs_set_worker_afinity if_count num_workers g) (IsSharedOut if_count num_workers)
unfolding macs_set_worker_afinity
macs_set_worker_afinity-IsSharedOut if_count num_workers g h l b w z =
    let more : ltb num_workers if_count ≡ true = ground arith in
    let all : 0 + if_count ≡ if_count = omega arith in
    rw more (
      subst (λ i. Ends (share_interfaces num_workers g 0 0 if_count) (IsSharedOut i num_workers))
        all
        (share_interfaces-IsSharedOut num_workers if_count g 0 0 0 (omega arith) w
          (record {
            each = λ r i. absurd (omega arith);
            below = λ m s i j. let n = z m in absurd (omega arith);
            once = λ m s m' s' i j i' j' eq. let n = z m in absurd (omega arith);
          })
          (record {
            next_in = h;
            turns_in = omega arith;
            more = λ m i. absurd (omega arith);
            fewer = λ m i j. z m;
          })))
