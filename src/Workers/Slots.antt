-- ===== src/Workers/Slots.antt =====
-- odp_lib.c: an interface in the next slot of a worker.
use macsad.Prelude.{
  ℕ, ◌≡◌, ◌≢◌, ◌∙◌, ◌<◌, ◌≤◌, ◌+◌, ◌==◌, ltb, true, false, some, refl, sym, ap, arith, subst,
  Bool-cases, ◌⊎◌, inl, inr,
}
use macsad.Workers.{MacsConf, MacGlobal, uint8, at, set_rx, receive_from}

-- The slots that a worker receives from.
abbrev pub num : MacGlobal → ℕ → ℕ
num g m = (g.mconf m).num_rx_pktio

abbrev pub rx : MacGlobal → ℕ → ℕ → ℕ
rx g m s = (g.mconf m).rx_idx s

-- The first `k` interfaces are each in exactly one slot of one of the workers.
pub record IsPlaced (workers : ℕ) (g : MacGlobal) (k : ℕ) : Type 0 where
  pub each : (r : ℕ) → r < k → (m s : ℕ) × (m < workers) × (s < num g m) × (rx g m s ≡ r)
  pub below : (m s : ℕ) → m < workers → s < num g m → rx g m s < k
  pub once :
      (m s m' s' : ℕ)
      → m < workers
      → s < num g m
      → m' < workers
      → s' < num g m'
      → rx g m s ≡ rx g m' s'
      → (m ≡ m') × (s ≡ s')

-- The workers have `turns` interfaces each, and those in front of `next` one more.
pub record IsCounted (workers : ℕ) (g : MacGlobal) (next k turns : ℕ) : Type 0 where
  pub next_in : next < workers
  pub turns_in : turns ≤ k
  pub more : (m : ℕ) → m < next → num g m ≡ turns + 1
  pub fewer : (m : ℕ) → next ≤ m → m < workers → num g m ≡ turns

pub at-here : {A : Type 0} (f : ℕ → A) (i : ℕ) (v : A) → at f i v i ≡ v
at-here f i v = let on : (i == i) ≡ true = ground arith in rw on refl

pub at-other : {A : Type 0} (f : ℕ → A) (i j : ℕ) (v : A) → j ≢ i → at f i v j ≡ f j
at-other f i j v n = let off : (j == i) ≡ false = ground arith in rw off refl

-- Within the bounds of the arrays.
pub receive_from_lem :
    (g : MacGlobal) (m r : ℕ)
    → m < 32
    → num g m < 8
    → r < 8
    → receive_from g m r ≡ some (set_rx g m r)
unfolding receive_from
receive_from_lem g m r h l k =
    let a : ltb m 32 ≡ true = ground arith in
    let b : ltb (num g m) 8 ≡ true = ground arith in
    let c : ltb r 8 ≡ true = ground arith in rw (a, b, c) refl

module _ (g : MacGlobal) (id k q : ℕ) (e : num g id ≡ q) (small : q < 255) (small_k : k < 256) where
  abbrev g' : MacGlobal
  g' = set_rx g id k

  abbrev conf : MacsConf
  conf = record (g.mconf id) {
    rx_idx = at (g.mconf id).rx_idx (g.mconf id).num_rx_pktio (uint8 k);
    num_rx_pktio = uint8 ((g.mconf id).num_rx_pktio + 1);
  }

  conf-here : g'.mconf id ≡ conf
  conf-here = at-here g.mconf id conf

  num-other : (m : ℕ) → m ≢ id → g'.mconf m ≡ g.mconf m
  num-other m n = at-other g.mconf id m conf n

  num-here : num g' id ≡ q + 1
  num-here = ap (λ c. c.num_rx_pktio) conf-here ∙ omega arith

  rx-new : rx g' id q ≡ k
  rx-new =
      ap (λ c. c.rx_idx q) conf-here
      ∙ subst (λ j. at (g.mconf id).rx_idx j (uint8 k) q ≡ k) (sym e)
          (at-here (g.mconf id).rx_idx q (uint8 k) ∙ omega arith)

  rx-old : (s : ℕ) → s < q → rx g' id s ≡ rx g id s
  rx-old s l =
      ap (λ c. c.rx_idx s) conf-here
      ∙ at-other (g.mconf id).rx_idx (g.mconf id).num_rx_pktio s (uint8 k) (λ h. omega arith)

  -- A slot is either an old one or the new one.
  slots : (m s : ℕ) → s < num g' m → ((s < num g m) × (rx g' m s ≡ rx g m s)) ⊎ ((m ≡ id) × (s ≡ q))
  slots m s l = elim (Bool-cases (m == id)) [
    | inl h ↦ elim (Bool-cases (s == q)) [
      | inl i ↦ inr (ground arith, ground arith)
      | inr i ↦ old (ground arith) (ground arith)
    ]
    | inr h ↦
        let same = num-other m (ground arith) in
        inl (subst (λ c. s < c.num_rx_pktio) same l, ap (λ c. c.rx_idx s) same)
  ]
    where
      old : m ≡ id → s ≢ q → ((s < num g m) × (rx g' m s ≡ rx g m s)) ⊎ ((m ≡ id) × (s ≡ q))
      old h i =
          let l' : s < num g' id = subst (λ j. s < num g' j) h l in
          let n = num-here in
          let less : s < q = omega arith in
          inl (
            subst (λ j. s < num g j) (sym h) (omega arith),
            subst (λ j. rx g' j s ≡ rx g j s) (sym h) (rx-old s less),
          )

  kept : (m s : ℕ) → s < num g m → (s < num g' m) × (rx g' m s ≡ rx g m s)
  kept m s l = elim (Bool-cases (m == id)) [
    | inl h ↦ here (ground arith)
    | inr h ↦
        let same = num-other m (ground arith) in
        (subst (λ c. s < c.num_rx_pktio) (sym same) l, ap (λ c. c.rx_idx s) same)
  ]
    where
      here : m ≡ id → (s < num g' m) × (rx g' m s ≡ rx g m s)
      here h =
          let l' : s < num g id = subst (λ j. s < num g j) h l in
          let n = num-here in
          let less : s < q = omega arith in
          (
            subst (λ j. s < num g' j) (sym h) (omega arith),
            subst (λ j. rx g' j s ≡ rx g j s) (sym h) (rx-old s less),
          )

  new_at : (m s : ℕ) → m ≡ id → s ≡ q → rx g' m s ≡ k
  new_at m s h i = subst (λ j. rx g' j s ≡ k) (sym h) (subst (λ j. rx g' id j ≡ k) (sym i) rx-new)

  pub placed : (workers : ℕ) → id < workers → IsPlaced workers g k → IsPlaced workers g' (k + 1)
  placed workers l p = record {
    each = λ r h. elim (Bool-cases (r == k)) [
      | inl i ↦ (id, q, l, is_slot, rx-new ∙ ground arith)
      | inr i ↦ before r (ground arith)
    ];
    below = λ m s h i. elim (slots m s i) [
      | inl (j, same) ↦ let b = p.below m s h j in omega arith
      | inr (j, c) ↦ let n = new_at m s j c in omega arith
    ];
    once = λ m s m' s' h i h' i' eq. elim (slots m s i) [
      | inl (j, same) ↦ elim (slots m' s' i') [
        | inl (j', same') ↦ p.once m s m' s' h j h' j' (sym same ∙ eq ∙ same')
        | inr (j', c') ↦ absurd (apart m s m' s' h j same j' c' eq)
      ]
      | inr (j, c) ↦ elim (slots m' s' i') [
        | inl (j', same') ↦ absurd (apart m' s' m s h' j' same' j c (sym eq))
        | inr (j', c') ↦ (j ∙ sym j', c ∙ sym c')
      ]
    ];
  }
    where
      is_slot : q < num g' id
      is_slot = let n = num-here in omega arith

      before : (r : ℕ) → r < k → (m s : ℕ) × (m < workers) × (s < num g' m) × (rx g' m s ≡ r)
      before r h =
          let (m, s, i, j, e) = p.each r h in let (j', same) = kept m s j in (m, s, i, j', same ∙ e)

      apart :
          (m s m' s' : ℕ)
          → m < workers
          → s < num g m
          → rx g' m s ≡ rx g m s
          → m' ≡ id
          → s' ≡ q
          → rx g' m s ≡ rx g' m' s'
          → ⊥
      apart m s m' s' h j same j' c' eq =
          let b = p.below m s h j in let n = new_at m' s' j' c' in omega arith

  pub IsCounted-on :
      (workers : ℕ)
      → id + 1 < workers
      → IsCounted workers g id k q
      → IsCounted workers g' (id + 1) (k + 1) q
  IsCounted-on workers l c = record {
    next_in = l;
    turns_in = let t = c.turns_in in omega arith;
    more = λ m h. elim (Bool-cases (m == id)) [
      | inl i ↦ subst (λ j. num g' j ≡ q + 1) (ground arith) num-here
      | inr i ↦ ap (λ d. d.num_rx_pktio) (num-other m (ground arith)) ∙ c.more m (ground arith)
    ];
    fewer = λ m h i.
        ap (λ d. d.num_rx_pktio) (num-other m (λ j. omega arith)) ∙ c.fewer m (omega arith) i;
  }

  pub IsCounted-round :
      (workers : ℕ)
      → workers ≤ id + 1
      → IsCounted workers g id k q
      → IsCounted workers g' 0 (k + 1) (q + 1)
  IsCounted-round workers l c = record {
    next_in = let n = c.next_in in omega arith;
    turns_in = let t = c.turns_in in omega arith;
    more = λ m h. absurd (omega arith);
    fewer = λ m h i. elim (Bool-cases (m == id)) [
      | inl j ↦ subst (λ j. num g' j ≡ q + 1) (ground arith) num-here
      | inr j ↦ ap (λ d. d.num_rx_pktio) (num-other m (ground arith)) ∙ c.more m (ground arith)
    ];
  }
