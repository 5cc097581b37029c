-- ===== src/Workers/Staff.antt =====
-- odp_lib.c: with at least as many workers as interfaces, each worker gets one interface in turn.
use macsad.Prelude.{
  ℕ, zero, suc, ◌≡◌, ◌≢◌, ◌∙◌, ◌<◌, ◌≤◌, ◌+◌, ◌==◌, ltb, true, false, some, refl, ap, arith, subst,
  leb, Ends, Ends-next, if◌then◌else◌, Bool-cases, inl, inr,
}
use macsad.Workers.{MacsConf, MacGlobal, uint8, at, set_tx, send_to, send_to_others}
use macsad.Workers.Slots.{num, rx, at-here, at-other}

-- The interface of the m-th worker: round the interfaces.
unfoldable pub turn : ℕ → ℕ → ℕ
turn if_count zero = 0
turn if_count (suc m) = if leb if_count (turn if_count m + 1) then 0 else turn if_count m + 1

pub turn-lt : (if_count m : ℕ) → 0 < if_count → turn if_count m < if_count
unfolding turn
turn-lt if_count zero h = h
turn-lt if_count (suc m) h = elim (Bool-cases (leb if_count (turn if_count m + 1))) [
  | inl e ↦ rw e h
  | inr e ↦ rw e (ground arith)
]

pub turn-first : (if_count m : ℕ) → m < if_count → turn if_count m ≡ m
unfolding turn
turn-first if_count zero h = refl
turn-first if_count (suc m) h =
    let before = turn-first if_count m (omega arith) in
    let more : leb if_count (turn if_count m + 1) ≡ false = ground arith in rw more (omega arith)

-- Worker `m` receives from interface `r` only, and is set up to send to all others.
pub record IsStaffed (if_count : ℕ) (g : MacGlobal) (m r : ℕ) : Type 0 where
  pub single : num g m ≡ 1
  pub receives : rx g m 0 ≡ r
  pub sends : (t : ℕ) → t < if_count → t ≢ r → (g.mconf m).tx_idx t ≡ t

-- What setting up worker `m` for sending to the `n` interfaces from `first` on leaves.
pub record IsSending (g : MacGlobal) (m r first n : ℕ) (g' : MacGlobal) : Type 0 where
  pub receivers : num g' m ≡ num g m
  pub slots : (g'.mconf m).rx_idx ≡ (g.mconf m).rx_idx
  pub here : (t : ℕ) → first ≤ t → t < first + n → t ≢ r → (g'.mconf m).tx_idx t ≡ t
  pub before : (t : ℕ) → t < first → (g'.mconf m).tx_idx t ≡ (g.mconf m).tx_idx t
  pub others : (k : ℕ) → k ≢ m → g'.mconf k ≡ g.mconf k

send_conf : MacGlobal → ℕ → ℕ → MacsConf
send_conf g m t = record (g.mconf m) {
  tx_idx = at (g.mconf m).tx_idx t (uint8 t);
  num_tx_pktio = uint8 ((g.mconf m).num_tx_pktio + 1);
}

set_tx-here : (g : MacGlobal) (m t : ℕ) → (set_tx g m t).mconf m ≡ send_conf g m t
unfolding send_conf
set_tx-here g m t = at-here g.mconf m _

set_tx-other : (g : MacGlobal) (m t k : ℕ) → k ≢ m → (set_tx g m t).mconf k ≡ g.mconf k
set_tx-other g m t k n = at-other g.mconf m k _ n

-- One more interface in front.
module _ (g : MacGlobal) (m r first n : ℕ) (g' : MacGlobal) (small : first < 256) where
  skip_self : first ≡ r → IsSending g m r (first + 1) n g' → IsSending g m r first (suc n) g'
  skip_self e s = record {
    receivers = s.receivers;
    slots = s.slots;
    here = λ t h l d. s.here t (later t h d) (omega arith) d;
    before = λ t h. s.before t (omega arith);
    others = s.others;
  }
    where
      later : (t : ℕ) → first ≤ t → t ≢ r → first + 1 ≤ t
      later t h d = elim (Bool-cases (t == first)) [
        | inl q ↦ absurd (d (ground arith))
        | inr q ↦ ground arith
      ]

  send_first : IsSending (set_tx g m first) m r (first + 1) n g' → IsSending g m r first (suc n) g'
  unfolding send_conf
  send_first s =
      let conf = set_tx-here g m first in
      record {
        receivers = s.receivers ∙ ap (λ c. c.num_rx_pktio) conf;
        slots = s.slots ∙ ap (λ c. c.rx_idx) conf;
        here = λ t h l d. elim (Bool-cases (t == first)) [
          | inl q ↦ subst (λ i. (g'.mconf m).tx_idx i ≡ i) (ground arith) set
          | inr q ↦ s.here t (ground arith) (omega arith) d
        ];
        before = λ t h.
            s.before t (omega arith)
            ∙ ap (λ c. c.tx_idx t) conf
            ∙ at-other (g.mconf m).tx_idx first t (uint8 first) (λ q. omega arith);
        others = λ k d. s.others k d ∙ set_tx-other g m first k d;
      }
    where
      set : (g'.mconf m).tx_idx first ≡ first
      set =
          s.before first (omega arith)
          ∙ ap (λ c. c.tx_idx first) (set_tx-here g m first)
          ∙ at-here (g.mconf m).tx_idx first (uint8 first)
          ∙ omega arith

-- Within the bounds of the arrays.
send_to_lem : (g : MacGlobal) (m t : ℕ) → m < 32 → t < 8 → send_to g m t ≡ some (set_tx g m t)
unfolding send_to
send_to_lem g m t h l =
    let a : ltb m 32 ≡ true = ground arith in
    let b : ltb t 8 ≡ true = ground arith in rw (a, b) refl

pub send_to_others-IsSending :
    (n : ℕ) (g : MacGlobal) (m r first : ℕ)
    → first + n ≤ 8
    → m < 32
    → Ends (send_to_others g m r first n) (IsSending g m r first n)
unfolding send_to_others
send_to_others-IsSending zero g m r first b h = (
  g,
  refl,
  record {
    receivers = refl;
    slots = refl;
    here = λ t h l d. absurd (omega arith);
    before = λ t h. refl;
    others = λ k d. refl;
  },
)
send_to_others-IsSending (suc n) g m r first b h = elim (Bool-cases (first == r)) [
  | inl e ↦
      let (g', d, s) = send_to_others-IsSending n g m r (first + 1) (omega arith) h in
      rw e (g', d, skip_self g m r first n g' (omega arith) (ground arith) s)
  | inr e ↦
      let (g', d, s) =
        send_to_others-IsSending n (set_tx g m first) m r (first + 1) (omega arith) h in
      rw e (
        Ends-next (send_to g m first) (set_tx g m first) _ (IsSending g m r first (suc n))
          (send_to_lem g m first h (omega arith))
          (g', d, send_first g m r first n g' (omega arith) s))
]
