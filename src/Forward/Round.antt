-- ===== src/Forward/Round.antt =====
-- main_odp.c: a round of a worker, from the burst it receives to the bursts it sends.
use macsad.Prelude.{
  ℕ, ◌≡◌, ◌∙◌, ◌≤◌, ◌+◌, ◌==◌, Bool, true, false, Option, none, some, List, [], ◌∷◌, ◌++◌, refl,
  sym, ap, ap₂, subst, arith, length, if◌then◌else◌, Ends, ◌and_then◌, ◌⊎◌, inl, inr,
}
use macsad.Forward.{Odp, Worker, packets, flush, worker_round, odpc_worker_mode_direct}
use macsad.Forward.Flush.{
  bursts, bursts-same, fails, fails-same, sent_of, left_of, IsFlushed, FlushOutcome, flush-Outcome,
}
use macsad.Forward.Burst.{queued, IsClear, Answers, length-packets}
use macsad.Forward.Receive.{
  for_port, IsRouted, IsReceived, receive_all-IsReceived, shorter, after_flush,
}

module _ {P : Type 0} (odp : Odp P) (port_in : ℕ) where
  -- What a round does to a worker with empty buffers.
  pub record IsDelivered (w : Worker P) (if_count : ℕ) (pkts : List P) (w' : Worker P)
      : Type 0 where
    pub sent :
        w'.sent
        ≡ w.sent
          ++ sent_of (bursts odp port_in (λ p. for_port odp port_in p pkts) w.sends 0 if_count)
    pub freed :
        w'.freed
        ≡ w.freed
          ++ left_of (bursts odp port_in (λ p. for_port odp port_in p pkts) w.sends 0 if_count)
    pub clear : IsClear w'

  -- Whether one of the calls of `odp_pktout_send` in the round fails.
  pub round_fails : Worker P → ℕ → List P → Bool
  round_fails w if_count pkts =
      fails odp port_in (λ p. for_port odp port_in p pkts) w.sends 0 if_count

  abbrev pub RoundOutcome : Worker P → ℕ → List P → Option (Worker P) → Type 0
  RoundOutcome w if_count pkts o =
      ((round_fails w if_count pkts ≡ false) × Ends o (IsDelivered w if_count pkts))
      ⊎ ((round_fails w if_count pkts ≡ true) × (o ≡ none))

  -- What is received is flushed.
  module _ (w : Worker P) (if_count : ℕ) (pkts : List P) (r : IsRouted odp port_in if_count pkts)
      (clear : IsClear w) (w1 : Worker P) (d : IsReceived odp port_in w pkts w1) where
    same_queue : (p : ℕ) → queued w1 p ≡ for_port odp port_in p pkts
    same_queue p =
        d.buffers p
        ∙ ap (λ k. packets (w.tx_pktios p).pkt 0 k ++ for_port odp port_in p pkts) (clear p)

    same_len : (p : ℕ) → (w1.tx_pktios p).len ≡ length (for_port odp port_in p pkts)
    same_len p =
        sym (length-packets (w1.tx_pktios p).pkt 0 (w1.tx_pktios p).len)
        ∙ ap (λ k. length k) (same_queue p)

    flushed-IsDelivered :
        (w' : Worker P) → IsFlushed odp port_in w1 0 if_count w' → IsDelivered w if_count pkts w'
    flushed-IsDelivered w' f =
        let same =
          bursts-same odp port_in (queued w1) (λ p. for_port odp port_in p pkts) w1.sends 0 if_count
            (λ p _. same_queue p)
          ∙ ap (λ k. bursts odp port_in (λ p. for_port odp port_in p pkts) k 0 if_count) d.sends in
        record {
          sent = f.sent ∙ ap₂ (λ s bs. s ++ sent_of bs) d.sent same;
          freed = f.freed ∙ ap₂ (λ s bs. s ++ left_of bs) d.freed same;
          clear = after_flush odp port_in w1 w' if_count pkts r same_len f;
        }

    same_fails : round_fails w if_count pkts ≡ fails odp port_in (queued w1) w1.sends 0 if_count
    unfolding round_fails
    same_fails = sym (
        fails-same odp port_in (queued w1) (λ p. for_port odp port_in p pkts) w1.sends 0 if_count
          (λ p _. same_queue p)
        ∙ ap (λ k. fails odp port_in (λ p. for_port odp port_in p pkts) k 0 if_count) d.sends)

    flushed-Outcome :
        (o : Option (Worker P))
        → FlushOutcome odp port_in w1 0 if_count o
        → RoundOutcome w if_count pkts o
    flushed-Outcome o (inl (a, (w', e, f))) =
        inl (same_fails ∙ a, (w', e, flushed-IsDelivered w' f))
    flushed-Outcome o (inr (a, e)) = inr (same_fails ∙ a, e)

  -- A worker with empty buffers and at most 8 ports receives at most 32 packets from `port_in`, each
  -- of which goes to one of the other ports, and each call of `odp_pktout_send` takes some of its
  -- packets or fails, with an error of at least -32768. If none of the calls for those packets fails, the round ends; to each port in
  -- turn that has packets goes one burst with the packets for it in the order of their arrival, of
  -- which those that the interface does not take are freed; and the buffers are empty again. If one
  -- fails, the round accesses its array of packets out of bounds.
  pub worker_round-Outcome :
      (w : Worker P) (if_count : ℕ) (pkts : List P)
      → if_count ≤ 8
      → length pkts ≤ 32
      → IsRouted odp port_in if_count pkts
      → IsClear w
      → Answers odp
      → RoundOutcome w if_count pkts (worker_round odp w if_count port_in pkts)
  unfolding worker_round
  worker_round-Outcome w if_count pkts b l r clear ans =
      let (w1, e, d) =
        receive_all-IsReceived odp port_in pkts w if_count b r
          (λ p. let c = clear p in omega arith) in
      subst (RoundOutcome w if_count pkts)
        (sym (ap (λ o. o and_then (λ w'. flush odp w' port_in 0 if_count)) e))
        (flushed-Outcome w if_count pkts r clear w1 d (flush odp w1 port_in 0 if_count) (
          flush-Outcome odp port_in if_count 0 w1 ans (λ p.
            let m = same_len w if_count pkts r clear w1 d p in
            let s = shorter odp port_in p pkts in omega arith)))

-- The packets that a worker receives in turn from its ports, each for another port.
unfoldable pub AreRouted : {P : Type 0} → Odp P → ℕ → ℕ → (ℕ → ℕ) → ℕ → List (List P) → Type 0
AreRouted odp if_count num_pktio rx_idx idx [] = Unit {0}
AreRouted odp if_count num_pktio rx_idx idx (burst ∷ bursts) =
    IsRouted odp (rx_idx idx) if_count burst
    × (length burst ≤ 32)
    × AreRouted odp if_count num_pktio rx_idx (if (idx + 1) == num_pktio then 0 else idx + 1) bursts

module _ {P : Type 0} (odp : Odp P) (if_count num_pktio : ℕ) (rx_idx : ℕ → ℕ) where
  -- The index of the port of the next call, after some calls.
  abbrev pub turn : ℕ → List (List P) → ℕ
  turn idx [] = idx
  turn idx (burst ∷ bursts) = turn (if (idx + 1) == num_pktio then 0 else idx + 1) bursts

  -- After the bursts `before`, a call of `odp_pktout_send` fails in the round of the next burst.
  pub record IsRefused (w : Worker P) (idx : ℕ) (bursts : List (List P)) : Type 0 where
    pub before : List (List P)
    pub burst : List P
    pub later : List (List P)
    pub split : bursts ≡ before ++ burst ∷ later
    pub ended : Worker P
    pub runs : odpc_worker_mode_direct odp if_count num_pktio rx_idx w idx before ≡ some ended
    pub refused : round_fails odp (rx_idx (turn idx before)) ended if_count burst ≡ true

  abbrev pub RunOutcome : Worker P → ℕ → List (List P) → Option (Worker P) → Type 0
  RunOutcome w idx bursts o = Ends o IsClear ⊎ (IsRefused w idx bursts × (o ≡ none))

  refused_later :
      (w w1 : Worker P) (idx : ℕ) (burst : List P) (bursts : List (List P))
      → ((rest : List (List P))
          → odpc_worker_mode_direct odp if_count num_pktio rx_idx w idx (burst ∷ rest)
            ≡ odpc_worker_mode_direct odp if_count num_pktio rx_idx w1
                (if (idx + 1) == num_pktio then 0 else idx + 1)
                rest)
      → RunOutcome w1 (if (idx + 1) == num_pktio then 0 else idx + 1) bursts (
          odpc_worker_mode_direct odp if_count num_pktio rx_idx w1
            (if (idx + 1) == num_pktio then 0 else idx + 1)
            bursts)
      → RunOutcome w idx
          (burst ∷ bursts)
          (odpc_worker_mode_direct odp if_count num_pktio rx_idx w idx (burst ∷ bursts))
  refused_later w w1 idx burst bursts same (inl (w', e, c)) = inl (w', same bursts ∙ e, c)
  refused_later w w1 idx burst bursts same (inr (r, e)) = inr (
    record {
      before = burst ∷ r.before;
      burst = r.burst;
      later = r.later;
      split = ap (λ l. burst ∷ l) r.split;
      ended = r.ended;
      runs = same r.before ∙ r.runs;
      refused = r.refused;
    },
    same bursts ∙ e,
  )

  abbrev goes_on : ℕ → List (List P) → Worker P → Option (Worker P)
  goes_on idx rest w' =
      odpc_worker_mode_direct odp if_count num_pktio rx_idx w'
        (if (idx + 1) == num_pktio then 0 else idx + 1) rest

  -- Every burst has at most 32 packets, each packet goes to another one of the at most 8 ports than
  -- it came from, the worker starts with empty buffers, and each call of `odp_pktout_send` takes some
  -- of its packets or fails, with an error of at least -32768. Either the worker stops with empty buffers, or it accesses an array out
  -- of bounds, and then, after some of the bursts, a call of `odp_pktout_send` for the packets of the
  -- next one failed.
  pub odpc_worker_mode_direct-Outcome :
      (bursts : List (List P)) (w : Worker P) (idx : ℕ)
      → if_count ≤ 8
      → AreRouted odp if_count num_pktio rx_idx idx bursts
      → IsClear w
      → Answers odp
      → RunOutcome w idx bursts (odpc_worker_mode_direct odp if_count num_pktio rx_idx w idx bursts)
  unfolding odpc_worker_mode_direct AreRouted
  odpc_worker_mode_direct-Outcome [] w idx b r clear ans = inl (w, refl, clear)
  odpc_worker_mode_direct-Outcome ([] ∷ bursts) w idx b (h, l, r) clear ans =
      refused_later w w idx [] bursts (λ rest. refl)
        (odpc_worker_mode_direct-Outcome bursts w _ b r clear ans)
  odpc_worker_mode_direct-Outcome ((pkt ∷ pkts) ∷ bursts) w idx b (h, l, r) clear ans =
      elim (worker_round-Outcome odp (rx_idx idx) w if_count (pkt ∷ pkts) b l h clear ans) [
        | inl (_, (w1, e, d)) ↦
            refused_later w w1 idx (pkt ∷ pkts) bursts
              (λ rest. ap (λ o. o and_then goes_on idx rest) e)
              (odpc_worker_mode_direct-Outcome bursts w1 _ b r d.clear ans)
        | inr (a, e) ↦ inr (
          record {
            before = [];
            burst = pkt ∷ pkts;
            later = bursts;
            split = refl;
            ended = w;
            runs = refl;
            refused = a;
          },
          ap (λ o. o and_then goes_on idx bursts) e,
        )
      ]
