-- ===== src/Examples/Forwarding.antt =====
-- A worker of a switch with three ports; a packet is the number of the port that it goes to.
use macsad.Prelude.{ℕ, ◌≡◌, ◌+◌, min, some, List, [], ◌∷◌, ◌++◌, refl, arith, inl}
use macsad.Prelude.Int.{pos}
use macsad.Forward.{Odp, Worker, maco_bcast_packet, worker_round, odpc_worker_mode_direct}
use macsad.Forward.Burst.{IsClear, Answers}
use macsad.Forward.Packet.{IsSpread, Copies, maco_bcast_packet-IsSpread}
use macsad.Forward.Receive.{IsRouted}
use macsad.Forward.Round.{
  RoundOutcome, RunOutcome, AreRouted, worker_round-Outcome, odpc_worker_mode_direct-Outcome,
}
use macsad.Forward.Returned.{
  Outcome, AreReturned, AllReturned, total, odpc_worker_mode_direct-Returned,
}

-- The interfaces take two packets at a time.
abbrev odp : Odp ℕ
odp = record {
  odp_packet_copy = λ k pkt. some (1000 + k);
  odp_pktout_send = λ k n. pos (min n 2);
  handle_packet = λ port pkt. pkt;
}

abbrev fresh : Worker ℕ
fresh = record {
  tx_pktios = λ p. record { pkt = λ i. 165; len = 0 };
  copies = 0;
  sends = 0;
  sent = [];
  freed = [];
}

abbrev three_in_one : Worker ℕ
three_in_one = record fresh { tx_pktios = λ p. record { pkt = λ i. i + 7; len = 3 } }

fresh-IsClear : IsClear fresh
fresh-IsClear p = refl

odp-Answers : Answers odp
odp-Answers k n = inl (min n 2, refl, omega arith)

odp-Copies : Copies odp 5
odp-Copies k = (1000 + k, refl)

maco_bcast_packet-IsSpread_example :
    (w' : Worker ℕ) × (maco_bcast_packet odp three_in_one 3 5 1
      ≡ some (record w' { freed = w'.freed ++ 5 ∷ [] }))
    × IsSpread odp three_in_one 5 1 0 3 w'
maco_bcast_packet-IsSpread_example =
    maco_bcast_packet-IsSpread odp three_in_one 3 5 1 odp-Copies (omega arith) (omega arith)
      (λ p. omega arith)

routed : IsRouted odp 0 3 (1 ∷ 2 ∷ 1 ∷ 1 ∷ [])
unfolding IsRouted
routed = (
  omega arith,
  (λ e. omega arith),
  (
    omega arith,
    (λ e. omega arith),
    (omega arith, (λ e. omega arith), (omega arith, (λ e. omega arith), tt)),
  ),
)

worker_round-Outcome_example :
    RoundOutcome odp 0 fresh 3
      (1 ∷ 2 ∷ 1 ∷ 1 ∷ [])
      (worker_round odp fresh 3 0 (1 ∷ 2 ∷ 1 ∷ 1 ∷ []))
worker_round-Outcome_example =
    worker_round-Outcome odp 0 fresh 3 (1 ∷ 2 ∷ 1 ∷ 1 ∷ []) (omega arith) (omega arith) routed
      fresh-IsClear odp-Answers

-- The worker receives from ports 0 and 1 in turn; the second call brings nothing.
abbrev three_calls : List (List ℕ)
three_calls = (1 ∷ 2 ∷ 1 ∷ 1 ∷ []) ∷ [] ∷ (2 ∷ []) ∷ []

calls-routed : AreRouted odp 3 2 (λ i. i) 0 three_calls
unfolding AreRouted IsRouted
calls-routed = (
  routed,
  omega arith,
  (tt, omega arith, (((omega arith, (λ e. omega arith), tt)), omega arith, tt)),
)

odpc_worker_mode_direct-Outcome_example :
    RunOutcome odp 3 2
      (λ i. i)
      fresh
      0
      three_calls
      (odpc_worker_mode_direct odp 3 2 (λ i. i) fresh 0 three_calls)
odpc_worker_mode_direct-Outcome_example =
    odpc_worker_mode_direct-Outcome odp 3 2 (λ i. i) three_calls fresh 0 (omega arith) calls-routed
      fresh-IsClear odp-Answers

abbrev twenty : List ℕ
twenty = 1 ∷ 1 ∷ 1 ∷ 1 ∷ 1 ∷ 1 ∷ 1 ∷ 1 ∷ 1 ∷ 1 ∷ 1 ∷ 1 ∷ 1 ∷ 1 ∷ 1 ∷ 1 ∷ 1 ∷ 1 ∷ 1 ∷ 1 ∷ []

twenty-AreReturned : AreReturned odp 3 1 twenty
unfolding AreReturned
twenty-AreReturned = (
  refl,
  (
    refl,
    (
      refl,
      (
        refl,
        (
          refl,
          (
            refl,
            (
              refl,
              (
                refl,
                (
                  refl,
                  (
                    refl,
                    (
                      refl,
                      (refl, (refl, (refl, (refl, (refl, (refl, (refl, (refl, (refl, tt))))))))),
                    ),
                  ),
                ),
              ),
            ),
          ),
        ),
      ),
    ),
  ),
)

two_twenties : AllReturned odp 3 1 (twenty ∷ twenty ∷ [])
unfolding AllReturned
two_twenties = (twenty-AreReturned, (twenty-AreReturned, tt))

-- Forty packets.
odpc_worker_mode_direct-Returned_example :
    Outcome odp 3 1 fresh
      (total odp 3 1 (twenty ∷ twenty ∷ []))
      (odpc_worker_mode_direct odp 3 1 (λ i. 1) fresh 0 (twenty ∷ twenty ∷ []))
odpc_worker_mode_direct-Returned_example =
    odpc_worker_mode_direct-Returned odp 3 1 (omega arith) (twenty ∷ twenty ∷ []) fresh two_twenties
      (λ p n. refl) (omega arith)
