-- ===== src/Forward/Packet.antt =====
-- main_odp.c: `maco_bcast_packet` and `send_packet`.
use macsad.Prelude.{
  ℕ, zero, suc, ◌≡◌, ◌≢◌, ◌∙◌, ◌<◌, ◌≤◌, ◌+◌, ◌%◌, ◌^◌, ◌==◌, Bool, true, false, some, [], ◌∷◌,
  ◌++◌, refl, sym, ap, arith, subst, Ends, Ends-and_then, ◌and_then◌, Bool-cases, inl, inr,
}
use macsad.Forward.{Odp, Worker, put, packets, bcast_loop, maco_bcast_packet}
use macsad.Forward.Burst.{queued, IsPut, put-IsPut}

module _ {P : Type 0} (odp : Odp P) where
  -- `c` is what a call of `odp_packet_copy` returned for the packet.
  abbrev pub IsCopy : P → P → Type 0
  IsCopy pkt c = (k : ℕ) × (odp.odp_packet_copy k pkt ≡ some c)

  -- Every copy succeeds.
  abbrev pub Copies : P → Type 0
  Copies pkt = (k : ℕ) → (c : P) × (odp.odp_packet_copy k pkt ≡ some c)

  -- Every port of the `n` from `first` on, but for the one the packet came from, has got one copy.
  pub record IsSpread (w : Worker P) (pkt : P) (ingress first n : ℕ) (w' : Worker P) : Type 0 where
    pub copied :
        (p : ℕ)
        → first ≤ p
        → p < first + n
        → p ≢ ingress
        → (c : P) × IsCopy pkt c × (queued w' p ≡ queued w p ++ c ∷ [])
    pub before : (p : ℕ) → p < first → w'.tx_pktios p ≡ w.tx_pktios p
    pub behind : (p : ℕ) → first + n ≤ p → w'.tx_pktios p ≡ w.tx_pktios p
    pub back : w'.tx_pktios ingress ≡ w.tx_pktios ingress
    pub sent : w'.sent ≡ w.sent
    pub freed : w'.freed ≡ w.freed

  module _ (pkt : P) (ingress : ℕ) where
    none-IsSpread : (w : Worker P) (first : ℕ) → IsSpread w pkt ingress first 0 w
    none-IsSpread w first = record {
      copied = λ p h l n. absurd (omega arith);
      before = λ p h. refl;
      behind = λ p h. refl;
      back = refl;
      sent = refl;
      freed = refl;
    }

    -- The ingress port is passed over.
    skip_one :
        (w : Worker P) (first n : ℕ) (w' : Worker P)
        → first ≡ ingress
        → IsSpread w pkt ingress (first + 1) n w'
        → IsSpread w pkt ingress first (suc n) w'
    skip_one w first n w' e s = record {
      copied = λ p h l m. s.copied p (later p h (λ q. m (q ∙ e))) (omega arith) m;
      before = λ p h. s.before p (omega arith);
      behind = λ p h. s.behind p (omega arith);
      back = s.back;
      sent = s.sent;
      freed = s.freed;
    }
      where
        later : (p : ℕ) → first ≤ p → p ≢ first → first + 1 ≤ p
        later p h m = omega arith

    -- A copy for the first port, then the ones for the other ports.
    put_one :
        (w : Worker P) (first n : ℕ) (c : P) (w1 w' : Worker P)
        → first ≢ ingress
        → IsCopy pkt c
        → IsPut w first c w1
        → IsSpread w1 pkt ingress (first + 1) n w'
        → IsSpread w pkt ingress first (suc n) w'
    put_one w first n c w1 w' e k a s = record {
      copied = λ p h l m. elim (Bool-cases (p == first)) [
        | inl q ↦ (
          c,
          k,
          subst (λ i. queued w' i ≡ queued w i ++ c ∷ []) (sym (same p q))
              (ap (λ b. packets b.pkt 0 b.len) (s.before first (omega arith)) ∙ a.here),
        )
        | inr q ↦
            let (d, i, r) = s.copied p (later p h q) (omega arith) m in
            (d, i, r ∙ ap (λ b. packets b.pkt 0 b.len ++ d ∷ []) (a.others p (apart p q)))
      ];
      before = λ p h. s.before p (omega arith) ∙ a.others p (λ q. omega arith);
      behind = λ p h. s.behind p (omega arith) ∙ a.others p (λ q. omega arith);
      back = s.back ∙ a.others ingress (λ q. e (sym q));
      sent = s.sent ∙ a.sent;
      freed = s.freed ∙ a.freed;
    }
      where
        same : (p : ℕ) → (p == first) ≡ true → p ≡ first
        same p q = ground arith

        apart : (p : ℕ) → (p == first) ≡ false → p ≢ first
        apart p q = ground arith

        later : (p : ℕ) → first ≤ p → (p == first) ≡ false → first + 1 ≤ p
        later p h q = ground arith

    -- A copy for `port`, then the loop over the ports behind it.
    one_more :
        (v : Worker P) (tmp c : P) (port n : ℕ)
        → port ≢ ingress
        → IsCopy pkt c
        → port + suc n ≤ 8
        → ((p : ℕ) → port ≤ p → (v.tx_pktios p).len < 32)
        → ((w1 : Worker P)
            → ((p : ℕ) → port + 1 ≤ p → (w1.tx_pktios p).len < 32)
            → Ends
                (bcast_loop odp w1 pkt tmp ingress false (port + 1) n)
                (IsSpread w1 pkt ingress (port + 1) n))
        → Ends
            (put v port c and_then (λ w1. bcast_loop odp w1 pkt tmp ingress false (port + 1) n))
            (IsSpread v pkt ingress port (suc n))
    one_more v tmp c port n e k b room rest =
        Ends-and_then (put v port c) _ (IsSpread v pkt ingress port (suc n))
          (put-IsPut v port c (omega arith) (room port (omega arith)))
          (λ w1 a.
            let (w', r, s) = rest w1 (λ p h.
              subst (λ d. d.len < 32) (sym (a.others p (λ q. omega arith)))
                (room p (omega arith))) in
            (w', r, put_one v port n c w1 w' e k a s))

    -- The count of copies is not looked at.
    IsSpread-copies :
        (w : Worker P) (k port n : ℕ) (w' : Worker P)
        → IsSpread (record w { copies = k }) pkt ingress port n w'
        → IsSpread w pkt ingress port n w'
    IsSpread-copies w k port n w' s = record {
      copied = s.copied;
      before = s.before;
      behind = s.behind;
      back = s.back;
      sent = s.sent;
      freed = s.freed;
    }

    bcast_loop-IsSpread :
        (n : ℕ) (w : Worker P) (tmp : P) (first : Bool) (port : ℕ)
        → Copies pkt
        → IsCopy pkt tmp
        → port + n ≤ 8
        → ((p : ℕ) → port ≤ p → (w.tx_pktios p).len < 32)
        → Ends (bcast_loop odp w pkt tmp ingress first port n) (IsSpread w pkt ingress port n)
    unfolding bcast_loop
    bcast_loop-IsSpread zero w tmp first port all t b room = (w, refl, none-IsSpread w port)
    bcast_loop-IsSpread (suc n) w tmp true port all t b room = elim (Bool-cases (port == ingress)) [
      | inl e ↦
          let (w', r, s) =
            bcast_loop-IsSpread n w tmp true (port + 1) all t (omega arith)
              (λ p h. room p (omega arith)) in
          rw e (w', r, skip_one w port n w' (ground arith) s)
      | inr e ↦ rw e (
          one_more w tmp tmp port n (ground arith) t b room
            (λ w1 room1. bcast_loop-IsSpread n w1 tmp false (port + 1) all t (omega arith) room1))
    ]
    bcast_loop-IsSpread (suc n) w tmp false port all t b room =
        elim (Bool-cases (port == ingress)) [
          | inl e ↦
              let (w', r, s) =
                bcast_loop-IsSpread n w tmp false (port + 1) all t (omega arith)
                  (λ p h. room p (omega arith)) in
              rw e (w', r, skip_one w port n w' (ground arith) s)
          | inr e ↦
              let (c, k) = all w.copies in
              let (w', r, s) =
                one_more (record w { copies = w.copies + 1 }) tmp c port n (ground arith)
                  (w.copies, k) b room
                  (λ w1 room1.
                    bcast_loop-IsSpread n w1 tmp false (port + 1) all t (omega arith) room1) in
              rw (e, k) (w', r, IsSpread-copies w (w.copies + 1) port (suc n) w' s)
        ]

-- With room in every buffer and copies that succeed, `maco_bcast_packet` on at most 8 ports puts one
-- copy of the packet behind those of every port but the one it came from, touches no other buffer,
-- and frees the packet.
pub maco_bcast_packet-IsSpread :
    {P : Type 0} (odp : Odp P) (w : Worker P) (if_count : ℕ) (pkt : P) (inport : ℕ)
    → Copies odp pkt
    → if_count ≤ 8
    → inport < 2 ^ 8
    → ((p : ℕ) → (w.tx_pktios p).len < 32)
    → (w' : Worker P) × (maco_bcast_packet odp w if_count pkt inport
        ≡ some (record w' { freed = w'.freed ++ pkt ∷ [] }))
      × IsSpread odp w pkt inport 0 if_count w'
unfolding maco_bcast_packet
maco_bcast_packet-IsSpread odp w if_count pkt inport all b h room =
    let (tmp, k) = all w.copies in
    let small : inport % 2 ^ 8 ≡ inport = omega arith in
    let (w', r, s) =
      bcast_loop-IsSpread odp pkt inport if_count (record w { copies = w.copies + 1 }) tmp true 0
        all (w.copies, k) (omega arith) (λ p _. room p) in
    (
      w',
      rw (maco_bcast_packet, k, small, r) refl,
      IsSpread-copies odp pkt inport w (w.copies + 1) 0 if_count w' s,
    )
