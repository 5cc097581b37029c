-- ===== src/Forward/Returned.antt =====
-- main_odp.c: packets that go back to the port they came from, at a worker that receives from that
-- port only.
use mathlib.Core.List.{append-nil, append_assoc}
use macsad.Prelude.{
  ℕ, zero, suc, ◌≡◌, ◌≢◌, ◌∙◌, ◌<◌, ◌≤◌, ◌+◌, ◌==◌, false, none, some, Option, List, [], ◌∷◌, ◌++◌,
  refl, sym, ap, arith, length, length-append, ltb, Ends, ◌and_then◌, Bool-cases, ◌⊎◌, inl, inr,
}
use macsad.Forward.{
  Odp, Worker, put, send_packet, receive_all, flush, worker_round, odpc_worker_mode_direct,
}
use macsad.Forward.Burst.{queued, IsPut, put-IsPut, length-packets}

module _ {P : Type 0} (odp : Odp P) (if_count port : ℕ) where
  -- Every packet goes back to the port.
  unfoldable pub AreReturned : List P → Type 0
  AreReturned [] = Unit {0}
  AreReturned (pkt ∷ pkts) = (odp.handle_packet port pkt ≡ port) × AreReturned pkts

  -- The packets are in the buffer of the port, behind those of `w`; the other buffers are empty, and
  -- nothing was sent or freed.
  pub record IsHeld (w : Worker P) (pkts : List P) (w' : Worker P) : Type 0 where
    pub held : queued w' port ≡ queued w port ++ pkts
    pub count : (w'.tx_pktios port).len ≡ (w.tx_pktios port).len + length pkts
    pub others : (p : ℕ) → p ≢ port → (w'.tx_pktios p).len ≡ 0
    pub sent : w'.sent ≡ w.sent
    pub freed : w'.freed ≡ w.freed

  put-full : (w : Worker P) (x : P) → (w.tx_pktios port).len ≡ 32 → put w port x ≡ none
  unfolding put
  put-full w x e = let full : ltb (w.tx_pktios port).len 32 ≡ false = rw e refl in ground arith

  put-IsHeld :
      (w w1 : Worker P) (x : P)
      → ((p : ℕ) → p ≢ port → (w.tx_pktios p).len ≡ 0)
      → IsPut w port x w1
      → IsHeld w (x ∷ []) w1
  put-IsHeld w w1 x others a =
      let n = ap (λ l. length l) a.here in
      let m = length-packets (w1.tx_pktios port).pkt 0 (w1.tx_pktios port).len in
      let m' = length-packets (w.tx_pktios port).pkt 0 (w.tx_pktios port).len in
      let l = length-append (queued w port) (x ∷ []) in
      record {
        held = a.here;
        count = omega arith;
        others = λ p d. ap (λ b. b.len) (a.others p d) ∙ others p d;
        sent = a.sent;
        freed = a.freed;
      }

  IsHeld-append :
      (w w1 w' : Worker P) (xs ys : List P)
      → IsHeld w xs w1
      → IsHeld w1 ys w'
      → IsHeld w (xs ++ ys) w'
  IsHeld-append w w1 w' xs ys a b =
      let m = a.count in
      let n = b.count in
      let l = length-append xs ys in
      record {
        held = b.held ∙ ap (λ l. l ++ ys) a.held ∙ append_assoc (queued w port) xs ys;
        count = omega arith;
        others = b.others;
        sent = b.sent ∙ a.sent;
        freed = b.freed ∙ a.freed;
      }

  -- The outcome for packets that go back: they are held, or do not fit.
  abbrev pub Outcome : Worker P → List P → Option (Worker P) → Type 0
  Outcome w pkts r =
      (((w.tx_pktios port).len + length pkts ≤ 32) × Ends r (IsHeld w pkts))
      ⊎ ((32 < (w.tx_pktios port).len + length pkts) × (r ≡ none))

  -- A second step behind a first that holds its packets or faults.
  Outcome-and_then :
      (w : Worker P) (xs ys : List P) (o : Option (Worker P)) (f : Worker P → Option (Worker P))
      → Outcome w xs o
      → ((w1 : Worker P) → IsHeld w xs w1 → (w1.tx_pktios port).len ≤ 32 → Outcome w1 ys (f w1))
      → Outcome w (xs ++ ys) (o and_then f)
  Outcome-and_then w xs ys o f (inr (l, e)) h =
      let n = length-append xs ys in inr (omega arith, ap (λ x. x and_then f) e)
  Outcome-and_then w xs ys o f (inl (l, (w1, e, a))) h =
      let c = a.count in go (h w1 a (omega arith))
    where
      go : Outcome w1 ys (f w1) → Outcome w (xs ++ ys) (o and_then f)
      go (inl (m, (w', r, b))) =
          let n = length-append xs ys in
          let c = a.count in
          inl (omega arith, (w', ap (λ x. x and_then f) e ∙ r, IsHeld-append w w1 w' xs ys a b))
      go (inr (m, r)) =
          let n = length-append xs ys in
          let c = a.count in inr (omega arith, ap (λ x. x and_then f) e ∙ r)

  unfoldable pub AllReturned : List (List P) → Type 0
  AllReturned [] = Unit {0}
  AllReturned (burst ∷ bursts) = AreReturned burst × AllReturned bursts

  -- All packets of some bursts.
  abbrev pub total : List (List P) → List P
  total [] = []
  total (burst ∷ bursts) = burst ++ total bursts

  module _ (small : port < 8) where
    put-Outcome :
        (w : Worker P) (x : P)
        → ((p : ℕ) → p ≢ port → (w.tx_pktios p).len ≡ 0)
        → (w.tx_pktios port).len ≤ 32
        → Outcome w (x ∷ []) (put w port x)
    put-Outcome w x others room = elim (Bool-cases (ltb (w.tx_pktios port).len 32)) [
      | inl h ↦
          let (w1, e, a) = put-IsPut w port x small (ground arith) in
          inl (ground arith, (w1, e, put-IsHeld w w1 x others a))
      | inr h ↦ inr (ground arith, put-full w x (ground arith))
    ]

    receive_all-Outcome :
        (pkts : List P) (w : Worker P)
        → AreReturned pkts
        → ((p : ℕ) → p ≢ port → (w.tx_pktios p).len ≡ 0)
        → (w.tx_pktios port).len ≤ 32
        → Outcome w pkts (receive_all odp w if_count port pkts)
    unfolding receive_all send_packet AreReturned
    receive_all-Outcome [] w r others room = inl (
      omega arith,
      (
        w,
        refl,
        record {
          held = sym (append-nil (queued w port));
          count = omega arith;
          others = others;
          sent = refl;
          freed = refl;
        },
      ),
    )
    receive_all-Outcome (pkt ∷ pkts) w (h, r) others room =
        let unicast : (port == 100) ≡ false = ground arith in
        rw (h, unicast)
          (Outcome-and_then w (pkt ∷ []) pkts (put w port pkt) _ (put-Outcome w pkt others room)
            (λ w1 a l. receive_all-Outcome pkts w1 r a.others l))

    -- The buffer of the port that was received from is passed over, and the others are empty.
    flush-Returned :
        (n portid : ℕ) (w : Worker P)
        → ((p : ℕ) → p ≢ port → (w.tx_pktios p).len ≡ 0)
        → flush odp w port portid n ≡ some w
    unfolding flush
    flush-Returned zero portid w others = refl
    flush-Returned (suc n) portid w others = elim (Bool-cases (portid == port)) [
      | inl e ↦ rw e (flush-Returned n (portid + 1) w others)
      | inr e ↦
          let z = others portid (ground arith) in rw (e, z) (flush-Returned n (portid + 1) w others)
    ]

    worker_round-Outcome :
        (pkts : List P) (w : Worker P)
        → AreReturned pkts
        → ((p : ℕ) → p ≢ port → (w.tx_pktios p).len ≡ 0)
        → (w.tx_pktios port).len ≤ 32
        → Outcome w pkts (worker_round odp w if_count port pkts)
    unfolding worker_round
    worker_round-Outcome pkts w r others room = go (receive_all-Outcome pkts w r others room)
      where
        go :
            Outcome w pkts (receive_all odp w if_count port pkts)
            → Outcome w pkts
                (receive_all odp w if_count port pkts and_then (λ w'. flush odp w' port 0 if_count))
        go (inl (l, (w1, e, a))) = inl (
          l,
          (
            w1,
            ap (λ x. x and_then (λ w'. flush odp w' port 0 if_count)) e
                ∙ flush-Returned if_count 0 w1 a.others,
            a,
          ),
        )
        go (inr (l, e)) = inr (l, ap (λ x. x and_then (λ w'. flush odp w' port 0 if_count)) e)

    -- A worker receives from one port only, its packets all go back to that port, and its buffers for
    -- the other ports are empty: no packet is ever sent. As long as no more than 32 packets are in
    -- the buffer for the port they stay there; with more, in however many bursts they came, the
    -- worker writes behind the end of the buffer.
    pub odpc_worker_mode_direct-Returned :
        (bursts : List (List P)) (w : Worker P)
        → AllReturned bursts
        → ((p : ℕ) → p ≢ port → (w.tx_pktios p).len ≡ 0)
        → (w.tx_pktios port).len ≤ 32
        → Outcome w (total bursts) (odpc_worker_mode_direct odp if_count 1 (λ i. port) w 0 bursts)
    unfolding odpc_worker_mode_direct AllReturned
    odpc_worker_mode_direct-Returned [] w r others room = inl (
      omega arith,
      (
        w,
        refl,
        record {
          held = sym (append-nil (queued w port));
          count = omega arith;
          others = others;
          sent = refl;
          freed = refl;
        },
      ),
    )
    odpc_worker_mode_direct-Returned ([] ∷ bursts) w (h, r) others room =
        odpc_worker_mode_direct-Returned bursts w r others room
    odpc_worker_mode_direct-Returned ((pkt ∷ pkts) ∷ bursts) w (h, r) others room =
        Outcome-and_then w (pkt ∷ pkts) (total bursts)
          (worker_round odp w if_count port (pkt ∷ pkts)) _
          (worker_round-Outcome (pkt ∷ pkts) w h others room)
          (λ w1 a l. odpc_worker_mode_direct-Returned bursts w1 r a.others l)
