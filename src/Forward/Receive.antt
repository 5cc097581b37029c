-- ===== src/Forward/Receive.antt =====
-- main_odp.c: the packets of a burst, each put in the buffer of its port.
use mathlib.Core.List.{append-nil, append_assoc}
use macsad.Prelude.{
  ℕ, suc, ◌≡◌, ◌≢◌, ◌∙◌, ◌<◌, ◌≤◌, ◌+◌, ◌==◌, true, false, List, [], ◌∷◌, ◌++◌, refl, sym, ap,
  arith, subst, length, length-append, ltb, if◌then◌else◌, Ends, Ends-and_then, Bool-cases, ◌⊎◌,
  inl, inr,
}
use macsad.Forward.{Odp, Worker, put, packets, send_packet, receive_all}
use macsad.Forward.Flush.{IsFlushed}
use macsad.Forward.Burst.{queued, IsClear, length-packets, IsPut, put-IsPut}

module _ {P : Type 0} (odp : Odp P) (port_in : ℕ) where
  -- Of the packets that came from `port_in`, those for a port, in their order.
  pub for_port : ℕ → List P → List P
  for_port p [] = []
  for_port p (pkt ∷ pkts) =
      if p == odp.handle_packet port_in pkt then pkt ∷ for_port p pkts else for_port p pkts

  -- Each packet goes to one of the ports, and none back.
  unfoldable pub IsRouted : ℕ → List P → Type 0
  IsRouted if_count [] = Unit {0}
  IsRouted if_count (pkt ∷ pkts) =
      (odp.handle_packet port_in pkt < if_count)
      × (odp.handle_packet port_in pkt ≢ port_in)
      × IsRouted if_count pkts

  for_port-here :
      (p : ℕ) (pkt : P) (pkts : List P)
      → p ≡ odp.handle_packet port_in pkt
      → for_port p (pkt ∷ pkts) ≡ pkt ∷ for_port p pkts
  unfolding for_port
  for_port-here p pkt pkts e =
      let on : (p == odp.handle_packet port_in pkt) ≡ true = ground arith in rw on refl

  for_port-other :
      (p : ℕ) (pkt : P) (pkts : List P)
      → p ≢ odp.handle_packet port_in pkt
      → for_port p (pkt ∷ pkts) ≡ for_port p pkts
  unfolding for_port
  for_port-other p pkt pkts n =
      let off : (p == odp.handle_packet port_in pkt) ≡ false = ground arith in rw off refl

  -- What is in a buffer after some packets, and that no call left the code.
  pub record IsReceived (w : Worker P) (pkts : List P) (w' : Worker P) : Type 0 where
    pub buffers : (p : ℕ) → queued w' p ≡ queued w p ++ for_port p pkts
    pub sends : w'.sends ≡ w.sends
    pub sent : w'.sent ≡ w.sent
    pub freed : w'.freed ≡ w.freed

  one-IsReceived :
      (w w1 w' : Worker P) (pkt : P) (pkts : List P)
      → IsPut w (odp.handle_packet port_in pkt) pkt w1
      → IsReceived w1 pkts w'
      → IsReceived w (pkt ∷ pkts) w'
  one-IsReceived w w1 w' pkt pkts a r = record {
    buffers = λ p. elim (Bool-cases (p == odp.handle_packet port_in pkt)) [
      | inl e ↦ here p (ground arith)
      | inr e ↦ other p (ground arith)
    ];
    sends = r.sends ∙ a.sends;
    sent = r.sent ∙ a.sent;
    freed = r.freed ∙ a.freed;
  }
    where
      here :
          (p : ℕ)
          → p ≡ odp.handle_packet port_in pkt
          → queued w' p ≡ queued w p ++ for_port p (pkt ∷ pkts)
      here p e =
          r.buffers p
          ∙ ap (λ l. l ++ for_port p pkts)
              (subst (λ q. queued w1 q ≡ queued w q ++ pkt ∷ []) (sym e) a.here)
          ∙ append_assoc (queued w p) (pkt ∷ []) (for_port p pkts)
          ∙ ap (λ l. queued w p ++ l) (sym (for_port-here p pkt pkts e))

      other :
          (p : ℕ)
          → p ≢ odp.handle_packet port_in pkt
          → queued w' p ≡ queued w p ++ for_port p (pkt ∷ pkts)
      other p n =
          r.buffers p
          ∙ ap (λ b. packets b.pkt 0 b.len ++ for_port p pkts) (a.others p n)
          ∙ ap (λ l. queued w p ++ l) (sym (for_port-other p pkt pkts n))

  put_len :
      (w w1 : Worker P) (q : ℕ) (x : P) (k : ℕ)
      → IsPut w q x w1
      → ((p : ℕ) → (w.tx_pktios p).len + suc k ≤ 32)
      → (p : ℕ) → (w1.tx_pktios p).len + k ≤ 32
  put_len w w1 q x k a room p = elim (Bool-cases (p == q)) [
    | inl e ↦
        let n = ap (λ l. length l) a.here in
        let m = length-packets (w1.tx_pktios q).pkt 0 (w1.tx_pktios q).len in
        let m' = length-packets (w.tx_pktios q).pkt 0 (w.tx_pktios q).len in
        let l = length-append (queued w q) (x ∷ []) in
        let r = room q in
        let at : (w1.tx_pktios q).len + k ≤ 32 = omega arith in
        let same : q ≡ p = ground arith in subst (λ i. (w1.tx_pktios i).len + k ≤ 32) same at
    | inr e ↦
        let apart : p ≢ q = ground arith in
        let n = ap (λ b. b.len) (a.others p apart) in let r = room p in omega arith
  ]

  pub receive_all-IsReceived :
      (pkts : List P) (w : Worker P) (if_count : ℕ)
      → if_count ≤ 8
      → IsRouted if_count pkts
      → ((p : ℕ) → (w.tx_pktios p).len + length pkts ≤ 32)
      → Ends (receive_all odp w if_count port_in pkts) (IsReceived w pkts)
  unfolding receive_all send_packet IsRouted for_port
  receive_all-IsReceived [] w if_count b r room = (
    w,
    refl,
    record {
      buffers = λ p. sym (append-nil (queued w p));
      sends = refl;
      sent = refl;
      freed = refl;
    },
  )
  receive_all-IsReceived (pkt ∷ pkts) w if_count b (h, n, r) room =
      let q = odp.handle_packet port_in pkt in
      let unicast : (q == 100) ≡ false = ground arith in
      let here = room q in
      rw unicast (
        Ends-and_then (put w q pkt) _ (IsReceived w (pkt ∷ pkts))
          (put-IsPut w q pkt (omega arith) (omega arith))
          (λ w1 a.
            let (w', e, d) =
              receive_all-IsReceived pkts w1 if_count b r
                (put_len w w1 q pkt (length pkts) a room) in
            (w', e, one-IsReceived w w1 w' pkt pkts a d)))

  pub nothing_for :
      (pkts : List P) (if_count p : ℕ)
      → IsRouted if_count pkts
      → (if_count ≤ p) ⊎ (p ≡ port_in)
      → for_port p pkts ≡ []
  unfolding IsRouted for_port
  nothing_for [] if_count p r o = refl
  nothing_for (pkt ∷ pkts) if_count p (h, n, r) o =
      let off : (p == odp.handle_packet port_in pkt) ≡ false = ground arith in
      rw off (nothing_for pkts if_count p r o)

  pub shorter : (p : ℕ) (pkts : List P) → length (for_port p pkts) ≤ length pkts
  unfolding for_port
  shorter p [] = omega arith
  shorter p (pkt ∷ pkts) =
      let r = shorter p pkts in
      elim (Bool-cases (p == odp.handle_packet port_in pkt)) [
        | inl e ↦ rw e (omega arith)
        | inr e ↦ rw e (omega arith)
      ]

  pub after_flush :
      (w1 w' : Worker P) (if_count : ℕ) (pkts : List P)
      → IsRouted if_count pkts
      → ((p : ℕ) → (w1.tx_pktios p).len ≡ length (for_port p pkts))
      → IsFlushed odp port_in w1 0 if_count w'
      → IsClear w'
  after_flush w1 w' if_count pkts r len f p = elim (Bool-cases (p == port_in)) [
    | inl e ↦
        let here : port_in ≡ p = ground arith in
        subst (λ i. (w'.tx_pktios i).len ≡ 0) here
          (ap (λ b. b.len) f.back
            ∙ len port_in
            ∙ ap (λ l. length l) (nothing_for pkts if_count port_in r (inr refl)))
    | inr e ↦ elim (Bool-cases (ltb p if_count)) [
      | inl l ↦ f.emptied p (omega arith) (ground arith) (ground arith)
      | inr l ↦
          ap (λ b. b.len) (f.behind p (ground arith))
          ∙ len p
          ∙ ap (λ k. length k) (nothing_for pkts if_count p r (inl (ground arith)))
    ]
  ]
