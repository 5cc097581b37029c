-- ===== src/Forward/Flush.antt =====
-- main_odp.c: the end of a round, in which a worker sends what is in its buffers.
use mathlib.Core.List.{append-nil, append_assoc}
use macsad.Prelude.{
  ℕ, zero, suc, ◌≡◌, ◌≢◌, ◌∙◌, ◌<◌, ◌≤◌, ◌+◌, ◌==◌, ◌||◌, Bool, true, false, Option, none, some,
  List, [], ◌∷◌, ◌++◌, refl, sym, ap, ap₂, arith, subst, length, take, drop, if◌then◌else◌, Ends,
  Bool-cases, ◌⊎◌, inl, inr,
}
use macsad.Prelude.Int.{pos, negsuc, pos_part, is_negative}
use macsad.Forward.{Odp, Worker, set_buf, packets, maco_send_burst, flush}
use macsad.Forward.Burst.{
  queued, length-packets, set_buf-other, set_buf-here, IsSent, Answers, maco_send_burst-IsSent,
  maco_send_burst-Fails,
}

-- A burst for a port: what the interface takes, and what it leaves.
abbrev pub Burst : Type 0 → Type 0
Burst P = ℕ × List P × List P

module _ {P : Type 0} where
  pub sent_of : List (Burst P) → List (ℕ × List P)
  sent_of [] = []
  sent_of ((port, taken, left) ∷ bs) = (port, taken) ∷ sent_of bs

  pub left_of : List (Burst P) → List P
  left_of [] = []
  left_of ((port, taken, left) ∷ bs) = left ++ left_of bs

  module _ (odp : Odp P) (port_in : ℕ) where
    -- The bursts from the `n` ports from `portid` on, for queues `q` and after `k` calls of
    -- `odp_pktout_send`: one for each port with packets but the one that was received from.
    pub bursts : (ℕ → List P) → ℕ → ℕ → ℕ → List (Burst P)
    bursts q k portid zero = []
    bursts q k portid (suc n) =
        let skipped = bursts q k (portid + 1) n in
        let a = pos_part (odp.odp_pktout_send k (length (q portid))) in
        let sent =
          (portid, take a (q portid), drop a (q portid)) ∷ bursts q (k + 1) (portid + 1) n in
        if (portid == port_in) || (length (q portid) == 0) then skipped else sent

    -- Whether one of the calls of `odp_pktout_send` for those bursts fails.
    pub fails : (ℕ → List P) → ℕ → ℕ → ℕ → Bool
    fails q k portid zero = false
    fails q k portid (suc n) =
        let skipped = fails q k (portid + 1) n in
        let failed =
          is_negative (odp.odp_pktout_send k (length (q portid)))
          || fails q (k + 1) (portid + 1) n in
        if (portid == port_in) || (length (q portid) == 0) then skipped else failed

    pub fails-same :
        (q q' : ℕ → List P) (k portid n : ℕ)
        → ((p : ℕ) → portid ≤ p → q p ≡ q' p)
        → fails q k portid n ≡ fails q' k portid n
    unfolding fails
    fails-same q q' k portid zero h = refl
    fails-same q q' k portid (suc n) h =
        let here = h portid (omega arith) in
        let one = fails-same q q' k (portid + 1) n (λ p l. h p (omega arith)) in
        let two = fails-same q q' (k + 1) (portid + 1) n (λ p l. h p (omega arith)) in
        rw (here, one, two) refl

    pub bursts-same :
        (q q' : ℕ → List P) (k portid n : ℕ)
        → ((p : ℕ) → portid ≤ p → q p ≡ q' p)
        → bursts q k portid n ≡ bursts q' k portid n
    unfolding bursts
    bursts-same q q' k portid zero h = refl
    bursts-same q q' k portid (suc n) h =
        let here = h portid (omega arith) in
        let one = bursts-same q q' k (portid + 1) n (λ p l. h p (omega arith)) in
        let two = bursts-same q q' (k + 1) (portid + 1) n (λ p l. h p (omega arith)) in
        rw (here, one, two) refl

    pub record IsFlushed (w : Worker P) (portid n : ℕ) (w' : Worker P) : Type 0 where
      pub sent : w'.sent ≡ w.sent ++ sent_of (bursts (queued w) w.sends portid n)
      pub freed : w'.freed ≡ w.freed ++ left_of (bursts (queued w) w.sends portid n)
      pub emptied : (p : ℕ) → portid ≤ p → p < portid + n → p ≢ port_in → (w'.tx_pktios p).len ≡ 0
      pub before : (p : ℕ) → p < portid → w'.tx_pktios p ≡ w.tx_pktios p
      pub behind : (p : ℕ) → portid + n ≤ p → w'.tx_pktios p ≡ w.tx_pktios p
      pub back : w'.tx_pktios port_in ≡ w.tx_pktios port_in

    len_queued : (w : Worker P) (p : ℕ) → length (queued w p) ≡ (w.tx_pktios p).len
    len_queued w p = length-packets (w.tx_pktios p).pkt 0 (w.tx_pktios p).len

    skips : Worker P → ℕ → Bool
    skips w p = (p == port_in) || ((w.tx_pktios p).len == 0)

    bursts-skip :
        (w : Worker P) (portid n : ℕ)
        → skips w portid ≡ true
        → bursts (queued w) w.sends portid (suc n) ≡ bursts (queued w) w.sends (portid + 1) n
    unfolding bursts skips
    bursts-skip w portid n h = rw (len_queued w portid, h) refl

    bursts-send :
        (w : Worker P) (portid n a : ℕ)
        → skips w portid ≡ false
        → odp.odp_pktout_send w.sends (w.tx_pktios portid).len ≡ pos a
        → bursts (queued w) w.sends portid (suc n)
          ≡ (portid, take a (queued w portid), drop a (queued w portid))
            ∷ bursts (queued w) (w.sends + 1) (portid + 1) n
    unfolding bursts skips
    bursts-send w portid n a h e = rw (len_queued w portid, h, e) refl

    fails-skip :
        (w : Worker P) (portid n : ℕ)
        → skips w portid ≡ true
        → fails (queued w) w.sends portid (suc n) ≡ fails (queued w) w.sends (portid + 1) n
    unfolding fails skips
    fails-skip w portid n h = rw (len_queued w portid, h) refl

    fails-here :
        (w : Worker P) (portid n e : ℕ)
        → skips w portid ≡ false
        → odp.odp_pktout_send w.sends (w.tx_pktios portid).len ≡ negsuc e
        → fails (queued w) w.sends portid (suc n) ≡ true
    unfolding fails skips
    fails-here w portid n e h a = rw (len_queued w portid, h, a) refl

    fails-later :
        (w : Worker P) (portid n a : ℕ)
        → skips w portid ≡ false
        → odp.odp_pktout_send w.sends (w.tx_pktios portid).len ≡ pos a
        → fails (queued w) w.sends portid (suc n) ≡ fails (queued w) (w.sends + 1) (portid + 1) n
    unfolding fails skips
    fails-later w portid n a h e = rw (len_queued w portid, h, e) refl

    passed_over : (w : Worker P) (p : ℕ) → skips w p ≡ true → p ≢ port_in → (w.tx_pktios p).len ≡ 0
    unfolding skips
    passed_over w p h n = ground arith

    skip_one :
        (w : Worker P) (portid n : ℕ) (w' : Worker P)
        → skips w portid ≡ true
        → IsFlushed w (portid + 1) n w'
        → IsFlushed w portid (suc n) w'
    skip_one w portid n w' h f =
        let same = bursts-skip w portid n h in
        record {
          sent = f.sent ∙ ap (λ bs. w.sent ++ sent_of bs) (sym same);
          freed = f.freed ∙ ap (λ bs. w.freed ++ left_of bs) (sym same);
          emptied = λ p l m d. elim (Bool-cases (p == portid)) [
            | inl e ↦
                let here : portid ≡ p = ground arith in
                ap (λ b. b.len) (f.before p (omega arith))
                ∙ passed_over w p (subst (λ q. skips w q ≡ true) here h) d
            | inr e ↦ f.emptied p (ground arith) (omega arith) d
          ];
          before = λ p l. f.before p (omega arith);
          behind = λ p l. f.behind p (omega arith);
          back = f.back;
        }

    -- A burst is sent from `portid`, whose buffer is then empty.
    abbrev pub empty_buf : Worker P → ℕ → Worker P
    empty_buf w portid = record w {
      tx_pktios = set_buf w.tx_pktios portid (record (w.tx_pktios portid) { len = 0 });
    }

    empty_buf-other :
        (w w1 : Worker P) (portid p : ℕ)
        → w1.tx_pktios ≡ w.tx_pktios
        → p ≢ portid
        → (empty_buf w1 portid).tx_pktios p ≡ w.tx_pktios p
    empty_buf-other w w1 portid p e d =
        set_buf-other w1.tx_pktios portid p (record (w1.tx_pktios portid) { len = 0 }) d
        ∙ ap (λ t. t p) e

    emptied-room :
        (w w1 : Worker P) (portid : ℕ)
        → w1.tx_pktios ≡ w.tx_pktios
        → ((p : ℕ) → (w.tx_pktios p).len ≤ 32)
        → (p : ℕ) → ((empty_buf w1 portid).tx_pktios p).len ≤ 32
    emptied-room w w1 portid e room p = elim (Bool-cases (p == portid)) [
      | inl q ↦
          let on : (empty_buf w1 portid).tx_pktios p ≡ record (w1.tx_pktios portid) { len = 0 } =
            rw q refl in
          let none_left = ap (λ b. b.len) on in omega arith
      | inr q ↦
          let apart : p ≢ portid = ground arith in
          let same = ap (λ b. b.len) (empty_buf-other w w1 portid p e apart) in
          let r = room p in omega arith
    ]

    same_queues :
        (w w1 : Worker P) (portid : ℕ)
        → w1.tx_pktios ≡ w.tx_pktios
        → (p : ℕ) → portid + 1 ≤ p
        → queued (empty_buf w1 portid) p ≡ queued w p
    same_queues w w1 portid e p l =
        ap (λ b. packets b.pkt 0 b.len) (empty_buf-other w w1 portid p e (λ q. omega arith))

    send_one :
        (w : Worker P) (portid n a : ℕ) (w1 w' : Worker P)
        → skips w portid ≡ false
        → portid ≢ port_in
        → odp.odp_pktout_send w.sends (w.tx_pktios portid).len ≡ pos a
        → IsSent w (w.tx_pktios portid).len a portid w1
        → IsFlushed (empty_buf w1 portid) (portid + 1) n w'
        → IsFlushed w portid (suc n) w'
    unfolding sent_of left_of
    send_one w portid n a w1 w' h d e s f =
        let w2 = empty_buf w1 portid in
        let taken = take a (queued w portid) in
        let left = drop a (queued w portid) in
        let later = bursts (queued w) (w.sends + 1) (portid + 1) n in
        let same = bursts-send w portid n a h e in
        let rest : bursts (queued w2) w2.sends (portid + 1) n ≡ later =
          bursts-same (queued w2) (queued w) w2.sends (portid + 1) n
            (same_queues w w1 portid s.buffers)
          ∙ ap (λ k. bursts (queued w) k (portid + 1) n) s.sends in
        record {
          sent =
              f.sent
              ∙ ap₂ (λ l bs. l ++ sent_of bs) s.sent rest
              ∙ append_assoc w.sent ((portid, taken) ∷ []) (sent_of later)
              ∙ ap (λ bs. w.sent ++ sent_of bs) (sym same);
          freed =
              f.freed
              ∙ ap₂ (λ l bs. l ++ left_of bs) s.freed rest
              ∙ append_assoc w.freed left (left_of later)
              ∙ ap (λ bs. w.freed ++ left_of bs) (sym same);
          emptied = λ p l m o. elim (Bool-cases (p == portid)) [
            | inl q ↦
                let here : portid ≡ p = ground arith in
                ap (λ b. b.len) (f.before p (omega arith))
                ∙ subst (λ i. (w2.tx_pktios i).len ≡ 0) here
                    (ap (λ b. b.len)
                      (set_buf-here w1.tx_pktios portid (record (w1.tx_pktios portid) { len = 0 })))
            | inr q ↦ f.emptied p (ground arith) (omega arith) o
          ];
          before = λ p l.
              f.before p (omega arith) ∙ empty_buf-other w w1 portid p s.buffers (λ q. omega arith);
          behind = λ p l.
              f.behind p (omega arith) ∙ empty_buf-other w w1 portid p s.buffers (λ q. omega arith);
          back = f.back ∙ empty_buf-other w w1 portid port_in s.buffers (λ q. d (sym q));
        }

    -- Either no call fails, and all bursts are sent, or one does, and the code faults.
    abbrev pub FlushOutcome : Worker P → ℕ → ℕ → Option (Worker P) → Type 0
    FlushOutcome w portid n o =
        ((fails (queued w) w.sends portid n ≡ false) × Ends o (IsFlushed w portid n))
        ⊎ ((fails (queued w) w.sends portid n ≡ true) × (o ≡ none))

    skip_one-Outcome :
        (w : Worker P) (portid n : ℕ) (o : Option (Worker P))
        → skips w portid ≡ true
        → FlushOutcome w (portid + 1) n o
        → FlushOutcome w portid (suc n) o
    skip_one-Outcome w portid n o h (inl (a, (w', r, f))) =
        inl (fails-skip w portid n h ∙ a, (w', r, skip_one w portid n w' h f))
    skip_one-Outcome w portid n o h (inr (a, r)) = inr (fails-skip w portid n h ∙ a, r)

    send_one-Outcome :
        (w : Worker P) (portid n a : ℕ) (w1 : Worker P) (o : Option (Worker P))
        → skips w portid ≡ false
        → portid ≢ port_in
        → odp.odp_pktout_send w.sends (w.tx_pktios portid).len ≡ pos a
        → IsSent w (w.tx_pktios portid).len a portid w1
        → FlushOutcome (empty_buf w1 portid) (portid + 1) n o
        → FlushOutcome w portid (suc n) o
    send_one-Outcome w portid n a w1 o h d e s f =
        let w2 = empty_buf w1 portid in
        let same =
          fails-later w portid n a h e
          ∙ ap (λ k. fails (queued w) k (portid + 1) n) (sym s.sends)
          ∙ sym (
              fails-same (queued w2) (queued w) w2.sends (portid + 1) n
                (same_queues w w1 portid s.buffers)) in
        elim f [
          | inl (b, (w', r, g)) ↦ inl (same ∙ b, (w', r, send_one w portid n a w1 w' h d e s g))
          | inr (b, r) ↦ inr (same ∙ b, r)
        ]

    pub flush-Outcome :
        (n portid : ℕ) (w : Worker P)
        → Answers odp
        → ((p : ℕ) → (w.tx_pktios p).len ≤ 32)
        → FlushOutcome w portid n (flush odp w port_in portid n)
    unfolding flush skips bursts fails sent_of left_of
    flush-Outcome zero portid w ans room = inl (
      refl,
      (
        w,
        refl,
        record {
          sent = sym (append-nil w.sent);
          freed = sym (append-nil w.freed);
          emptied = λ p l m d. absurd (omega arith);
          before = λ p l. refl;
          behind = λ p l. refl;
          back = refl;
        },
      ),
    )
    flush-Outcome (suc n) portid w ans room = elim (Bool-cases (skips w portid)) [
      | inl h ↦
          subst (FlushOutcome w portid (suc n)) (sym (skipping h))
            (skip_one-Outcome w portid n _ h (flush-Outcome n (portid + 1) w ans room))
      | inr h ↦
          let len = (w.tx_pktios portid).len in
          let apart : portid ≢ port_in = ground arith in
          elim (ans w.sends len) [
            | inl (a, e, l) ↦
                let (w1, r, s) = maco_send_burst-IsSent odp w len a portid e l (room portid) in
                subst (FlushOutcome w portid (suc n)) (sym (sending h w1 r)) (
                  send_one-Outcome w portid n a w1 _ h apart e s (
                    flush-Outcome n (portid + 1) (empty_buf w1 portid) ans
                      (emptied-room w w1 portid s.buffers room)))
            | inr (e, a, l) ↦ inr (
              fails-here w portid n e h a,
              faulting h (maco_send_burst-Fails odp w len e portid a l (room portid)),
            )
          ]
    ]
      where
        skipping :
            skips w portid ≡ true
            → flush odp w port_in portid (suc n) ≡ flush odp w port_in (portid + 1) n
        skipping h = rw h refl

        sending :
            skips w portid ≡ false
            → (w1 : Worker P) → maco_send_burst odp w (w.tx_pktios portid).len portid ≡ some w1
            → flush odp w port_in portid (suc n)
              ≡ flush odp (empty_buf w1 portid) port_in (portid + 1) n
        sending h w1 r = rw (h, r) refl

        faulting :
            skips w portid ≡ false
            → maco_send_burst odp w (w.tx_pktios portid).len portid ≡ none
            → flush odp w port_in portid (suc n) ≡ none
        faulting h r = rw (h, r) refl
