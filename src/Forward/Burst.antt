-- ===== src/Forward/Burst.antt =====
-- main_odp.c: the buffers of a worker as lists of packets, and `maco_send_burst`.
use mathlib.Core.List.{append-nil}
use macsad.Prelude.{
  ℕ, zero, suc, ◌≡◌, ◌≢◌, ◌∙◌, ◌<◌, ◌≤◌, ◌+◌, ◌-◌, ◌%◌, ◌^◌, ◌==◌, true, false, none, some, List,
  [], ◌∷◌, ◌++◌, refl, sym, ap, ap₂, arith, length, take, drop, ltb, if◌then◌else◌, Ends,
  Bool-cases, ◌⊎◌, inl, inr,
}
use macsad.Prelude.Int.{pos, negsuc}
use macsad.Forward.{Odp, PktBuf, Worker, set_buf, put, packets, drop_rest, maco_send_burst}

module _ {P : Type 0} where
  -- The packets in the buffer of a port.
  abbrev pub queued : Worker P → ℕ → List P
  queued w p = packets (w.tx_pktios p).pkt 0 (w.tx_pktios p).len

  -- All buffers of the worker are empty.
  abbrev pub IsClear : Worker P → Type 0
  IsClear w = (p : ℕ) → (w.tx_pktios p).len ≡ 0

  -- What `odp_pktout_send` is documented to return: how many of the packets it took, or an error, which
  -- is below 0. An error is taken to be at least -32768.
  abbrev pub Answers : Odp P → Type 0
  Answers odp =
      (k n : ℕ)
      → ((a : ℕ) × (odp.odp_pktout_send k n ≡ pos a) × (a ≤ n))
        ⊎ ((e : ℕ) × (odp.odp_pktout_send k n ≡ negsuc e) × (e < 2 ^ 15))

  pub length-packets : (pkt : ℕ → P) (i n : ℕ) → length (packets pkt i n) ≡ n
  length-packets pkt i zero = refl
  length-packets pkt i (suc n) = ap suc (length-packets pkt (i + 1) n)

  packets-same :
      (f g : ℕ → P) (i n : ℕ) → ((j : ℕ) → j < i + n → f j ≡ g j) → packets f i n ≡ packets g i n
  packets-same f g i zero h = refl
  packets-same f g i (suc n) h =
      ap₂ ◌∷◌ (h i (omega arith)) (packets-same f g (i + 1) n (λ j l. h j (omega arith)))

  packets-snoc : (f : ℕ → P) (i n : ℕ) → packets f i (suc n) ≡ packets f i n ++ f (i + n) ∷ []
  packets-snoc f i zero = ap (λ j. f j ∷ []) (omega arith)
  packets-snoc f i (suc n) =
      let here : (i + 1) + n ≡ i + suc n = omega arith in
      ap (λ l. f i ∷ l) (packets-snoc f (i + 1) n ∙ ap (λ j. packets f (i + 1) n ++ f j ∷ []) here)

  pub take-packets : (f : ℕ → P) (i a n : ℕ) → a ≤ n → packets f i a ≡ take a (packets f i n)
  take-packets f i zero n h = refl
  take-packets f i (suc a) zero h = absurd (omega arith)
  take-packets f i (suc a) (suc n) h = ap (λ l. f i ∷ l) (take-packets f (i + 1) a n (omega arith))

  pub drop-packets :
      (f : ℕ → P) (i a n : ℕ) → a ≤ n → packets f (i + a) (n - a) ≡ drop a (packets f i n)
  drop-packets f i zero n h = ap₂ (packets f) (omega arith) (omega arith)
  drop-packets f i (suc a) zero h = absurd (omega arith)
  drop-packets f i (suc a) (suc n) h =
      ap₂ (packets f) (omega arith) (omega arith) ∙ drop-packets f (i + 1) a n (omega arith)

  pub set_buf-other :
      (bufs : ℕ → PktBuf P) (z y : ℕ) (b : PktBuf P) → y ≢ z → set_buf bufs z b y ≡ bufs y
  set_buf-other bufs z y b n = let off : (y == z) ≡ false = ground arith in rw off refl

  pub set_buf-here : (bufs : ℕ → PktBuf P) (z : ℕ) (b : PktBuf P) → set_buf bufs z b z ≡ b
  set_buf-here bufs z b = let on : (z == z) ≡ true = ground arith in rw on refl

  -- A packet behind the others of a port; nothing else changes.
  pub record IsPut (w : Worker P) (port : ℕ) (x : P) (w' : Worker P) : Type 0 where
    pub here : queued w' port ≡ queued w port ++ x ∷ []
    pub others : (p : ℕ) → p ≢ port → w'.tx_pktios p ≡ w.tx_pktios p
    pub copies : w'.copies ≡ w.copies
    pub sends : w'.sends ≡ w.sends
    pub sent : w'.sent ≡ w.sent
    pub freed : w'.freed ≡ w.freed

  pub put-IsPut :
      (w : Worker P) (port : ℕ) (x : P)
      → port < 8
      → (w.tx_pktios port).len < 32
      → Ends (put w port x) (IsPut w port x)
  unfolding put
  put-IsPut w port x h l =
      let buf = w.tx_pktios port in
      let pkt : ℕ → P = λ i. if i == buf.len then x else buf.pkt i in
      let new : PktBuf P = record { pkt = pkt; len = buf.len + 1 } in
      let in_range : ltb port 8 ≡ true = ground arith in
      let room : ltb buf.len 32 ≡ true = ground arith in
      let last : pkt buf.len ≡ x = ground arith in
      (
        record w { tx_pktios = set_buf w.tx_pktios port new },
        rw (in_range, room) refl,
        record {
          here =
              ap (λ b. packets b.pkt 0 b.len) (set_buf-here w.tx_pktios port new)
              ∙ ap (packets pkt 0) {y = suc buf.len} (omega arith)
              ∙ packets-snoc pkt 0 buf.len
              ∙ ap₂ (λ l y. l ++ y ∷ [])
                  (packets-same pkt buf.pkt 0 buf.len (λ j m. below j (omega arith)))
                  (ap pkt (omega arith) ∙ last);
          others = λ p n. set_buf-other w.tx_pktios port p new n;
          copies = refl;
          sends = refl;
          sent = refl;
          freed = refl;
        },
      )
    where
      below :
          (j : ℕ)
          → j < (w.tx_pktios port).len
          → (if j == (w.tx_pktios port).len then x else (w.tx_pktios port).pkt j)
            ≡ (w.tx_pktios port).pkt j
      below j m = let off : (j == (w.tx_pktios port).len) ≡ false = ground arith in rw off refl

  -- Of the `n` packets of a port that a call of `odp_pktout_send` was given it took the first `a`,
  -- and the others are freed.
  pub record IsSent (w : Worker P) (n a port : ℕ) (w' : Worker P) : Type 0 where
    pub buffers : w'.tx_pktios ≡ w.tx_pktios
    pub copies : w'.copies ≡ w.copies
    pub sends : w'.sends ≡ w.sends + 1
    pub sent : w'.sent ≡ w.sent ++ (port, take a (packets (w.tx_pktios port).pkt 0 n)) ∷ []
    pub freed : w'.freed ≡ w.freed ++ drop a (packets (w.tx_pktios port).pkt 0 n)

  drop_rest-Ends :
      (w : Worker P) (buf : PktBuf P) (a n drops : ℕ)
      → a ≤ n
      → n ≤ 32
      → drops ≡ n - a
      → drop_rest w buf a drops ≡ some (record w { freed = w.freed ++ packets buf.pkt a (n - a) })
  unfolding drop_rest
  drop_rest-Ends w buf a n drops h l e = elim (Bool-cases (drops == 0)) [
    | inl z ↦
        let none_left : n - a ≡ 0 = ground arith in
        rw (z, none_left) (ap (λ f. some (record w { freed = f })) (sym (append-nil w.freed)))
    | inr z ↦
        let in_range : ltb 32 (a + drops) ≡ false = ground arith in
        rw (z, in_range) (ap (λ k. some (record w { freed = w.freed ++ packets buf.pkt a k })) e)
  ]

-- If `odp_pktout_send` takes a ≤ n of the n ≤ 32 packets in the buffer of a port, `maco_send_burst`
-- ends, the first `a` packets are sent in their order and the other ones are freed.
pub maco_send_burst-IsSent :
    {P : Type 0} (odp : Odp P) (w : Worker P) (n a port : ℕ)
    → odp.odp_pktout_send w.sends n ≡ pos a
    → a ≤ n
    → n ≤ 32
    → Ends (maco_send_burst odp w n port) (IsSent w n a port)
unfolding maco_send_burst drop_rest
maco_send_burst-IsSent odp w n a port e h l =
    let buf = w.tx_pktios port in
    let taken : a % 2 ^ 16 ≡ a = omega arith in
    let left : (n + (2 ^ 16 - a)) % 2 ^ 16 ≡ n - a = omega arith in
    let w1 : Worker _ = record w {
      sends = w.sends + 1;
      sent = w.sent ++ (port, packets buf.pkt 0 a) ∷ [];
    } in
    rw (e, taken)
      (
        record w1 { freed = w.freed ++ packets buf.pkt a (n - a) },
        drop_rest-Ends w1 buf a n _ h l left,
        record {
          buffers = refl;
          copies = refl;
          sends = refl;
          sent = ap (λ l. w.sent ++ (port, l) ∷ []) (take-packets buf.pkt 0 a n h);
          freed =
              ap (λ l. w.freed ++ l)
                (ap (λ i. packets buf.pkt i (n - a)) (omega arith) ∙ drop-packets buf.pkt 0 a n h);
        },
      )

-- If `odp_pktout_send` fails, `maco_send_burst` frees packets far behind the end of the array of
-- packets.
pub maco_send_burst-Fails :
    {P : Type 0} (odp : Odp P) (w : Worker P) (n error port : ℕ)
    → odp.odp_pktout_send w.sends n ≡ negsuc error
    → error < 2 ^ 15
    → n ≤ 32
    → maco_send_burst odp w n port ≡ none
unfolding maco_send_burst drop_rest
maco_send_burst-Fails odp w n error port e b h =
    let left : (n + (2 ^ 16 - ((2 ^ 16 - 1) - error % 2 ^ 16))) % 2 ^ 16 ≡ n + error + 1 =
      omega arith in
    let some_left : (n + error + 1 == 0) ≡ false = ground arith in
    let far : ltb 32 (((2 ^ 16 - 1) - error % 2 ^ 16) + (n + error + 1)) ≡ true = ground arith in
    rw (e, left, some_left, far) refl
