-- ===== src/Sockets/Writing.antt =====
-- `write_fix` sends exactly the bytes it is asked for, however few each `write` takes.
use mathlib.Core.List.{append-nil, append_assoc}
use macsad.Prelude.{
  ℕ, zero, suc, ◌+◌, ◌-◌, ◌≤◌, ◌<◌, ◌≡◌, ap, ◌∙◌, some, List, [], ◌∷◌, ◌++◌, arith, min, ltb,
  Bool-cases, inl, inr, Option, false, get_or, fun_ext,
}
use mathlib.Core.Path.{subst₂}
use macsad.Prelude.Int.{ℤ, pos}
use macsad.Memory.{Mem, Ptr, read_bytes, write_bytes}
use macsad.Memory.Copy.{copy}
use macsad.Memory.Laws.{length-read_bytes}
use macsad.Sockets.{Accept, accept, refuse, write_loop, write_fix}

-- What `write` takes before it fails or blocks.
unfoldable pub capacity : List Accept → ℕ
capacity [] = 0
capacity (refuse ∷ takes) = 0
capacity (accept k ∷ takes) = k + capacity takes

pub read_bytes-append :
    (m : Mem) (p : Ptr) (a b : ℕ)
    → read_bytes m p a ++ read_bytes m (p + a) b ≡ read_bytes m p (a + b)
unfolding read_bytes
read_bytes-append m p zero b =
    ap (λ q. read_bytes m q b) (omega arith) ∙ ap (read_bytes m p) (omega arith)
read_bytes-append m p (suc a) b =
    ap (λ xs. m p ∷ xs)
      (ap (λ q. read_bytes m (p + 1) a ++ read_bytes m q b) (omega arith)
        ∙ read_bytes-append m (p + 1) a b)
    ∙ ap (read_bytes m p) grow
  where
    grow : suc (a + b) ≡ suc a + b
    grow = omega arith

pub get_or-read_bytes :
    (m : Mem) (p : Ptr) (n i : ℕ) → i < n → get_or (read_bytes m p n) i 0 ≡ m (p + i)
unfolding read_bytes
get_or-read_bytes m p zero i h = absurd (omega arith)
get_or-read_bytes m p (suc n) zero h = ap m (omega arith)
get_or-read_bytes m p (suc n) (suc i) h =
    get_or-read_bytes m (p + 1) n i (omega arith) ∙ ap m (omega arith)

-- Writing the bytes that were read is copying them.
pub write_bytes-read_bytes :
    (g m : Mem) (n : ℕ) → write_bytes g 0 (read_bytes m 0 n) ≡ copy g 0 m 0 n
unfolding write_bytes copy
write_bytes-read_bytes g m n =
    fun_ext λ a. ground (arith, length-read_bytes m 0 n, get_or-read_bytes m 0 n (a - 0))

-- The state in which `write_fix` leaves the socket once it has sent its bytes.
abbrev pub Sent : Mem → Ptr → ℕ → List ℕ → Option (ℤ × List ℕ × List Accept) → ℤ → Type 0
Sent m p n sent result rval =
    (left : List Accept) × (result ≡ some (rval, sent ++ read_bytes m p n, left))

module _ (m : Mem) (p : Ptr) (n : ℕ) where
  Sent-none :
      (w : ℕ) (sent : List ℕ) (left : List Accept)
      → n ≤ w
      → w ≤ n
      → Sent m (p + w) (n - w) sent (some (pos w, sent, left)) (pos n)
  unfolding read_bytes
  Sent-none w sent left le ge =
      let e : n - w ≡ 0 = omega arith in
      let same : w ≡ n = omega arith in
      (left, rw (e, append-nil) (ap (λ j. some (pos j, sent, left)) same))

  Sent_more :
      (w c : ℕ) (sent : List ℕ)
      → w + c ≤ n
      → (sent ++ read_bytes m (p + w) c) ++ read_bytes m (p + (w + c)) (n - (w + c))
        ≡ sent ++ read_bytes m (p + w) (n - w)
  Sent_more w c sent le =
      append_assoc sent (read_bytes m (p + w) c) (read_bytes m (p + (w + c)) (n - (w + c)))
      ∙ ap (λ xs. sent ++ xs)
          (ap (λ q. read_bytes m (p + w) c ++ read_bytes m q (n - (w + c))) (omega arith)
            ∙ read_bytes-append m (p + w) c (n - (w + c))
            ∙ ap (read_bytes m (p + w)) (omega arith))

  write_loop_lem :
      (takes : List Accept) (w : ℕ) (sent : List ℕ)
      → w ≤ n
      → n - w ≤ capacity takes
      → Sent m (p + w) (n - w) sent (write_loop m p n w sent takes) (pos n)
  unfolding write_loop capacity
  write_loop_lem [] w sent le room =
      let stop : ltb w n ≡ false = ground arith in rw stop (Sent-none w sent [] (omega arith) le)
  write_loop_lem (refuse ∷ takes) w sent le room =
      let stop : ltb w n ≡ false = ground arith in
      rw stop (Sent-none w sent (refuse ∷ takes) (omega arith) le)
  write_loop_lem (accept k ∷ takes) w sent le room = elim (Bool-cases (ltb w n)) [
    | inr done ↦ rw (done, write_loop) (Sent-none w sent (accept k ∷ takes) (ground arith) le)
    | inl more ↦
        let c = min k (n - w) in
        let less : w < n = ground arith in
        let sent' = sent ++ read_bytes m (p + w) c in
        let (left, e) = write_loop_lem takes (w + c) sent' (omega arith) (omega arith) in
        rw (more, write_loop)
          (left, e ∙ ap (λ xs. some (pos n, xs, left)) (Sent_more w c sent (omega arith)))
  ]

  -- The bytes for 0 < n are sent if the calls of `write` have room for them, whatever each takes:
  -- `write_fix` then returns n, and has sent exactly the n bytes from p on, in order.
  pub write_fix-Sent :
      (takes : List Accept) (sent : List ℕ)
      → n ≤ capacity takes
      → Sent m p n sent (write_fix m p n sent takes) (pos n)
  unfolding write_fix
  write_fix-Sent takes sent room =
      subst₂ (λ a j. Sent m a j sent (write_loop m p n 0 sent takes) (pos n)) (omega arith)
        (omega arith) (write_loop_lem takes 0 sent (omega arith) (omega arith))
