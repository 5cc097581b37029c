-- ===== src/Sockets/Reading.antt =====
-- `read_fix` reads exactly the bytes it is asked for, however they arrive.
use macsad.Prelude.{
  ℕ, zero, suc, ◌+◌, if◌then◌else◌, take-drop, drop-drop, take-append, drop-append, take_long,
  drop_long, ◌-◌, ◌≤◌, ◌<◌, ◌≡◌, ap, sym, fun_ext, ◌∙◌, some, List, [], ◌∷◌, ◌++◌, arith, length,
  take, drop, ltb, leb, get_or, length-append, length-take, length-drop, Bool-cases, inl, inr,
  Option, true, false,
}
use mathlib.Core.Path.{subst₂}
use macsad.Prelude.Int.{ℤ, pos}
use macsad.Memory.{Mem, Ptr, write_bytes}
use macsad.Sockets.{Segment, bytes, broken, got, recv, read_loop, read_fix}

-- The bytes that arrive before the connection breaks or closes.
unfoldable pub available : List Segment → List ℕ
available [] = []
available (broken ∷ s) = []
available (bytes bs ∷ s) = bs ++ available s

get_or-append :
    (xs ys : List ℕ) (i : ℕ)
    → get_or (xs ++ ys) i 0
      ≡ (if ltb i (length xs) then get_or xs i 0 else get_or ys (i - length xs) 0)
get_or-append [] ys i = ground arith
get_or-append (x ∷ xs) ys zero = ground arith
get_or-append (x ∷ xs) ys (suc i) = ground (arith, get_or-append xs ys i)

-- Two writes behind one another are one.
pub write_bytes-append :
    (m : Mem) (p : Ptr) (xs ys : List ℕ)
    → write_bytes (write_bytes m p xs) (p + length xs) ys ≡ write_bytes m p (xs ++ ys)
unfolding write_bytes
write_bytes-append m p xs ys =
    fun_ext λ a. ground (arith, get_or-append xs ys (a - p), length-append xs ys)

-- One `read` of at most n bytes: it takes at least one and at most n of what is available, unless
-- nothing is.
pub record Received (n : ℕ) (s : List Segment) (k : ℕ) (s' : List Segment) : Type 0 where
  pub positive : 0 < k
  pub bounded : k ≤ n
  pub there : k ≤ length (available s)
  pub got_them : recv n s ≡ got (take k (available s)) s'
  pub left : available s' ≡ drop k (available s)

recv_lem :
    (n : ℕ) (s : List Segment)
    → 0 < n
    → 0 < length (available s)
    → (k : ℕ) × (s' : List Segment) × Received n s k s'
unfolding recv available
recv_lem n [] h e = absurd (omega arith)
recv_lem n (broken ∷ s) h e = absurd (omega arith)
recv_lem n (bytes [] ∷ s) h e =
    let (k, s', r) = recv_lem n s h e in
    (
      k,
      s',
      record {
        positive = r.positive;
        bounded = r.bounded;
        there = r.there;
        got_them = r.got_them;
        left = r.left;
      },
    )
recv_lem n (bytes (b ∷ bs) ∷ s) h e = elim (Bool-cases (leb n (length (b ∷ bs)))) [
  | inl le ↦ (
    n,
    bytes (drop n (b ∷ bs)) ∷ s,
    record {
      positive = h;
      bounded = omega arith;
      there = ground (arith, length-append bs (available s));
      got_them =
          ap (λ ys. got ys (bytes (drop n (b ∷ bs)) ∷ s))
            (sym (take-append n (b ∷ bs) (available s) (ground arith)));
      left = sym (drop-append n (b ∷ bs) (available s) (ground arith));
    },
  )
  | inr gt ↦
      let l = length (b ∷ bs) in
      let long : l ≤ n = ground arith in
      (
        l,
        bytes (drop n (b ∷ bs)) ∷ s,
        record {
          positive = omega arith;
          bounded = long;
          there = ground (arith, length-append bs (available s));
          got_them =
              ap (λ ys. got ys (bytes (drop n (b ∷ bs)) ∷ s))
                (take_long n (b ∷ bs) long
                  ∙ sym (take_long l (b ∷ bs) (omega arith))
                  ∙ sym (take-append l (b ∷ bs) (available s) (omega arith)));
          left =
              ap (λ ys. ys ++ available s)
                (drop_long n (b ∷ bs) long ∙ sym (drop_long l (b ∷ bs) (omega arith)))
              ∙ sym (drop-append l (b ∷ bs) (available s) (omega arith));
        },
      )
]

write_bytes-nil : (m : Mem) (p : Ptr) → write_bytes m p [] ≡ m
unfolding write_bytes
write_bytes-nil m p = fun_ext λ a. ground arith

-- The state in which `read_fix` leaves the buffer and the socket once it has its `n` bytes.
abbrev pub ReadAll : Ptr → ℕ → Mem → List Segment → Option (ℤ × Mem × List Segment) → ℤ → Type 0
ReadAll p n m s result rval =
    (s' : List Segment) × (result ≡ some (rval, write_bytes m p (take n (available s)), s'))
    × (available s' ≡ drop n (available s))

module _ (fuel : ℕ) (p : Ptr) (n r : ℕ) (m : Mem) (s : List Segment) where
  read_loop_done : ltb r n ≡ false → read_loop (suc fuel) p n r m s ≡ some (pos r, m, s)
  unfolding read_loop
  read_loop_done e = rw (e, read_loop)

  read_loop_got :
      (bs : List ℕ) (s' : List Segment) (r' : ℕ)
      → r + length bs ≡ r'
      → ltb r n ≡ true
      → recv (n - r) s ≡ got bs s'
      → read_loop (suc fuel) p n r m s ≡ read_loop fuel p n r' (write_bytes m (p + r) bs) s'
  unfolding read_loop
  read_loop_got bs s' r' c e g = rw (e, read_loop, g, c)

-- A round that reads k bytes, and then the rest.
ReadAll-round :
    (p : Ptr) (n k : ℕ) (m : Mem) (s s' : List Segment) (result : Option (ℤ × Mem × List Segment))
    (rval : ℤ)
    → Received n s k s'
    → ReadAll (p + k) (n - k) (write_bytes m p (take k (available s))) s' result rval
    → ReadAll p n m s result rval
ReadAll-round p n k m s s' result rval rcv (s'', e, l) = (
  s'',
  e ∙ ap (λ g. some (rval, g, s'')) bytes_read,
  l ∙ ap (drop (n - k)) rcv.left ∙ drop-drop n k (available s) rcv.bounded,
)
  where
    bytes_read :
        write_bytes (write_bytes m p (take k (available s))) (p + k) (take (n - k) (available s'))
        ≡ write_bytes m p (take n (available s))
    bytes_read =
        ap
          (λ j.
            write_bytes (write_bytes m p (take k (available s))) (p + j)
              (take (n - k) (available s')))
          (sym (omega (arith, length-take k (available s), rcv.there)))
        ∙ write_bytes-append m p (take k (available s)) (take (n - k) (available s'))
        ∙ ap (write_bytes m p) (
            ap (λ xs. take k (available s) ++ take (n - k) xs) rcv.left
            ∙ take-drop n k (available s) rcv.bounded)

-- A round of the loop, given what the rounds behind it do.
read_loop_round :
    (fuel : ℕ) (p : Ptr) (n r : ℕ) (m : Mem) (s : List Segment)
    → ((r' : ℕ) (g : Mem) (s' : List Segment)
        → r' ≤ n
        → n - r' < fuel
        → n - r' ≤ length (available s')
        → ReadAll (p + r') (n - r') g s' (read_loop fuel p n r' g s') (pos n))
    → n - r < suc fuel
    → n - r ≤ length (available s)
    → ltb r n ≡ true
    → (k : ℕ) (s' : List Segment) → Received (n - r) s k s'
    → ReadAll (p + r) (n - r) m s (read_loop (suc fuel) p n r m s) (pos n)
read_loop_round fuel p n r m s rest f there more k s' rcv =
    let less : r < n = ground arith in
    let bs = take k (available s) in
    let g = write_bytes m (p + r) bs in
    let step =
      read_loop_got fuel p n r m s bs s' (r + k) (omega (arith, length-take k (available s))) more
        rcv.got_them in
    let left : n - (r + k) ≤ length (available s') =
      omega (arith, length-drop k (available s), ap length rcv.left) in
    let after = rest (r + k) g s' (omega arith) (omega arith) left in
    let moved =
      subst₂ (λ a j. ReadAll a j g s' (read_loop fuel p n (r + k) g s') (pos n)) (omega arith)
        (omega arith) after in
    rw step (ReadAll-round (p + r) (n - r) k m s s' _ _ rcv moved)

read_loop_lem :
    (fuel : ℕ) (p : Ptr) (n r : ℕ) (m : Mem) (s : List Segment)
    → r ≤ n
    → n - r < fuel
    → n - r ≤ length (available s)
    → ReadAll (p + r) (n - r) m s (read_loop fuel p n r m s) (pos n)
read_loop_lem zero p n r m s le f there = absurd (omega arith)
read_loop_lem (suc fuel) p n r m s le f there = elim (Bool-cases (ltb r n)) [
  | inr done ↦
      let same : r ≡ n = ground arith in
      let none_left : n - r ≡ 0 = omega arith in
      (
        s,
        read_loop_done fuel p n r m s done
            ∙ rw (none_left, same) (ap (λ g. some (pos n, g, s)) (sym (write_bytes-nil m (p + n)))),
        rw none_left,
      )
  | inl more ↦
      let less : r < n = ground arith in
      let (k, s', rcv) = recv_lem (n - r) s (omega arith) (omega arith) in
      read_loop_round fuel p n r m s (read_loop_lem fuel p n) f there more k s' rcv
]

-- When at least n bytes are still to come, `read_fix` returns n, with the next n bytes of the
-- stream in the buffer and the others still to come, whatever the pieces in which they arrive.
pub read_fix-ReadAll :
    (p : Ptr) (n : ℕ) (m : Mem) (s : List Segment)
    → n ≤ length (available s)
    → ReadAll p n m s (read_fix p (pos n) m s) (pos n)
unfolding read_fix
read_fix-ReadAll p n m s there =
    subst₂ (λ a j. ReadAll a j m s (read_loop (suc n) p n 0 m s) (pos n)) (omega arith)
      (omega arith) (read_loop_lem (suc n) p n 0 m s (omega arith) (omega arith) (omega arith))
