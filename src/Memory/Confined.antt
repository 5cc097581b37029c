-- ===== src/Memory/Confined.antt =====
-- Commands that read and write only the bytes from `lo` to `hi`. The memory itself has no bounds, so
-- this is what says which buffer is large enough for a command.
use macsad.Prelude.{
  ℕ, ◌+◌, ◌≤◌, ◌<◌, ◌≡◌, ◌∙◌, ◌==◌, Bool, true, false, Option, none, some, refl, ap, arith, ◌⊎◌,
  inl, inr, if◌then◌else◌,
}
use macsad.Memory.{
  Mem, Ptr, Cmd, pure, ◌>>=◌, get8, get16, get32, store16, store32, load16, load32, put16, put32,
  write,
}
use macsad.Memory.Laws.{put16_outside, put32_outside}

module _ (lo hi : ℕ) where
  -- Two memories with the same bytes from `lo` to `hi`.
  abbrev pub Agree : Mem → Mem → Type 0
  Agree m n = (x : Ptr) → lo ≤ x → x < hi → m x ≡ n x

  -- The bytes outside are as they were.
  abbrev pub Kept : Mem → Mem → Type 0
  Kept m m' = (x : Ptr) → (x < lo) ⊎ (hi ≤ x) → m' x ≡ m x

  -- The results `r` and `s` of a command on the memories `m` and `n`: it ends with the same value,
  -- writes the same bytes, and writes none outside.
  pub record Alike {A : Type 0} (Q : A → Type 0) (m n : Mem) (r s : Option (A × Mem)) : Type 0 where
    pub value : A
    pub end : Mem
    pub other : Mem
    pub left : r ≡ some (value, end)
    pub right : s ≡ some (value, other)
    pub agree : Agree end other
    pub end_kept : Kept m end
    pub other_kept : Kept n other
    pub post : Q value

  -- The command ends in every memory, what it does depends on the bytes from `lo` to `hi` only, and
  -- it changes no other; its value has the property `Q`.
  abbrev pub Confined : {A : Type 0} → Cmd A → (A → Type 0) → Type 0
  Confined c Q = (m n : Mem) → Agree m n → Alike Q m n (c m) (c n)

  abbrev pub Within : {A : Type 0} → Cmd A → Type 0
  Within c = Confined c (λ a. Unit {0})

  pub pure-Confined : {A : Type 0} (Q : A → Type 0) (a : A) → Q a → Confined (pure a) Q
  pure-Confined Q a q m n h = record {
    value = a;
    end = m;
    other = n;
    left = refl;
    right = refl;
    agree = h;
    end_kept = λ x o. refl;
    other_kept = λ x o. refl;
    post = q;
  }

  pub then-Confined :
      {A B : Type 0} (c : Cmd A) (f : A → Cmd B) (Q : A → Type 0) (R : B → Type 0)
      → Confined c Q
      → ((a : A) → Q a → Confined (f a) R)
      → Confined (c >>= f) R
  then-Confined c f Q R hc hf m n h =
      let r = hc m n h in
      let s = hf r.value r.post r.end r.other r.agree in
      record {
        value = s.value;
        end = s.end;
        other = s.other;
        left = ap (λ o. elim o [ none ↦ none | some (a, m') ↦ f a m' ]) r.left ∙ s.left;
        right = ap (λ o. elim o [ none ↦ none | some (a, m') ↦ f a m' ]) r.right ∙ s.right;
        agree = s.agree;
        end_kept = λ x o. s.end_kept x o ∙ r.end_kept x o;
        other_kept = λ x o. s.other_kept x o ∙ r.other_kept x o;
        post = s.post;
      }

  pub weaker-Confined :
      {A : Type 0} (c : Cmd A) (Q R : A → Type 0)
      → ((a : A) → Q a → R a)
      → Confined c Q
      → Confined c R
  weaker-Confined c Q R w k m n h =
      let r = k m n h in
      record {
        value = r.value;
        end = r.end;
        other = r.other;
        left = r.left;
        right = r.right;
        agree = r.agree;
        end_kept = r.end_kept;
        other_kept = r.other_kept;
        post = w r.value r.post;
      }

  pub if-Confined :
      {A : Type 0} (b : Bool) (c d : Cmd A) (Q : A → Type 0)
      → (b ≡ true → Confined c Q)
      → (b ≡ false → Confined d Q)
      → Confined (if b then c else d) Q
  if-Confined true c d Q h k = h refl
  if-Confined false c d Q h k = k refl

  -- A read is of the same value in both memories.
  read-Alike :
      (v w : ℕ) (m n : Mem)
      → w ≡ v
      → Agree m n
      → Alike (λ a. Unit {0}) m n (some (v, m)) (some (w, n))
  read-Alike v w m n e h = record {
    value = v;
    end = m;
    other = n;
    left = refl;
    right = ap (λ a. some (a, n)) e;
    agree = h;
    end_kept = λ x o. refl;
    other_kept = λ x o. refl;
    post = tt;
  }

  pub get8-Confined : (p : Ptr) → lo ≤ p → p < hi → Within (get8 p)
  get8-Confined p a b m n h = let e = h p a b in read-Alike (m p) (n p) m n (omega arith) h

  pub get16-Confined : (p : Ptr) → lo ≤ p → p + 2 ≤ hi → Within (get16 p)
  unfolding load16
  get16-Confined p a b m n h =
      let e = h p a (omega arith) in
      let f = h (p + 1) (omega arith) (omega arith) in
      read-Alike (load16 m p) (load16 n p) m n (omega arith) h

  pub get32-Confined : (p : Ptr) → lo ≤ p → p + 4 ≤ hi → Within (get32 p)
  unfolding load32
  get32-Confined p a b m n h =
      let e = h p a (omega arith) in
      let f = h (p + 1) (omega arith) (omega arith) in
      let g = h (p + 2) (omega arith) (omega arith) in
      let k = h (p + 3) (omega arith) (omega arith) in
      read-Alike (load32 m p) (load32 n p) m n (omega arith) h

  write-Agree : (p : Ptr) (v : ℕ) (m n : Mem) → Agree m n → Agree (write m p v) (write n p v)
  unfolding write
  write-Agree p v m n h x a b = ap (λ w. if x == p then v else w) (h x a b)

  outside : (p k : ℕ) (x : Ptr) → lo ≤ p → p + k ≤ hi → (x < lo) ⊎ (hi ≤ x) → (x < p) ⊎ (p + k ≤ x)
  outside p k x a b (inl l) = inl (omega arith)
  outside p k x a b (inr l) = inr (omega arith)

  pub store16-Confined : (p : Ptr) (v : ℕ) → lo ≤ p → p + 2 ≤ hi → Within (store16 p v)
  unfolding put16
  store16-Confined p v a b m n h = record {
    value = tt;
    end = put16 m p v;
    other = put16 n p v;
    left = refl;
    right = refl;
    agree = write-Agree (p + 1) _ _ _ (write-Agree p _ m n h);
    end_kept = λ x o. put16_outside m p v x (outside p 2 x a b o);
    other_kept = λ x o. put16_outside n p v x (outside p 2 x a b o);
    post = tt;
  }

  pub store32-Confined : (p : Ptr) (v : ℕ) → lo ≤ p → p + 4 ≤ hi → Within (store32 p v)
  unfolding put32
  store32-Confined p v a b m n h = record {
    value = tt;
    end = put32 m p v;
    other = put32 n p v;
    left = refl;
    right = refl;
    agree =
        write-Agree (p + 3) _ _ _
          (write-Agree (p + 2) _ _ _ (write-Agree (p + 1) _ _ _ (write-Agree p _ m n h)));
    end_kept = λ x o. put32_outside m p v x (outside p 4 x a b o);
    other_kept = λ x o. put32_outside n p v x (outside p 4 x a b o);
    post = tt;
  }

  pub get8-then :
      {B : Type 0} {f : ℕ → Cmd B} {R : B → Type 0} (p : Ptr)
      → lo ≤ p
      → p < hi
      → ((a : ℕ) → Confined (f a) R)
      → Confined (get8 p >>= f) R
  get8-then p a b k = then-Confined (get8 p) _ _ _ (get8-Confined p a b) (λ w _. k w)

  pub get16-then :
      {B : Type 0} {f : ℕ → Cmd B} {R : B → Type 0} (p : Ptr)
      → lo ≤ p
      → p + 2 ≤ hi
      → ((a : ℕ) → Confined (f a) R)
      → Confined (get16 p >>= f) R
  get16-then p a b k = then-Confined (get16 p) _ _ _ (get16-Confined p a b) (λ w _. k w)

  pub get32-then :
      {B : Type 0} {f : ℕ → Cmd B} {R : B → Type 0} (p : Ptr)
      → lo ≤ p
      → p + 4 ≤ hi
      → ((a : ℕ) → Confined (f a) R)
      → Confined (get32 p >>= f) R
  get32-then p a b k = then-Confined (get32 p) _ _ _ (get32-Confined p a b) (λ w _. k w)

  pub store16-then :
      {B : Type 0} {f : Unit {0} → Cmd B} {R : B → Type 0} (p : Ptr) (v : ℕ)
      → lo ≤ p
      → p + 2 ≤ hi
      → ((a : Unit {0}) → Confined (f a) R)
      → Confined (store16 p v >>= f) R
  store16-then p v a b k = then-Confined (store16 p v) _ _ _ (store16-Confined p v a b) (λ w _. k w)

  pub store32-then :
      {B : Type 0} {f : Unit {0} → Cmd B} {R : B → Type 0} (p : Ptr) (v : ℕ)
      → lo ≤ p
      → p + 4 ≤ hi
      → ((a : Unit {0}) → Confined (f a) R)
      → Confined (store32 p v >>= f) R
  store32-then p v a b k = then-Confined (store32 p v) _ _ _ (store32-Confined p v a b) (λ w _. k w)
