-- ===== src/Threadpool/Queue.antt =====
-- threadpool.c: the linked list of works behind `qhead` and `qtail`.
use macsad.Prelude.{
  ℕ, ◌≡◌, ◌≢◌, ◌∙◌, ◌<◌, ◌^◌, ◌==◌, true, false, none, some, Option, List, [], ◌∷◌, ◌++◌, refl, sym,
  ap, ap₂, arith, subst, map, length, Apart, Distinct, Bool-cases, inl, inr,
}
use macsad.Threadpool.{Work, ThreadPool, set_work}

-- From `h` on the works are `xs`.
unfoldable pub Linked : (ℕ → Work) → Option ℕ → List ℕ → Type 0
Linked works h [] = h ≡ none
Linked works h (x ∷ xs) = (h ≡ some x) × Linked works (works x).next xs

abbrev pub last : List ℕ → Option ℕ
last [] = none
last (x ∷ []) = some x
last (x ∷ y ∷ xs) = last (y ∷ xs)

-- A routine and its argument.
abbrev pub Job : Type 0
Job = ℕ × ℕ

abbrev pub job : (ℕ → Work) → ℕ → Job
job works x = ((works x).routine, (works x).arg)

abbrev pub jobs : (ℕ → Work) → List ℕ → List Job
jobs works xs = map (job works) xs

-- The works of the pool are `xs`, the one to take first in front.
pub record IsQueue (pool : ThreadPool) (xs : List ℕ) : Type 0 where
  pub linked : Linked pool.works pool.qhead xs
  pub ends : pool.qtail ≡ last xs
  pub size : pool.qsize ≡ length xs
  pub small : length xs < 2 ^ 32
  pub distinct : Distinct xs

pub set_work-other :
    (works : ℕ → Work) (z y : ℕ) (v : Work) → z ≢ y → set_work works z v y ≡ works y
unfolding set_work
set_work-other works z y v n = let off : (y == z) ≡ false = ground arith in rw off

pub set_work-here : (works : ℕ → Work) (z : ℕ) (v : Work) → set_work works z v z ≡ v
unfolding set_work
set_work-here works z v = let on : (z == z) ≡ true = ground arith in rw on

-- A write to another work leaves the list as it is.
pub Linked-set_work :
    (works : ℕ → Work) (z : ℕ) (v : Work) (h : Option ℕ) (xs : List ℕ)
    → Apart z xs
    → Linked works h xs
    → Linked (set_work works z v) h xs
unfolding Apart Linked
Linked-set_work works z v h [] a l = l
Linked-set_work works z v h (x ∷ xs) (n, a) (e, l) = (
  e,
  subst (λ d. Linked (set_work works z v) d.next xs) (sym (set_work-other works z x v n))
      (Linked-set_work works z v (works x).next xs a l),
)

pub jobs-set_work :
    (works : ℕ → Work) (z : ℕ) (v : Work) (xs : List ℕ)
    → Apart z xs
    → jobs (set_work works z v) xs ≡ jobs works xs
unfolding Apart
jobs-set_work works z v [] a = refl
jobs-set_work works z v (x ∷ xs) (n, a) =
    ap₂ ◌∷◌ (ap (λ d. (d.routine, d.arg)) (set_work-other works z x v n))
      (jobs-set_work works z v xs a)

-- `t->next = y`
abbrev pub link : (ℕ → Work) → ℕ → ℕ → ℕ → Work
link works t y = set_work works t (record (works t) { next = some y })

job-link : (works : ℕ → Work) (t y x : ℕ) → job (link works t y) x ≡ job works x
unfolding set_work
job-link works t y x = elim (Bool-cases (x == t)) [
  | inl e ↦
      let same : x ≡ t = ground arith in
      subst (λ z. job (link works t y) z ≡ job works z) (sym same)
        (ap (λ d. (d.routine, d.arg)) (set_work-here works t (record (works t) { next = some y })))
  | inr e ↦ rw e
]

pub jobs-link :
    (works : ℕ → Work) (t y : ℕ) (xs : List ℕ) → jobs (link works t y) xs ≡ jobs works xs
jobs-link works t y [] = refl
jobs-link works t y (x ∷ xs) = ap₂ ◌∷◌ (job-link works t y x) (jobs-link works t y xs)

last-Apart : (x : ℕ) (xs : List ℕ) (t : ℕ) → Apart x xs → last xs ≡ some t → x ≢ t
unfolding Apart
last-Apart x [] t a e = λ _. cc e
last-Apart x (y ∷ []) t (n, a) e = let same : y ≡ t = cc e in λ h. n (h ∙ sym same)
last-Apart x (y ∷ z ∷ xs) t (n, a) e = last-Apart x (z ∷ xs) t a e

-- A work without a next one, linked behind the last.
pub Linked-snoc :
    (works : ℕ → Work) (h : Option ℕ) (xs : List ℕ) (t y : ℕ)
    → Distinct xs
    → Apart y xs
    → last xs ≡ some t
    → (works y).next ≡ none
    → Linked works h xs
    → Linked (link works t y) h (xs ++ y ∷ [])
unfolding Apart Distinct Linked
Linked-snoc works h [] t y d a e ends l = absurd (cc e)
Linked-snoc works h (x ∷ []) t y d (n, a) e ends (hx, l) =
    let same : x ≡ t = cc e in
    let here = set_work-here works t (record (works t) { next = some y }) in
    let there =
      set_work-other works t y (record (works t) { next = some y }) (λ q. n (sym q ∙ sym same)) in
    (
      hx,
      (
        subst (λ z. (link works t y z).next ≡ some y) (sym same) (ap (λ d. d.next) here),
        ap (λ d. d.next) there ∙ ends,
      ),
    )
Linked-snoc works h (x ∷ x' ∷ xs) t y (ax, d) (n, a) e ends (hx, l) =
    let other =
      set_work-other works t x (record (works t) { next = some y })
        (λ q. last-Apart x (x' ∷ xs) t ax e (sym q)) in
    (
      hx,
      subst (λ v. Linked (link works t y) v.next (x' ∷ (xs ++ y ∷ []))) (sym other)
          (Linked-snoc works (works x).next (x' ∷ xs) t y d a e ends l),
    )

pub Distinct-snoc : (xs : List ℕ) (y : ℕ) → Distinct xs → Apart y xs → Distinct (xs ++ y ∷ [])
unfolding Distinct Apart
Distinct-snoc [] y d a = (tt, tt)
Distinct-snoc (x ∷ xs) y (ax, d) (n, a) =
    (Apart-snoc x xs y ax (λ e. n (sym e)), Distinct-snoc xs y d a)
  where
    Apart-snoc : (x : ℕ) (xs : List ℕ) (y : ℕ) → Apart x xs → x ≢ y → Apart x (xs ++ y ∷ [])
    Apart-snoc x [] y a n = (n, tt)
    Apart-snoc x (z ∷ xs) y (m, a) n = (m, Apart-snoc x xs y a n)

pub last-snoc : (xs : List ℕ) (y : ℕ) → last (xs ++ y ∷ []) ≡ some y
last-snoc [] y = refl
last-snoc (x ∷ []) y = refl
last-snoc (x ∷ x' ∷ xs) y = last-snoc (x' ∷ xs) y

pub last-cons : (x : ℕ) (xs : List ℕ) → (t : ℕ) × (last (x ∷ xs) ≡ some t)
last-cons x [] = (x, refl)
last-cons x (x' ∷ xs) = last-cons x' xs
