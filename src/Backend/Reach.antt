-- ===== src/Backend/Reach.antt =====
-- ctrl_plane_backend.c: the pool under any sequence of takings and givings back, by whatever threads;
-- each is one critical section.
use macsad.Prelude.{
  ℕ, zero, suc, ◌+◌, ◌≡◌, ◌∙◌, some, List, [], ◌∷◌, ◌++◌, refl, ap, sym, subst, arith, length, take,
  drop,
}
use macsad.Backend.{Backend, touch_mem_cell, detouch_mem_cell}
use macsad.Backend.Pool.{IsPool, touch_mem_cell-IsPool}
use macsad.Backend.Release.{detouch_mem_cell-IsPool}
use macsad.Backend.Create.{Started, countdown}

-- The states of a backend that was created with `n` cells, with the used and the unused cells.
pub data Reachable (n : ℕ) : Backend → List ℕ → List ℕ → Type 0 where
  created : (bg : Backend) → Started bg n → Reachable n bg [] (countdown n)
  touched :
      (bg : Backend) (us fs : List ℕ)
      → Reachable n bg us fs
      → Reachable n (touch_mem_cell bg).1 (take 1 fs ++ us) (drop 1 fs)
  detouched :
      (bg bg' : Backend) (c : ℕ) (xs bs fs : List ℕ)
      → Reachable n bg (xs ++ c ∷ bs) fs
      → detouch_mem_cell bg c ≡ some bg'
      → Reachable n bg' (xs ++ bs) (c ∷ fs)

length-countdown : (n : ℕ) → length (countdown n) ≡ n
unfolding countdown
length-countdown zero = refl
length-countdown (suc n) = ap suc (length-countdown n)

some_inj : {b b' : Backend} → some b ≡ some b' → b ≡ b'
some_inj e = cc e

length-append : (xs ys : List ℕ) → length (xs ++ ys) ≡ length xs + length ys
length-append [] ys = omega arith
length-append (x ∷ xs) ys = let rest = length-append xs ys in omega arith

moved : (us fs : List ℕ) → length (take 1 fs ++ us) + length (drop 1 fs) ≡ length us + length fs
moved us [] = refl
moved us (x ∷ fs) = omega arith

-- Whatever cells are taken and given back after `create_backend`, in whatever order: the pool is
-- valid, and no cell is lost, since the used and the unused ones are together as many as at the start.
pub Reachable-IsPool :
    (n : ℕ) (bg : Backend) (us fs : List ℕ)
    → Reachable n bg us fs
    → IsPool bg us fs × (length us + length fs ≡ n)
Reachable-IsPool n bg us fs (created _ s) =
    let all = length-countdown n in (s.fresh.pool, omega arith)
Reachable-IsPool n bg us fs (touched bg0 us' fs' r) =
    let (v, e) = Reachable-IsPool n bg0 us' fs' r in
    ((touch_mem_cell-IsPool bg0 us' fs' v).1, moved us' fs' ∙ e)
Reachable-IsPool n bg us fs (detouched bg0 _ c xs bs fs' r d) =
    let (v, e) = Reachable-IsPool n bg0 (xs ++ c ∷ bs) fs' r in
    let (bg1, d1, v1) = detouch_mem_cell-IsPool bg0 c xs bs fs' v in
    let same : bg1 ≡ bg = some_inj (sym d1 ∙ d) in
    let before = length-append xs (c ∷ bs) in
    let behind = length-append xs bs in
    (subst (λ b. IsPool b (xs ++ bs) (c ∷ fs')) same v1, omega arith)
