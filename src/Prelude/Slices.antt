-- ===== src/Prelude/Slices.antt =====
-- `take` and `drop`, after one another and of a concatenation.
use Prim.Native.Nat.{ℕ, zero, suc, ◌-◌, ◌≤◌}
use mathlib.Core.Path.{◌≡◌, refl, ap, ◌∙◌}
use mathlib.Core.List.{List, [], ◌∷◌, ◌++◌}
use native.Mathlib.Omega.{arith}
use macsad.Prelude.Lists.{length, take, drop}

module _ {ℓ} {A : Type ℓ} where
  take-nil : (j : ℕ) → take {A = A} j [] ≡ []
  take-nil zero = refl
  take-nil (suc j) = refl

  drop-nil : (j : ℕ) → drop {A = A} j [] ≡ []
  drop-nil zero = refl
  drop-nil (suc j) = refl

  pub take-drop :
      (n k : ℕ) (xs : List A) → k ≤ n → take k xs ++ take (n - k) (drop k xs) ≡ take n xs
  take-drop n zero xs h = ap (λ j. take j xs) (omega arith)
  take-drop zero (suc k) xs h = absurd (omega arith)
  take-drop (suc n) (suc k) [] h = take-nil (suc n - suc k)
  take-drop (suc n) (suc k) (x ∷ xs) h =
      ap (λ ys. x ∷ ys)
        (ap (λ j. take k xs ++ take j (drop k xs)) (omega arith) ∙ take-drop n k xs (omega arith))

  pub drop-drop : (n k : ℕ) (xs : List A) → k ≤ n → drop (n - k) (drop k xs) ≡ drop n xs
  drop-drop n zero xs h = ap (λ j. drop j xs) (omega arith)
  drop-drop zero (suc k) xs h = absurd (omega arith)
  drop-drop (suc n) (suc k) [] h = drop-nil (suc n - suc k)
  drop-drop (suc n) (suc k) (x ∷ xs) h =
      ap (λ j. drop j (drop k xs)) (omega arith) ∙ drop-drop n k xs (omega arith)

  pub take-append : (n : ℕ) (xs ys : List A) → n ≤ length xs → take n (xs ++ ys) ≡ take n xs
  take-append zero xs ys h = refl
  take-append (suc n) [] ys h = absurd (omega arith)
  take-append (suc n) (x ∷ xs) ys h = ap (λ zs. x ∷ zs) (take-append n xs ys (omega arith))

  pub drop-append : (n : ℕ) (xs ys : List A) → n ≤ length xs → drop n (xs ++ ys) ≡ drop n xs ++ ys
  drop-append zero xs ys h = refl
  drop-append (suc n) [] ys h = absurd (omega arith)
  drop-append (suc n) (x ∷ xs) ys h = drop-append n xs ys (omega arith)

  pub take_long : (n : ℕ) (xs : List A) → length xs ≤ n → take n xs ≡ xs
  take_long n [] h = take-nil n
  take_long zero (x ∷ xs) h = absurd (omega arith)
  take_long (suc n) (x ∷ xs) h = ap (λ zs. x ∷ zs) (take_long n xs (omega arith))

  pub drop_long : (n : ℕ) (xs : List A) → length xs ≤ n → drop n xs ≡ []
  drop_long n [] h = drop-nil n
  drop_long zero (x ∷ xs) h = absurd (omega arith)
  drop_long (suc n) (x ∷ xs) h = drop_long n xs (omega arith)
