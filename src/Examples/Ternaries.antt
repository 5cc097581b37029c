-- ===== src/Examples/Ternaries.antt =====
-- A table of two entries, of which the first matches the key and the second does not.
use macsad.Prelude.{ℕ, ◌≡◌, some, none, arith}
use macsad.Ternary.{
  TernaryTable, naive_ternary_create, naive_ternary_add, naive_ternary_lookup, matches_from,
  naive_ternary_lookup-last,
}

abbrev two_entries : TernaryTable ℕ
unfolding naive_ternary_create naive_ternary_add
two_entries =
    let t0 : TernaryTable ℕ =
      naive_ternary_create 1 (λ i. record { mask = λ j. 165; key = λ j. 165; value = 165 }) in
    let t1 = naive_ternary_add t0 (λ j. 16) (λ j. 240) 1 (λ j. 165) in
    naive_ternary_add t1 (λ j. 32) (λ j. 240) 2 (λ j. 165)

naive_ternary_lookup-last_example : naive_ternary_lookup two_entries (λ j. 17) ≡ some none
unfolding two_entries naive_ternary_create naive_ternary_add matches_from
naive_ternary_lookup-last_example = naive_ternary_lookup-last two_entries (λ j. 17) (omega arith)
