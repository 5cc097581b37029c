-- ===== src/Ternary.antt =====
-- shared/data_plane/ternary_naive.c: the table of the ternary matches. A key is a function from the
-- index to the byte. `V` stands for the pointers to values. `malloc` is taken to succeed, as the code
-- does; the room of the table, `max_size` entries, is not kept in it and not looked at.
use Prim.Native.Nat.{bit_and}
use macsad.Prelude.{
  ℕ, zero, suc, ◌+◌, ◌-◌, ◌%◌, ◌^◌, ◌≡◌, ◌<◌, ◌∙◌, ap, arith, Bool, true, false, Bool-cases, inl,
  inr, Option, none, some, ltb, ◌==◌, if◌then◌else◌,
}

pub record TernaryEntry (V : Type 0) : Type 0 where
  pub mask : ℕ → ℕ
  pub key : ℕ → ℕ
  pub value : V

pub record TernaryTable (V : Type 0) : Type 0 where
  pub entries : ℕ → TernaryEntry V
  pub keylen : ℕ
  pub size : ℕ

module _ {V : Type 0} where
  -- `entries` is what the memory from `malloc` holds.
  unfoldable pub naive_ternary_create : ℕ → (ℕ → TernaryEntry V) → TernaryTable V
  naive_ternary_create keylen entries = record { entries = entries; keylen = keylen; size = 0 }

  -- `old` is what the memory for the copies of key and mask holds.
  unfoldable pub naive_ternary_add :
      TernaryTable V → (ℕ → ℕ) → (ℕ → ℕ) → V → (ℕ → ℕ) → TernaryTable V
  naive_ternary_add t key mask value old =
      let e : TernaryEntry V = record {
        mask = λ j. if ltb j t.keylen then mask j else old j;
        key = λ j. if ltb j t.keylen then key j else old j;
        value = value;
      } in
      record t {
        entries = λ i. if i == t.size then e else t.entries i;
        size = (t.size + 1) % 2 ^ 8;
      }

  -- The loop over the bytes, with the rounds left and `j` as it stands.
  unfoldable pub matches_from : TernaryEntry V → (ℕ → ℕ) → ℕ → ℕ → Bool
  matches_from e key zero j = true
  matches_from e key (suc n) j =
      let rest = matches_from e key n (j + 1) in
      if e.key j == bit_and (key j) (e.mask j) then rest else false

  -- The loop over the entries, with the rounds left, and `i`, `match` and `res` as they stand.
  unfoldable pub lookup_loop :
      TernaryTable V
      → (ℕ → ℕ)
      → ℕ
      → ℕ
      → Bool
      → Option (TernaryEntry V)
      → Bool × Option (TernaryEntry V)
  unfolding matches_from
  lookup_loop t key zero i matched res = (matched, res)
  lookup_loop t key (suc n) i matched res =
      let e = t.entries i in
      let matched' = matches_from e key t.keylen 0 in
      lookup_loop t key n (i + 1) matched' (if matched' then some e else res)

  -- The outer `none` is the fault of `res->value` for a `res` that is NULL, the inner one is NULL.
  unfoldable pub naive_ternary_lookup : TernaryTable V → (ℕ → ℕ) → Option (Option V)
  unfolding lookup_loop
  naive_ternary_lookup t key =
      let (matched, res) = lookup_loop t key t.size 0 true none in
      if matched then elim res [ none ↦ none | some e ↦ some (some e.value) ] else some none

  -- What the lookup gives for the last entry, `e`.
  abbrev pub last_entry : TernaryTable V → (ℕ → ℕ) → TernaryEntry V → Option V
  last_entry t key e = if matches_from e key t.keylen 0 then some e.value else none

  finished : Bool × Option (TernaryEntry V) → Option (Option V)
  finished (matched, res) =
      if matched then elim res [ none ↦ none | some e ↦ some (some e.value) ] else some none

  lookup_loop_one :
      (t : TernaryTable V) (key : ℕ → ℕ) (i : ℕ) (matched : Bool) (res : Option (TernaryEntry V))
      → finished (lookup_loop t key 1 i matched res) ≡ some (last_entry t key (t.entries i))
  unfolding lookup_loop finished
  lookup_loop_one t key i matched res =
      elim (Bool-cases (matches_from (t.entries i) key t.keylen 0)) [
        | inl hit ↦ rw hit
        | inr miss ↦ rw miss
      ]

  lookup_loop_last :
      (t : TernaryTable V) (key : ℕ → ℕ) (n i k : ℕ) (matched : Bool)
      (res : Option (TernaryEntry V))
      → i + n ≡ k
      → finished (lookup_loop t key (suc n) i matched res) ≡ some (last_entry t key (t.entries k))
  unfolding lookup_loop
  lookup_loop_last t key zero i k matched res q =
      lookup_loop_one t key i matched res
      ∙ ap (λ j. some (last_entry t key (t.entries j))) (omega arith)
  lookup_loop_last t key (suc n) i k matched res q =
      let e = t.entries i in
      let hit = matches_from e key t.keylen 0 in
      lookup_loop_last t key n (i + 1) k hit (if hit then some e else res) (omega arith)

  lookup_rounds :
      (t : TernaryTable V) (key : ℕ → ℕ) (n : ℕ)
      → 0 < n
      → finished (lookup_loop t key n 0 true none) ≡ some (last_entry t key (t.entries (n - 1)))
  lookup_rounds t key zero h = absurd (omega arith)
  lookup_rounds t key (suc n) h = lookup_loop_last t key n 0 (suc n - 1) true none (omega arith)

  -- In a table that is not empty, the lookup ends without a fault and looks at the last entry only:
  -- it returns the value of that entry if the key matches it, and NULL if not, whatever the other
  -- entries are.
  pub naive_ternary_lookup-last :
      (t : TernaryTable V) (key : ℕ → ℕ)
      → 0 < t.size
      → naive_ternary_lookup t key ≡ some (last_entry t key (t.entries (t.size - 1)))
  unfolding naive_ternary_lookup finished
  naive_ternary_lookup-last t key h = lookup_rounds t key t.size h
