-- ===== src/Delivery/Views.antt =====
-- What the controllers mean to say: a table entry with one match, or a default action.
use Prim.Native.String.{String}
use macsad.Prelude.{ℕ, List, [], ◌∷◌}
use macsad.Memory.{codes}
use macsad.View.{View, Field}

abbrev pub exact : String → ℕ → List ℕ → Field
exact name bits bytes = record { name = codes name; kind = 0; bits = bits; bytes = bytes }

abbrev pub lpm : String → ℕ → List ℕ → Field
lpm name prefix bytes = record { name = codes name; kind = 2; bits = prefix; bytes = bytes }

abbrev pub param : String → ℕ → List ℕ → Field
param name bits bytes = record { name = codes name; kind = 0; bits = bits; bytes = bytes }

abbrev pub entry : String → Field → String → List Field → View
entry table match action params = record {
  type = 104;
  xid = 0;
  table = codes table;
  matches = match ∷ [];
  action_type = 0;
  action = codes action;
  params = params;
}

abbrev pub default : String → String → List Field → View
default table action params = record {
  type = 103;
  xid = 0;
  table = codes table;
  matches = [];
  action_type = 0;
  action = codes action;
  params = params;
}
