-- ===== src/View.antt =====
-- What a decoded control message says: the values behind the pointers of `struct p4_ctrl_msg`.
use macsad.Prelude.{ℕ, zero, suc, ◌+◌, ◌/◌, true, false, List, [], ◌∷◌, ◌==◌}
use macsad.Memory.{Mem, Ptr, load16, load32, read_bytes}
use macsad.Messages.Layout
use macsad.Handlers.{CtrlMsg}

-- A C string in an array of `n` characters.
unfoldable pub c_string : ℕ → Mem → Ptr → List ℕ
c_string zero m p = []
c_string (suc n) m p = elim (m p == 0) [ true ↦ [] | false ↦ m p ∷ c_string n m (p + 1) ]

-- A match or a parameter: its name, its kind (0 for a parameter), its length in bits, its bytes.
pub record Field : Type 0 where
  pub name : List ℕ
  pub kind : ℕ
  pub bits : ℕ
  pub bytes : List ℕ

pub record View : Type 0 where
  pub type : ℕ
  pub xid : ℕ
  pub table : List ℕ
  pub matches : List Field
  pub action_type : ℕ
  pub action : List ℕ
  pub params : List Field

unfoldable pub param_at : Mem → Ptr → Field
unfolding c_string load32 read_bytes
param_at m p =
    let bits = load32 m (Layout.Param.len p) in
    record {
      name = c_string 128 m (Layout.Param.name p);
      kind = 0;
      bits = bits;
      bytes = read_bytes m (Layout.Param.bitmap p) (bits / 8);
    }

-- A match of a struct with one bitmap, exact or lpm; of an lpm match the whole key of `n` bytes
-- is read, since the length is that of the prefix.
unfoldable pub match_at : (ℕ → ℕ) → Mem → Ptr → Field
unfolding c_string load16 read_bytes
match_at key_bytes m f =
    let bits = load16 m (Layout.Match.len f) in
    record {
      name = c_string 128 m (Layout.Match.name f);
      kind = m (Layout.Match.type f);
      bits = bits;
      bytes = read_bytes m (Layout.Match.bitmap f) (key_bytes bits);
    }

-- The first `n` entries of an array of pointers, from index `i`.
unfoldable pub fields_at : (Ptr → Field) → (ℕ → Ptr) → ℕ → ℕ → List Field
fields_at field ps i zero = []
fields_at field ps i (suc n) = field (ps i) ∷ fields_at field ps (i + 1) n

-- The matches of a default action message are not set, so their number is given.
unfoldable pub view : (ℕ → ℕ) → ℕ → Mem → CtrlMsg → View
unfolding fields_at match_at param_at
view key_bytes matches m c = record {
  type = c.type;
  xid = c.xid;
  table = c_string 128 m c.table_name;
  matches = fields_at (match_at key_bytes m) c.field_matches 0 matches;
  action_type = c.action_type;
  action = c_string 128 m c.action_name;
  params = fields_at (param_at m) c.action_params 0 c.num_action_params;
}
