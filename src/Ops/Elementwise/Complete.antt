-- ===== src/Ops/Elementwise/Complete.antt =====
-- The tables against the names that `apply` looks up in them.
use nx_tinygrad.Base.{String, ◌≡◌, refl, true, some, List, [], ◌∷◌, str_eq, Bool-cases, inl, inr}
use nx_tinygrad.Validate.SubGraph.{listed, unary_ops, binary_ops, comparison_ops}
use nx_tinygrad.Ops.Elementwise.{
  Calls, Table, table_entry, unary_table, binary_table, comparison_table,
}

abbrev names : {F : Type 0} → Table F → List String
names [] = []
names ((name, f) ∷ table) = name ∷ names table

module _ {T : Type 0} (calls : Calls T) where
  unary_names : names (unary_table calls) ≡ unary_ops
  unary_names = refl

  binary_names : names (binary_table calls) ≡ binary_ops
  binary_names = refl

  comparison_names : names (comparison_table calls) ≡ comparison_ops
  comparison_names = refl

-- A name that is listed has an entry.
table_entry-listed :
    {F : Type 0} (op : String) (table : Table F)
    → listed (names table) op ≡ true
    → (f : F) × (table_entry op table ≡ some f)
unfolding table_entry listed
table_entry-listed op [] h = cc
table_entry-listed op ((name, f) ∷ table) h = elim (Bool-cases (str_eq name op)) [
  | inl same ↦ (f, rw (table_entry, same) refl)
  | inr other ↦
      let (g, found) = table_entry-listed op table (rw other at h) in
      (g, rw (table_entry, other) found)
]

module _ {T : Type 0} (calls : Calls T) where
  -- Each operation that `apply` finds in a table is there.
  pub table_entry_unary :
      (op : String)
      → listed unary_ops op ≡ true
      → (f : (T → T)) × (table_entry op (unary_table calls) ≡ some f)
  table_entry_unary op h = table_entry-listed op (unary_table calls) h

  pub table_entry_binary :
      (op : String)
      → listed binary_ops op ≡ true
      → (f : (T → T → T)) × (table_entry op (binary_table calls) ≡ some f)
  table_entry_binary op h = table_entry-listed op (binary_table calls) h

  pub table_entry_comparison :
      (op : String)
      → listed comparison_ops op ≡ true
      → (f : (T → T → T)) × (table_entry op (comparison_table calls) ≡ some f)
  table_entry_comparison op h = table_entry-listed op (comparison_table calls) h
