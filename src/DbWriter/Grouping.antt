-- ===== src/DbWriter/Grouping.antt =====
-- The batch that `_write` groups by table.
use mathlib.Core.List.{append_assoc, append-nil}
use p2p_treker.Prelude.{
  ◌≡◌, refl, sym, inl, inr, String, List, [], ◌∷◌, ◌++◌, Bool-cases, if◌then◌else◌,
}
use p2p_treker.Prelude.Dict.{Dict, lookup_or, string_key, lookup_or-insert, lookup_or_congr}
use p2p_treker.DbWriter.{group_item, group_from}

module _ (Row : Type 0) where
  -- The rows of one table, in the order of the batch.
  pub rows_of : String → List (String × Row) → List Row
  rows_of table [] = []
  rows_of table ((t, row) ∷ batch) =
      if string_key.beq t table then row ∷ rows_of table batch else rows_of table batch

  group_from-rows_of :
      (table : String) (grouped : Dict String (List Row)) (batch : List (String × Row))
      → lookup_or table [] (group_from Row grouped batch)
        ≡ lookup_or table [] grouped ++ rows_of table batch
  unfolding group_from group_item rows_of
  group_from-rows_of table grouped [] = sym (append-nil _)
  group_from-rows_of table grouped ((t, row) ∷ batch) =
      rw
        (
          group_from-rows_of table (group_item Row grouped t row) batch,
          lookup_or-insert t table (lookup_or t [] grouped ++ (row ∷ [])) [] grouped,
        )
        (elim (Bool-cases (string_key.beq t table)) [
          | inl same ↦
              rw (same, lookup_or_congr t table [] grouped same)
                (append_assoc (lookup_or table [] grouped) (row ∷ []) (rows_of table batch))
          | inr other ↦ rw other refl
        ])

  -- Each table gets exactly its rows of the batch, in their order.
  pub grouped_rows :
      (table : String) (batch : List (String × Row))
      → lookup_or table [] (group_from Row [] batch) ≡ rows_of table batch
  grouped_rows table batch = group_from-rows_of table [] batch
