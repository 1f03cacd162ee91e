-- ===== src/Export/Tests.antt =====
-- The theorem on backend/app/export for four rows and one group of three, with room for one exclusion.
use ai_data_operations_emplo.Prelude.{◌+◌, ◌≡◌, List, [], ◌∷◌, map, length, take}
use ai_data_operations_emplo.Prelude.Texts.{Text, codes}
use ai_data_operations_emplo.Export.Engine.{
  ExportLimits, GroupInput, MaterializeResult, materialize,
}
use ai_data_operations_emplo.Export.Materialize.{survivors, excluded_indices, materialize_lem}

abbrev rows : List (List Text)
rows = (codes "a" ∷ []) ∷ (codes "b" ∷ []) ∷ (codes "a" ∷ []) ∷ (codes "a" ∷ []) ∷ []

abbrev headers : List Text
headers = codes "name" ∷ []

abbrev groups : List GroupInput
groups =
    record {
      match_group_id = 1;
      canonical_row_index = 0;
      record_count = 3;
      member_row_indices = 0 ∷ 2 ∷ 3 ∷ [];
    }
    ∷ []

abbrev limits : ExportLimits
limits = record { max_persisted_exclusions = 1 }

abbrev result : MaterializeResult
result = materialize rows headers groups limits

materialize_example :
    (result.output_rows ≡ survivors groups 0 rows)
    × (result.row_count + result.excluded_row_count ≡ length rows)
    × (result.excluded_row_count ≡ length (excluded_indices groups 0 rows))
    × (map (λ x. x.row_index) result.exclusions
        ≡ take limits.max_persisted_exclusions (excluded_indices groups 0 rows))
    × (result.output_column_count ≡ length headers + 2)
materialize_example = materialize_lem rows headers groups limits
