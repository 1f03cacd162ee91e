-- ===== src/Export/Engine.antt =====
-- backend/app/export/engine.py and types.py. A cell is a list of code points.
use ai_data_operations_emplo.Prelude.{
  ℕ, ◌+◌, ◌-◌, Bool, ◌||◌, Option, none, some, List, [], ◌∷◌, ◌++◌, length, ltb, ◌==◌,
  if◌then◌else◌, select,
}
use ai_data_operations_emplo.Prelude.Texts.{Text, text_eq, codes, decimal}

pub record ExportLimits : Type 0 where
  pub max_persisted_exclusions : ℕ

pub record GroupInput : Type 0 where
  pub match_group_id : ℕ
  pub canonical_row_index : ℕ
  pub record_count : ℕ
  pub member_row_indices : List ℕ

-- The text of `reason` is a function of the other fields and of the group's record count.
pub record RowExclusion : Type 0 where
  pub row_index : ℕ
  pub match_group_id : ℕ
  pub canonical_row_index : ℕ
  pub reason : Text

pub record MaterializeResult : Type 0 where
  pub output_headers : List Text
  pub output_rows : List (List Text)
  pub row_count : ℕ
  pub excluded_row_count : ℕ
  pub duplicate_groups_materialized_count : ℕ
  pub exclusions : List RowExclusion
  pub output_column_count : ℕ

abbrev pub reserved_canonical_record_column : Text
reserved_canonical_record_column = codes "__aiops_canonical_record"

abbrev pub reserved_source_row_index_column : Text
reserved_source_row_index_column = codes "__aiops_source_row_index"

abbrev pub reserved_columns : List Text
reserved_columns = reserved_canonical_record_column ∷ reserved_source_row_index_column ∷ []

abbrev is_reserved : Text → Bool
is_reserved h =
    text_eq h reserved_canonical_record_column || text_eq h reserved_source_row_index_column

unfoldable pub find_reserved_column_collisions : List Text → List Text
find_reserved_column_collisions headers = select is_reserved headers

-- `excluded_by_row[member] = group`: the last assignment to a row counts, so the newest is in front.
abbrev pub Excluded : Type 0
Excluded = List (ℕ × GroupInput)

unfoldable pub exclude_members : GroupInput → List ℕ → Excluded → Excluded
exclude_members group [] excluded = excluded
exclude_members group (m ∷ members) excluded =
    exclude_members group members
      (if m == group.canonical_row_index then excluded else (m, group) ∷ excluded)

unfoldable pub exclude_groups : List GroupInput → Excluded → Excluded
exclude_groups [] excluded = excluded
exclude_groups (group ∷ groups) excluded =
    exclude_groups groups (exclude_members group group.member_row_indices excluded)

-- `excluded_by_row.get(row_index)`
unfoldable pub excluded_by : ℕ → Excluded → Option GroupInput
excluded_by i [] = none
excluded_by i ((j, group) ∷ excluded) = if j == i then some group else excluded_by i excluded

unfoldable pub exclusion : ℕ → GroupInput → RowExclusion
exclusion row_index group = record {
  row_index = row_index;
  match_group_id = group.match_group_id;
  canonical_row_index = group.canonical_row_index;
  reason =
      codes "row "
      ++ decimal row_index
      ++ codes " excluded: member of duplicate group (canonical row_index="
      ++ decimal group.canonical_row_index
      ++ codes ", "
      ++ decimal group.record_count
      ++ codes " members)";
}

abbrev pub Output : Type 0
Output = List (List Text) × List RowExclusion

abbrev pub emit : ExportLimits → ℕ → List Text → Option GroupInput → Output → Output
emit limits row_index row none (rows, exclusions) =
    (rows ++ (row ++ codes "True" ∷ decimal row_index ∷ []) ∷ [], exclusions)
emit limits row_index row (some group) (rows, exclusions) = (
  rows,
  if ltb (length exclusions) limits.max_persisted_exclusions
      then exclusions ++ exclusion row_index group ∷ []
      else exclusions,
)

-- The loop over `enumerate(rows)`.
unfoldable pub materialize_loop : ExportLimits → Excluded → ℕ → List (List Text) → Output → Output
materialize_loop limits excluded i [] out = out
materialize_loop limits excluded i (row ∷ rows) out =
    materialize_loop limits excluded (i + 1) rows (emit limits i row (excluded_by i excluded) out)

unfoldable pub materialize :
    List (List Text) → List Text → List GroupInput → ExportLimits → MaterializeResult
materialize rows headers groups limits =
    let (output_rows, exclusions) =
      materialize_loop limits (exclude_groups groups []) 0 rows ([], []) in
    record {
      output_headers = headers ++ reserved_columns;
      output_rows = output_rows;
      row_count = length output_rows;
      excluded_row_count = length rows - length output_rows;
      duplicate_groups_materialized_count = length groups;
      exclusions = exclusions;
      output_column_count = length (headers ++ reserved_columns);
    }
