-- ===== src/PositionMapping.antt =====
-- src/ulsp/controller/doc-sync/position_mapper.go: positions of one version of a document in
-- another. The diffs are made by the diffmatchpatch package: `diff_main` is a parameter.
pub mod Index
pub mod Deleted
pub mod Maps
mod Examples
use scip_lsp.Common.{
  ℕ, ◌+◌, ◌-◌, Option, none, some, List, [], ◌∷◌, Bool, true, false, ◌&&◌, ltb, ◌==◌, number_key,
  if◌then◌else◌, length,
}
use scip_lsp.Edits.{Diff, DiffType, delete, insert, equal}
use scip_lsp.TextOffset.{Position, Error, ok, err, position_offset, offset_position}

-- the length of a diff in the source text, and in the target text
abbrev pub source_length : Diff → ℕ
source_length d = elim d.type [ insert ↦ 0 | delete ↦ length d.text | equal ↦ length d.text ]

abbrev pub target_length : Diff → ℕ
target_length d = elim d.type [ delete ↦ 0 | insert ↦ length d.text | equal ↦ length d.text ]

-- the result where the loop breaks off at a diff
abbrev pub at_diff : DiffType → ℕ → ℕ → ℕ → ℕ × Bool
at_diff delete last1 last2 loc = (last2, true)
at_diff insert last1 last2 loc = (last2 + (loc - last1), false)
at_diff equal last1 last2 loc = (last2 + (loc - last1), false)

-- the loop of `diffXIndex`, from the offsets `lastChars1` and `lastChars2` on
unfoldable pub x_index_from : ℕ → ℕ → List Diff → ℕ → ℕ × Bool
x_index_from last1 last2 [] loc = at_diff equal last1 last2 loc
x_index_from last1 last2 (d ∷ ds) loc =
    let rest = x_index_from (last1 + source_length d) (last2 + target_length d) ds loc in
    if ltb loc (last1 + source_length d) then at_diff d.type last1 last2 loc else rest

unfoldable pub diff_x_index : List Diff → ℕ → ℕ × Bool
unfolding x_index_from
diff_x_index diffs loc = x_index_from 0 0 diffs loc

-- `baseText == updatedText`
unfoldable pub same_text : List ℕ → List ℕ → Bool
same_text [] [] = true
same_text [] (b ∷ bs) = false
same_text (a ∷ rest) [] = false
same_text (a ∷ rest) (b ∷ bs) = a == b && same_text rest bs

-- the two offset mappers are the texts that they are made of, or nil
pub record PositionMapper : Type 0 where
  pub modified : Bool
  pub base_text : Option (List ℕ)
  pub updated_text : Option (List ℕ)
  pub forward_diffs : List Diff
  pub reverse_diffs : List Diff

unfoldable pub new_position_mapper :
    (List ℕ → List ℕ → List Diff) → List ℕ → List ℕ → PositionMapper
new_position_mapper diff_main base updated =
    if same_text base updated
    then record {
      modified = false;
      base_text = none;
      updated_text = none;
      forward_diffs = [];
      reverse_diffs = [];
    }
    else record {
      modified = true;
      base_text = some base;
      updated_text = some updated;
      forward_diffs = diff_main base updated;
      reverse_diffs = diff_main updated base;
    }

pub data MapError : Type 0 where
  not_initialized : MapError
  offset_error : Error → MapError

-- the three results of `mapPosition`
pub record Mapped : Type 0 where
  pub position : Position
  pub deleted : Bool
  pub error : Option MapError

-- the part of `mapPosition` after the choice of the direction
unfoldable pub map_between : List ℕ → List ℕ → List Diff → Position → Mapped
map_between source target diffs p = elim (position_offset source p) [
  | err e ↦ record { position = p; deleted = false; error = some (offset_error e) }
  | ok offset ↦
      let shifted = diff_x_index diffs offset in
      elim (offset_position target shifted.0) [
        | err e ↦ record { position = p; deleted = shifted.1; error = some (offset_error e) }
        | ok q ↦ record { position = q; deleted = shifted.1; error = none }
      ]
]

unfoldable pub map_position : PositionMapper → Position → Bool → Mapped
unfolding map_between
map_position m p reverse =
    let uninitialized : Mapped = record {
      position = p;
      deleted = false;
      error = some not_initialized;
    } in
    if m.modified
    then elim m.base_text [
      | none ↦ uninitialized
      | some base ↦ elim m.updated_text [
        | none ↦ uninitialized
        | some updated ↦
            if reverse
            then map_between updated base m.reverse_diffs p
            else map_between base updated m.forward_diffs p
      ]
    ]
    else record { position = p; deleted = false; error = none }

unfoldable pub map_current_position_to_base : PositionMapper → Position → Mapped
map_current_position_to_base m p = map_position m p true

-- the flag is dropped
unfoldable pub map_base_position_to_current : PositionMapper → Position → Position × Option MapError
map_base_position_to_current m p = let r = map_position m p false in (r.position, r.error)
