-- ===== src/QuickActions/RangeStore.antt =====
-- src/ulsp/controller/quick-actions/range_store.go: code actions and lenses of the documents of each
-- session, by range, and the versions that they were computed for. `sort.Slice` is a parameter.
pub mod Matching
pub mod Versions
mod Examples
use Prim.Native.Nat.{Ordering}
use Prim.Native.String.{compare}
use scip_lsp.Common.{
  ℕ, String, Option, none, some, List, [], ◌∷◌, ◌++◌, Bool, true, false, not, ◌&&◌, ◌||◌, ltb, ◌≡◌,
  ◌↔◌, arith, ◌==◌, Key, number_key, string_key, if◌then◌else◌, Dict, get, put, remove,
}
use scip_lsp.Common.Int.{ℤ, leb_ℤ}
use scip_lsp.TextOffset.{Position}
use scip_lsp.Edits.{Range}

unfoldable pub same_range : Range → Range → Bool
same_range a b =
    (a.start.line == b.start.line && a.start.character == b.start.character)
    && (a.end.line == b.end.line && a.end.character == b.end.character)

pub same_range_iff : (a b : Range) → (same_range a b ≡ true) ↔ (a ≡ b)
unfolding same_range
same_range_iff a b = ground (
  arith,
  number_key.same_iff a.start.line b.start.line,
  number_key.same_iff a.start.character b.start.character,
  number_key.same_iff a.end.line b.end.line,
  number_key.same_iff a.end.character b.end.character,
)

instance abbrev pub range_key : Key Range
range_key = record { same = same_range; same_iff = same_range_iff }

-- protocol.CodeAction, with the name of its command, if any
pub record CodeAction : Type 0 where
  pub title : String
  pub command : Option String

-- protocol.CodeLens
pub record CodeLens : Type 0 where
  pub range : Range
  pub command : Option String

abbrev pub ByRange : Type 0
ByRange = Dict Range (List CodeAction)

pub record ActionRangeStore : Type 0 where
  pub actions : Dict String (Dict String ByRange)
  pub code_lenses : Dict String (Dict String (List CodeLens))
  pub versions : Dict String (Dict String ℤ)

abbrev pub new_action_range_store : ActionRangeStore
new_action_range_store = record { actions = []; code_lenses = []; versions = [] }

-- a map or list that is missing is empty
abbrev pub or_empty {ℓ} : {A : Type ℓ} → Option (List A) → List A
or_empty none = []
or_empty (some m) = m

-- `delete(m[s], document)`, which does nothing on a map that is nil
abbrev pub remove_in {ℓ} :
    {A : Type ℓ} → String → String → Dict String (Dict String A) → Dict String (Dict String A)
remove_in s document m = elim (get s m) [ none ↦ m | some docs ↦ put s (remove document docs) m ]

unfoldable pub set_version : ActionRangeStore → String → String → ℤ → Bool × ActionRangeStore
set_version a s document target =
    let docs = or_empty (get s a.versions) in
    let refused : Bool × ActionRangeStore =
      (false, record a { versions = put s docs a.versions }) in
    let accepted : Bool × ActionRangeStore =
      (true, record a { versions = put s (put document target docs) a.versions }) in
    elim (get document docs) [
      | none ↦ accepted
      | some current ↦ if leb_ℤ target current then refused else accepted
    ]

-- the versions of the session, made if there are none
abbrev pub with_versions : String → ActionRangeStore → Dict String (Dict String ℤ)
with_versions s a = put s (or_empty (get s a.versions)) a.versions

unfoldable pub add_code_action :
    ActionRangeStore → String → String → Range → CodeAction → ActionRangeStore
add_code_action a s document range action =
    let docs = or_empty (get s a.actions) in
    let ranges = or_empty (get document docs) in
    let added = or_empty (get range ranges) ++ (action ∷ []) in
    record a {
      actions = put s (put document (put range added ranges) docs) a.actions;
      versions = with_versions s a;
    }

unfoldable pub add_code_lens : ActionRangeStore → String → String → CodeLens → ActionRangeStore
add_code_lens a s document lens =
    let docs = or_empty (get s a.code_lenses) in
    record a {
      code_lenses =
          put s (put document (or_empty (get document docs) ++ (lens ∷ [])) docs) a.code_lenses;
      versions = with_versions s a;
    }

unfoldable pub delete_existing_document_ranges :
    ActionRangeStore → String → String → ActionRangeStore
delete_existing_document_ranges a s document = record a {
  actions = remove_in s document a.actions;
  code_lenses = remove_in s document a.code_lenses;
}

unfoldable pub clear_document : ActionRangeStore → String → String → ActionRangeStore
clear_document a s document = record {
  actions = remove_in s document a.actions;
  code_lenses = remove_in s document a.code_lenses;
  versions = remove_in s document a.versions;
}

unfoldable pub delete_session : ActionRangeStore → String → ActionRangeStore
delete_session a s = record a { actions = remove s a.actions; code_lenses = remove s a.code_lenses }

-- `!(actionRange.End.Line < searchRange.Start.Line || actionRange.Start.Line > searchRange.End.Line)`
abbrev pub is_line_overlapping : Range → Range → Bool
is_line_overlapping range search =
    not (ltb range.end.line search.start.line || ltb search.end.line range.start.line)

-- the loop of `GetMatchingCodeActions`
unfoldable pub collect : Range → ByRange → List CodeAction
collect search [] = []
collect search ((range, actions) ∷ ranges) =
    let rest = collect search ranges in
    if is_line_overlapping range search then actions ++ rest else rest

-- `a < b` and `a <= b` of strings
abbrev pub string_lt : String → String → Bool
string_lt a b = elim (compare a b) [ Ordering.lt ↦ true | _ ↦ false ]

abbrev pub string_le : String → String → Bool
string_le a b = elim (compare a b) [ Ordering.gt ↦ false | _ ↦ true ]

unfoldable pub compare_code_actions : CodeAction → CodeAction → Bool
compare_code_actions a b = elim a.command [
  | none ↦ elim b.command [ none ↦ string_lt a.title b.title | some _ ↦ false ]
  | some first ↦ elim b.command [
    | none ↦ string_lt a.title b.title
    | some second ↦ if first == second then string_le a.title b.title else string_le first second
  ]
]

unfoldable pub get_matching_code_actions :
    ((CodeAction → CodeAction → Bool) → List CodeAction → List CodeAction)
    → ActionRangeStore
    → String
    → String
    → Range
    → List CodeAction
unfolding collect
get_matching_code_actions sort a s document search = elim (get s a.actions) [
  | none ↦ []
  | some docs ↦ elim (get document docs) [
    | none ↦ []
    | some ranges ↦ sort compare_code_actions (collect search ranges)
  ]
]

unfoldable pub get_code_lenses : ActionRangeStore → String → String → List CodeLens
get_code_lenses a s document = or_empty (get document (or_empty (get s a.code_lenses)))
