-- ===== src/Scip.antt =====
-- src/ulsp/controller/scip/scip.go: positions between the open text of a document and the text that its
-- index was made of, and the requests that ask a registry. `position_mapper` is the reply of
-- GetPositionMapper of src/ulsp/controller/doc-sync for a document of the session.
pub mod Requests
pub mod Origins
pub mod Mapped
pub mod Loading
pub mod Examples
use scip_lsp.Common.{
  String, Option, none, some, Bool, true, false, List, [], ◌∷◌, ◌++◌, if◌then◌else◌, ◌⊎◌, inl, inr,
}
use scip_lsp.TextOffset.{Position}
use scip_lsp.Edits.{Range}
use scip_lsp.PositionMapping.{
  PositionMapper, MapError, map_current_position_to_base, map_base_position_to_current,
}
use scip_lsp.DocSync.Entries.{SyncError}
use scip_lsp.Registry.{RegistryError}
use scip_lsp.Sessions.{SessionError}

pub data ScipError : Type 0 where
  session_error : SessionError → ScipError
  mapper_error : SyncError → ScipError
  map_error : MapError → ScipError
  registry_error : RegistryError → ScipError
  nil_result : ScipError

abbrev pub Mappers : Type 0
Mappers = String → SyncError ⊎ Option PositionMapper

-- none is the nil position: the document is not open, or the position is in new text
unfoldable pub get_base_position : Mappers → String → Position → ScipError ⊎ Option Position
get_base_position position_mapper uri p = elim (position_mapper uri) [
  | inl e ↦ inl (mapper_error e)
  | inr none ↦ inr none
  | inr (some m) ↦
      let mapped = map_current_position_to_base m p in
      elim mapped.error [
        | some e ↦ inl (map_error e)
        | none ↦ if mapped.deleted then inr none else inr (some mapped.position)
      ]
]

unfoldable pub get_latest_position : Mappers → String → Position → ScipError ⊎ Position
get_latest_position position_mapper uri p = elim (position_mapper uri) [
  | inl e ↦ inl (mapper_error e)
  | inr none ↦ inr p
  | inr (some m) ↦
      let (latest, error) = map_base_position_to_current m p in
      elim error [ some e ↦ inl (map_error e) | none ↦ inr latest ]
]

unfoldable pub get_latest_range : Mappers → String → Range → Range
get_latest_range position_mapper uri r = elim (get_latest_position position_mapper uri r.start) [
  | inl e ↦ r
  | inr latest_start ↦ elim (get_latest_position position_mapper uri r.end) [
    | inl e ↦ r
    | inr latest_end ↦ record { start = latest_start; end = latest_end }
  ]
]
