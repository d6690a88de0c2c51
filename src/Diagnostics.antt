-- ===== src/Diagnostics.antt =====
-- src/ulsp/controller/diagnostics/diagnostics.go: the diagnostics of each session by document, and what is
-- published of them. A diagnostic D is the protocol package's, and no pointer to one is nil. What the gateway
-- returns is only logged. The counters are left out.
pub mod History
mod Examples
use scip_lsp.Common.{
  String, Option, none, some, List, [], ◌∷◌, Dict, get, put, remove, string_key, ◌⊎◌, inl, inr,
}
use scip_lsp.Sessions.{
  Session, SessionError, Repository, get_from_context, get_all_from_workspace_root,
}

abbrev pub DiagnosticStore : Type 0 → Type 0
DiagnosticStore D = Dict String (Dict String (List D))

-- one call of `PublishDiagnostics`, and the session of its context
pub record Published (D : Type 0) : Type 0 where
  pub session : String
  pub uri : String
  pub diagnostics : List D

module _ {D : Type 0} where
  -- the map of a session, which is made if there is none
  abbrev pub of_session : Option (Dict String (List D)) → Dict String (List D)
  of_session none = []
  of_session (some m) = m

  unfoldable pub write_diagnostics :
      String → String → List D → DiagnosticStore D → DiagnosticStore D
  write_diagnostics id doc ds store = put id (put doc ds (of_session (get id store))) store

  unfoldable pub dispose_session : String → DiagnosticStore D → DiagnosticStore D
  dispose_session id store = remove id store

  module _ {C : Type 0} {P : Type 0} where
    -- the loop over the sessions
    unfoldable pub apply_to :
        List (Session C P)
        → String
        → List D
        → DiagnosticStore D
        → DiagnosticStore D × List (Published D)
    apply_to [] doc ds store = (store, [])
    apply_to (s ∷ ss) doc ds store =
        let rest = apply_to ss doc ds (write_diagnostics s.uuid doc ds store) in
        (rest.0, record { session = s.uuid; uri = doc; diagnostics = ds } ∷ rest.1)

    unfoldable pub apply_diagnostics :
        Repository C P
        → String
        → String
        → List D
        → DiagnosticStore D
        → DiagnosticStore D × List (Published D)
    apply_diagnostics sessions root doc ds store =
        apply_to (get_all_from_workspace_root root sessions) doc ds store

    -- The context's session starts with no diagnostics.
    unfoldable pub initialize :
        Option String → Repository C P → DiagnosticStore D → SessionError ⊎ DiagnosticStore D
    initialize ctx sessions store = elim (get_from_context ctx sessions) [
      | inl e ↦ inl e
      | inr s ↦ inr (put s.uuid [] store)
    ]

    unfoldable pub shutdown :
        Option String → Repository C P → DiagnosticStore D → SessionError ⊎ DiagnosticStore D
    shutdown ctx sessions store = elim (get_from_context ctx sessions) [
      | inl e ↦ inl e
      | inr s ↦ inr (dispose_session s.uuid store)
    ]

  unfoldable pub end_session : String → DiagnosticStore D → DiagnosticStore D
  end_session id store = dispose_session id store
