-- ===== src/Sessions/Examples.antt =====
-- Sessions at work: two of them, and a repository that holds one.
use scip_lsp.Common.{ℕ, some, [], ◌∷◌, ◌≡◌, refl, string_key}
use scip_lsp.Sessions.{
  Session, Repository, uuid_to_session, session_to_model, get_all_from_workspace_root,
}

abbrev first_session : Session ℕ ℕ
first_session = uuid_to_session "a" (some 1)

abbrev second_session : Session ℕ ℕ
second_session = record (uuid_to_session "b" (some 2)) { workspace_root = "/repo" }

abbrev stored : Repository ℕ ℕ
stored = ("a", session_to_model first_session) ∷ []

both-roots :
    get_all_from_workspace_root "/repo" (("b", session_to_model second_session) ∷ stored)
    ≡ second_session ∷ []
both-roots = refl
