-- ===== src/Diagnostics/Examples.antt =====
-- One session in a workspace, and one that is in none.
use scip_lsp.Common.{ℕ, some, List, [], ◌∷◌, ◌≡◌, string_key, get}
use scip_lsp.Sessions.{Repository, uuid_to_session, session_to_model, get_session}
use scip_lsp.Diagnostics.History.{Request, applies, starts, ends, find, run, find-run}

abbrev sessions : Repository ℕ ℕ
sessions =
    ("b", session_to_model (record (uuid_to_session "b" (some 2)) { workspace_root = "/repo" }))
    ∷ ("a", session_to_model (uuid_to_session "a" (some 1)))
    ∷ []

abbrev requests : List (Request ℕ ℕ ℕ)
requests =
    starts (some "b") sessions
    ∷ applies sessions "/repo" "A.java" (1 ∷ [])
    ∷ applies sessions "/repo" "A.java" (2 ∷ 3 ∷ [])
    ∷ ends "a"
    ∷ []

find-run_example : find "b" "A.java" (run requests []) ≡ some (2 ∷ 3 ∷ [])
unfolding get_session get
find-run_example = find-run requests "b" "A.java" []
