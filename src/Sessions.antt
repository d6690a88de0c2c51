-- ===== src/Sessions.antt =====
-- src/ulsp/repository/session/session.go with the types and mappers of src/ulsp/entity/ulsp_daemon.go,
-- src/ulsp/model/ulsp_daemon.go and src/ulsp/mapper/ulsp_daemon.go. C is the connection of the JSON-RPC
-- package, P the parameters of the protocol package; a UUID is its text; the gauge is left out.
pub mod Laws
pub mod Examples
use scip_lsp.Common.{
  ℕ, String, Option, none, some, Bool, true, List, [], ◌∷◌, Dict, get, put, remove, size, Key,
  string_key, ◌==◌, if◌then◌else◌, ◌⊎◌, inl, inr,
}

pub record Session (C : Type 0) (P : Type 0) : Type 0 where
  pub uuid : String
  pub initialize_params : Option P
  pub conn : Option C
  pub workspace_root : String
  pub monorepo : String
  pub env : List String
  pub ulsp_enabled : Bool

pub record SessionModel (C : Type 0) (P : Type 0) : Type 0 where
  pub uuid : String
  pub initialize_params : Option P
  pub conn : Option C
  pub workspace_root : String
  pub monorepo : String
  pub env : List String
  pub ulsp_enabled : Bool

pub data SessionError : Type 0 where
  no_session_found : SessionError
  uuid_not_found : String → SessionError
  nil_session : SessionError

module _ {C : Type 0} {P : Type 0} where
  abbrev pub session_to_model : Session C P → SessionModel C P
  session_to_model f = record {
    uuid = f.uuid;
    initialize_params = f.initialize_params;
    conn = f.conn;
    workspace_root = f.workspace_root;
    monorepo = f.monorepo;
    env = f.env;
    ulsp_enabled = f.ulsp_enabled;
  }

  abbrev pub model_to_session : SessionModel C P → Session C P
  model_to_session f = record {
    uuid = f.uuid;
    initialize_params = f.initialize_params;
    conn = f.conn;
    workspace_root = f.workspace_root;
    monorepo = f.monorepo;
    env = f.env;
    ulsp_enabled = f.ulsp_enabled;
  }

  abbrev pub uuid_to_session : String → Option C → Session C P
  uuid_to_session u c = record {
    uuid = u;
    initialize_params = none;
    conn = c;
    workspace_root = "";
    monorepo = "";
    env = [];
    ulsp_enabled = true;
  }

-- The value that a context holds under the key of sessions.
abbrev pub context_to_session_uuid : Option String → SessionError ⊎ String
context_to_session_uuid none = inl no_session_found
context_to_session_uuid (some id) = inr id

abbrev pub Repository : Type 0 → Type 0 → Type 0
Repository C P = Dict String (SessionModel C P)

module _ {C : Type 0} {P : Type 0} where
  unfoldable pub get_session : String → Repository C P → SessionError ⊎ Session C P
  get_session id r = elim (get id r) [
    | none ↦ inl (uuid_not_found id)
    | some f ↦ inr (model_to_session f)
  ]

  unfoldable pub get_from_context : Option String → Repository C P → SessionError ⊎ Session C P
  get_from_context ctx r = elim (context_to_session_uuid ctx) [
    | inl e ↦ inl e
    | inr id ↦ get_session id r
  ]

  -- none is the nil pointer
  unfoldable pub set_session : Option (Session C P) → Repository C P → SessionError ⊎ Repository C P
  set_session none r = inl nil_session
  set_session (some f) r = inr (put f.uuid (session_to_model f) r)

  unfoldable pub delete_session : String → Repository C P → Repository C P
  delete_session id r = remove id r

  abbrev pub session_count : Repository C P → ℕ
  session_count r = size r

  abbrev pub get_all_from_workspace_root : String → Repository C P → List (Session C P)
  get_all_from_workspace_root root [] = []
  get_all_from_workspace_root root ((id, s) ∷ r) =
      let found = get_all_from_workspace_root root r in
      if s.workspace_root == root then model_to_session s ∷ found else found
