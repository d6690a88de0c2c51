-- ===== src/Daemon/Lifecycle.antt =====
-- src/ulsp/controller/ulsp-daemon/methods_lifecycle.go: how a session begins and ends, and the idle
-- timer. `notified` is what a plugin does at a call, on its own state W; the messages to the user and
-- the logger are left out.
pub mod Start
use scip_lsp.Common.{
  ℕ, String, Option, none, some, Bool, true, false, List, [], ◌∷◌, ◌++◌, Dict, get, put, remove,
  Key, string_key, number_key, ◌==◌, if◌then◌else◌, ◌⊎◌, inl, inr,
}
use scip_lsp.Plugins.Names.{
  Method, Field, exit, shutdown, end_session, method_exit, method_shutdown, method_end_session,
}
use scip_lsp.Plugins.{Methods, RuntimePrioritizedMethods}
use scip_lsp.Sessions.{
  Session, SessionError, Repository, get_from_context, set_session, delete_session, session_count,
  uuid_to_session,
}
use scip_lsp.Daemon.{
  Controller, DaemonError, session_error, uuid_error, IdleTimer, no_timer, stopped, running,
  register_client, deregister_client,
}
use scip_lsp.Daemon.Dispatch.{execute_plugin_methods}

-- The first call makes the timer and leaves it running.
abbrev pub refreshed : ℕ → ℕ → IdleTimer → IdleTimer
refreshed sessions timeout no_timer = running timeout
refreshed sessions timeout timer = if sessions == 0 then running timeout else stopped

module _ {C : Type 0} {P : Type 0} {Client : Type 0} where
  unfoldable pub refresh_idle_timer : Controller C P Client → Controller C P Client
  refresh_idle_timer c = record c {
    idle_timer = refreshed (session_count c.sessions) c.idle_timeout_minutes c.idle_timer;
  }

  -- `new_uuid` is what the UUID package returns, or none for its error.
  unfoldable pub init_session :
      (C → Client)
      → Option String
      → C
      → Controller C P Client
      → (DaemonError ⊎ String) × Controller C P Client
  init_session dispatcher none conn c = (inl uuid_error, refresh_idle_timer c)
  init_session dispatcher (some id) conn c =
      let registered = record c {
        ide_gateway = register_client dispatcher id conn c.ide_gateway;
      } in
      elim (set_session (some (uuid_to_session id (some conn))) c.sessions) [
        | inl e ↦ (inl (session_error e), refresh_idle_timer registered)
        | inr sessions ↦ (inr id, refresh_idle_timer (record registered { sessions = sessions }))
      ]

-- what a plugin does when its function is called
abbrev pub Notified : Type 0 → Type 0
Notified W = Field → Methods → W → W

-- one handler for both lists; what it returns is the plugins' state and the started plugins
unfoldable pub notify :
    {W : Type 0}
    → Notified W
    → Method
    → Field
    → Option String
    → Dict String RuntimePrioritizedMethods
    → W
    → DaemonError ⊎ (W × List Methods)
notify {W = W} notified method field ctx plugin_methods w =
    let call : W → Methods → W = λ state m. notified field m state in
    execute_plugin_methods ctx plugin_methods method (some call) (some call) w

-- An error of the call is logged.
abbrev pub or_unchanged : {W : Type 0} → W → DaemonError ⊎ (W × List Methods) → W × List Methods
or_unchanged w (inl e) = (w, [])
or_unchanged w (inr done) = done

module _ {C : Type 0} {P : Type 0} {Client : Type 0} {W : Type 0} where
  unfoldable pub ended :
      Notified W
      → Option String
      → String
      → Controller C P Client
      → W
      → Controller C P Client × (W × List Methods)
  ended notified ctx id c w =
      let without = record c {
        ide_gateway = deregister_client id c.ide_gateway;
        plugin_methods = remove id c.plugin_methods;
        sessions = delete_session id c.sessions;
      } in
      let called : W × List Methods = elim (get id c.plugin_methods) [
        | none ↦ (w, [])
        | some r ↦
            or_unchanged w (notify notified method_end_session end_session ctx c.plugin_methods w)
      ] in
      (refresh_idle_timer without, called)

  -- With a full shutdown the timer, which New has made, is set to run out at once.
  unfoldable pub exited :
      Notified W
      → Option String
      → Controller C P Client
      → W
      → (Option DaemonError × Controller C P Client) × (W × List Methods)
  exited notified ctx c w =
      let (after, begun) =
        or_unchanged w (notify notified method_exit exit ctx c.plugin_methods w) in
      if c.full_shutdown
      then ((none, record c { idle_timer = running 0 }), (after, begun))
      else elim (get_from_context ctx c.sessions) [
        | inl e ↦ ((some (session_error e), c), (after, begun))
        | inr s ↦
            let (closed, (last, more)) = ended notified ctx s.uuid c after in
            ((none, closed), (last, begun ++ more))
      ]

module _ {C : Type 0} {P : Type 0} {Client : Type 0} where
  abbrev pub request_full_shutdown : Controller C P Client → Controller C P Client
  request_full_shutdown c = record c { full_shutdown = true }
