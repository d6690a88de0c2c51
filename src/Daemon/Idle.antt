-- ===== src/Daemon/Idle.antt =====
-- The idle timer of src/ulsp/controller/ulsp-daemon as a state machine: the controller that New makes,
-- and the requests that change its sessions.
pub mod Steps
pub mod Ending
use scip_lsp.Common.{
  ℕ, String, Option, none, some, Bool, true, false, List, [], ◌∷◌, Dict, Key, number_key, ◌==◌, ◌≡◌,
  refl, ◌&&◌, ◌||◌, not, size,
}
use scip_lsp.Sessions.{Repository}
use scip_lsp.Sessions.Laws.{Keyed}
use scip_lsp.Daemon.{Controller, IdleTimer, no_timer, stopped, running, Plugin}
use scip_lsp.Daemon.Lifecycle.{
  Notified, init_session, ended, exited, request_full_shutdown, refresh_idle_timer,
}
use scip_lsp.Daemon.Lifecycle.Start.{Workspace, prepared}

-- the code outside of the controller: the clients, the workspace utilities and the plugins
pub record Surroundings (C : Type 0) (P : Type 0) (Client : Type 0) (W : Type 0) : Type 0 where
  pub dispatcher : C → Client
  pub utils : Workspace P
  pub notified : Notified W

module _ {C : Type 0} {P : Type 0} {Client : Type 0} where
  unfoldable pub new : ℕ → Dict String Bool → List Plugin → Controller C P Client
  new timeout config plugins = refresh_idle_timer record {
    sessions = [];
    ide_gateway = record { clients = []; connections = [] };
    full_shutdown = false;
    idle_timer = no_timer;
    idle_timeout_minutes = timeout;
    plugin_methods = [];
    plugin_config = config;
    plugins_all = plugins;
  }

pub data Step {C P Client W : Type 0} (around : Surroundings C P Client W)
    : Controller C P Client → Controller C P Client → Type 0 where
  begins :
      {c : Controller C P Client} (id : Option String) (conn : C)
      → Step around c (init_session around.dispatcher id conn c).1
  initializes :
      {c : Controller C P Client} (ctx : Option String) (params : P)
      → Step around c (prepared around.utils ctx params c).1
  ends :
      {c : Controller C P Client} (ctx : Option String) (id : String) (w : W)
      → Step around c (ended around.notified ctx id c w).0
  exits :
      {c : Controller C P Client} (ctx : Option String) (w : W)
      → Step around c (exited around.notified ctx c w).0.1
  requests_full_shutdown : {c : Controller C P Client} → Step around c (request_full_shutdown c)

pub data Reachable {C P Client W : Type 0} (around : Surroundings C P Client W)
    : Controller C P Client → Type 0 where
  made :
      (timeout : ℕ) (config : Dict String Bool) (plugins : List Plugin)
      → Reachable around (new timeout config plugins)
  next : {c d : Controller C P Client} → Reachable around c → Step around c d → Reachable around d

-- The timer runs, for the whole timeout, when there is no session, and is stopped when there is one,
-- unless a full shutdown was requested, which lets it run out at once.
abbrev pub timer_fits : (sessions timeout : ℕ) → Bool → IdleTimer → Bool
timer_fits sessions timeout full no_timer = false
timer_fits sessions timeout full stopped = not (sessions == 0)
timer_fits sessions timeout full (running minutes) = sessions == 0 && minutes == timeout || full

module _ {C : Type 0} {P : Type 0} {Client : Type 0} where
  unfoldable pub IsKept : Controller C P Client → Type 0
  IsKept c =
      Keyed c.sessions
      × (timer_fits (size c.sessions) c.idle_timeout_minutes c.full_shutdown c.idle_timer ≡ true)
