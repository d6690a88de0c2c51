-- ===== src/Daemon/Idle/Steps.antt =====
-- Every request of src/ulsp/controller/ulsp-daemon keeps the idle timer in line with the sessions.
use scip_lsp.Common.{
  ℕ, String, Option, none, some, Option-cases, Sum-cases, Bool-cases, Bool, true, List, Dict, get,
  string_key, number_key, ◌≡◌, refl, sym, inl, inr, size, arith, subst,
}
use scip_lsp.Sessions.{
  Session, SessionModel, Repository, get_from_context, get_session, set_session, uuid_to_session,
}
use scip_lsp.Sessions.Laws.{Keyed, set_session-Keyed, delete_session-Keyed, size-set_session}
use scip_lsp.Daemon.{
  Controller, IdleTimer, no_timer, stopped, running, Plugin, register_session_plugins,
}
use scip_lsp.Plugins.Names.{exit, method_exit}
use scip_lsp.Plugins.{Methods}
use scip_lsp.Daemon.Lifecycle.{
  Notified, notify, or_unchanged, refreshed, init_session, ended, exited, request_full_shutdown,
  refresh_idle_timer,
}
use scip_lsp.Daemon.Lifecycle.Start.{Workspace, described, prepared}
use scip_lsp.Daemon.Idle.{
  Surroundings, new, Step, begins, initializes, ends, exits, requests_full_shutdown, Reachable,
  made, next, timer_fits, IsKept,
}

-- A call of refreshIdleTimer puts a timer that New has made in line with any number of sessions.
timer_fits-refreshed :
    (before now timeout : ℕ) (full : Bool) (timer : IdleTimer)
    → timer_fits before timeout full timer ≡ true
    → timer_fits now timeout full (refreshed now timeout timer) ≡ true
timer_fits-refreshed before now timeout full no_timer h = ground (arith, h)
timer_fits-refreshed before now timeout full stopped h = ground arith
timer_fits-refreshed before now timeout full (running minutes) h = ground arith

timer_fits-full :
    (sessions timeout : ℕ) (full : Bool) (timer : IdleTimer)
    → timer_fits sessions timeout full timer ≡ true
    → timer_fits sessions timeout true timer ≡ true
timer_fits-full sessions timeout full no_timer h = h
timer_fits-full sessions timeout full stopped h = h
timer_fits-full sessions timeout full (running minutes) h = ground arith

module _ {C : Type 0} {P : Type 0} where
  described-uuid :
      (utils : Workspace P) (params : P) (f s : Session C P)
      → described utils params f ≡ inr s
      → s.uuid ≡ f.uuid
  unfolding described
  described-uuid utils params f s e = ground (arith, e)

  found-present :
      (ctx : Option String) (r : Repository C P) (f : Session C P)
      → Keyed r
      → get_from_context ctx r ≡ inr f
      → (m : SessionModel C P) × (get f.uuid r ≡ some m)
  unfolding get_from_context get_session Keyed
  found-present none r f keyed g = ground (arith, g)
  found-present (some id) r f keyed g = elim (Option-cases (get id r)) [
    | inl n ↦ ground (arith, n, g)
    | inr (m, n) ↦ (m, ground (arith, n, g, keyed id m n))
  ]

module _ {C : Type 0} {P : Type 0} {Client : Type 0} where
  kept-Keyed : (c : Controller C P Client) → IsKept c → Keyed c.sessions
  unfolding IsKept
  kept-Keyed c (keyed, fits) = keyed

  refreshed-IsKept :
      (c d : Controller C P Client)
      → IsKept c
      → Keyed d.sessions
      → d.idle_timer ≡ c.idle_timer
      → d.idle_timeout_minutes ≡ c.idle_timeout_minutes
      → d.full_shutdown ≡ c.full_shutdown
      → IsKept (refresh_idle_timer d)
  unfolding IsKept refresh_idle_timer
  refreshed-IsKept c d (keyed, fits) k same_timer same_timeout same_full = (
    k,
    timer_fits-refreshed (size c.sessions) (size d.sessions) d.idle_timeout_minutes d.full_shutdown
        d.idle_timer (ground (arith, fits, same_timer, same_timeout, same_full)),
  )

  new-IsKept :
      (timeout : ℕ) (config : Dict String Bool) (plugins : List Plugin) (c : Controller C P Client)
      → new timeout config plugins ≡ c
      → IsKept c
  unfolding IsKept new refresh_idle_timer Keyed get
  new-IsKept timeout config plugins c e = subst IsKept e (λ id f h. ground (arith, h), ground arith)

  init_session-IsKept :
      (dispatcher : C → Client) (id : Option String) (conn : C) (c : Controller C P Client)
      → IsKept c
      → IsKept (init_session dispatcher id conn c).1
  unfolding init_session set_session
  init_session-IsKept dispatcher none conn c kept =
      refreshed-IsKept c c kept (kept-Keyed c kept) refl refl refl
  init_session-IsKept dispatcher (some id) conn c kept =
      refreshed-IsKept c _ kept
        (set_session-Keyed (uuid_to_session id (some conn)) c.sessions _ refl (kept-Keyed c kept))
        refl refl refl

  ended-IsKept :
      {W : Type 0} (notified : Notified W) (ctx : Option String) (id : String)
      (c : Controller C P Client) (w : W)
      → IsKept c
      → IsKept (ended notified ctx id c w).0
  unfolding ended
  ended-IsKept notified ctx id c w kept =
      refreshed-IsKept c _ kept (delete_session-Keyed id c.sessions (kept-Keyed c kept)) refl refl
        refl

  full-IsKept :
      (c : Controller C P Client)
      → IsKept c
      → c.full_shutdown ≡ true
      → IsKept (record c { idle_timer = running 0 })
  unfolding IsKept
  full-IsKept c (keyed, fits) full = (keyed, ground (arith, full))

  exited-IsKept :
      {W : Type 0} (notified : Notified W) (ctx : Option String) (c : Controller C P Client) (w : W)
      → IsKept c
      → IsKept (exited notified ctx c w).0.1
  unfolding exited
  exited-IsKept {W = W} notified ctx c w kept =
      let called : W × List Methods =
        or_unchanged w (notify notified method_exit exit ctx c.plugin_methods w) in
      elim (Bool-cases c.full_shutdown) [
        | inl full ↦
            subst (λ (d : Controller C P Client). IsKept d) (ground (arith, full))
              (full-IsKept c kept full)
        | inr partial ↦ elim (Sum-cases (get_from_context ctx c.sessions)) [
          | inl (e, g) ↦
              subst (λ (d : Controller C P Client). IsKept d) (ground (arith, partial, g)) kept
          | inr (s, g) ↦
              subst (λ (d : Controller C P Client). IsKept d) (ground (arith, partial, g))
                (ended-IsKept notified ctx s.uuid c called.0 kept)
        ]
      ]

  requested-IsKept : (c : Controller C P Client) → IsKept c → IsKept (request_full_shutdown c)
  unfolding IsKept
  requested-IsKept c (keyed, fits) = (
    keyed,
    timer_fits-full (size c.sessions) c.idle_timeout_minutes c.full_shutdown c.idle_timer fits,
  )

  -- A registration writes only `plugin_methods`.
  registered-same :
      (ctx : Option String) (c : Controller C P Client)
      → ((register_session_plugins ctx c).1.sessions ≡ c.sessions)
        × ((register_session_plugins ctx c).1.idle_timer ≡ c.idle_timer)
        × ((register_session_plugins ctx c).1.idle_timeout_minutes ≡ c.idle_timeout_minutes)
        × ((register_session_plugins ctx c).1.full_shutdown ≡ c.full_shutdown)
  unfolding register_session_plugins
  registered-same ctx c = ground arith

  registered-IsKept :
      (ctx : Option String) (c : Controller C P Client)
      → IsKept c
      → IsKept (register_session_plugins ctx c).1
  unfolding IsKept
  registered-IsKept ctx c (keyed, fits) =
      let (sessions, timer, timeout, full) = registered-same ctx c in
      (subst Keyed (sym sessions) keyed, ground (arith, sessions, timer, timeout, full, fits))

  stored-IsKept :
      (c : Controller C P Client) (f s : Session C P) (ctx : Option String) (after : Repository C P)
      → IsKept c
      → get_from_context ctx c.sessions ≡ inr f
      → s.uuid ≡ f.uuid
      → set_session (some s) c.sessions ≡ inr after
      → IsKept (record c { sessions = after })
  unfolding IsKept
  stored-IsKept c f s ctx after (keyed, fits) g u e =
      let (m, present) = found-present ctx c.sessions f keyed g in
      (
        set_session-Keyed s c.sessions after e keyed,
        ground (arith, size-set_session s c.sessions after e, u, present, fits),
      )

  prepared-IsKept :
      (utils : Workspace P) (ctx : Option String) (params : P) (c : Controller C P Client)
      → IsKept c
      → IsKept (prepared utils ctx params c).1
  unfolding prepared
  prepared-IsKept utils ctx params c kept = elim (Sum-cases (get_from_context ctx c.sessions)) [
    | inl (e, g) ↦ subst (λ (d : Controller C P Client). IsKept d) (ground (arith, g)) kept
    | inr (f, g) ↦ elim (Sum-cases (described utils params f)) [
      | inl (e, d) ↦ subst (λ (d : Controller C P Client). IsKept d) (ground (arith, g, d)) kept
      | inr (s, d) ↦ elim (Sum-cases (set_session (some s) c.sessions)) [
        | inl (e, t) ↦
            subst (λ (d : Controller C P Client). IsKept d) (ground (arith, g, d, t)) kept
        | inr (after, t) ↦
            let stored : Controller C P Client = record c { sessions = after } in
            let kept_there : IsKept stored =
              stored-IsKept c f s ctx after kept g (described-uuid utils params f s d) t in
            elim (Bool-cases s.ulsp_enabled) [
              | inl on ↦
                  subst (λ (d : Controller C P Client). IsKept d) (ground (arith, g, d, t, on))
                    (registered-IsKept ctx stored kept_there)
              | inr off ↦
                  subst (λ (d : Controller C P Client). IsKept d) (ground (arith, g, d, t, off))
                    kept_there
            ]
      ]
    ]
  ]

module _ {C : Type 0} {P : Type 0} {Client : Type 0} {W : Type 0}
    (around : Surroundings C P Client W) where
  Step-IsKept : {c d : Controller C P Client} → Step around c d → IsKept c → IsKept d
  Step-IsKept (begins id conn) kept = init_session-IsKept around.dispatcher id conn _ kept
  Step-IsKept (initializes ctx params) kept = prepared-IsKept around.utils ctx params _ kept
  Step-IsKept (ends ctx id w) kept = ended-IsKept around.notified ctx id _ w kept
  Step-IsKept (exits ctx w) kept = exited-IsKept around.notified ctx _ w kept
  Step-IsKept requests_full_shutdown kept = requested-IsKept _ kept

  -- In each controller that requests lead to from the one that New makes, each session is stored under
  -- its UUID, and, unless a full shutdown was requested, the idle timer runs for the whole timeout if
  -- there is no session and is stopped if there is one; after the request it may also run with sessions.
  pub Reachable-IsKept : (c : Controller C P Client) → Reachable around c → IsKept c
  Reachable-IsKept c (made timeout config plugins) = new-IsKept timeout config plugins _ refl
  Reachable-IsKept d (next reached step) = Step-IsKept step (Reachable-IsKept _ reached)
