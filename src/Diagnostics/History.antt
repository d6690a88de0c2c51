-- ===== src/Diagnostics/History.antt =====
-- What src/ulsp/controller/diagnostics/diagnostics.go keeps after any sequence of requests.
use scip_lsp.Common.{
  String, Option, none, some, Bool, false, List, [], ◌∷◌, map, get, put, get-put, get-remove,
  string_key, ◌==◌, ◌||◌, ◌&&◌, Sum-cases, if◌then◌else◌, ◌⊎◌, inl, inr, ◌≡◌, refl, ap, ◌∙◌, arith,
}
use scip_lsp.Sessions.{
  Session, SessionError, Repository, get_from_context, get_all_from_workspace_root,
}
use scip_lsp.Diagnostics.{
  DiagnosticStore, of_session, write_diagnostics, dispose_session, apply_to, apply_diagnostics,
  initialize, shutdown, end_session,
}

module _ {C : Type 0} {P : Type 0} where
  abbrev pub holds : String → List (Session C P) → Bool
  holds id [] = false
  holds id (s ∷ ss) = s.uuid == id || holds id ss

-- a request, with the sessions that the repository holds then
pub data Request (D : Type 0) (C : Type 0) (P : Type 0) : Type 0 where
  applies : Repository C P → String → String → List D → Request D C P
  starts : Option String → Repository C P → Request D C P
  shuts_down : Option String → Repository C P → Request D C P
  ends : String → Request D C P

module _ {D : Type 0} where
  abbrev pub or_as_it_was : DiagnosticStore D → SessionError ⊎ DiagnosticStore D → DiagnosticStore D
  or_as_it_was store (inl e) = store
  or_as_it_was store (inr after) = after

  -- the diagnostics of a document in a session
  abbrev pub find : String → String → DiagnosticStore D → Option (List D)
  find id doc store = get doc (of_session (get id store))

  find-write :
      (i j u v : String) (ds : List D) (store : DiagnosticStore D)
      → find j v (write_diagnostics i u ds store)
        ≡ (if (i == j) && (u == v) then some ds else find j v store)
  unfolding write_diagnostics
  find-write i j u v ds store = ground (
    arith,
    get-put i j (put u ds (of_session (get i store))) store,
    get-put u v ds (of_session (get i store)),
    string_key.same_iff i j,
  )

  find-dispose :
      (i j v : String) (store : DiagnosticStore D)
      → find j v (dispose_session i store) ≡ (if i == j then none else find j v store)
  unfolding dispose_session get
  find-dispose i j v store = ground (arith, get-remove i j store)

  find-start :
      (i j v : String) (store : DiagnosticStore D)
      → find j v (put i [] store) ≡ (if i == j then none else find j v store)
  unfolding get
  find-start i j v store = ground (arith, get-put i j [] store)

  module _ {C : Type 0} {P : Type 0} where
    find-apply_to :
        (ss : List (Session C P)) (u : String) (ds : List D) (store : DiagnosticStore D)
        (j v : String)
        → find j v (apply_to ss u ds store).0
          ≡ (if holds j ss && (u == v) then some ds else find j v store)
    unfolding apply_to
    find-apply_to [] u ds store j v = refl
    find-apply_to (s ∷ ss) u ds store j v = ground (
      arith,
      find-apply_to ss u ds (write_diagnostics s.uuid u ds store) j v,
      find-write s.uuid j u v ds store,
    )

    published :
        (ss : List (Session C P)) (doc : String) (ds : List D) (store : DiagnosticStore D)
        → (apply_to ss doc ds store).1
          ≡ map (λ s. record { session = s.uuid; uri = doc; diagnostics = ds }) ss
    unfolding apply_to
    published [] doc ds store = refl
    published (s ∷ ss) doc ds store =
        ap (◌∷◌ (record { session = s.uuid; uri = doc; diagnostics = ds }))
          (published ss doc ds (write_diagnostics s.uuid doc ds store))

    -- Diagnostics for a workspace are published once to each session of its root, in the order of the sessions, and with the
    -- document and the diagnostics as given. They replace what was kept for the document in these sessions, and nothing else.
    pub apply_diagnostics_lem :
        (sessions : Repository C P) (root doc : String) (ds : List D) (store : DiagnosticStore D)
        → ((apply_diagnostics sessions root doc ds store).1
            ≡ map
                (λ s. record { session = s.uuid; uri = doc; diagnostics = ds })
                (get_all_from_workspace_root root sessions))
          × ((j v : String)
              → find j v (apply_diagnostics sessions root doc ds store).0 ≡ (
                  if holds j (get_all_from_workspace_root root sessions) && (doc == v)
                  then some ds
                  else find j v store))
    unfolding apply_diagnostics
    apply_diagnostics_lem sessions root doc ds store = (
      published (get_all_from_workspace_root root sessions) doc ds store,
      find-apply_to (get_all_from_workspace_root root sessions) doc ds store,
    )

    abbrev pub step : Request D C P → DiagnosticStore D → DiagnosticStore D
    step (applies sessions root doc ds) store = (apply_diagnostics sessions root doc ds store).0
    step (starts ctx sessions) store = or_as_it_was store (initialize ctx sessions store)
    step (shuts_down ctx sessions) store = or_as_it_was store (shutdown ctx sessions store)
    step (ends id) store = end_session id store

    abbrev pub run : List (Request D C P) → DiagnosticStore D → DiagnosticStore D
    run [] store = store
    run (r ∷ rs) store = run rs (step r store)

    -- the diagnostics of one document in one session, by themselves
    abbrev pub cleared_if : String → SessionError ⊎ Session C P → Option (List D) → Option (List D)
    cleared_if j (inl e) o = o
    cleared_if j (inr s) o = if s.uuid == j then none else o

    abbrev pub after_request : String → String → Request D C P → Option (List D) → Option (List D)
    after_request j v (applies sessions root doc ds) o =
        if holds j (get_all_from_workspace_root root sessions) && (doc == v) then some ds else o
    after_request j v (starts ctx sessions) o = cleared_if j (get_from_context ctx sessions) o
    after_request j v (shuts_down ctx sessions) o = cleared_if j (get_from_context ctx sessions) o
    after_request j v (ends id) o = if id == j then none else o

    abbrev pub after_requests :
        String → String → List (Request D C P) → Option (List D) → Option (List D)
    after_requests j v [] o = o
    after_requests j v (r ∷ rs) o = after_requests j v rs (after_request j v r o)

    find-step :
        (r : Request D C P) (j v : String) (store : DiagnosticStore D)
        → find j v (step r store) ≡ after_request j v r (find j v store)
    unfolding initialize shutdown end_session
    find-step (applies sessions root doc ds) j v store =
        (apply_diagnostics_lem sessions root doc ds store).1 j v
    find-step (starts ctx sessions) j v store = elim (Sum-cases (get_from_context ctx sessions)) [
      | inl (e, k) ↦ ground (arith, k)
      | inr (s, k) ↦ ground (arith, k, find-start s.uuid j v store)
    ]
    find-step (shuts_down ctx sessions) j v store =
        elim (Sum-cases (get_from_context ctx sessions)) [
          | inl (e, k) ↦ ground (arith, k)
          | inr (s, k) ↦ ground (arith, k, find-dispose s.uuid j v store)
        ]
    find-step (ends id) j v store = find-dispose id j v store

    -- After any sequence of requests, the diagnostics that are kept of a document in a session are what the requests for
    -- that very session leave: the last ones applied to it under a workspace root that the session had then, if
    -- the session did not begin, shut down or end after that. A request with an error changes nothing.
    pub find-run :
        (rs : List (Request D C P)) (j v : String) (store : DiagnosticStore D)
        → find j v (run rs store) ≡ after_requests j v rs (find j v store)
    find-run [] j v store = refl
    find-run (r ∷ rs) j v store =
        find-run rs j v (step r store) ∙ ap (after_requests j v rs) (find-step r j v store)
