-- ===== src/Sessions/Laws.antt =====
-- The laws of src/ulsp/repository/session/session.go.
use scip_lsp.Common.{
  suc, String, none, some, get, size, size-put, get-put, get-remove, string_key, ◌==◌,
  if◌then◌else◌, inl, inr, ◌≡◌, arith,
}
use scip_lsp.Sessions.{
  Session, SessionModel, uuid_not_found, Repository, get_session, set_session, delete_session,
  session_to_model,
}

module _ {C : Type 0} {P : Type 0} where
  -- A session that Set stored is what Get finds under its UUID, and Get finds what it found before
  -- under the others.
  pub get_session-set_session :
      (f : Session C P) (id : String) (r after : Repository C P)
      → set_session (some f) r ≡ inr after
      → get_session id after ≡ (if f.uuid == id then inr f else get_session id r)
  unfolding get_session set_session
  get_session-set_session f id r after e =
      ground (arith, e, get-put f.uuid id (session_to_model f) r)

  pub get_session-delete_session :
      (k id : String) (r : Repository C P)
      → get_session id (delete_session k r)
        ≡ (if k == id then inl (uuid_not_found id) else get_session id r)
  unfolding get_session delete_session
  get_session-delete_session k id r = ground (arith, get-remove k id r)

  -- Each session is stored under its own UUID.
  unfoldable pub Keyed : Repository C P → Type 0
  Keyed r = (id : String) (f : SessionModel C P) → get id r ≡ some f → f.uuid ≡ id

  pub set_session-Keyed :
      (f : Session C P) (r after : Repository C P)
      → set_session (some f) r ≡ inr after
      → Keyed r
      → Keyed after
  unfolding Keyed set_session
  set_session-Keyed f r after e keyed id g h = ground (
    arith,
    e,
    h,
    get-put f.uuid id (session_to_model f) r,
    keyed id g,
    string_key.same_iff f.uuid id,
  )

  pub delete_session-Keyed :
      (id : String) (r : Repository C P) → Keyed r → Keyed (delete_session id r)
  unfolding Keyed delete_session
  delete_session-Keyed k r keyed id g h = ground (arith, h, get-remove k id r, keyed id g)

  pub size-set_session :
      (f : Session C P) (r after : Repository C P)
      → set_session (some f) r ≡ inr after
      → size after ≡ elim (get f.uuid r) [ none ↦ suc (size r) | some _ ↦ size r ]
  unfolding set_session
  size-set_session f r after e = ground (arith, e, size-put f.uuid (session_to_model f) r)
