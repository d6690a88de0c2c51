-- ===== src/DocSync/Reach.antt =====
-- A property that each write of an entry keeps holds after every sequence of requests.
use scip_lsp.Common.{
  ℕ, String, Option, none, some, List, [], ◌∷◌, refl, get-nil, Dict, arith, string_key,
}
use scip_lsp.Edits.{Diff}
use scip_lsp.DocSync.{Entry, Controller, initialize, dispose_session, shutdown, reset_base}
use scip_lsp.DocSync.Store.{AllEntries, put-AllEntries-nil, remove-AllEntries}
use scip_lsp.DocSync.Run.{
  Request, initialized, shut_down, session_ended, opened, closed_document, changed, saved,
  edits_added, mapper_asked, base_reset, step, run, Keeps,
}
use scip_lsp.DocSync.Keep.{
  Holds, same, did_open-Holds, delete_document-Holds, did_close-store, did_change-Holds,
  did_save-Holds, add_pending_edits-Holds, get_position_mapper-Holds, reset_base_in-AllEntries,
}

-- the texts that a list of requests saves
abbrev pub SavesOf : (List ℕ → Type 0) → List Request → Type 0
SavesOf Saves [] = Unit
SavesOf Saves (saved s uri text ∷ rs) = Saves text × SavesOf Saves rs
SavesOf Saves (_ ∷ rs) = SavesOf Saves rs

module _ {diff_main : List ℕ → List ℕ → List Diff} {limit : ℕ} {Saves : List ℕ → Type 0}
    {P : Entry → Type 0} (keeps : Keeps diff_main limit Saves P) where
  initialize-Holds :
      (c : Controller) (s : Option String) → Holds keeps c → Holds keeps (initialize c s).1
  unfolding initialize
  initialize-Holds c none h = h
  initialize-Holds c (some s) h = record {
    at_limit = h.at_limit;
    all = put-AllEntries-nil s c.documents h.all;
  }

  dispose_session-Holds :
      (c : Controller) (s : String) → Holds keeps c → Holds keeps (dispose_session c s)
  unfolding dispose_session
  dispose_session-Holds c s h = record {
    at_limit = h.at_limit;
    all = remove-AllEntries s c.documents h.all;
  }

  shutdown-Holds :
      (c : Controller) (s : Option String) → Holds keeps c → Holds keeps (shutdown c s).1
  unfolding shutdown
  shutdown-Holds c none h = h
  shutdown-Holds c (some s) h = dispose_session-Holds c s h

  step-Holds :
      (c : Controller) (r : Request)
      → SavesOf Saves (r ∷ [])
      → Holds keeps c
      → Holds keeps (step diff_main c r)
  unfolding step reset_base
  step-Holds c (initialized s) v h = initialize-Holds c s h
  step-Holds c (shut_down s) v h = shutdown-Holds c s h
  step-Holds c (session_ended s) v h = dispose_session-Holds c s h
  step-Holds c (opened s doc) v h = did_open-Holds keeps c s doc h
  step-Holds c (closed_document sent s uri) v h =
      same keeps (did_close-store keeps c sent s uri) (delete_document-Holds keeps c s uri h)
  step-Holds c (changed s uri version changes) v h =
      did_change-Holds keeps c s uri version changes h
  step-Holds c (saved s uri text) v h = did_save-Holds keeps c s uri text v.0 h
  step-Holds c (edits_added s doc edits token) v h =
      add_pending_edits-Holds keeps c s doc edits token h
  step-Holds c (mapper_asked s uri) v h = get_position_mapper-Holds keeps c s uri h
  step-Holds c (base_reset sessions uri) v h = record {
    at_limit = h.at_limit;
    all = reset_base_in-AllEntries keeps sessions uri c.documents h.all;
  }

  split :
      (r : Request) (rs : List Request)
      → SavesOf Saves (r ∷ rs)
      → SavesOf Saves (r ∷ []) × SavesOf Saves rs
  split (initialized s) rs v = (tt, v)
  split (shut_down s) rs v = (tt, v)
  split (session_ended s) rs v = (tt, v)
  split (opened s doc) rs v = (tt, v)
  split (closed_document sent s uri) rs v = (tt, v)
  split (changed s uri version changes) rs v = (tt, v)
  split (saved s uri text) rs v = ((v.0, tt), v.1)
  split (edits_added s doc edits token) rs v = (tt, v)
  split (mapper_asked s uri) rs v = (tt, v)
  split (base_reset sessions uri) rs v = (tt, v)

  run-Holds :
      (c : Controller) (rs : List Request)
      → SavesOf Saves rs
      → Holds keeps c
      → Holds keeps (run diff_main c rs)
  unfolding run
  run-Holds c [] v h = h
  run-Holds c (r ∷ rs) v h =
      let (now, later) = split r rs v in
      run-Holds (step diff_main c r) rs later (step-Holds c r now h)

  -- the store of `New`: no session
  start-Holds : Holds keeps (record { documents = []; max_file_size_bytes = limit })
  start-Holds = record {
    at_limit = refl;
    all = λ s uri e h. absurd (ground (arith, h, get-nil {V = Dict String Entry} s));
  }

  pub run-AllEntries :
      (rs : List Request)
      → SavesOf Saves rs
      → AllEntries P
          (run diff_main (record { documents = []; max_file_size_bytes = limit }) rs).documents
  run-AllEntries rs v = (run-Holds _ rs v start-Holds).all
