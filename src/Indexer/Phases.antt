-- ===== src/Indexer/Phases.antt =====
-- The operations of one key, as a machine of three states.
use scip_lsp.Common.{
  ℕ, String, Option, none, some, List, [], ◌∷◌, true, false, ◌≡◌, refl, ap, ◌∙◌, arith, ◌==◌,
  string_key, if◌then◌else◌, get, remove, get-put, get-remove, Option-cases, inl, inr,
}
use scip_lsp.Indexer.{
  CmdVal, PendingCmds, set_pending_cmd, get_pending_cmd, delete_pending_cmd, mark_for_reindexing,
  needs_reindexing, start_operation, end_operation, sync_key,
}

-- what a key waits for: nothing, the end of its operation, or that end and another operation
pub data Phase : Type 0 where
  idle running again : Phase

abbrev pub phase_of : Option CmdVal → Phase
phase_of none = idle
phase_of (some v) = if v.needs_reindexing then again else running

-- a request for a key, or the end of its operation, with its calls of the store one after the other
pub data Event : Type 0 where
  requested : String → ℕ → String → Event
  ended : String → ℕ → String → Event

unfoldable pub step : PendingCmds → Event → PendingCmds
step p (requested key cancel token) = sync_key (λ q. q) p key cancel token
step p (ended key cancel token) = end_operation (λ q. q) (λ q. q) p key cancel token

unfoldable pub run : PendingCmds → List Event → PendingCmds
run p [] = p
run p (e ∷ es) = run (step p e) es

abbrev pub on_request : Phase → Phase
on_request idle = running
on_request running = again
on_request again = again

abbrev pub on_end : Phase → Phase
on_end idle = idle
on_end running = idle
on_end again = running

-- the next phase of `key`
abbrev pub next : String → Phase → Event → Phase
next key phase (requested key' cancel token) = if key' == key then on_request phase else phase
next key phase (ended key' cancel token) = if key' == key then on_end phase else phase

abbrev pub after : String → Phase → List Event → Phase
after key phase [] = phase
after key phase (e ∷ es) = after key (next key phase e) es

step-phase :
    (p : PendingCmds) (e : Event) (key : String)
    → phase_of (get key (step p e)) ≡ next key (phase_of (get key p)) e
unfolding step sync_key end_operation start_operation set_pending_cmd get_pending_cmd
    delete_pending_cmd mark_for_reindexing needs_reindexing
step-phase p (requested key' cancel token) key = elim (Option-cases (get key' p)) [
  | inl n ↦ ground (
    arith,
    n,
    string_key.same_iff key' key,
    get-put key' key (record { token = token; cancel_func = cancel; needs_reindexing = false }) p,
  )
  | inr (v, y) ↦ ground (
    arith,
    y,
    string_key.same_iff key' key,
    get-put key' key (record v { needs_reindexing = true }) p,
  )
]
step-phase p (ended key' cancel token) key = elim (Option-cases (get key' p)) [
  | inl n ↦ ground (arith, n, string_key.same_iff key' key)
  | inr (v, y) ↦ ground (
    arith,
    y,
    string_key.same_iff key' key,
    get-put key' key (record { token = token; cancel_func = cancel; needs_reindexing = false })
        (remove key' p),
    get-remove key' key p,
  )
]

-- Whatever the requests and ends of operations, of this key and of others, if no other call of the
-- store comes between the calls of one of them, the store keeps for each key the phase of the machine:
-- a request for an idle key starts an operation, a request while one runs makes another follow, and
-- the end of an operation starts the one that is to follow or leaves the key idle.
pub run-phase :
    (p : PendingCmds) (es : List Event) (key : String)
    → phase_of (get key (run p es)) ≡ after key (phase_of (get key p)) es
unfolding run
run-phase p [] key = refl
run-phase p (e ∷ es) key =
    run-phase (step p e) es key ∙ ap (λ x. after key x es) (step-phase p e key)
