-- ===== src/Indexer/Examples.antt =====
-- Two requests during one operation.
use scip_lsp.Common.{List, [], ◌∷◌, ◌≡◌, get, string_key}
use scip_lsp.Indexer.Phases.{Event, requested, ended, run, phase_of, running, run-phase}

abbrev events : List Event
events = requested "k" 1 "a" ∷ requested "k" 2 "b" ∷ requested "k" 3 "c" ∷ ended "k" 4 "d" ∷ []

run-phase_example : phase_of (get "k" (run [] events)) ≡ running
unfolding get
run-phase_example = run-phase [] events "k"
