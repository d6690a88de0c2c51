-- ===== src/Notifier/Examples.antt =====
-- Two senders that report on one identifier, and a handler that is started again after its end.
use scip_lsp.Common.{ℕ, some, [], ◌∷◌, ◌≡◌, refl, get, put, string_key, get_elem?}
use scip_lsp.Common.Int.{pos, ◌≤ℤ◌}
use scip_lsp.Notifier.{Manager, starts, is_done, cleans_up, run, new_manager, start_notification}
use scip_lsp.Notifier.Senders.{run-open, IsOpenAt}
use scip_lsp.Notifier.Messages.{
  Notification, Updates, capture, all_updates, condensed, condensed-le,
}

abbrev first_update : Notification
first_update = record {
  sender_token = "one";
  identifier_token = "build";
  priority = pos 2;
  message = "building";
}

abbrev second_update : Notification
second_update = record {
  sender_token = "two";
  identifier_token = "build";
  priority = pos 1;
  message = "waiting";
}

abbrev before : Updates
before = ("one", ("build", first_update) ∷ []) ∷ []

condensed-le_example :
    (x : Notification) × ((get "build" (condensed second_update before) ≡ some x)
      × ((x.identifier_token ≡ "build")
          × ((x.priority ≤ℤ pos 2)
              × ((j : ℕ) × (get_elem? (all_updates (capture second_update before)) j ≡ some x)))))
unfolding capture get put
condensed-le_example = condensed-le second_update before 0 first_update refl

run-open_example :
    (m : Manager) × ((run
          (starts "a" [] ∷ starts "a" (0 ∷ []) ∷ is_done 0 ∷ cleans_up "a" ∷ [])
          new_manager
        ≡ some m)
      × ((r : ℕ × Manager) × ((start_notification "a" [] m ≡ some r) × IsOpenAt "a" r)))
run-open_example =
    run-open (starts "a" [] ∷ starts "a" (0 ∷ []) ∷ is_done 0 ∷ cleans_up "a" ∷ []) "a"
