-- ===== src/Notifier.antt =====
-- src/ulsp/internal/persistent-notifier: the handlers that several senders share (manager.go and the
-- senders of notifier.go), and the message that a handler makes of their updates. A handler is known by
-- its place in the heap. The goroutines show up as the operations that they call, in any order.
pub mod Messages
pub mod Senders
pub mod Examples
use scip_lsp.Common.{
  ℕ, zero, suc, String, Option, none, some, Bool, true, false, List, [], ◌∷◌, ◌++◌, Dict, get, put,
  remove, Key, string_key, ◌==◌, if◌then◌else◌, length, get_elem?, set,
}
use scip_lsp.Common.Int.{ℤ, pos, negsuc, leb_ℤ, eqb_ℤ}

abbrev pub next_ℤ : ℤ → ℤ
next_ℤ (pos n) = pos (suc n)
next_ℤ (negsuc zero) = pos 0
next_ℤ (negsuc (suc n)) = negsuc n

abbrev pub previous_ℤ : ℤ → ℤ
previous_ℤ (pos zero) = negsuc 0
previous_ℤ (pos (suc n)) = pos n
previous_ℤ (negsuc n) = negsuc (suc n)

-- `sender_wg` is the counter of the wait group, whose last Done starts the cleanup
pub record Handler : Type 0 where
  pub id : String
  pub sender_count : ℤ
  pub sender_wg : ℕ

abbrev pub new_handler : String → Handler
new_handler id = record { id = id; sender_count = pos 1; sender_wg = 1 }

abbrev pub is_closed : Handler → Bool
is_closed h = leb_ℤ h.sender_count (pos 0)

abbrev pub add : Handler → Handler
add h = if is_closed h then h else record h { sender_count = next_ℤ h.sender_count }

-- A wait group panics when its counter goes below zero: none.
abbrev pub wait_group_done : ℕ → Option ℕ
wait_group_done zero = none
wait_group_done (suc n) = some n

unfoldable pub done : Handler → Option Handler
done h =
    let left = previous_ℤ h.sender_count in
    if eqb_ℤ left (pos 0)
    then elim (wait_group_done h.sender_wg) [
      | none ↦ none
      | some wg ↦ some record { id = h.id; sender_count = left; sender_wg = wg }
    ]
    else some (record h { sender_count = left })

pub record Manager : Type 0 where
  pub heap : List Handler
  pub managers : Dict String ℕ

-- whether the handler at a place is closed; each place of a map is one of the heap
abbrev pub is_closed_at : Option Handler → Bool
is_closed_at none = false
is_closed_at (some h) = is_closed h

unfoldable pub delete_if_closed : String → Manager → Manager
delete_if_closed id m = elim (get id m.managers) [
  | none ↦ m
  | some at ↦
      if is_closed_at (get_elem? m.heap at) then record m { managers = remove id m.managers } else m
]

abbrev pub added_at : ℕ → List Handler → List Handler
added_at at heap = elim (get_elem? heap at) [ none ↦ heap | some h ↦ set heap at (add h) ]

-- the place of the handler, and the manager
abbrev pub existing_or_new : String → Manager → ℕ × Manager
existing_or_new id m = elim (get id m.managers) [
  | some at ↦ (at, record m { heap = added_at at m.heap })
  | none ↦ (
    length m.heap,
    record { heap = m.heap ++ new_handler id ∷ []; managers = put id (length m.heap) m.managers },
  )
]

-- Done on the handler at a place; a place outside of the heap is no handler
unfoldable pub done_at : ℕ → Manager → Option Manager
done_at at m = elim (get_elem? m.heap at) [
  | none ↦ some m
  | some h ↦ elim (done h) [
    | none ↦ none
    | some after ↦ some (record m { heap = set m.heap at after })
  ]
]

abbrev pub done_all : List ℕ → Manager → Option Manager
done_all [] m = some m
done_all (at ∷ places) m = elim (done_at at m) [ none ↦ none | some after ↦ done_all places after ]

-- Under the manager's mutex, which keeps other starts and cleanups away but not the senders: the
-- calls of Done on the handlers at the places `between` come after the test of the old handler and
-- before the new sender is added.
unfoldable pub start_notification : String → List ℕ → Manager → Option (ℕ × Manager)
start_notification id between m = elim (done_all between (delete_if_closed id m)) [
  | none ↦ none
  | some after ↦ some (existing_or_new id after)
]

abbrev pub manager_of : Option (ℕ × Manager) → Option Manager
manager_of none = none
manager_of (some r) = some r.1

pub data Operation : Type 0 where
  starts : String → List ℕ → Operation
  is_done : ℕ → Operation
  cleans_up : String → Operation

abbrev pub step : Operation → Manager → Option Manager
step (starts id between) m = manager_of (start_notification id between m)
step (is_done at) m = done_at at m
step (cleans_up id) m = some (delete_if_closed id m)

abbrev pub run : List Operation → Manager → Option Manager
run [] m = some m
run (o ∷ os) m = elim (step o m) [ none ↦ none | some after ↦ run os after ]

abbrev pub new_manager : Manager
new_manager = record { heap = []; managers = [] }
