-- ===== src/Notifier/Senders.antt =====
-- The life of the handlers of src/ulsp/internal/persistent-notifier/manager.go, whatever its callers do.
use scip_lsp.Common.{
  ℕ, zero, suc, String, some, Option-cases, Bool-cases, false, List, [], ◌∷◌, ◌++◌, get, put,
  remove, get-put, get-remove, string_key, same_refl, ◌==◌, if◌then◌else◌, length, get_elem?, set,
  ◌≡◌, refl, sym, ap, ◌∙◌, ◌⊎◌, inl, inr, arith, subst,
}
use scip_lsp.Common.Int.{ℤ, pos, negsuc, leb_ℤ}
use scip_lsp.Notifier.{
  Handler, new_handler, is_closed, is_closed_at, add, done, Manager, delete_if_closed, added_at,
  existing_or_new, start_notification, done_at, done_all, Operation, starts, is_done, cleans_up,
  step, run, new_manager,
}

-- The wait group stands at one while the handler is open, and at zero from then on.
abbrev pub wait_count : ℤ → ℕ
wait_count n = if leb_ℤ n (pos 0) then 0 else 1

abbrev pub IsCounted : Handler → Type 0
IsCounted h = h.sender_wg ≡ wait_count h.sender_count

abbrev handler : String → ℤ → ℕ → Handler
handler id n wg = record { id = id; sender_count = n; sender_wg = wg }

add_of :
    (id : String) (n : ℤ) (wg : ℕ) → IsCounted (handler id n wg) → IsCounted (add (handler id n wg))
add_of id (pos zero) wg c = c
add_of id (pos (suc n)) wg c = ground (arith, c)
add_of id (negsuc n) wg c = ground (arith, c)

add-IsCounted : (h : Handler) → IsCounted h → IsCounted (add h)
add-IsCounted h c = add_of h.id h.sender_count h.sender_wg c

add-id : (h : Handler) → (add h).id ≡ h.id
add-id h = ground arith

-- a handler that is open stays open when a sender is added
add-open : (h : Handler) → is_closed h ≡ false → is_closed (add h) ≡ false
add-open h c = open_of h.id h.sender_count h.sender_wg c
  where
    open_of :
        (id : String) (n : ℤ) (wg : ℕ)
        → is_closed (handler id n wg) ≡ false
        → is_closed (add (handler id n wg)) ≡ false
    open_of id (pos zero) wg c = ground (arith, c)
    open_of id (pos (suc n)) wg c = ground (arith, c)
    open_of id (negsuc n) wg c = ground (arith, c)

abbrev Finishes : Handler → Handler → Type 0
Finishes h after = (done h ≡ some after) × (IsCounted after × (after.id ≡ h.id))

done_of :
    (id : String) (n : ℤ) (wg : ℕ)
    → IsCounted (handler id n wg)
    → (after : Handler) × Finishes (handler id n wg) after
unfolding done
done_of id (pos zero) wg c = (handler id (negsuc 0) wg, (refl, (c, refl)))
done_of id (pos (suc zero)) wg c = (handler id (pos 0) 0, (ground (arith, c), (refl, refl)))
done_of id (pos (suc (suc n))) wg c =
    (handler id (pos (suc n)) wg, (ground arith, (ground (arith, c), refl)))
done_of id (negsuc n) wg c =
    (handler id (negsuc (suc n)) wg, (ground arith, (ground (arith, c), refl)))

done-IsCounted : (h : Handler) → IsCounted h → (after : Handler) × Finishes h after
done-IsCounted h c = done_of h.id h.sender_count h.sender_wg c

-- each handler of the heap counts its senders, and each name stands for a handler of that name
pub record IsSound (m : Manager) : Type 0 where
  pub counted : (i : ℕ) (h : Handler) → get_elem? m.heap i ≡ some h → IsCounted h
  pub named :
      (id : String) (at : ℕ)
      → get id m.managers ≡ some at
      → (h : Handler) × ((get_elem? m.heap at ≡ some h) × (h.id ≡ id))

new_manager-IsSound : IsSound new_manager
unfolding get
new_manager-IsSound = record {
  counted = λ i h e. ground (arith, e);
  named = λ id at e. ground (arith, e);
}

-- a place of a list after a write, and after an entry is appended
get_elem?-set :
    (xs : List Handler) (i j : ℕ) (v h : Handler)
    → get_elem? (set xs i v) j ≡ some h
    → (get_elem? xs j ≡ some h) ⊎ (h ≡ v)
get_elem?-set [] i j v h e = inl e
get_elem?-set (x ∷ xs) zero zero v h e = inr (ground (arith, e))
get_elem?-set (x ∷ xs) zero (suc j) v h e = inl e
get_elem?-set (x ∷ xs) (suc i) zero v h e = inl e
get_elem?-set (x ∷ xs) (suc i) (suc j) v h e = get_elem?-set xs i j v h e

get_elem?-after_set :
    (xs : List Handler) (i j : ℕ) (v h g : Handler)
    → get_elem? xs i ≡ some g
    → v.id ≡ g.id
    → get_elem? xs j ≡ some h
    → (k : Handler) × ((get_elem? (set xs i v) j ≡ some k) × (k.id ≡ h.id))
get_elem?-after_set [] i j v h g e n f = ground (arith, e)
get_elem?-after_set (x ∷ xs) zero zero v h g e n f = (v, (refl, ground (arith, e, n, f)))
get_elem?-after_set (x ∷ xs) zero (suc j) v h g e n f = (h, (f, refl))
get_elem?-after_set (x ∷ xs) (suc i) zero v h g e n f = (h, (f, refl))
get_elem?-after_set (x ∷ xs) (suc i) (suc j) v h g e n f = get_elem?-after_set xs i j v h g e n f

get_elem?-append :
    (xs : List Handler) (v h : Handler) (j : ℕ)
    → get_elem? (xs ++ v ∷ []) j ≡ some h
    → (get_elem? xs j ≡ some h) ⊎ (h ≡ v)
get_elem?-append [] v h zero e = inr (ground (arith, e))
get_elem?-append [] v h (suc j) e = ground (arith, e)
get_elem?-append (x ∷ xs) v h zero e = inl e
get_elem?-append (x ∷ xs) v h (suc j) e = get_elem?-append xs v h j e

get_elem?-before_append :
    (xs : List Handler) (v h : Handler) (j : ℕ)
    → get_elem? xs j ≡ some h
    → get_elem? (xs ++ v ∷ []) j ≡ some h
get_elem?-before_append [] v h j e = ground (arith, e)
get_elem?-before_append (x ∷ xs) v h zero e = e
get_elem?-before_append (x ∷ xs) v h (suc j) e = get_elem?-before_append xs v h j e

get_elem?-last : (xs : List Handler) (v : Handler) → get_elem? (xs ++ v ∷ []) (length xs) ≡ some v
get_elem?-last [] v = refl
get_elem?-last (x ∷ xs) v = get_elem?-last xs v

removed-IsSound :
    (id : String) (m : Manager) → IsSound m → IsSound (record m { managers = remove id m.managers })
removed-IsSound id m s = record {
  counted = s.counted;
  named = λ k j e. s.named k j (ground (arith, e, get-remove id k m.managers));
}

replaced-IsSound :
    (m : Manager) (at : ℕ) (h v : Handler)
    → get_elem? m.heap at ≡ some h
    → IsCounted v
    → v.id ≡ h.id
    → IsSound m
    → IsSound (record m { heap = set m.heap at v })
replaced-IsSound m at h v e c n s = record {
  counted = λ i g f. elim (get_elem?-set m.heap at i v g f) [
    | inl old ↦ s.counted i g old
    | inr new ↦ subst IsCounted (sym new) c
  ];
  named = λ id j f.
      let (g, (there, name)) = s.named id j f in
      let (k, (now, same)) = get_elem?-after_set m.heap at j v g h e n there in
      (k, (now, same ∙ name));
}

appended-IsSound :
    (m : Manager) (id : String)
    → IsSound m
    → IsSound (record {
      heap = m.heap ++ new_handler id ∷ [];
      managers = put id (length m.heap) m.managers;
    })
appended-IsSound m id s = record {
  counted = λ i g f. elim (get_elem?-append m.heap (new_handler id) g i f) [
    | inl old ↦ s.counted i g old
    | inr new ↦ subst IsCounted (sym new) refl
  ];
  named = λ k j f. elim (Bool-cases (id == k)) [
    | inl same ↦ (
      new_handler id,
      (
        ap (get_elem? (m.heap ++ new_handler id ∷ []))
              (ground (arith, f, same, get-put id k (length m.heap) m.managers))
            ∙ get_elem?-last m.heap (new_handler id),
        (string_key.same_iff id k).0 same,
      ),
    )
    | inr other ↦
        let (g, (there, name)) =
          s.named k j (ground (arith, f, other, get-put id k (length m.heap) m.managers)) in
        (g, (get_elem?-before_append m.heap (new_handler id) g j there, name))
  ];
}

delete_if_closed-IsSound : (id : String) (m : Manager) → IsSound m → IsSound (delete_if_closed id m)
unfolding delete_if_closed
delete_if_closed-IsSound id m s = elim (Option-cases (get id m.managers)) [
  | inl n ↦ subst IsSound (ground (arith, n)) s
  | inr (at, n) ↦ elim (Bool-cases (is_closed_at (get_elem? m.heap at))) [
    | inl closed ↦ subst IsSound (ground (arith, n, closed)) (removed-IsSound id m s)
    | inr still_open ↦ subst IsSound (ground (arith, n, still_open)) s
  ]
]

-- what is left under a name is open
delete_if_closed-open :
    (id : String) (m : Manager) (at : ℕ)
    → get id (delete_if_closed id m).managers ≡ some at
    → is_closed_at (get_elem? (delete_if_closed id m).heap at) ≡ false
unfolding delete_if_closed
delete_if_closed-open id m at e = elim (Option-cases (get id m.managers)) [
  | inl n ↦ ground (arith, n, e)
  | inr (old, n) ↦ elim (Bool-cases (is_closed_at (get_elem? m.heap old))) [
    | inl closed ↦ ground (arith, n, closed, e, get-remove id id m.managers, same_refl id)
    | inr still_open ↦ ground (arith, n, still_open, e)
  ]
]

added-IsSound :
    (m : Manager) (at : ℕ) (h : Handler)
    → get_elem? m.heap at ≡ some h
    → IsSound m
    → IsSound (record m { heap = added_at at m.heap })
added-IsSound m at h e s =
    subst (λ (x : List Handler). IsSound (record m { heap = x })) (ground (arith, e))
      (replaced-IsSound m at h (add h) e (add-IsCounted h (s.counted at h e)) (add-id h) s)

existing_or_new-IsSound : (id : String) (m : Manager) → IsSound m → IsSound (existing_or_new id m).1
existing_or_new-IsSound id m s = elim (Option-cases (get id m.managers)) [
  | inl n ↦ subst IsSound (ground (arith, n)) (appended-IsSound m id s)
  | inr (at, n) ↦
      let (h, (there, name)) = s.named id at n in
      subst IsSound (ground (arith, n)) (added-IsSound m at h there s)
]

-- a handler that a caller gets: it is in the heap, has the name, and is open
abbrev pub IsOpenAt : String → ℕ × Manager → Type 0
IsOpenAt id got =
    (h : Handler) × ((get_elem? got.1.heap got.0 ≡ some h) × ((h.id ≡ id) × (is_closed h ≡ false)))

get_elem?-set_there :
    (xs : List Handler) (i : ℕ) (v h : Handler)
    → get_elem? xs i ≡ some h
    → get_elem? (set xs i v) i ≡ some v
get_elem?-set_there [] i v h e = ground (arith, e)
get_elem?-set_there (x ∷ xs) zero v h e = refl
get_elem?-set_there (x ∷ xs) (suc i) v h e = get_elem?-set_there xs i v h e

added_there :
    (heap : List Handler) (at : ℕ) (h : Handler)
    → get_elem? heap at ≡ some h
    → get_elem? (added_at at heap) at ≡ some (add h)
added_there heap at h e =
    subst (λ (x : List Handler). get_elem? x at ≡ some (add h)) (ground (arith, e))
      (get_elem?-set_there heap at (add h) h e)

existing_or_new-IsOpenAt :
    (id : String) (m : Manager)
    → IsSound m
    → ((at : ℕ) → get id m.managers ≡ some at → is_closed_at (get_elem? m.heap at) ≡ false)
    → IsOpenAt id (existing_or_new id m)
existing_or_new-IsOpenAt id m s unclosed = elim (Option-cases (get id m.managers)) [
  | inl n ↦
      let fresh : ℕ × Manager = (
        length m.heap,
        record {
          heap = m.heap ++ new_handler id ∷ [];
          managers = put id (length m.heap) m.managers;
        },
      ) in
      let same : fresh ≡ existing_or_new id m = ground (arith, n) in
      let open_there : IsOpenAt id fresh =
        (new_handler id, (get_elem?-last m.heap (new_handler id), (refl, refl))) in
      subst (IsOpenAt id) same open_there
  | inr (at, n) ↦
      let (h, (there, name)) = s.named id at n in
      let still_open : is_closed h ≡ false = ground (arith, there, unclosed at n) in
      let got : ℕ × Manager = (at, record m { heap = added_at at m.heap }) in
      let open_there : IsOpenAt id got =
        (add h, (added_there m.heap at h there, (add-id h ∙ name, add-open h still_open))) in
      let same : got ≡ existing_or_new id m = ground (arith, n) in
      subst (IsOpenAt id) same open_there
]

done_at-IsSound :
    (at : ℕ) (m : Manager)
    → IsSound m
    → (after : Manager) × ((done_at at m ≡ some after) × IsSound after)
unfolding done_at
done_at-IsSound at m s = elim (Option-cases (get_elem? m.heap at)) [
  | inl n ↦ (m, (ground (arith, n), s))
  | inr (h, n) ↦
      let (v, (e, (c, same))) = done-IsCounted h (s.counted at h n) in
      (
        record m { heap = set m.heap at v },
        (ground (arith, n, e), replaced-IsSound m at h v n c same s),
      )
]

done_all-IsSound :
    (places : List ℕ) (m : Manager)
    → IsSound m
    → (after : Manager) × ((done_all places m ≡ some after) × IsSound after)
done_all-IsSound [] m s = (m, (refl, s))
done_all-IsSound (at ∷ places) m s =
    let (next, (e, t)) = done_at-IsSound at m s in
    let (last, (f, u)) = done_all-IsSound places next t in (last, (ground (arith, e, f), u))

start_notification-IsSound :
    (id : String) (between : List ℕ) (m : Manager)
    → IsSound m
    → (r : ℕ × Manager) × ((start_notification id between m ≡ some r) × IsSound r.1)
unfolding start_notification
start_notification-IsSound id between m s =
    let (after, (e, t)) =
      done_all-IsSound between (delete_if_closed id m) (delete_if_closed-IsSound id m s) in
    (existing_or_new id after, (ground (arith, e), existing_or_new-IsSound id after t))

step-some :
    (o : Operation) (m : Manager)
    → IsSound m
    → (after : Manager) × ((step o m ≡ some after) × IsSound after)
step-some (starts id between) m s =
    let (r, (e, t)) = start_notification-IsSound id between m s in (r.1, (ground (arith, e), t))
step-some (is_done at) m s = done_at-IsSound at m s
step-some (cleans_up id) m s = (delete_if_closed id m, (refl, delete_if_closed-IsSound id m s))

run-IsSound :
    (os : List Operation) (m : Manager)
    → IsSound m
    → (last : Manager) × ((run os m ≡ some last) × IsSound last)
run-IsSound [] m s = (m, (refl, s))
run-IsSound (o ∷ os) m s =
    let (after, (e, t)) = step-some o m s in
    let (last, (f, u)) = run-IsSound os after t in (last, (ground (arith, e, f), u))

-- Whatever starts, calls of Done (one more than the senders too, and between the two halves of a
-- start) and cleanups went before, in any order, no wait group has gone below zero, and a
-- StartNotification between whose test of the old handler and whose Add no Done comes returns a
-- handler of the wanted name that is open.
pub run-open :
    (os : List Operation) (id : String)
    → (m : Manager) × ((run os new_manager ≡ some m)
        × ((r : ℕ × Manager) × ((start_notification id [] m ≡ some r) × IsOpenAt id r)))
unfolding start_notification
run-open os id =
    let (m, (e, s)) = run-IsSound os new_manager new_manager-IsSound in
    (
      m,
      (
        e,
        (
          existing_or_new id (delete_if_closed id m),
          (
            refl,
            existing_or_new-IsOpenAt id (delete_if_closed id m) (delete_if_closed-IsSound id m s)
                (delete_if_closed-open id m),
          ),
        ),
      ),
    )
