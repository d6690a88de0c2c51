-- ===== src/QuickActions/RangeStore/Matching.antt =====
-- Which code actions a search finds after one more was added: by the lines of the ranges.
use mathlib.Core.Path.{ap₂}
use scip_lsp.Common.{
  ℕ, suc, ◌+◌, String, List, [], ◌∷◌, ◌++◌, Bool, true, false, ◌&&◌, ltb, ◌≤◌, ◌≡◌, refl, sym, ap,
  ◌∙◌, arith, ◌==◌, string_key, if◌then◌else◌, get, put, get-put, get-nil, Bool-cases, Option-cases,
  ◌⊎◌, inl, inr,
}
use scip_lsp.Edits.{Range}
use scip_lsp.QuickActions.RangeStore.{
  range_key, CodeAction, ByRange, ActionRangeStore, or_empty, add_code_action, is_line_overlapping,
  collect, compare_code_actions, get_matching_code_actions,
}

-- how many actions of a list pass a test
abbrev pub count : (CodeAction → Bool) → List CodeAction → ℕ
count p [] = 0
count p (a ∷ as') = if p a then suc (count p as') else count p as'

count-append :
    (p : CodeAction → Bool) (xs ys : List CodeAction) → count p (xs ++ ys) ≡ count p xs + count p ys
count-append p [] ys = omega arith
count-append p (x ∷ xs) ys = ground (arith, count-append p xs ys)

collect-cons :
    (p : CodeAction → Bool) (q j : Range) (xs : List CodeAction) (rs : ByRange)
    → count p (collect q ((j, xs) ∷ rs))
      ≡ (if is_line_overlapping j q then count p xs else 0) + count p (collect q rs)
unfolding collect
collect-cons p q j xs rs = ground (arith, count-append p xs (collect q rs))

-- the actions of a document, with one more in the range `r`
abbrev with_action : Range → CodeAction → ByRange → ByRange
with_action r a rs = put r (or_empty (get r rs) ++ (a ∷ [])) rs

with_action-same :
    (j r : Range) (a : CodeAction) (xs : List CodeAction) (rs : ByRange)
    → (j == r) ≡ true
    → with_action r a ((j, xs) ∷ rs) ≡ (j, xs ++ (a ∷ [])) ∷ rs
unfolding get put
with_action-same j r a xs rs h =
    rw h (ap (λ k. (k, xs ++ (a ∷ [])) ∷ rs) (sym ((range_key.same_iff j r).0 h)))

with_action-other :
    (j r : Range) (a : CodeAction) (xs : List CodeAction) (rs : ByRange)
    → (j == r) ≡ false
    → with_action r a ((j, xs) ∷ rs) ≡ (j, xs) ∷ with_action r a rs
unfolding get put
with_action-other j r a xs rs h =
    let found : get r ((j, xs) ∷ rs) ≡ get r rs = rw h in
    let written : (ys : List CodeAction) → put r ys ((j, xs) ∷ rs) ≡ (j, xs) ∷ put r ys rs =
      λ ys. rw h in
    ap (λ o. put r (or_empty o ++ (a ∷ [])) ((j, xs) ∷ rs)) found ∙ written _

count-one : (p : CodeAction → Bool) (a : CodeAction) → count p (a ∷ []) ≡ (if p a then 1 else 0)
count-one p a = ground arith

collect-with_action :
    (p : CodeAction → Bool) (q r : Range) (a : CodeAction) (rs : ByRange)
    → count p (collect q (with_action r a rs))
      ≡ count p (collect q rs) + (if is_line_overlapping r q && p a then 1 else 0)
unfolding collect get put
collect-with_action p q r a [] = ground arith
collect-with_action p q r a ((j, xs) ∷ rs) = elim (Bool-cases (j == r)) [
  | inl same ↦
      let e : j ≡ r = (range_key.same_iff j r).0 same in
      ap (λ m. count p (collect q m)) (with_action-same j r a xs rs same)
      ∙ collect-cons p q j (xs ++ (a ∷ [])) rs
      ∙ ap (λ n. (if is_line_overlapping j q then n else 0) + count p (collect q rs))
          (count-append p xs (a ∷ []) ∙ ap (λ n. count p xs + n) (count-one p a))
      ∙ regroup p q j a (count p xs) (count p (collect q rs))
      ∙ ap (λ n. n + (if is_line_overlapping j q && p a then 1 else 0))
          (sym (collect-cons p q j xs rs))
      ∙ ap
          (λ k.
            count p (collect q ((j, xs) ∷ rs)) + (if is_line_overlapping k q && p a then 1 else 0))
          e
  | inr other ↦
      ap (λ m. count p (collect q m)) (with_action-other j r a xs rs other)
      ∙ collect-cons p q j xs (with_action r a rs)
      ∙ omega (arith, collect-with_action p q r a rs, collect-cons p q j xs rs)
]
  where
    regroup :
        (p : CodeAction → Bool) (q j : Range) (a : CodeAction) (n m : ℕ)
        → (if is_line_overlapping j q then n + (if p a then 1 else 0) else 0) + m
          ≡ (if is_line_overlapping j q then n else 0)
            + m
            + (if is_line_overlapping j q && p a then 1 else 0)
    regroup p q j a n m = ground arith

module _ (sort : (CodeAction → CodeAction → Bool) → List CodeAction → List CodeAction)
    (sort_keeps : (p : CodeAction → Bool) (l : List CodeAction)
      → count p (sort compare_code_actions l) ≡ count p l)
    (st : ActionRangeStore) (q : Range) (p : CodeAction → Bool) where
  abbrev found : ActionRangeStore → String → String → ℕ
  found x s d = count p (get_matching_code_actions sort x s d q)

  -- the count before the sort
  found-eq :
      (x : ActionRangeStore) (s d : String)
      → found x s d ≡ count p (collect q (or_empty (get d (or_empty (get s x.actions)))))
  unfolding get_matching_code_actions collect
  found-eq x s d = elim (Option-cases (get s x.actions)) [
    | inl n ↦ ground (arith, n, get-nil {V = ByRange} d)
    | inr (docs, y) ↦ elim (Option-cases (get d docs)) [
      | inl n ↦ ground (arith, y, n)
      | inr (rs, z) ↦ ground (arith, y, z, sort_keeps p (collect q rs))
    ]
  ]

  abbrev ranges_of : ActionRangeStore → String → String → ByRange
  ranges_of x s d = or_empty (get d (or_empty (get s x.actions)))

  ranges-add :
      (s d s' d' : String) (r : Range) (a : CodeAction)
      → ranges_of (add_code_action st s d r a) s' d'
        ≡ (if s == s' && d == d' then with_action r a (ranges_of st s d) else ranges_of st s' d')
  unfolding add_code_action
  ranges-add s d s' d' r a =
      let docs = or_empty (get s st.actions) in
      let rs = or_empty (get d docs) in
      ground (
        arith,
        get-put s s' (put d (with_action r a rs) docs) st.actions,
        get-put d d' (with_action r a rs) docs,
        string_key.same_iff s s',
      )

  get_matching_code_actions-add :
      (s d s' d' : String) (r : Range) (a : CodeAction)
      → count p (get_matching_code_actions sort (add_code_action st s d r a) s' d' q)
        ≡ count p (get_matching_code_actions sort st s' d' q)
          + (if (s == s' && d == d') && (is_line_overlapping r q && p a) then 1 else 0)
  get_matching_code_actions-add s d s' d' r a =
      found-eq (add_code_action st s d r a) s' d'
      ∙ ap (λ m. count p (collect q m)) (ranges-add s d s' d' r a)
      ∙ elim (Bool-cases (s == s' && d == d')) [
        | inl same ↦
            let es : s ≡ s' =
              ground (arith, same, string_key.same_iff s s', string_key.same_iff d d') in
            let ed : d ≡ d' =
              ground (arith, same, string_key.same_iff s s', string_key.same_iff d d') in
            let here : count p (collect q (ranges_of st s d)) ≡ found st s' d' =
              ap₂ (λ x y. count p (collect q (ranges_of st x y))) es ed ∙ sym (found-eq st s' d') in
            rw same (
              collect-with_action p q r a (ranges_of st s d)
              ∙ ap (λ n. n + (if is_line_overlapping r q && p a then 1 else 0)) here)
        | inr other ↦ rw other (sym (found-eq st s' d') ∙ omega arith)
      ]

-- a line of both ranges
pub record SharesLine (r q : Range) : Type 0 where
  pub line : ℕ
  pub from_start : r.start.line ≤ line
  pub to_end : line ≤ r.end.line
  pub from_search_start : q.start.line ≤ line
  pub to_search_end : line ≤ q.end.line

overlapping-of_line : (r q : Range) → SharesLine r q → is_line_overlapping r q ≡ true
overlapping-of_line r q s =
    ground (arith, s.from_start, s.to_end, s.from_search_start, s.to_search_end)

overlapping-line :
    (r q : Range)
    → r.start.line ≤ r.end.line
    → q.start.line ≤ q.end.line
    → is_line_overlapping r q ≡ true
    → SharesLine r q
overlapping-line r q hr hq e =
    let a : q.start.line ≤ r.end.line = ground (arith, e) in
    let b : r.start.line ≤ q.end.line = ground (arith, e) in
    elim (Bool-cases (ltb r.start.line q.start.line)) [
      | inl below ↦
          let c : r.start.line ≤ q.start.line = ground (arith, below) in
          record {
            line = q.start.line;
            from_start = c;
            to_end = a;
            from_search_start = omega arith;
            to_search_end = hq;
          }
      | inr above ↦
          let c : q.start.line ≤ r.start.line = ground (arith, above) in
          record {
            line = r.start.line;
            from_start = omega arith;
            to_end = hr;
            from_search_start = c;
            to_search_end = b;
          }
    ]

-- the actions that a search hands to `sort.Slice`
abbrev pub handed_to_sort : ActionRangeStore → String → String → Range → List CodeAction
handed_to_sort st s d q = get_matching_code_actions (λ f l. l) st s d q

-- A search after `AddCodeAction` hands `sort.Slice` each action as often as before, and the new one
-- once more if it is a search of that session and document and some line is one of both ranges.
-- Otherwise it hands each over as often as before. Neither range ends on a line before its start.
pub get_matching_code_actions-shared :
    (st : ActionRangeStore) (s d s' d' : String) (r q : Range) (a : CodeAction)
    (p : CodeAction → Bool)
    → r.start.line ≤ r.end.line
    → q.start.line ≤ q.end.line
    → ((((s == s' && d == d') ≡ true) × SharesLine r q)
        × (count p (handed_to_sort (add_code_action st s d r a) s' d' q)
            ≡ count p (handed_to_sort st s' d' q) + (if p a then 1 else 0)))
      ⊎ ((((s == s' && d == d') ≡ false) ⊎ (¬ SharesLine r q))
          × (count p (handed_to_sort (add_code_action st s d r a) s' d' q)
              ≡ count p (handed_to_sort st s' d' q)))
get_matching_code_actions-shared st s d s' d' r q a p hr hq =
    let law = get_matching_code_actions-add (λ f l. l) (λ p l. refl) st q p s d s' d' r a in
    elim (Bool-cases (s == s' && d == d')) [
      | inr other ↦ inr (inl other, law ∙ ground (arith, other))
      | inl same ↦ elim (Bool-cases (is_line_overlapping r q)) [
        | inl o ↦ inl ((same, overlapping-line r q hr hq o), law ∙ ground (arith, same, o))
        | inr o ↦ inr (
          inr (λ shared. absurd (ground (arith, o, overlapping-of_line r q shared))),
          law ∙ ground (arith, same, o),
        )
      ]
    ]
