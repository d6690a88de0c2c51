-- ===== src/Notifier/Messages.antt =====
-- captureUpdate of src/ulsp/internal/persistent-notifier/notifier.go. The sort and the joining of texts
-- are the standard library's: `sorted` and `join`. A map is gone through in the order of its list.
use scip_lsp.Common.{
  ℕ, zero, suc, String, Option, none, some, Option-cases, Bool-cases, Bool, true, List, [], ◌∷◌,
  ◌++◌, Dict, get, put, remove, get-put, get-nil, string_key, number_key, ◌==◌, if◌then◌else◌,
  length, get_elem?, ◌≡◌, refl, ap, ◌&&◌, ◌∙◌, ◌⊎◌, inl, inr, arith,
}
use scip_lsp.Common.Int.{ℤ, ltb_ℤ, leb_ℤ, ◌≤ℤ◌}

pub record Notification : Type 0 where
  pub sender_token : String
  pub identifier_token : String
  pub priority : ℤ
  pub message : String

abbrev pub Updates : Type 0
Updates = Dict String (Dict String Notification)

-- A missing sender has no updates.
abbrev pub updates_of : Option (Dict String Notification) → Dict String Notification
updates_of none = []
updates_of (some u) = u

-- a removal, and a sender that has nothing left
abbrev pub without_update : Notification → Updates → Updates
without_update n all = elim (get n.sender_token all) [
  | none ↦ all
  | some own ↦
      let left = remove n.identifier_token own in
      if length left == 0 then remove n.sender_token all else put n.sender_token left all
]

unfoldable pub capture : Notification → Updates → Updates
capture n all =
    if n.message == ""
    then without_update n all
    else put n.sender_token (put n.identifier_token n (updates_of (get n.sender_token all))) all

-- the updates of all senders
abbrev pub entries_of : Dict String Notification → List Notification
entries_of [] = []
entries_of ((k, n) ∷ own) = n ∷ entries_of own

abbrev pub all_updates : Updates → List Notification
all_updates [] = []
all_updates ((sender, own) ∷ rest) = entries_of own ++ all_updates rest

unfoldable pub condense_one : Notification → Dict String Notification → Dict String Notification
condense_one n best = elim (get n.identifier_token best) [
  | none ↦ put n.identifier_token n best
  | some existing ↦
      if ltb_ℤ n.priority existing.priority then put n.identifier_token n best else best
]

-- the loop over the updates, which keeps the lowest priority of each identifier
abbrev pub condense : List Notification → Dict String Notification → Dict String Notification
condense [] best = best
condense (n ∷ ns) best = condense ns (condense_one n best)

abbrev pub messages_of : Dict String Notification → List String
messages_of [] = []
messages_of ((k, n) ∷ best) = n.message ∷ messages_of best

-- one message stands alone, and the others are sorted and put into brackets
abbrev pub combined : (List String → List String) → (List String → String) → List String → String
combined sorted bracketed (m ∷ []) = m
combined sorted bracketed ms = bracketed (sorted ms)

-- the update that is shown for each identifier
unfoldable pub condensed : Notification → Updates → Dict String Notification
condensed n all = condense (all_updates (capture n all)) []

unfoldable pub capture_update :
    (List String → List String) → (List String → String) → Notification → Updates → String × Updates
capture_update sorted bracketed n all =
    (combined sorted bracketed (messages_of (condensed n all)), capture n all)

-- no update of an identifier has a lower priority
abbrev pub at_least : ℤ → String → List Notification → Bool
at_least p k [] = true
at_least p k (n ∷ ns) =
    let later = at_least p k ns in
    if n.identifier_token == k then leb_ℤ p n.priority && later else later

abbrev pub lower_of : Option Notification → Notification → Notification
lower_of none n = n
lower_of (some e) n = if ltb_ℤ n.priority e.priority then n else e

-- the loop for one identifier
abbrev pub lowest : String → List Notification → Option Notification → Option Notification
lowest k [] o = o
lowest k (n ∷ ns) o = lowest k ns (if n.identifier_token == k then some (lower_of o n) else o)

get-condense_one :
    (k : String) (n : Notification) (best : Dict String Notification)
    → get k (condense_one n best)
      ≡ (if n.identifier_token == k then some (lower_of (get k best) n) else get k best)
unfolding condense_one
get-condense_one k n best = elim (Option-cases (get n.identifier_token best)) [
  | inl c ↦
      ground
        (arith, c, get-put n.identifier_token k n best, string_key.same_iff n.identifier_token k)
  | inr (old, c) ↦ elim (Bool-cases (ltb_ℤ n.priority old.priority)) [
    | inl low ↦ ground (
      arith,
      c,
      low,
      get-put n.identifier_token k n best,
      string_key.same_iff n.identifier_token k,
    )
    | inr high ↦ ground (arith, c, high, string_key.same_iff n.identifier_token k)
  ]
]

get-condense :
    (k : String) (ns : List Notification) (best : Dict String Notification)
    → get k (condense ns best) ≡ lowest k ns (get k best)
get-condense k [] best = refl
get-condense k (n ∷ ns) best =
    get-condense k ns (condense_one n best) ∙ ap (lowest k ns) (get-condense_one k n best)

leb_ℤ-true : (a b : Notification) → a.priority ≤ℤ b.priority → leb_ℤ a.priority b.priority ≡ true
leb_ℤ-true a b h = ground (arith, h)

trans_ℤ :
    (a b c : Notification)
    → a.priority ≤ℤ b.priority
    → b.priority ≤ℤ c.priority
    → a.priority ≤ℤ c.priority
trans_ℤ a b c h k = omega (arith, h, k)

lower_of-le_new :
    (o : Option Notification) (m : Notification) → (lower_of o m).priority ≤ℤ m.priority
lower_of-le_new none m = ground arith
lower_of-le_new (some e) m = ground arith

lower_of-le_old :
    (o : Option Notification) (m e : Notification)
    → o ≡ some e
    → (lower_of o m).priority ≤ℤ e.priority
lower_of-le_old none m e f = ground (arith, f)
lower_of-le_old (some x) m e f = ground (arith, f)

lower_of-cases :
    (o : Option Notification) (m : Notification) → (lower_of o m ≡ m) ⊎ (o ≡ some (lower_of o m))
lower_of-cases none m = inl refl
lower_of-cases (some e) m = elim (Bool-cases (ltb_ℤ m.priority e.priority)) [
  | inl low ↦ inl (ground (arith, low))
  | inr high ↦ inr (ground (arith, high))
]

-- what the loop keeps, of the updates and of what was there before
abbrev pub IsLowest : String → List Notification → Option Notification → Notification → Type 0
IsLowest k ns o n =
    (at_least n.priority k ns ≡ true)
    × (((e : Notification) → o ≡ some e → n.priority ≤ℤ e.priority)
        × ((o ≡ some n) ⊎ ((n.identifier_token ≡ k) × ((i : ℕ) × (get_elem? ns i ≡ some n)))))

lowest-IsLowest :
    (k : String) (ns : List Notification) (o : Option Notification) (n : Notification)
    → lowest k ns o ≡ some n
    → IsLowest k ns o n
lowest-IsLowest k [] o n e = (refl, (λ x f. ground (arith, e, f), inl e))
lowest-IsLowest k (m ∷ ns) o n e = elim (Bool-cases (m.identifier_token == k)) [
  | inl same ↦
      let (least, (below, from)) =
        lowest-IsLowest k ns (some (lower_of o m)) n (ground (arith, same, e)) in
      let under : n.priority ≤ℤ (lower_of o m).priority = below (lower_of o m) refl in
      (
        ground (
          arith,
          same,
          least,
          leb_ℤ-true n m (trans_ℤ n (lower_of o m) m under (lower_of-le_new o m)),
        ),
        (
          λ x f. trans_ℤ n (lower_of o m) x under (lower_of-le_old o m x f),
          elim from [
            | inl here ↦ elim (lower_of-cases o m) [
              | inl new ↦ inr (
                ground (arith, same, here, new, (string_key.same_iff m.identifier_token k).0 same),
                (0, ground (arith, here, new)),
              )
              | inr old ↦ inl (old ∙ here)
            ]
            | inr (name, (i, at)) ↦ inr (name, (suc i, at))
          ],
        ),
      )
  | inr other ↦
      let (least, (below, from)) = lowest-IsLowest k ns o n (ground (arith, other, e)) in
      (
        ground (arith, other, least),
        (below, elim from [ inl here ↦ inl here | inr (name, (i, at)) ↦ inr (name, (suc i, at)) ]),
      )
]

lowest-of_some :
    (k : String) (ns : List Notification) (e : Notification)
    → (x : Notification) × (lowest k ns (some e) ≡ some x)
lowest-of_some k [] e = (e, refl)
lowest-of_some k (n ∷ ns) e = elim (Bool-cases (n.identifier_token == k)) [
  | inl same ↦
      let (x, f) = lowest-of_some k ns (lower_of (some e) n) in (x, ground (arith, same, f))
  | inr other ↦ let (x, f) = lowest-of_some k ns e in (x, ground (arith, other, f))
]

lowest-of_update :
    (k : String) (ns : List Notification) (o : Option Notification) (i : ℕ) (m : Notification)
    → get_elem? ns i ≡ some m
    → m.identifier_token ≡ k
    → (x : Notification) × (lowest k ns o ≡ some x)
lowest-of_update k [] o i m e n = ground (arith, e)
lowest-of_update k (x ∷ ns) o zero m e n =
    let (y, f) = lowest-of_some k ns (lower_of o x) in
    (y, ground (arith, e, n, f, string_key.same_iff x.identifier_token k))
lowest-of_update k (x ∷ ns) o (suc i) m e n = lowest-of_update k ns _ i m e n

le_of : (p q : ℤ) → leb_ℤ p q ≡ true → p ≤ℤ q
le_of p q h = ground (arith, h)

at_least-le :
    (p : ℤ) (k : String) (ns : List Notification) (i : ℕ) (m : Notification)
    → at_least p k ns ≡ true
    → get_elem? ns i ≡ some m
    → m.identifier_token ≡ k
    → p ≤ℤ m.priority
at_least-le p k [] i m a e n = ground (arith, e)
at_least-le p k (x ∷ ns) zero m a e n =
    let h : leb_ℤ p m.priority ≡ true =
      ground (arith, a, e, n, string_key.same_iff x.identifier_token k) in
    le_of p m.priority h
at_least-le p k (x ∷ ns) (suc i) m a e n = at_least-le p k ns i m (ground (arith, a)) e n

-- Whatever update is captured, each update that some sender has then is represented: under its
-- identifier one of the updates of all senders is shown, with this identifier, and with a priority
-- that is not above the given one's.
pub condensed-le :
    (n : Notification) (all : Updates) (i : ℕ) (m : Notification)
    → get_elem? (all_updates (capture n all)) i ≡ some m
    → (x : Notification) × ((get m.identifier_token (condensed n all) ≡ some x)
        × ((x.identifier_token ≡ m.identifier_token)
            × ((x.priority ≤ℤ m.priority)
                × ((j : ℕ) × (get_elem? (all_updates (capture n all)) j ≡ some x)))))
unfolding condensed
condensed-le n all i m e =
    let k : String = m.identifier_token in
    let ns : List Notification = all_updates (capture n all) in
    let (x, f) = lowest-of_update k ns none i m e refl in
    let (least, (below, from)) = lowest-IsLowest k ns none x f in
    let (name, place) = from_updates k ns x from in
    (
      x,
      (
        get-condense k ns [] ∙ ap (lowest k ns) (get-nil k) ∙ f,
        (name, (at_least-le x.priority k ns i m least e refl, place)),
      ),
    )
  where
    from_updates :
        (k : String) (ns : List Notification) (x : Notification)
        → (let o : Option Notification = none in o ≡ some x)
          ⊎ ((x.identifier_token ≡ k) × ((j : ℕ) × (get_elem? ns j ≡ some x)))
        → (x.identifier_token ≡ k) × ((j : ℕ) × (get_elem? ns j ≡ some x))
    from_updates k ns x (inl e) = ground (arith, e)
    from_updates k ns x (inr p) = p
