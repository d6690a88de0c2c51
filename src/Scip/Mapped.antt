-- ===== src/Scip/Mapped.antt =====
-- The request for a definition of src/ulsp/controller/scip/scip.go on a document that was edited: how its
-- positions go between the text as it is now and the text that was indexed.
use scip_lsp.Common.{
  ℕ, String, Option, some, Bool-cases, true, false, List, [], ◌∷◌, ◌++◌, string_key, ◌⊎◌, inl, inr,
  ◌≡◌, ◌≢◌, refl, ap, ◌∙◌, arith,
}
use scip_lsp.TextOffset.{Position, Result, Error, ok, err, position_offset}
use scip_lsp.Edits.{Diff, Range}
use scip_lsp.Occurrences.{Occurrence, is_matching_position}
use scip_lsp.PositionMapping.{
  PositionMapper, Mapped, new_position_mapper, map_position, map_between, offset_error,
  map_current_position_to_base, map_base_position_to_current,
}
use scip_lsp.PositionMapping.Maps.{AreDiffs, IsMapped, changed_mapper, map_position-IsMapped}
use scip_lsp.Registry.{Bindings, scip_to_protocol_range}
use scip_lsp.Sessions.{Repository}
use scip_lsp.Scip.{
  ScipError, map_error, Mappers, get_base_position, get_latest_position, get_latest_range,
}
use scip_lsp.Scip.Requests.{LocationLink, Registries, goto_definition}
use scip_lsp.Scip.Origins.{goto_definition-origin}

Result-cases {ℓ} :
    {A : Type ℓ} (r : Result A) → ((e : Error) × (r ≡ err e)) ⊎ ((a : A) × (r ≡ ok a))
Result-cases (ok a) = inr (a, refl)
Result-cases (err e) = inl (e, refl)

-- a position whose byte goes from one text to another as the diffs say, without an error
pub record Goes (source target : List ℕ) (ds : List Diff) (p q : Position) : Type 0 where
  pub offset : ℕ
  pub mapped : Mapped
  pub found : position_offset source p ≡ ok offset
  pub follows : IsMapped source target ds offset mapped
  pub result : mapped.position ≡ q

-- the position is not one of the text
abbrev pub IsOutside : List ℕ → Position → Type 0
IsOutside source p = (e : Error) × (position_offset source p ≡ err e)

-- both ends of a range go to those of the other, or one has no place in the text and nothing moves
abbrev pub Moves : List ℕ → List ℕ → List Diff → Range → Range → Type 0
Moves source target ds r r' =
    (Goes source target ds r.start r'.start × Goes source target ds r.end r'.end)
    ⊎ ((IsOutside source r.start ⊎ IsOutside source r.end) × (r' ≡ r))

module _ (diff_main : List ℕ → List ℕ → List Diff) (base current : List ℕ)
    (forward : AreDiffs base current (diff_main base current))
    (backward : AreDiffs current base (diff_main current base)) (changed : base ≢ current) where
  abbrev mapper : PositionMapper
  mapper = new_position_mapper diff_main base current

  reverse-Goes :
      (p : Position) (n : ℕ)
      → position_offset current p ≡ ok n
      → IsMapped current base (diff_main current base) n (map_position mapper p true)
  reverse-Goes p n e =
      map_position-IsMapped diff_main base current forward backward changed p n true e

  forward-Goes :
      (p : Position) (n : ℕ)
      → position_offset base p ≡ ok n
      → IsMapped base current (diff_main base current) n (map_position mapper p false)
  forward-Goes p n e =
      map_position-IsMapped diff_main base current forward backward changed p n false e

  refused-reverse :
      (p : Position) (x : Error)
      → position_offset current p ≡ err x
      → (map_position mapper p true).error ≡ some (offset_error x)
  unfolding map_position map_between
  refused-reverse p x e =
      ap (λ m. (map_position m p true).error)
        (changed_mapper diff_main base current forward backward changed)
      ∙ ground (arith, e)

  refused-forward :
      (p : Position) (x : Error)
      → position_offset base p ≡ err x
      → (map_position mapper p false).error ≡ some (offset_error x)
  unfolding map_position map_between
  refused-forward p x e =
      ap (λ m. (map_position m p false).error)
        (changed_mapper diff_main base current forward backward changed)
      ∙ ground (arith, e)

  module _ (position_mapper : Mappers) (uri : String)
      (here : position_mapper uri ≡ inr (some mapper)) where
    -- a position that is taken back to the indexed text has a byte there
    pub record Returns (p q : Position) : Type 0 where
      pub goes : Goes current base (diff_main current base) p q
      pub kept : goes.mapped.deleted ≡ false

    get_base_position-Returns :
        (p q : Position) → get_base_position position_mapper uri p ≡ inr (some q) → Returns p q
    unfolding get_base_position map_current_position_to_base
    get_base_position-Returns p q e = elim (Result-cases (position_offset current p)) [
      | inl (x, h) ↦ absurd (ground (arith, here, refused-reverse p x h, e))
      | inr (n, h) ↦
          let follows = reverse-Goes p n h in
          let m = map_position mapper p true in
          elim (Bool-cases m.deleted) [
            | inl gone ↦ absurd (ground (arith, here, follows.no_error, gone, e))
            | inr kept ↦ record {
              goes = record {
                offset = n;
                mapped = m;
                found = h;
                follows = follows;
                result = ground (arith, here, follows.no_error, kept, e);
              };
              kept = kept;
            }
          ]
    ]

    latest-found :
        (p : Position) (n : ℕ)
        → position_offset base p ≡ ok n
        → get_latest_position position_mapper uri p ≡ inr (map_position mapper p false).position
    unfolding get_latest_position map_base_position_to_current
    latest-found p n h = ground (arith, here, (forward-Goes p n h).no_error)

    latest-refused :
        (p : Position) (x : Error)
        → position_offset base p ≡ err x
        → (y : ScipError) × (get_latest_position position_mapper uri p ≡ inl y)
    unfolding get_latest_position map_base_position_to_current
    latest-refused p x h = (map_error (offset_error x), ground (arith, here, refused-forward p x h))

    latest-Goes :
        (p : Position) (n : ℕ)
        → position_offset base p ≡ ok n
        → Goes base current (diff_main base current) p (map_position mapper p false).position
    latest-Goes p n h = record {
      offset = n;
      mapped = map_position mapper p false;
      found = h;
      follows = forward-Goes p n h;
      result = refl;
    }

    get_latest_range-Moves :
        (r : Range)
        → Moves base current (diff_main base current) r (get_latest_range position_mapper uri r)
    unfolding get_latest_range
    get_latest_range-Moves r = elim (Result-cases (position_offset base r.start)) [
      | inl (x, h) ↦ let (y, e) = latest-refused r.start x h in inr (inl (x, h), ground (arith, e))
      | inr (n, h) ↦ elim (Result-cases (position_offset base r.end)) [
        | inl (x, k) ↦
            let (y, e) = latest-refused r.end x k in
            inr (inr (x, k), ground (arith, e, latest-found r.start n h))
        | inr (m, k) ↦
            rw (latest-found r.start n h, latest-found r.end m k, get_latest_range)
              (inl (latest-Goes r.start n h, latest-Goes r.end m k))
      ]
    ]

    -- one link was appended: from an occurrence that matches the place in the indexed text where the
    -- byte at the position was, with its range taken to the text as it is now as its origin
    pub record IsMappedLink (b : Bindings) (p : Position) (result after : List LocationLink)
        : Type 0 where
      pub indexed : Position
      pub link : LocationLink
      pub occurrence : Occurrence
      pub origin : Range
      pub returns : Returns p indexed
      pub appended : after ≡ result ++ link ∷ []
      pub matches : is_matching_position b.new_range occurrence indexed ≡ true
      pub has_origin : link.origin_selection_range ≡ some origin
      pub moves :
          Moves base current
            (diff_main base current)
            (scip_to_protocol_range b occurrence.range)
            origin

    -- On a document whose text differs from the indexed one, if the diffs of the two texts, in both
    -- directions, are of these very texts: the request for a definition leaves its result as it was, or
    -- it appends one link. Then the byte at the position is one that the diffs keep, an occurrence
    -- matches the position of that byte in the indexed text, and the origin of the link is the
    -- occurrence's range with both ends taken to the text as it is now, or unchanged if one of them has
    -- no place in the indexed text.
    pub goto_definition-mapped :
        {C P : Type 0} (b : Bindings) (ctx : Option String) (sessions : Repository C P)
        (registries : Registries) (p : Position) (result after : List LocationLink)
        → goto_definition b position_mapper ctx sessions registries uri p result ≡ inr after
        → (after ≡ result) ⊎ IsMappedLink b p result after
    goto_definition-mapped b ctx sessions registries p result after e =
        elim (goto_definition-origin b position_mapper ctx sessions registries uri p result after
          e) [
            | inl same ↦ inl same
            | inr l ↦ inr record {
              indexed = l.base;
              link = l.link;
              occurrence = l.occurrence;
              origin =
                  get_latest_range position_mapper uri
                    (scip_to_protocol_range b l.occurrence.range);
              returns = get_base_position-Returns p l.base l.at_base;
              appended = l.appended;
              matches = l.matches;
              has_origin = l.origin;
              moves = get_latest_range-Moves (scip_to_protocol_range b l.occurrence.range);
            }
          ]
