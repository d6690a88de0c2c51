-- ===== src/Scip/Origins.antt =====
-- The request for a definition of src/ulsp/controller/scip/scip.go: from which occurrence its link starts.
use scip_lsp.Common.{
  String, Option, none, some, Sum-cases, true, List, [], ◌∷◌, ◌++◌, string_key, ◌⊎◌, inl, inr, ◌≡◌,
  arith,
}
use scip_lsp.TextOffset.{Position}
use scip_lsp.Occurrences.{Occurrence, is_matching_position}
use scip_lsp.Registry.{SymbolOccurrence, Index, Bindings, scip_to_protocol_range}
use scip_lsp.Registry.Queries
use scip_lsp.Registry.Sound.{definition-source}
use scip_lsp.Sessions.{Repository}
use scip_lsp.Scip.{Mappers, get_base_position, get_latest_range}
use scip_lsp.Scip.Requests.{
  LocationLink, Registries, registry_of, link_of, link_definition, goto_definition,
}

module _ (b : Bindings) (position_mapper : Mappers) where
  -- one link was appended, from an occurrence at the base position
  pub record IsLinked (uri : String) (p : Position) (result after : List LocationLink)
      : Type 0 where
    pub base : Position
    pub link : LocationLink
    pub occurrence : Occurrence
    pub at_base : get_base_position position_mapper uri p ≡ inr (some base)
    pub appended : after ≡ result ++ link ∷ []
    pub matches : is_matching_position b.new_range occurrence base ≡ true
    pub origin :
        link.origin_selection_range
        ≡ some (get_latest_range position_mapper uri (scip_to_protocol_range b occurrence.range))

  origin-link_of :
      (uri : String) (src def : SymbolOccurrence) (o : Occurrence)
      → src.occurrence ≡ some o
      → (link_of b position_mapper uri src def).origin_selection_range
        ≡ some (get_latest_range position_mapper uri (scip_to_protocol_range b o.range))
  unfolding link_of
  origin-link_of uri src def o e = ground (arith, e)

  linked :
      (index : Index) (uri : String) (p : Position) (result after : List LocationLink)
      → link_definition b position_mapper index uri p result ≡ inr after
      → (after ≡ result) ⊎ IsLinked uri p result after
  unfolding link_definition
  linked index uri p result after e = elim (Sum-cases (get_base_position position_mapper uri p)) [
    | inl (err, h) ↦ ground (arith, h, e)
    | inr (none, h) ↦ inl (ground (arith, h, e))
    | inr (some base, h) ↦ elim (Sum-cases (Queries.definition b index uri base)) [
      | inl (err, d) ↦ ground (arith, h, d, e)
      | inr (none, d) ↦ inl (ground (arith, h, d, e))
      | inr (some (src, def), d) ↦
          let (o, from, matching) = definition-source b index uri base src def d in
          inr record {
            base = base;
            link = link_of b position_mapper uri src def;
            occurrence = o;
            at_base = h;
            appended = ground (arith, h, d, e);
            matches = matching;
            origin = origin-link_of uri src def o from;
          }
    ]
  ]

  -- The request for a definition leaves its result as it was, or it appends one link. The link's origin is
  -- the range, in the text as it is now, of an occurrence that matches the position, taken back to the
  -- text that was indexed.
  pub goto_definition-origin :
      {C P : Type 0} (ctx : Option String) (sessions : Repository C P) (registries : Registries)
      (uri : String) (p : Position) (result after : List LocationLink)
      → goto_definition b position_mapper ctx sessions registries uri p result ≡ inr after
      → (after ≡ result) ⊎ IsLinked uri p result after
  unfolding goto_definition
  goto_definition-origin ctx sessions registries uri p result after e =
      elim (Sum-cases (registry_of ctx sessions registries)) [
        | inl (err, r) ↦ ground (arith, r, e)
        | inr (none, r) ↦ inl (ground (arith, r, e))
        | inr (some index, r) ↦ linked index uri p result after (ground (arith, r, e))
      ]
