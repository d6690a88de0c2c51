-- ===== src/Registry/Sound.antt =====
-- What the answers of src/ulsp/controller/scip/partial_registry.go have in common with the position.
use scip_lsp.Common.{
  String, Option, none, some, Option-cases, Sum-cases, Bool-cases, true, List, [], ◌∷◌, string_key,
  if◌then◌else◌, inl, inr, ◌≡◌, sym, ap, ◌∙◌, arith,
}
use scip_lsp.Common.Int.{ℤ}
use scip_lsp.TextOffset.{Position}
use scip_lsp.Occurrences.{
  Occurrence, Found, found, missing, out_of_bounds, out_of_fuel, get_occurrence_for_position,
  get_occurrences_for_symbol, has_role, is_matching_position,
}
use scip_lsp.Occurrences.Search.{get_occurrence_for_position-IsSound, IsSound}
use scip_lsp.Registry.{
  SymbolInformation, Document, SymbolOccurrence, Index, Bindings, uri_to_relative_path,
}
use scip_lsp.PartialLoader.PrefixTree.{Descriptor}
use scip_lsp.Registry.Queries.{
  occurrence_or_nil, first_of, definition_role, occurrence_at, local_definition,
  definition_of_symbol, get_symbol_definition_occurrence, definition, parse_scip_symbol,
}

pub first_of-get_occurrences_for_symbol :
    (os : List Occurrence) (symbol : String) (role : ℤ) (d : Occurrence)
    → first_of (get_occurrences_for_symbol os symbol role) ≡ some d
    → (has_role role d ≡ true) × (d.symbol ≡ symbol)
unfolding get_occurrences_for_symbol
first_of-get_occurrences_for_symbol [] symbol role d e = ground (arith, e)
first_of-get_occurrences_for_symbol (o ∷ os) symbol role d e = ground (
  arith,
  e,
  first_of-get_occurrences_for_symbol os symbol role d,
  string_key.same_iff o.symbol symbol,
)

module _ (b : Bindings) (index : Index) where
  occurrence_of_found :
      (occs : List Occurrence) (p : Position) (o : Occurrence)
      → occurrence_or_nil (get_occurrence_for_position b.new_range occs p) ≡ inr (some o)
      → is_matching_position b.new_range o p ≡ true
  occurrence_of_found occs p o e =
      go (get_occurrence_for_position b.new_range occs p)
        (get_occurrence_for_position-IsSound b.new_range occs p) e
    where
      go :
          (f : Found)
          → IsSound b.new_range occs p f
          → occurrence_or_nil f ≡ inr (some o)
          → is_matching_position b.new_range o p ≡ true
      go (found a) (k, at, m) h = ground (arith, m, h)
      go missing sound h = ground (arith, h)
      go out_of_bounds sound h = absurd sound
      go out_of_fuel sound h = absurd sound

  pub occurrence_at-matching :
      (uri : String) (p : Position) (doc : Document) (o : Occurrence)
      → occurrence_at b index uri p ≡ inr (some (doc, o))
      → is_matching_position b.new_range o p ≡ true
  unfolding occurrence_at
  occurrence_at-matching uri p doc o e =
      elim (Sum-cases (index.load_document (uri_to_relative_path b uri))) [
        | inl (err, l) ↦ ground (arith, l, e)
        | inr (none, l) ↦ ground (arith, l, e)
        | inr (some found_doc, l) ↦
            occurrence_of_found found_doc.occurrences p o (ground (arith, l, e))
      ]

  -- the symbol that a definition is looked up by
  abbrev pub name_of : Option SymbolInformation → String
  name_of none = ""
  name_of (some info) = info.symbol

  get_symbol_definition_occurrence_sound :
      (ds : List Descriptor) (version : String) (so : SymbolOccurrence) (d : Occurrence)
      → get_symbol_definition_occurrence b index ds version ≡ inr (some so)
      → so.occurrence ≡ some d
      → (has_role definition_role d ≡ true) × (d.symbol ≡ name_of so.info)
  unfolding get_symbol_definition_occurrence
  get_symbol_definition_occurrence_sound ds version so d e f =
      elim (Sum-cases (index.symbol_from_descriptors ds version)) [
        | inl (err, l) ↦ ground (arith, l, e)
        | inr ((none, path), l) ↦ ground (arith, l, e)
        | inr ((some info, path), l) ↦ elim (Sum-cases (index.load_document path)) [
          | inl (err, k) ↦ ground (arith, l, k, e)
          | inr (none, k) ↦ ground (arith, l, k, e)
          | inr (some doc, k) ↦ ground (
            arith,
            l,
            k,
            e,
            f,
            first_of-get_occurrences_for_symbol doc.occurrences info.symbol definition_role d,
          )
        ]
      ]

  definition_of_symbol_sound :
      (symbol : String) (so : SymbolOccurrence) (d : Occurrence)
      → definition_of_symbol b index symbol ≡ inr (some so)
      → so.occurrence ≡ some d
      → (has_role definition_role d ≡ true) × (d.symbol ≡ name_of so.info)
  unfolding definition_of_symbol
  definition_of_symbol_sound symbol so d e f = elim (Sum-cases (parse_scip_symbol b symbol)) [
    | inl (err, l) ↦ ground (arith, l, e)
    | inr (s, l) ↦ elim (Option-cases s.pkg) [
      | inl n ↦ ground (arith, l, n, e)
      | inr (pkg, n) ↦
          get_symbol_definition_occurrence_sound s.descriptors pkg.version so d
            (ground (arith, l, n, e)) f
    ]
  ]

  -- An answer of Definition starts from an occurrence that matches the position, and if it holds a
  -- definition, that is an occurrence with the role of a definition. It defines the symbol of the source
  -- if that is local, and otherwise the symbol of the information that the index has found.
  pub definition_sound :
      (uri : String) (p : Position) (src def : SymbolOccurrence) (o d : Occurrence)
      → definition b index uri p ≡ inr (some (src, def))
      → src.occurrence ≡ some o
      → def.occurrence ≡ some d
      → (is_matching_position b.new_range o p ≡ true)
        × (has_role definition_role d ≡ true)
        × (d.symbol ≡ (if b.is_local_symbol o.symbol then o.symbol else name_of def.info))
  unfolding definition
  definition_sound uri p src def o d e f g = elim (Sum-cases (occurrence_at b index uri p)) [
    | inl (err, a) ↦ ground (arith, a, e)
    | inr (none, a) ↦ ground (arith, a, e)
    | inr (some (doc, at), a) ↦ elim (Bool-cases (b.is_local_symbol at.symbol)) [
      | inl local ↦
          let same : (some o ≡ some at) × (def ≡ local_definition b index uri doc at) =
            ground (arith, a, local, e, f) in
          ground (
            arith,
            same,
            local,
            g,
            occurrence_at-matching uri p doc at a,
            first_of-get_occurrences_for_symbol doc.occurrences at.symbol definition_role d,
          )
      | inr global ↦ elim (Sum-cases (definition_of_symbol b index at.symbol)) [
        | inl (err, k) ↦ ground (arith, a, global, k, e)
        | inr (none, k) ↦ ground (arith, a, global, k, e)
        | inr (some so, k) ↦
            let same : (some o ≡ some at) × (def ≡ so) = ground (arith, a, global, k, e, f) in
            ground (
              arith,
              same,
              global,
              occurrence_at-matching uri p doc at a,
              definition_of_symbol_sound at.symbol so d k
                  (ap (λ (x : SymbolOccurrence). x.occurrence) (sym same.1) ∙ g),
            )
      ]
    ]
  ]

  -- an answer has a source, which matches the position
  pub definition-source :
      (uri : String) (p : Position) (src def : SymbolOccurrence)
      → definition b index uri p ≡ inr (some (src, def))
      → (o : Occurrence) × (src.occurrence ≡ some o) × (is_matching_position b.new_range o p ≡ true)
  unfolding definition
  definition-source uri p src def e = elim (Sum-cases (occurrence_at b index uri p)) [
    | inl (err, a) ↦ ground (arith, a, e)
    | inr (none, a) ↦ ground (arith, a, e)
    | inr (some (doc, at), a) ↦
        let matching : is_matching_position b.new_range at p ≡ true =
          occurrence_at-matching uri p doc at a in
        elim (Bool-cases (b.is_local_symbol at.symbol)) [
          | inl local ↦ (at, ground (arith, a, local, e), matching)
          | inr global ↦ elim (Sum-cases (definition_of_symbol b index at.symbol)) [
            | inl (err, k) ↦ ground (arith, a, global, k, e)
            | inr (none, k) ↦ ground (arith, a, global, k, e)
            | inr (some so, k) ↦ (at, ground (arith, a, global, k, e), matching)
          ]
        ]
  ]
