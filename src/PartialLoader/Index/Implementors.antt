-- ===== src/PartialLoader/Index/Implementors.antt =====
-- Implementations of src/scip-lib/partialloader/index.go after a load.
use scip_lsp.Common.{
  ℕ, String, Option, none, some, Bool, false, List, [], ◌∷◌, Dict, get, put, get-put, Distinct,
  put-Distinct, string_key, ◌==◌, ◌||◌, ◌&&◌, contains, ◌≡◌, refl, ◌∙◌, arith, Bool-cases, inl, inr,
}
use scip_lsp.Registry.{Bindings}
use scip_lsp.Scanner.Wire.{Protowire}
use scip_lsp.Scanner.{
  Visit, match_document, visit_document, visit_symbol, visit_occurrence, scan_index_reader,
  new_reader,
}
use scip_lsp.PartialLoader.Convert.{
  ScipDocument, ScipSymbolInformation, ScipOccurrence, Relationship,
}
use scip_lsp.PartialLoader.Index.{
  PartialLoadedIndex, LocalIndex, new_local_index, is_some, implementors_or_new, add_implementor,
  add_relationships, match_document_path, visit_symbol_information, visit_scip_document, visit_all,
}
use scip_lsp.PartialLoader.Index.Load.{
  union, merge_implementors, merge_local, Unmarshal, load_impl, load_index,
}
use scip_lsp.PartialLoader.Index.Queries.{symbols_in, implementations}

abbrev Sets : Type 0
Sets = Dict String (Dict String (Unit {0}))

-- whether a symbol is kept as implementing another
abbrev implements : String → String → Sets → Bool
implements s a m = is_some (get s (implementors_or_new (get a m)))

-- whether a relationship says so
abbrev pub says : String → List (Option Relationship) → Bool
says a [] = false
says a (none ∷ rs) = says a rs
says a (some r ∷ rs) = (r.is_implementation && r.symbol == a) || says a rs

abbrev pub visits_say :
    String → String → List (Visit ScipSymbolInformation ScipOccurrence ScipDocument) → Bool
visits_say s a [] = false
visits_say s a (visit_symbol path i ∷ vs) =
    (i.info.symbol == s && says a i.relationships) || visits_say s a vs
visits_say s a (match_document path ∷ vs) = visits_say s a vs
visits_say s a (visit_document d ∷ vs) = visits_say s a vs
visits_say s a (visit_occurrence path o ∷ vs) = visits_say s a vs

implements-add :
    (s a abs symbol : String) (m : Sets)
    → implements s a (add_implementor abs symbol m)
      ≡ ((symbol == s && abs == a) || implements s a m)
unfolding add_implementor
implements-add s a abs symbol m = ground (
  arith,
  get-put abs a (put symbol tt (implementors_or_new (get abs m))) m,
  get-put symbol s tt (implementors_or_new (get abs m)),
  string_key.same_iff abs a,
)

implements-add_relationships :
    (s a symbol : String) (rs : List (Option Relationship)) (m : Sets)
    → implements s a (add_relationships rs symbol m)
      ≡ ((symbol == s && says a rs) || implements s a m)
unfolding add_relationships
implements-add_relationships s a symbol [] m = ground arith
implements-add_relationships s a symbol (none ∷ rs) m = implements-add_relationships s a symbol rs m
implements-add_relationships s a symbol (some r ∷ rs) m = elim (Bool-cases r.is_implementation) [
  | inl yes_it ↦ ground (
    arith,
    yes_it,
    implements-add_relationships s a symbol rs (add_implementor r.symbol symbol m),
    implements-add s a r.symbol symbol m,
  )
  | inr not_it ↦ ground (arith, not_it, implements-add_relationships s a symbol rs m)
]

add_relationships-Distinct :
    (symbol : String) (rs : List (Option Relationship)) (m : Sets)
    → Distinct m
    → Distinct (add_relationships rs symbol m)
unfolding add_relationships add_implementor
add_relationships-Distinct symbol [] m d = d
add_relationships-Distinct symbol (none ∷ rs) m d = add_relationships-Distinct symbol rs m d
add_relationships-Distinct symbol (some r ∷ rs) m d = elim (Bool-cases r.is_implementation) [
  | inl yes_it ↦ rw yes_it (add_relationships-Distinct symbol rs _ (put-Distinct r.symbol _ m d))
  | inr not_it ↦ rw not_it (add_relationships-Distinct symbol rs m d)
]

get-union :
    (s : String) (set new : Dict String (Unit {0}))
    → is_some (get s (union set new)) ≡ (is_some (get s set) || is_some (get s new))
unfolding union get
get-union s set [] = ground arith
get-union s set ((k, u) ∷ rest) =
    ground (arith, get-union s (put k tt set) rest, get-put k s tt set)

implements-merge :
    (s a : String) (m new : Sets)
    → Distinct new
    → implements s a (merge_implementors m new) ≡ (implements s a m || implements s a new)
unfolding merge_implementors Distinct get
implements-merge s a m [] d = ground arith
implements-merge s a m ((k, impls) ∷ rest) (fresh, d) = ground (
  arith,
  fresh,
  implements-merge s a (put k (union (implementors_or_new (get k m)) impls) m) rest d,
  get-put k a (union (implementors_or_new (get k m)) impls) m,
  get-union s (implementors_or_new (get k m)) impls,
  string_key.same_iff k a,
)

contains-symbols_in :
    (s : String) (set : Dict String (Unit {0})) → contains s (symbols_in set) ≡ is_some (get s set)
unfolding contains get
contains-symbols_in s [] = refl
contains-symbols_in s ((k, u) ∷ rest) = ground (arith, contains-symbols_in s rest)

module _ (b : Bindings) (preamble : String → String) (clean : String → String)
    (has_prefix : String → String → Bool) (text : List ℕ → String) where
  implements-visit_all :
      (s a index_path : String)
      (vs : List (Visit ScipSymbolInformation ScipOccurrence ScipDocument)) (l : LocalIndex)
      → implements s a
          (visit_all b preamble clean has_prefix text index_path vs l).implementors_by_symbol
        ≡ (visits_say s a vs || implements s a l.implementors_by_symbol)
  unfolding visit_all match_document_path visit_symbol_information visit_scip_document
  implements-visit_all s a index_path [] l = refl
  implements-visit_all s a index_path (match_document path ∷ vs) l =
      implements-visit_all s a index_path vs _
  implements-visit_all s a index_path (visit_document d ∷ vs) l =
      implements-visit_all s a index_path vs _
  implements-visit_all s a index_path (visit_occurrence path o ∷ vs) l =
      implements-visit_all s a index_path vs l
  implements-visit_all s a index_path (visit_symbol path i ∷ vs) l =
      implements-visit_all s a index_path vs
        (visit_symbol_information b preamble clean has_prefix text (text path) i l)
      ∙ regroup (visits_say s a vs) (i.info.symbol == s && says a i.relationships)
          (implements s a l.implementors_by_symbol)
          (implements s a
            (add_relationships i.relationships i.info.symbol l.implementors_by_symbol))
          (implements-add_relationships s a i.info.symbol i.relationships l.implementors_by_symbol)
    where
      regroup : (p q r x : Bool) → x ≡ (q || r) → (p || x) ≡ ((q || p) || r)
      regroup p q r x e = ground (arith, e)

  visit_all-Distinct :
      (index_path : String) (vs : List (Visit ScipSymbolInformation ScipOccurrence ScipDocument))
      (l : LocalIndex)
      → Distinct l.implementors_by_symbol
      → Distinct (visit_all b preamble clean has_prefix text index_path vs l).implementors_by_symbol
  unfolding visit_all match_document_path visit_symbol_information visit_scip_document
  visit_all-Distinct index_path [] l d = d
  visit_all-Distinct index_path (match_document path ∷ vs) l d =
      visit_all-Distinct index_path vs _ d
  visit_all-Distinct index_path (visit_document x ∷ vs) l d = visit_all-Distinct index_path vs _ d
  visit_all-Distinct index_path (visit_occurrence path o ∷ vs) l d =
      visit_all-Distinct index_path vs l d
  visit_all-Distinct index_path (visit_symbol path i ∷ vs) l d =
      visit_all-Distinct index_path vs _
        (add_relationships-Distinct i.info.symbol i.relationships l.implementors_by_symbol d)

  -- the merge of what the visits of a load made
  implementations-visited :
      (s a path : String) (vs : List (Visit ScipSymbolInformation ScipOccurrence ScipDocument))
      (p : PartialLoadedIndex)
      → contains s (
          implementations a (
            merge_local p (visit_all b preamble clean has_prefix text path vs (new_local_index p))))
        ≡ (contains s (implementations a p) || visits_say s a vs)
  unfolding implementations merge_local Distinct get
  implementations-visited s a path vs p =
      let l : LocalIndex = visit_all b preamble clean has_prefix text path vs (new_local_index p) in
      contains-symbols_in s _
      ∙ implements-merge s a p.implementors_by_symbol l.implementors_by_symbol
          (visit_all-Distinct path vs (new_local_index p) tt)
      ∙ joined (implements s a p.implementors_by_symbol)
          (contains s (symbols_in (implementors_or_new (get a p.implementors_by_symbol))))
          (visits_say s a vs) (implements s a l.implementors_by_symbol)
          (contains-symbols_in s (implementors_or_new (get a p.implementors_by_symbol)))
          (implements-visit_all s a path vs (new_local_index p))
    where
      joined : (x c v y : Bool) → c ≡ x → y ≡ (v || false) → (x || y) ≡ (c || v)
      joined x c v y e f = ground (arith, e, f)

  module _ (unmarshal : Unmarshal) (wire : Protowire) (capacity : ℕ) (fuel : ℕ) where
    -- After LoadIndex of any file, however the scan ends, Implementations of a symbol gives exactly what it gave before and the
    -- symbols that the scan visited with a relationship which says that they implement it.
    pub implementations-load_index :
        (s a path : String) (bytes : List ℕ) (p : PartialLoadedIndex)
        → contains s (
            implementations a
              (load_index b preamble clean has_prefix text unmarshal wire capacity fuel path bytes
                p).0)
          ≡ (contains s (implementations a p)
              || visits_say s a
                  (scan_index_reader wire capacity
                    (load_impl b preamble clean has_prefix text unmarshal p)
                    fuel
                    (new_reader bytes)).visits)
    unfolding load_index
    implementations-load_index s a path bytes p = implementations-visited s a path _ p
