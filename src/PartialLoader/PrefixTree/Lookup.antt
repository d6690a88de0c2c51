-- ===== src/PartialLoader/PrefixTree/Lookup.antt =====
-- The tree as a map from paths and versions to symbols.
use scip_lsp.Common.{
  String, Option, none, some, List, [], ◌∷◌, Bool, true, false, ◌&&◌, ◌≡◌, refl, ap, ◌∙◌, arith,
  ◌==◌, string_key, if◌then◌else◌, get, get-put, get-nil, Bool-cases, inl, inr,
}
use scip_lsp.Common.Int.{ℤ}
use scip_lsp.PartialLoader.PrefixTree.{
  Descriptor, descriptor_key, SymbolVersion, SymbolPrefixTreeNode, tree_node, Children, no_child,
  child, ParsedSymbol, versions_of, find_child, put_child, add_child, preamble_at, descend,
  add_symbol, walk, get_node,
}

abbrev pub same_path : List Descriptor → List Descriptor → Bool
same_path [] [] = true
same_path [] (e ∷ es) = false
same_path (d ∷ ds) [] = false
same_path (d ∷ ds) (e ∷ es) = d == e && same_path ds es

module _ {Info : Type 0} where
  -- the version of the symbol at a path below a node
  abbrev pub version_at : String → Option (SymbolPrefixTreeNode Info) → Option (SymbolVersion Info)
  version_at w none = none
  version_at w (some n) = get w (versions_of n)

  pub find_child-put_child :
      (d e : Descriptor) (n : SymbolPrefixTreeNode Info) (cs : Children Info)
      → find_child e (put_child d n cs) ≡ (if d == e then some n else find_child e cs)
  unfolding find_child put_child
  find_child-put_child d e n no_child = refl
  find_child-put_child d e n (child c m cs) = ground (
    arith,
    find_child-put_child d e n cs,
    descriptor_key.same_iff d e,
    descriptor_key.same_iff c d,
    descriptor_key.same_iff c e,
  )

  -- a node that `addChild` made or found reads as before
  walk-add_child :
      (preamble : String) (revision : ℤ) (o : Option (SymbolPrefixTreeNode Info))
      (q : List Descriptor) (w : String)
      → version_at w (walk (some (add_child preamble revision o).0) q) ≡ version_at w (walk o q)
  unfolding walk
  walk-add_child preamble revision none [] w = get-nil w
  walk-add_child preamble revision none (e ∷ q) w = unfold find_child in refl
  walk-add_child preamble revision (some (tree_node old versions children r)) [] w = refl
  walk-add_child preamble revision (some (tree_node old versions children r)) (e ∷ q) w = refl

  walk-descend :
      (preamble version w : String) (revision : ℤ) (v : SymbolVersion Info) (p q : List Descriptor)
      (n : SymbolPrefixTreeNode Info × Bool)
      → version_at w (walk (some (descend preamble revision version v p n).0) q)
        ≡ (if same_path p q && version == w then some v else version_at w (walk (some n.0) q))
  unfolding descend walk
  walk-descend preamble version w revision v [] [] (tree_node pre versions children r, new) =
      get-put version w v versions
  walk-descend preamble version w revision v [] (e ∷ q) (tree_node pre versions children r, new) =
      refl
  walk-descend preamble version w revision v (d ∷ p) [] (tree_node pre versions children r, new) =
      refl
  walk-descend preamble version w revision v (d ∷ p) (e ∷ q)
        (tree_node pre versions children r, new) =
      let start = add_child (preamble_at preamble p) revision (find_child d children) in
      let below = (descend preamble revision version v p start).0 in
      let found = find_child-put_child d e below children in
      let ih = walk-descend preamble version w revision v p q start in
      let old = walk-add_child (preamble_at preamble p) revision (find_child d children) q w in
      elim (Bool-cases (d == e)) [
        | inl same ↦
            let here : find_child e (put_child d below children) ≡ some below = found ∙ rw same in
            rw same (
              ap (λ o. version_at w (walk o q)) here
              ∙ ih
              ∙ ap (λ o. if same_path p q && version == w then some v else o)
                  (old
                    ∙ ap (λ k. version_at w (walk (find_child k children) q))
                        ((descriptor_key.same_iff d e).0 same)))
        | inr other ↦
            let there : find_child e (put_child d below children) ≡ find_child e children =
              found ∙ rw other in
            rw other (ap (λ o. version_at w (walk o q)) there)
      ]

  -- After `AddSymbol` of a symbol that parses to a path of descriptors, `GetNode` finds at each path
  -- and version what it found before, but for the path and version of the symbol: there it finds the
  -- symbol with its document, whatever was there.
  pub get_node-add_symbol :
      (t : SymbolPrefixTreeNode Info) (doc : String) (d : Descriptor) (ds : List Descriptor)
      (preamble version : String) (info : Info) (revision : ℤ) (other : ParsedSymbol)
      → version_at other.version (
          get_node
            (add_symbol t doc
              (some (record { preamble = preamble; version = version; descriptors = d ∷ ds }))
              info
              revision).0
            (some other))
        ≡ (if same_path (d ∷ ds) other.descriptors && version == other.version
            then some (record { info = info; document_path = doc })
            else version_at other.version (get_node t (some other)))
  unfolding get_node add_symbol
  get_node-add_symbol t doc d ds preamble version info revision other =
      walk-descend preamble version other.version revision
        (record { info = info; document_path = doc }) (d ∷ ds) other.descriptors (t, false)
