-- ===== src/PartialLoader/PrefixTree/Prune.antt =====
-- `PruneNodes` does not take away what `AddSymbol` wrote at the same revision.
use scip_lsp.Common.{
  String, Option, none, some, List, [], ◌∷◌, Bool, true, false, ◌&&◌, ◌≡◌, refl, sym, ap, ◌∙◌,
  arith, ◌==◌, string_key, get-put_self, Bool-cases, inl, inr, same_refl,
}
use scip_lsp.Common.Int.{ℤ, pos, negsuc, ltb_ℤ}
use scip_lsp.PartialLoader.PrefixTree.{
  Descriptor, descriptor_key, SymbolVersion, SymbolPrefixTreeNode, tree_node, Children, no_child,
  child, versions_of, revision_of, find_child, put_child, add_child, preamble_at, descend,
  add_symbol, walk, get_node, prune_nodes, prune_children, has_document,
}
use scip_lsp.PartialLoader.PrefixTree.Lookup.{version_at, find_child-put_child}

ltb_ℤ-refl : (r : ℤ) → ltb_ℤ r r ≡ false
ltb_ℤ-refl (pos n) = ground arith
ltb_ℤ-refl (negsuc n) = ground arith

module _ {Info : Type 0} where
  abbrev is_stale : String → ℤ → SymbolPrefixTreeNode Info → Bool
  is_stale doc r m = ltb_ℤ (revision_of m) r && has_document doc (versions_of m)

  prune-kept :
      (doc : String) (r : ℤ) (e : Descriptor) (m : SymbolPrefixTreeNode Info) (cs : Children Info)
      → is_stale doc r m ≡ false
      → prune_children doc r (child e m cs)
        ≡ child e (prune_nodes doc r m) (prune_children doc r cs)
  unfolding prune_nodes prune_children
  prune-kept doc r e m cs h = rw h

  prune-deleted :
      (doc : String) (r : ℤ) (e : Descriptor) (m : SymbolPrefixTreeNode Info) (cs : Children Info)
      → is_stale doc r m ≡ true
      → prune_children doc r (child e m cs) ≡ prune_children doc r cs
  unfolding prune_nodes prune_children
  prune-deleted doc r e m cs h = rw h

  find-same :
      (d e : Descriptor) (m : SymbolPrefixTreeNode Info) (cs : Children Info)
      → (e == d) ≡ true
      → find_child d (child e m cs) ≡ some m
  unfolding find_child
  find-same d e m cs h = rw h

  find-other :
      (d e : Descriptor) (m : SymbolPrefixTreeNode Info) (cs : Children Info)
      → (e == d) ≡ false
      → find_child d (child e m cs) ≡ find_child d cs
  unfolding find_child
  find-other d e m cs h = rw h

  find_child-prune_children :
      (doc : String) (r : ℤ) (d : Descriptor) (cs : Children Info) (n : SymbolPrefixTreeNode Info)
      → find_child d cs ≡ some n
      → ltb_ℤ (revision_of n) r ≡ false
      → find_child d (prune_children doc r cs) ≡ some (prune_nodes doc r n)
  find_child-prune_children doc r d no_child n f l = absurd (unfold find_child in ground (arith, f))
  find_child-prune_children doc r d (child e m cs) n f l = elim (Bool-cases (e == d)) [
    | inl same ↦
        let both : some m ≡ some n = sym (find-same d e m cs same) ∙ f in
        let eq : m ≡ n = ground (arith, both) in
        let young : is_stale doc r m ≡ false =
          ap (λ x. ltb_ℤ (revision_of x) r && has_document doc (versions_of m)) eq
          ∙ ap (λ b. b && has_document doc (versions_of m)) l in
        ap (find_child d) (prune-kept doc r e m cs young)
        ∙ find-same d e (prune_nodes doc r m) (prune_children doc r cs) same
        ∙ ap (λ x. some (prune_nodes doc r x)) eq
    | inr other ↦
        let later =
          find_child-prune_children doc r d cs n (sym (find-other d e m cs other) ∙ f) l in
        elim (Bool-cases (is_stale doc r m)) [
          | inl stale ↦ ap (find_child d) (prune-deleted doc r e m cs stale) ∙ later
          | inr kept ↦
              ap (find_child d) (prune-kept doc r e m cs kept)
              ∙ find-other d e (prune_nodes doc r m) (prune_children doc r cs) other
              ∙ later
        ]
  ]

  revision-descend :
      (preamble version : String) (r : ℤ) (v : SymbolVersion Info) (p : List Descriptor)
      (n : SymbolPrefixTreeNode Info) (new : Bool)
      → revision_of (descend preamble r version v p (n, new)).0 ≡ revision_of n
  unfolding descend
  revision-descend preamble version r v [] (tree_node pre vs cs s) new = refl
  revision-descend preamble version r v (d ∷ p) (tree_node pre vs cs s) new = refl

  revision-add_child :
      (preamble : String) (r : ℤ) (o : Option (SymbolPrefixTreeNode Info))
      → revision_of (add_child preamble r o).0 ≡ r
  revision-add_child preamble r none = refl
  revision-add_child preamble r (some (tree_node pre vs cs s)) = refl

  walk-prune :
      (doc preamble version : String) (r : ℤ) (v : SymbolVersion Info) (p : List Descriptor)
      (n : SymbolPrefixTreeNode Info) (new : Bool)
      → version_at version
          (walk (some (prune_nodes doc r (descend preamble r version v p (n, new)).0)) p)
        ≡ some v
  unfolding descend walk prune_nodes
  walk-prune doc preamble version r v [] (tree_node pre vs cs s) new = get-put_self version v vs
  walk-prune doc preamble version r v (d ∷ p) (tree_node pre vs cs s) new =
      let start = add_child (preamble_at preamble p) r (find_child d cs) in
      let below = (descend preamble r version v p start).0 in
      let self : (d == d) ≡ true = same_refl d in
      let there : find_child d (put_child d below cs) ≡ some below =
        find_child-put_child d d below cs ∙ rw self in
      let age : revision_of below ≡ r =
        revision-descend preamble version r v p start.0 start.1
        ∙ revision-add_child (preamble_at preamble p) r (find_child d cs) in
      let young : ltb_ℤ (revision_of below) r ≡ false = ap (λ x. ltb_ℤ x r) age ∙ ltb_ℤ-refl r in
      ap (λ o. version_at version (walk o p))
        (find_child-prune_children doc r d (put_child d below cs) below there young)
      ∙ walk-prune doc preamble version r v p start.0 start.1

  -- `PruneNodes` of any document, at the revision at which a symbol was added, leaves that symbol
  -- where `GetNode` finds it, with its document.
  pub prune_nodes-add_symbol :
      (t : SymbolPrefixTreeNode Info) (doc pruned : String) (d : Descriptor) (ds : List Descriptor)
      (preamble version : String) (info : Info) (r : ℤ)
      → version_at version (
          get_node
            (prune_nodes pruned r
              (add_symbol t doc
                (some (record { preamble = preamble; version = version; descriptors = d ∷ ds }))
                info
                r).0)
            (some (record { preamble = preamble; version = version; descriptors = d ∷ ds })))
        ≡ some (record { info = info; document_path = doc })
  unfolding get_node add_symbol
  prune_nodes-add_symbol t doc pruned d ds preamble version info r =
      walk-prune pruned preamble version r (record { info = info; document_path = doc }) (d ∷ ds) t
        false
