-- ===== src/PartialLoader/PrefixTree/Merge.antt =====
-- Merge of src/scip-lib/partialloader/prefixtree.go, which takes the symbols of a loaded index over. A map is
-- iterated in the order of its list, and a child that is taken as it is has no pointer to its parent here.
use scip_lsp.Common.{
  String, Option, none, some, Bool-cases, List, [], ◌∷◌, Dict, get, put, get-put, Distinct,
  string_key, ◌==◌, if◌then◌else◌, inl, inr, ◌≡◌, refl, sym, ap, ◌∙◌, arith,
}
use scip_lsp.Common.Int.{ℤ, ltb_ℤ}
use scip_lsp.PartialLoader.PrefixTree.{
  Descriptor, descriptor_key, SymbolVersion, SymbolPrefixTreeNode, tree_node, Children, no_child,
  child, versions_of, children_of, find_child, with_child, walk,
}
use scip_lsp.PartialLoader.PrefixTree.Lookup.{version_at, find_child-put_child}

module _ {Info : Type 0} where
  -- the versions of a node, written into those of another
  unfoldable pub put_versions :
      Dict String (SymbolVersion Info)
      → Dict String (SymbolVersion Info)
      → Dict String (SymbolVersion Info)
  put_versions [] versions = versions
  put_versions ((version, v) ∷ vs) versions = put_versions vs (put version v versions)

  -- the newer versions and the higher revision
  abbrev pub updated :
      SymbolPrefixTreeNode Info → Dict String (SymbolVersion Info) → ℤ → SymbolPrefixTreeNode Info
  updated (tree_node preamble old children revision) versions newer =
      tree_node preamble (put_versions versions old) children
        (if ltb_ℤ revision newer then newer else revision)

  unfoldable mutual
    pub merge_children : SymbolPrefixTreeNode Info → Children Info → SymbolPrefixTreeNode Info
    merge_children t no_child = t
    merge_children t (child d n cs) =
        merge_children (with_child t d (merge_child (find_child d (children_of t)) n)) cs

    -- the child of the other tree is taken, or merged into the one that is there
    pub merge_child :
        Option (SymbolPrefixTreeNode Info) → SymbolPrefixTreeNode Info → SymbolPrefixTreeNode Info
    merge_child none n = n
    merge_child (some e) (tree_node preamble versions children revision) =
        merge_children (updated e versions revision) children

  unfoldable pub merge :
      SymbolPrefixTreeNode Info → SymbolPrefixTreeNode Info → SymbolPrefixTreeNode Info
  merge t other = merge_children t (children_of other)

  -- the maps of a tree hold no key twice
  unfoldable mutual
    pub IsTree : SymbolPrefixTreeNode Info → Type 0
    IsTree (tree_node preamble versions children revision) = Distinct versions × AreTrees children

    pub AreTrees : Children Info → Type 0
    AreTrees no_child = Unit
    AreTrees (child d n cs) = (find_child d cs ≡ none) × (IsTree n × AreTrees cs)

  abbrev pub override :
      Option (SymbolVersion Info) → Option (SymbolVersion Info) → Option (SymbolVersion Info)
  override none old = old
  override (some new) old = some new

  get-put_versions :
      (w : String) (vs old : Dict String (SymbolVersion Info))
      → Distinct vs
      → get w (put_versions vs old) ≡ override (get w vs) (get w old)
  unfolding put_versions Distinct get
  get-put_versions w [] old d = refl
  get-put_versions w ((version, v) ∷ vs) old (fresh, d) =
      get-put_versions w vs (put version v old) d ∙ elim (Bool-cases (version == w)) [
        | inl same ↦
            ground
              (arith, same, fresh, get-put version w v old, (string_key.same_iff version w).0 same)
        | inr other ↦ ground (arith, other, get-put version w v old)
      ]

  versions-with_child :
      (t : SymbolPrefixTreeNode Info) (d : Descriptor) (n : SymbolPrefixTreeNode Info)
      → versions_of (with_child t d n) ≡ versions_of t
  versions-with_child (tree_node preamble versions children revision) d n = refl

  find_child-with_child :
      (t : SymbolPrefixTreeNode Info) (d e : Descriptor) (n : SymbolPrefixTreeNode Info)
      → find_child e (children_of (with_child t d n))
        ≡ (if d == e then some n else find_child e (children_of t))
  find_child-with_child (tree_node preamble versions children revision) d e n =
      find_child-put_child d e n children

  versions-merge_children :
      (cs : Children Info) (t : SymbolPrefixTreeNode Info)
      → versions_of (merge_children t cs) ≡ versions_of t
  unfolding merge_children
  versions-merge_children no_child t = refl
  versions-merge_children (child d n cs) t =
      versions-merge_children cs (with_child t d (merge_child (find_child d (children_of t)) n))
      ∙ versions-with_child t d _

  -- the version of the symbol at a path below a child that may be there
  abbrev pub at_path :
      String → List Descriptor → Option (SymbolPrefixTreeNode Info) → Option (SymbolVersion Info)
  at_path w ds o = version_at w (walk o ds)

  override-none : (o : Option (SymbolVersion Info)) → override o none ≡ o
  override-none none = refl
  override-none (some v) = refl

  at_path-none : (w : String) (ds : List Descriptor) → at_path w ds none ≡ none
  unfolding walk
  at_path-none w ds = refl

  at_path-alone :
      (n : SymbolPrefixTreeNode Info) (w : String) (ds : List Descriptor)
      → at_path w ds (some n) ≡ override (at_path w ds (some n)) (at_path w ds none)
  at_path-alone n w ds = sym (
      ap (override (at_path w ds (some n))) (at_path-none w ds)
      ∙ override-none (at_path w ds (some n)))

  override-at_path :
      (w : String) (ds : List Descriptor) (o : Option (SymbolVersion Info))
      → o ≡ override (at_path w ds none) o
  override-at_path w ds o =
      ap (λ (p : Option (SymbolVersion Info)). override p o) (sym (at_path-none w ds))

  versions-updated :
      (e : SymbolPrefixTreeNode Info) (vs : Dict String (SymbolVersion Info)) (newer : ℤ)
      → versions_of (updated e vs newer) ≡ put_versions vs (versions_of e)
  versions-updated (tree_node preamble old children revision) vs newer = refl

  children-updated :
      (e : SymbolPrefixTreeNode Info) (vs : Dict String (SymbolVersion Info)) (newer : ℤ)
      → children_of (updated e vs newer) ≡ children_of e
  children-updated (tree_node preamble old children revision) vs newer = refl

  -- what a merge does to each child does it to the paths below the node
  at_path-updated :
      (e : SymbolPrefixTreeNode Info) (preamble : String) (vs : Dict String (SymbolVersion Info))
      (cs : Children Info) (newer : ℤ) (w : String) (ds : List Descriptor)
      → Distinct vs
      → ((d : Descriptor) (rest : List Descriptor)
          → at_path w rest (find_child d (children_of (merge_children (updated e vs newer) cs)))
            ≡ override
                (at_path w rest (find_child d cs))
                (at_path w rest (find_child d (children_of (updated e vs newer)))))
      → at_path w ds (some (merge_children (updated e vs newer) cs))
        ≡ override (at_path w ds (some (tree_node preamble vs cs newer))) (at_path w ds (some e))
  unfolding walk
  at_path-updated e preamble vs cs newer w [] distinct below =
      ap (get w) (versions-merge_children cs (updated e vs newer) ∙ versions-updated e vs newer)
      ∙ get-put_versions w vs (versions_of e) distinct
  at_path-updated e preamble vs cs newer w (d ∷ ds) distinct below =
      below d ds
      ∙ ap
          (λ (c : Children Info).
            override (at_path w ds (find_child d cs)) (at_path w ds (find_child d c)))
          (children-updated e vs newer)

  at_path-child :
      (e d : Descriptor) (w : String) (ds : List Descriptor) (n m : SymbolPrefixTreeNode Info)
      (cs : Children Info) (t : SymbolPrefixTreeNode Info)
      → find_child e cs ≡ none
      → at_path w ds (some m)
        ≡ override (at_path w ds (some n)) (at_path w ds (find_child e (children_of t)))
      → override
          (at_path w ds (find_child d cs))
          (at_path w ds (find_child d (children_of (with_child t e m))))
        ≡ override
            (at_path w ds (find_child d (child e n cs)))
            (at_path w ds (find_child d (children_of t)))
  unfolding find_child
  at_path-child e d w ds n m cs t fresh merged =
      ap
        (λ (o : Option (SymbolPrefixTreeNode Info)).
          override (at_path w ds (find_child d cs)) (at_path w ds o))
        (find_child-with_child t e d m)
      ∙ elim (Bool-cases (e == d)) [
        | inl same ↦
            ground
              (arith, same, fresh, merged, at_path-none w ds, (descriptor_key.same_iff e d).0 same)
        | inr other ↦ ground (arith, other)
      ]

  mutual
    unfolding merge_children merge_child IsTree AreTrees find_child

    at_path-merge_children :
        (cs : Children Info) (t : SymbolPrefixTreeNode Info) (w : String) (d : Descriptor)
        (ds : List Descriptor)
        → AreTrees cs
        → at_path w ds (find_child d (children_of (merge_children t cs)))
          ≡ override (at_path w ds (find_child d cs)) (at_path w ds (find_child d (children_of t)))
    at_path-merge_children no_child t w d ds a =
        override-at_path w ds (at_path w ds (find_child d (children_of t)))
    at_path-merge_children (child e n cs) t w d ds (fresh, (one, rest)) =
        at_path-merge_children cs (with_child t e (merge_child (find_child e (children_of t)) n)) w
          d ds rest
        ∙ at_path-child e d w ds n _ cs t fresh
            (at_path-merge_child n (find_child e (children_of t)) w ds one)

    at_path-merge_child :
        (n : SymbolPrefixTreeNode Info) (o : Option (SymbolPrefixTreeNode Info)) (w : String)
        (ds : List Descriptor)
        → IsTree n
        → at_path w ds (some (merge_child o n)) ≡ override (at_path w ds (some n)) (at_path w ds o)
    at_path-merge_child n none w ds a = at_path-alone n w ds
    at_path-merge_child (tree_node preamble versions children revision) (some e) w ds
          (distinct, a) =
        at_path-updated e preamble versions children revision w ds distinct
          (λ d rest. at_path-merge_children children (updated e versions revision) w d rest a)

  -- Below its root, a merged tree has at each path, for each version of the package, the symbol of the other tree
  -- where that has one, and otherwise the symbol the tree had. The maps of the other tree hold no key twice.
  pub merge_lem :
      (t other : SymbolPrefixTreeNode Info) (w : String) (d : Descriptor) (ds : List Descriptor)
      → IsTree other
      → at_path w (d ∷ ds) (some (merge t other))
        ≡ override (at_path w (d ∷ ds) (some other)) (at_path w (d ∷ ds) (some t))
  unfolding merge IsTree walk
  merge_lem t (tree_node preamble versions children revision) w d ds (distinct, a) =
      at_path-merge_children children t w d ds a
