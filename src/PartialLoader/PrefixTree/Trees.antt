-- ===== src/PartialLoader/PrefixTree/Trees.antt =====
-- The maps of the nodes of src/scip-lib/partialloader/prefixtree.go hold no key twice, whatever is added.
use scip_lsp.Common.{
  String, Option, none, some, List, [], ◌∷◌, Bool, false, ◌≡◌, refl, ◌==◌, string_key, Distinct,
  put-Distinct, subst, arith, ◌∙◌, Bool-cases, inl, inr,
}
use scip_lsp.Common.Int.{ℤ}
use scip_lsp.PartialLoader.PrefixTree.{
  Descriptor, descriptor_key, SymbolVersion, SymbolPrefixTreeNode, tree_node, Children, no_child,
  child, ParsedSymbol, new_symbol_prefix_tree, find_child, put_child, add_child, preamble_at,
  children_of, with_child, descend, add_symbol,
}
use scip_lsp.PartialLoader.PrefixTree.Lookup.{find_child-put_child}
use scip_lsp.PartialLoader.PrefixTree.Merge.{IsTree, AreTrees}

pub new-IsTree :
    (Info : Type 0) → IsTree (let t : SymbolPrefixTreeNode Info = new_symbol_prefix_tree in t)
unfolding IsTree AreTrees Distinct
new-IsTree Info = (tt, tt)

different : (e d : Descriptor) → (e == d) ≡ false → (d == e) ≡ false
different e d other =
    ground (arith, other, descriptor_key.same_iff e d, descriptor_key.same_iff d e)

module _ {Info : Type 0} where
  put_child-AreTrees :
      (d : Descriptor) (n : SymbolPrefixTreeNode Info) (cs : Children Info)
      → IsTree n
      → AreTrees cs
      → AreTrees (put_child d n cs)
  unfolding AreTrees find_child put_child
  put_child-AreTrees d n no_child t a = (refl, (t, tt))
  put_child-AreTrees d n (child e m cs) t (fresh, (one, rest)) = elim (Bool-cases (e == d)) [
    | inl same ↦ rw same (rw ((descriptor_key.same_iff e d).0 same) at fresh, (t, rest))
    | inr other ↦ rw other (
      find_child-put_child d e n cs ∙ rw (different e d other) fresh,
      (one, put_child-AreTrees d n cs t rest),
    )
  ]

  with_child-IsTree :
      (t : SymbolPrefixTreeNode Info) (d : Descriptor) (n : SymbolPrefixTreeNode Info)
      → IsTree t
      → IsTree n
      → IsTree (with_child t d n)
  unfolding IsTree
  with_child-IsTree (tree_node preamble versions children revision) d n (distinct, a) t =
      (distinct, put_child-AreTrees d n children t a)

  find_child-IsTree :
      (d : Descriptor) (cs : Children Info) (n : SymbolPrefixTreeNode Info)
      → AreTrees cs
      → find_child d cs ≡ some n
      → IsTree n
  unfolding AreTrees find_child
  find_child-IsTree d no_child n a e = cc
  find_child-IsTree d (child c m cs) n (fresh, (one, rest)) e = elim (Bool-cases (c == d)) [
    | inl same ↦ subst IsTree (ground (arith, same, e)) one
    | inr other ↦ find_child-IsTree d cs n rest (ground (arith, other, e))
  ]

  add_child-IsTree :
      (preamble : String) (revision : ℤ) (o : Option (SymbolPrefixTreeNode Info))
      → ((n : SymbolPrefixTreeNode Info) → o ≡ some n → IsTree n)
      → IsTree (add_child preamble revision o).0
  unfolding IsTree AreTrees Distinct
  add_child-IsTree preamble revision none h = (tt, tt)
  add_child-IsTree preamble revision (some (tree_node old versions children r)) h =
      h (tree_node old versions children r) refl

  children-AreTrees : (t : SymbolPrefixTreeNode Info) → IsTree t → AreTrees (children_of t)
  unfolding IsTree
  children-AreTrees (tree_node preamble versions children revision) (distinct, a) = a

  descend-IsTree :
      (preamble version : String) (revision : ℤ) (v : SymbolVersion Info) (p : List Descriptor)
      (n : SymbolPrefixTreeNode Info × Bool)
      → IsTree n.0
      → IsTree (descend preamble revision version v p n).0
  unfolding descend IsTree
  descend-IsTree preamble version revision v [] (tree_node pre versions children r, new)
        (distinct, a) =
      (put-Distinct version v versions distinct, a)
  descend-IsTree preamble version revision v (d ∷ p) (n, new) t = with_child-IsTree n d _ t (
      descend-IsTree preamble version revision v p
        (add_child (preamble_at preamble p) revision (find_child d (children_of n)))
        (add_child-IsTree (preamble_at preamble p) revision (find_child d (children_of n))
          (λ m e. find_child-IsTree d (children_of n) m (children-AreTrees n t) e)))

  add_parsed-IsTree :
      (t : SymbolPrefixTreeNode Info) (doc preamble version : String) (ds : List Descriptor)
      (info : Info) (revision : ℤ)
      → IsTree t
      → IsTree
          (add_symbol t doc
            (some (record { preamble = preamble; version = version; descriptors = ds }))
            info
            revision).0
  unfolding add_symbol
  add_parsed-IsTree t doc preamble version [] info revision h = h
  add_parsed-IsTree t doc preamble version (d ∷ ds) info revision h =
      descend-IsTree preamble version revision (record { info = info; document_path = doc })
        (d ∷ ds) (t, false) h

  pub add_symbol-IsTree :
      (t : SymbolPrefixTreeNode Info) (doc : String) (sy : Option ParsedSymbol) (info : Info)
      (revision : ℤ)
      → IsTree t
      → IsTree (add_symbol t doc sy info revision).0
  add_symbol-IsTree t doc none info revision h = unfold add_symbol in h
  add_symbol-IsTree t doc (some sy) info revision h =
      add_parsed-IsTree t doc sy.preamble sy.version sy.descriptors info revision h
