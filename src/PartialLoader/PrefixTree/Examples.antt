-- ===== src/PartialLoader/PrefixTree/Examples.antt =====
-- Two symbols, one below the other.
use scip_lsp.Common.{ℕ, ◌+◌, Distinct, get, put, refl, some, [], ◌∷◌, ◌≡◌, string_key}
use scip_lsp.Common.Int.{pos}
use scip_lsp.PartialLoader.PrefixTree.{
  SymbolPrefixTreeNode, SymbolPrefixTreeNode, Descriptor, ParsedSymbol, new_symbol_prefix_tree,
  add_symbol, get_node, walk, find_child, put_child, descend,
}
use scip_lsp.PartialLoader.PrefixTree.Merge.{merge, at_path, IsTree, AreTrees, merge_lem}
use scip_lsp.PartialLoader.PrefixTree.Lookup.{version_at, get_node-add_symbol}

abbrev namespace : Descriptor
namespace = record { name = "com"; suffix = 1; disambiguator = "" }

abbrev converter : Descriptor
converter = record { name = "Converter"; suffix = 2; disambiguator = "" }

abbrev symbol : ParsedSymbol
symbol = record {
  preamble = "semanticdb maven a";
  version = "1";
  descriptors = namespace ∷ converter ∷ [];
}

abbrev tree : SymbolPrefixTreeNode ℕ
tree = new_symbol_prefix_tree

abbrev seven : ℕ
seven = 7

get_node-add_symbol_example :
    version_at "1" (get_node (add_symbol tree "A.java" (some symbol) seven (pos 1)).0 (some symbol))
    ≡ some (record { info = seven; document_path = "A.java" })
get_node-add_symbol_example =
    get_node-add_symbol tree "A.java" namespace (converter ∷ []) "semanticdb maven a" "1" seven
      (pos 1) symbol

abbrev newer_tree : SymbolPrefixTreeNode ℕ
newer_tree = (add_symbol tree "B.java" (some symbol) (seven + 1) (pos 2)).0

abbrev older_tree : SymbolPrefixTreeNode ℕ
older_tree = (add_symbol tree "A.java" (some symbol) seven (pos 1)).0

newer_tree-IsTree : IsTree newer_tree
unfolding IsTree AreTrees add_symbol Distinct walk find_child descend put_child get put
newer_tree-IsTree = (tt, (refl, ((tt, (refl, (((refl, tt), tt), tt))), tt)))

merge_lem_example :
    at_path "1" (namespace ∷ converter ∷ []) (some (merge older_tree newer_tree))
    ≡ some (record { info = seven + 1; document_path = "B.java" })
unfolding walk find_child add_symbol descend put_child get put
merge_lem_example = merge_lem older_tree newer_tree "1" namespace (converter ∷ []) newer_tree-IsTree
