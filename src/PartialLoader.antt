-- ===== src/PartialLoader.antt =====
-- src/scip-lib/partialloader: the tree of the external symbols of the loaded indexes, and the index made of it.
pub mod PrefixTree
pub mod Convert
pub mod Index
