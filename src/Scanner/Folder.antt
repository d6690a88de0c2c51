-- ===== src/Scanner/Folder.antt =====
-- ScanIndexFile and ScanIndexFolder of src/scip-lib/scanner/scan.go. The files of a folder are scanned at the
-- same time in the code, and here one after the other in the order of the entries; a mutex of the visitors makes
-- their calls one after the other in both. A scan fails if it does not come to the end of the file.
use scip_lsp.Common.{
  ℕ, String, Option, none, some, Bool, true, false, not, List, [], ◌∷◌, ◌++◌, ◌||◌, if◌then◌else◌,
}
use scip_lsp.Scanner.Wire.{Protowire}
use scip_lsp.Scanner.{Visit, Impl, ScanOf, End, finished, scan_index_reader, new_reader}

-- the file system: an entry of a directory is a name, and whether it is a directory; none is an error
pub record FileSystem : Type 0 where
  pub read_dir : String → Option (List (String × Bool))
  pub join : String → String → String
  pub is_scip : String → Bool
  pub open_file : String → Option (List ℕ)

pub record FileScan {ℓ} (S O D : Type ℓ) : Type ℓ where
  pub visits : List (Visit S O D)
  pub failed : Bool

abbrev pub is_finished : End → Bool
is_finished finished = true
is_finished _ = false

module _ {ℓ} {S O D : Type ℓ} where
  abbrev pub no_visits : Bool → FileScan S O D
  no_visits failed = record { visits = []; failed = failed }

  abbrev pub both_scans : FileScan S O D → FileScan S O D → FileScan S O D
  both_scans a b = record { visits = a.visits ++ b.visits; failed = a.failed || b.failed }

  abbrev pub scanned : ScanOf S O D → FileScan S O D
  scanned s = record { visits = s.visits; failed = not (is_finished s.end) }

  module _ (wire : Protowire) (capacity fuel : ℕ) (fs : FileSystem) (impl : Impl S O D) where
    unfoldable pub scan_index_file : String → FileScan S O D
    scan_index_file path = elim (fs.open_file path) [
      | none ↦ no_visits true
      | some bytes ↦ scanned (scan_index_reader wire capacity impl fuel (new_reader bytes))
    ]

    abbrev pub process_file : String → FileScan S O D
    process_file path = if fs.is_scip path then scan_index_file path else no_visits false

    unfoldable pub scan_entries : String → List (String × Bool) → FileScan S O D
    scan_entries folder [] = no_visits false
    scan_entries folder ((name, is_dir) ∷ entries) =
        let rest = scan_entries folder entries in
        if is_dir then rest else both_scans (process_file (fs.join folder name)) rest

    unfoldable pub scan_index_folder : String → FileScan S O D
    scan_index_folder folder = elim (fs.read_dir folder) [
      | none ↦ no_visits true
      | some entries ↦ scan_entries folder entries
    ]
