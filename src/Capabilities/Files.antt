-- ===== src/Capabilities/Files.antt =====
-- The file operations of src/ulsp/mapper/lsp_lifecycle.go that the plugins append.
use scip_lsp.Common.{
  contains, Option, none, some, Bool, false, List, [], ◌∷◌, Key, ◌||◌, ◌≡◌, refl, arith,
}
use scip_lsp.Capabilities.{
  slice, FileOperationRegistrationOptions, FileOperations, ServerCapabilities,
  append_registration_options, append_entry, append_file_operations, file_operations_or_new,
  append_workspace_file_operations,
}
use scip_lsp.Capabilities.Kinds.{contains-merged}

pub data FileOperation : Type 0 where
  created to_create renamed to_rename deleted to_delete : FileOperation

module _ {Filter : Type 0} ⦃key : Key Filter⦄ where
  abbrev pub entry_filters : Option (FileOperationRegistrationOptions Filter) → List Filter
  entry_filters none = []
  entry_filters (some o) = slice o.filters

  contains-append_entry :
      (f : Filter) (p s : Option (FileOperationRegistrationOptions Filter))
      → contains f (entry_filters (append_entry p s))
        ≡ (contains f (entry_filters p) || contains f (entry_filters s))
  unfolding append_entry append_registration_options contains
  contains-append_entry f none none = refl
  contains-append_entry f (some p) none = ground arith
  contains-append_entry f none (some s) = refl
  contains-append_entry f (some p) (some s) = contains-merged f (slice p.filters) (slice s.filters)

  abbrev pub entry :
      FileOperation → FileOperations Filter → Option (FileOperationRegistrationOptions Filter)
  entry created f = f.did_create
  entry to_create f = f.will_create
  entry renamed f = f.did_rename
  entry to_rename f = f.will_rename
  entry deleted f = f.did_delete
  entry to_delete f = f.will_delete

  abbrev pub asked_filters : FileOperation → Option (FileOperations Filter) → List Filter
  asked_filters o none = []
  asked_filters o (some f) = entry_filters (entry o f)

  -- the filters of an operation in the answer to `initialize`
  abbrev pub filters_for : FileOperation → ServerCapabilities Filter → List Filter
  filters_for o c = entry_filters (entry o (file_operations_or_new c.workspace))

  abbrev pub append_all :
      ServerCapabilities Filter → List (Option (FileOperations Filter)) → ServerCapabilities Filter
  append_all c [] = c
  append_all c (f ∷ fs) = append_all (append_workspace_file_operations c f) fs

  abbrev pub some_asks : FileOperation → Filter → List (Option (FileOperations Filter)) → Bool
  some_asks o a [] = false
  some_asks o a (f ∷ fs) = contains a (asked_filters o f) || some_asks o a fs

  contains-append :
      (o : FileOperation) (a : Filter) (p : FileOperations Filter)
      (s : Option (FileOperations Filter))
      → contains a (entry_filters (entry o (append_file_operations (some p) s)))
        ≡ (contains a (entry_filters (entry o p)) || contains a (asked_filters o s))
  unfolding append_file_operations contains
  contains-append o a p none = ground arith
  contains-append created a p (some s) = contains-append_entry a p.did_create s.did_create
  contains-append to_create a p (some s) = contains-append_entry a p.will_create s.will_create
  contains-append renamed a p (some s) = contains-append_entry a p.did_rename s.did_rename
  contains-append to_rename a p (some s) = contains-append_entry a p.will_rename s.will_rename
  contains-append deleted a p (some s) = contains-append_entry a p.did_delete s.did_delete
  contains-append to_delete a p (some s) = contains-append_entry a p.will_delete s.will_delete

  -- When plugins append their file operations to any capabilities, one after the other, an operation has a filter
  -- in the end exactly if some plugin asks for it with that filter or the capabilities had it before.
  pub append_all-filters :
      (fs : List (Option (FileOperations Filter))) (o : FileOperation) (a : Filter)
      (c : ServerCapabilities Filter)
      → contains a (filters_for o (append_all c fs))
        ≡ (contains a (filters_for o c) || some_asks o a fs)
  unfolding append_workspace_file_operations
  append_all-filters [] o a c = ground arith
  append_all-filters (f ∷ fs) o a c = ground (
    arith,
    append_all-filters fs o a (append_workspace_file_operations c f),
    contains-append o a (file_operations_or_new c.workspace) f,
  )
