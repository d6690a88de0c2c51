-- ===== src/Capabilities/Providers.antt =====
-- The seven functions of src/ulsp/mapper/lsp_lifecycle.go that make sure of a provider, called by any plugins
-- in any order.
use scip_lsp.Common.{
  Bool, true, false, List, [], ◌∷◌, Key, ◌||◌, ◌≡◌, refl, ap, ◌∙◌, arith, if◌then◌else◌,
}
use scip_lsp.Capabilities.{
  Provider, unset, options, other_type, ProgressOptions, ServerCapabilities, ensured,
  ensure_definition_provider, ensure_declaration_provider, ensure_implementation_provider,
  ensure_type_definition_provider, ensure_references_provider, ensure_hover_provider,
  ensure_document_symbol_provider,
}

pub data Kind : Type 0 where
  definition declaration implementation type_definition references hover document_symbol : Kind

abbrev pub same_kind : Kind → Kind → Bool
same_kind definition definition = true
same_kind declaration declaration = true
same_kind implementation implementation = true
same_kind type_definition type_definition = true
same_kind references references = true
same_kind hover hover = true
same_kind document_symbol document_symbol = true
same_kind _ _ = false

-- what the calls for one provider ask of it, and whether there is one
abbrev pub asked : Kind → List (Kind × Bool) → Bool
asked k [] = false
asked k ((j, b) ∷ calls) = same_kind j k || asked k calls

abbrev pub with_progress : Kind → List (Kind × Bool) → Bool
with_progress k [] = false
with_progress k ((j, b) ∷ calls) =
    let rest = with_progress k calls in if same_kind j k then b || rest else rest

abbrev pub outcome : Bool → Bool → Provider ProgressOptions → Provider ProgressOptions
outcome asks b unset = if asks then options (record { work_done_progress = b }) else unset
outcome asks b (options o) = options (record { work_done_progress = b || o.work_done_progress })
outcome asks b other_type = if b then options (record { work_done_progress = true }) else other_type

outcome-ensured :
    (same asks b more : Bool) (p : Provider ProgressOptions)
    → outcome asks more (if same then ensured b p else p)
      ≡ outcome (same || asks) (if same then b || more else more) p
unfolding ensured
outcome-ensured same asks b more unset = ground arith
outcome-ensured same asks b more (options o) = ground arith
outcome-ensured same asks b more other_type = ground arith

module _ {Filter : Type 0} ⦃key : Key Filter⦄ where
  abbrev pub provider : Kind → ServerCapabilities Filter → Provider ProgressOptions
  provider definition c = c.definition_provider
  provider declaration c = c.declaration_provider
  provider implementation c = c.implementation_provider
  provider type_definition c = c.type_definition_provider
  provider references c = c.references_provider
  provider hover c = c.hover_provider
  provider document_symbol c = c.document_symbol_provider

  abbrev pub ensure : Kind → Bool → ServerCapabilities Filter → ServerCapabilities Filter
  ensure definition = ensure_definition_provider
  ensure declaration = ensure_declaration_provider
  ensure implementation = ensure_implementation_provider
  ensure type_definition = ensure_type_definition_provider
  ensure references = ensure_references_provider
  ensure hover = ensure_hover_provider
  ensure document_symbol = ensure_document_symbol_provider

  abbrev pub ensure_all : List (Kind × Bool) → ServerCapabilities Filter → ServerCapabilities Filter
  ensure_all [] c = c
  ensure_all ((k, b) ∷ calls) c = ensure_all calls (ensure k b c)

  provider-ensure :
      (j k : Kind) (b : Bool) (c : ServerCapabilities Filter)
      → provider k (ensure j b c)
        ≡ (if same_kind j k then ensured b (provider k c) else provider k c)
  unfolding ensure_definition_provider ensure_declaration_provider ensure_implementation_provider
      ensure_type_definition_provider ensure_references_provider ensure_hover_provider
      ensure_document_symbol_provider
  provider-ensure definition definition b c = refl
  provider-ensure definition k b c = refl
  provider-ensure declaration declaration b c = refl
  provider-ensure declaration k b c = refl
  provider-ensure implementation implementation b c = refl
  provider-ensure implementation k b c = refl
  provider-ensure type_definition type_definition b c = refl
  provider-ensure type_definition k b c = refl
  provider-ensure references references b c = refl
  provider-ensure references k b c = refl
  provider-ensure hover hover b c = refl
  provider-ensure hover k b c = refl
  provider-ensure document_symbol document_symbol b c = refl
  provider-ensure document_symbol k b c = refl

  -- Whatever plugins ask for these seven providers, and in whatever order, each provider is set if one of
  -- them asks for it, and has progress if one of them asks for progress or the provider had it; a provider that is of
  -- another type is replaced if one of them asks for progress. The calls for one provider leave the others alone.
  pub provider-ensure_all :
      (calls : List (Kind × Bool)) (k : Kind) (c : ServerCapabilities Filter)
      → provider k (ensure_all calls c)
        ≡ outcome (asked k calls) (with_progress k calls) (provider k c)
  provider-ensure_all [] k c = outcome_none (provider k c)
    where
      outcome_none : (p : Provider ProgressOptions) → p ≡ outcome false false p
      outcome_none unset = refl
      outcome_none (options o) = refl
      outcome_none other_type = refl
  provider-ensure_all ((j, b) ∷ calls) k c =
      provider-ensure_all calls k (ensure j b c)
      ∙ ap (outcome (asked k calls) (with_progress k calls)) (provider-ensure j k b c)
      ∙ outcome-ensured (same_kind j k) (asked k calls) b (with_progress k calls) (provider k c)
