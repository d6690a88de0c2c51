-- ===== src/Capabilities/Kinds.antt =====
-- InitializeResultAppendCodeActionProvider of src/ulsp/mapper/lsp_lifecycle.go, called by one plugin after the
-- other, and the merging of lists.
use scip_lsp.Common.{
  contains, contains-append, String, Option, none, some, Bool, false, List, [], ◌∷◌, ◌++◌, Key,
  string_key, ◌||◌, ◌≡◌, refl, ◌∙◌, arith, ◌⊎◌, inl, inr,
}
use scip_lsp.Capabilities.{
  Provider, unset, options, CodeActionOptions, CapabilityError, unseen, merge_kinds, slice,
  append_code_action_options, code_action_provider_with,
}

module _ {ℓ} {A : Type ℓ} ⦃key : Key A⦄ where
  contains-unseen :
      (a : A) (seen xs : List A)
      → (contains a seen || contains a (unseen seen xs)) ≡ (contains a seen || contains a xs)
  unfolding contains unseen
  contains-unseen a seen [] = refl
  contains-unseen a seen (x ∷ xs) = ground (arith, contains-unseen a seen xs, key.same_iff x a)

  pub contains-merged :
      (a : A) (xs ys : List A) → contains a (xs ++ unseen xs ys) ≡ (contains a xs || contains a ys)
  contains-merged a xs ys = contains-append a xs (unseen xs ys) ∙ contains-unseen a xs ys

  pub contains-merge_kinds :
      (a : A) (o p : Option (List A))
      → contains a (slice (merge_kinds o p)) ≡ (contains a (slice o) || contains a (slice p))
  unfolding merge_kinds contains
  contains-merge_kinds a none none = refl
  contains-merge_kinds a (some xs) none = ground arith
  contains-merge_kinds a none (some ys) = refl
  contains-merge_kinds a (some xs) (some ys) = contains-merged a xs ys

-- the options that the plugins hand over, one after the other
abbrev pub append_all_code_actions :
    Provider CodeActionOptions
    → List CodeActionOptions
    → CapabilityError ⊎ Provider CodeActionOptions
append_all_code_actions p [] = inr p
append_all_code_actions p (o ∷ os) = elim (code_action_provider_with p o) [
  | inl e ↦ inl e
  | inr q ↦ append_all_code_actions q os
]

abbrev pub some_lists : String → List CodeActionOptions → Bool
some_lists k [] = false
some_lists k (o ∷ os) = contains k (slice o.code_action_kinds) || some_lists k os

abbrev pub some_resolves : List CodeActionOptions → Bool
some_resolves [] = false
some_resolves (o ∷ os) = o.resolve_provider || some_resolves os

-- what is offered: the kinds, and whether actions are resolved
pub record Offers (o : CodeActionOptions) (os : List CodeActionOptions) (r : CodeActionOptions)
    : Type 0 where
  pub kinds :
      (k : String)
      → contains k (slice r.code_action_kinds)
        ≡ (contains k (slice o.code_action_kinds) || some_lists k os)
  pub resolves : r.resolve_provider ≡ (o.resolve_provider || some_resolves os)

append_all-Offers :
    (o : CodeActionOptions) (os : List CodeActionOptions)
    → (r : CodeActionOptions) × ((append_all_code_actions (options o) os ≡ inr (options r))
        × Offers o os r)
unfolding code_action_provider_with append_code_action_options
append_all-Offers o [] = (o, (refl, record { kinds = λ k. ground arith; resolves = ground arith }))
append_all-Offers o (new ∷ os) =
    let (r, (e, offers)) = append_all-Offers (append_code_action_options o new) os in
    (
      r,
      (
        e,
        record {
          kinds = λ k. ground (
            arith,
            offers.kinds k,
            contains-merge_kinds k o.code_action_kinds new.code_action_kinds,
          );
          resolves = ground (arith, offers.resolves);
        },
      ),
    )

-- When plugins hand their options for code actions over, one after the other and with no provider set before, there
-- is no error, a kind is offered exactly if some plugin lists it, and actions are resolved exactly if some plugin resolves.
pub append_all_code_actions-Offers :
    (o : CodeActionOptions) (os : List CodeActionOptions)
    → (r : CodeActionOptions) × ((append_all_code_actions unset (o ∷ os) ≡ inr (options r))
        × (((k : String) → contains k (slice r.code_action_kinds) ≡ some_lists k (o ∷ os))
            × (r.resolve_provider ≡ some_resolves (o ∷ os))))
unfolding code_action_provider_with
append_all_code_actions-Offers o os =
    let (r, (e, offers)) = append_all-Offers o os in (r, (e, (offers.kinds, offers.resolves)))
