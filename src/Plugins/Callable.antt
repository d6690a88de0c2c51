-- ===== src/Plugins/Callable.antt =====
-- What `Validate` of src/ulsp/entity/ulsp-plugin/ulsp_plugin.go is for: no nil function is in the lists.
use scip_lsp.Common.{
  Option, none, some, Bool, true, false, List, [], ◌∷◌, ◌++◌, ◌⊎◌, inl, inr, ◌≡◌, refl, Bool-cases,
  Dict, arith, ◌&&◌, if◌then◌else◌, ◌==◌,
}
use scip_lsp.Plugins.Names.{Method, field_of, method_key}
use scip_lsp.Plugins.{
  Priority, priority_key, Methods, PluginInfo, PluginError, validate, validate_keys, fill_buckets,
  add_methods, Buckets, plugin_info_to_runtime_prioritized_methods,
}
use scip_lsp.Plugins.Registered.{asking, asking_among, asking_of}

-- a call of the method on the plugin is not a call of nil
abbrev pub callable : Method → Methods → Bool
callable name m = elim (field_of name) [ none ↦ false | some f ↦ m.implements f ]

abbrev pub all_callable : Method → List Methods → Bool
all_callable name [] = true
all_callable name (m ∷ ms) = callable name m && all_callable name ms

pub all_callable-append :
    (name : Method) (xs ys : List Methods)
    → all_callable name xs ≡ true
    → all_callable name ys ≡ true
    → all_callable name (xs ++ ys) ≡ true
all_callable-append name [] ys p q = q
all_callable-append name (x ∷ xs) ys p q = ground (arith, p, all_callable-append name xs ys)

asking_of-callable :
    (name : Method) (p : Priority) (m : Methods) (asked : Dict Method Priority)
    → validate_keys m asked ≡ none
    → all_callable name (asking_of name p m asked) ≡ true
asking_of-callable name p m [] v = refl
asking_of-callable name p m ((method, q) ∷ rest) v =
    all_callable-append name (if method == name && q == p then m ∷ [] else []) _
      (elim (Bool-cases (method == name)) [
        | inl e ↦ ground (arith, v, e, (method_key.same_iff method name).0 e)
        | inr e ↦ ground (arith, e)
      ])
      (asking_of-callable name p m rest (ground (arith, v)))

validate-keys :
    (info : PluginInfo) (m : Methods)
    → validate info ≡ none
    → info.methods ≡ some m
    → validate_keys m info.priorities ≡ none
unfolding validate
validate-keys info m v e = ground (arith, v, e)

-- the error of the first plugin that has one
abbrev pub first_error : List PluginInfo → Option PluginError
first_error [] = none
first_error (info ∷ infos) =
    let later = first_error infos in elim (validate info) [ none ↦ later | some e ↦ some e ]

abbrev pub failure_of {ℓ κ} : {E : Type ℓ} {A : Type κ} → E ⊎ A → Option E
failure_of (inl e) = some e
failure_of (inr a) = none

fill_buckets-first_error :
    (infos : List PluginInfo) (all : Dict Method Buckets)
    → failure_of (fill_buckets infos all) ≡ first_error infos
fill_buckets-first_error [] all = refl
fill_buckets-first_error (info ∷ infos) all =
    ground (arith, fill_buckets-first_error infos (add_methods info.methods info.priorities all))

-- The mapping fails exactly when a plugin is invalid, with the error of the first such plugin.
pub runtime-first_error :
    (infos : List PluginInfo)
    → failure_of (plugin_info_to_runtime_prioritized_methods infos) ≡ first_error infos
unfolding plugin_info_to_runtime_prioritized_methods
runtime-first_error infos = ground (arith, fill_buckets-first_error infos [])

asking_among-callable :
    (name : Method) (p : Priority) (info : PluginInfo) (o : Option Methods)
    → info.methods ≡ o
    → validate info ≡ none
    → all_callable name (asking_among name p o info.priorities) ≡ true
asking_among-callable name p info none e v = refl
asking_among-callable name p info (some m) e v =
    asking_of-callable name p m info.priorities (validate-keys info m v e)

pub asking-callable :
    (name : Method) (p : Priority) (infos : List PluginInfo)
    → first_error infos ≡ none
    → all_callable name (asking name p infos) ≡ true
asking-callable name p [] e = refl
asking-callable name p (info ∷ infos) e =
    all_callable-append name (asking_among name p info.methods info.priorities) _
      (asking_among-callable name p info info.methods refl (ground (arith, e)))
      (asking-callable name p infos (ground (arith, e)))
