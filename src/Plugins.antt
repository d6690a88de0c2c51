-- ===== src/Plugins.antt =====
-- src/ulsp/entity/ulsp-plugin/ulsp_plugin.go and src/ulsp/mapper/ulsp_plugin.go: what a plugin tells
-- of itself, its validation, and the ordered lists of plugins to run for each method. A function of
-- `Methods` is the plugin's own code: of it the model keeps whether it is nil.
pub mod Names
pub mod Registered
pub mod Callable
pub mod Examples
use scip_lsp.Common.{
  ℕ, String, Option, none, some, Bool, true, false, List, [], ◌∷◌, ◌++◌, Dict, get, put, Key,
  length, ◌==◌, if◌then◌else◌, ◌⊎◌, inl, inr, decided, decided_iff, number_key, string_key,
}
use scip_lsp.Plugins.Names.{Method, Field, field_of, method_key}
use native.Mathlib.Decide.{ℕ_discrete}

-- An `int64`: three constants, and the other numbers, to which no plugin list belongs.
pub data Priority : Type 0 where
  priority_high priority_regular priority_async : Priority
  other_priority : ℕ → Priority

unfoldable pub Priority-discrete : Discrete Priority
Priority-discrete = hlevel (ℕ_discrete)

instance abbrev pub priority_key : Key Priority
priority_key = record { same = decided Priority-discrete; same_iff = decided_iff Priority-discrete }

pub record Methods : Type 0 where
  pub plugin_name_key : String
  pub implements : Field → Bool

pub record PluginInfo : Type 0 where
  pub priorities : Dict Method Priority
  pub methods : Option Methods
  pub name_key : String
  -- the keys of `RelevantRepos`, when it is not nil
  pub relevant_repos : Option (List String)

pub data PluginError : Type 0 where
  missing_priorities missing_methods missing_name_key missing_source_plugin : PluginError
  missing_method unrecognized_method : Method → PluginError

abbrev pub validate_keys : Methods → Dict Method Priority → Option PluginError
validate_keys m [] = none
validate_keys m ((key, p) ∷ rest) =
    let next = validate_keys m rest in
    elim (field_of key) [
      | none ↦ some (unrecognized_method key)
      | some f ↦ if m.implements f then next else some (missing_method key)
    ]

unfoldable pub validate : PluginInfo → Option PluginError
validate info = if length info.priorities == 0 then some missing_priorities else elim info.methods [
  | none ↦ some missing_methods
  | some m ↦
      if info.name_key == ""
      then some missing_name_key
      else if m.plugin_name_key == info.name_key
      then validate_keys m info.priorities
      else some missing_source_plugin
]

-- A missing key of a map of slices reads as nil.
abbrev pub or_nil {ℓ} : {A : Type ℓ} → Option (List A) → List A
or_nil none = []
or_nil (some xs) = xs

abbrev pub Buckets : Type 0
Buckets = Dict Priority (List Methods)

unfoldable pub add_to_bucket :
    Methods → Method → Priority → Dict Method Buckets → Dict Method Buckets
add_to_bucket m method priority all =
    let own = or_nil (get method all) in
    put method (put priority (or_nil (get priority own) ++ m ∷ []) own) all

abbrev pub add_plugin : Methods → Dict Method Priority → Dict Method Buckets → Dict Method Buckets
add_plugin m [] all = all
add_plugin m ((method, priority) ∷ rest) all =
    add_plugin m rest (add_to_bucket m method priority all)

-- A validated plugin has methods.
abbrev pub add_methods :
    Option Methods → Dict Method Priority → Dict Method Buckets → Dict Method Buckets
add_methods none asked all = all
add_methods (some m) asked all = add_plugin m asked all

abbrev pub fill_buckets : List PluginInfo → Dict Method Buckets → PluginError ⊎ Dict Method Buckets
fill_buckets [] all = inr all
fill_buckets (info ∷ infos) all = elim (validate info) [
  | some e ↦ inl e
  | none ↦ fill_buckets infos (add_methods info.methods info.priorities all)
]

pub record MethodLists : Type 0 where
  pub sync : List Methods
  pub async : List Methods

abbrev pub RuntimePrioritizedMethods : Type 0
RuntimePrioritizedMethods = Dict Method MethodLists

abbrev pub lists_or_nil : Option MethodLists → MethodLists
lists_or_nil none = record { sync = []; async = [] }
lists_or_nil (some lists) = lists

abbrev pub add_bucket : MethodLists → Priority → List Methods → MethodLists
add_bucket lists priority_async found = record { sync = lists.sync; async = lists.async ++ found }
add_bucket lists priority found = record { sync = lists.sync ++ found; async = lists.async }

unfoldable pub add_list :
    Method → Buckets → Priority → RuntimePrioritizedMethods → RuntimePrioritizedMethods
add_list method own priority result =
    let current = lists_or_nil (get method result) in
    put method (add_bucket current priority (or_nil (get priority own))) result

abbrev pub consolidate : Dict Method Buckets → RuntimePrioritizedMethods → RuntimePrioritizedMethods
consolidate [] result = result
consolidate ((method, own) ∷ rest) result =
    let high = add_list method own priority_high result in
    let regular = add_list method own priority_regular high in
    consolidate rest (add_list method own priority_async regular)

unfoldable pub plugin_info_to_runtime_prioritized_methods :
    List PluginInfo → PluginError ⊎ RuntimePrioritizedMethods
plugin_info_to_runtime_prioritized_methods infos = elim (fill_buckets infos []) [
  | inl e ↦ inl e
  | inr all ↦ inr (consolidate all [])
]
