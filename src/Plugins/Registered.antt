-- ===== src/Plugins/Registered.antt =====
-- The lists of plugins that src/ulsp/mapper/ulsp_plugin.go makes, against a direct description of
-- them that knows neither buckets nor maps.
use scip_lsp.Common.{
  Option, none, some, Bool-cases, Sum-cases, List, [], ◌∷◌, ◌++◌, Dict, get, put, Key, ◌==◌,
  if◌then◌else◌, inl, inr, ◌≡◌, ap, ap₂, sym, subst, ◌∙◌, ◌&&◌, get-put, Distinct, put-Distinct,
  arith,
}
use scip_lsp.Plugins.Names.{Method, method_key}
use scip_lsp.Plugins.{
  Priority, priority_high, priority_regular, priority_async, priority_key, Methods, PluginInfo,
  validate, or_nil, Buckets, add_to_bucket, add_plugin, add_methods, fill_buckets, MethodLists,
  RuntimePrioritizedMethods, lists_or_nil, add_bucket, add_list, consolidate,
  plugin_info_to_runtime_prioritized_methods,
}
use mathlib.Core.List.{append_assoc, append-nil}

-- the plugins of a list that ask for a method at a priority, in their order
abbrev pub asking_of : Method → Priority → Methods → Dict Method Priority → List Methods
asking_of name p m [] = []
asking_of name p m ((method, priority) ∷ rest) =
    let others = asking_of name p m rest in
    (if method == name && priority == p then m ∷ [] else []) ++ others

abbrev pub asking_among : Method → Priority → Option Methods → Dict Method Priority → List Methods
asking_among name p none asked = []
asking_among name p (some m) asked = asking_of name p m asked

abbrev pub asking : Method → Priority → List PluginInfo → List Methods
asking name p [] = []
asking name p (info ∷ infos) =
    asking_among name p info.methods info.priorities ++ asking name p infos

abbrev pub in_bucket : Method → Priority → Dict Method Buckets → List Methods
in_bucket name p all = or_nil (get p (or_nil (get name all)))

module _ {A : Type 0} {K : Type 0} {P : Type 0} ⦃names : Key K⦄ ⦃ranks : Key P⦄ where
  -- one more value at a key of a map of maps of lists
  pub get-put_nested :
      (k j : K) (q p : P) (a : A) (all : Dict K (Dict P (List A)))
      → (let own : Dict P (List A) = or_nil (get j all) in
          or_nil (get p (or_nil (get k (put j (put q (or_nil (get q own) ++ a ∷ []) own) all)))))
        ≡ or_nil (get p (or_nil (get k all))) ++ (if j == k && q == p then a ∷ [] else [])
  get-put_nested k j q p a all =
      let own : Dict P (List A) = or_nil (get j all) in
      let grown : List A = or_nil (get q own) ++ a ∷ [] in
      ground (
        arith,
        get-put j k (put q grown own) all,
        get-put q p grown own,
        names.same_iff j k,
        ranks.same_iff q p,
        append-nil (or_nil (get p (or_nil (get k all)))),
      )

pub in_bucket-add_to_bucket :
    (name method : Method) (p priority : Priority) (m : Methods) (all : Dict Method Buckets)
    → in_bucket name p (add_to_bucket m method priority all)
      ≡ in_bucket name p all ++ (if method == name && priority == p then m ∷ [] else [])
unfolding add_to_bucket
in_bucket-add_to_bucket name method p priority m all = get-put_nested name method priority p m all

pub in_bucket-add_plugin :
    (name : Method) (p : Priority) (m : Methods) (asked : Dict Method Priority)
    (all : Dict Method Buckets)
    → in_bucket name p (add_plugin m asked all) ≡ in_bucket name p all ++ asking_of name p m asked
in_bucket-add_plugin name p m [] all = sym (append-nil _)
in_bucket-add_plugin name p m ((method, priority) ∷ rest) all =
    in_bucket-add_plugin name p m rest (add_to_bucket m method priority all)
    ∙ ap (λ (own : List Methods). own ++ asking_of name p m rest)
        (in_bucket-add_to_bucket name method p priority m all)
    ∙ append_assoc (in_bucket name p all) _ _

pub in_bucket-add_methods :
    (name : Method) (p : Priority) (o : Option Methods) (asked : Dict Method Priority)
    (all : Dict Method Buckets)
    → in_bucket name p (add_methods o asked all)
      ≡ in_bucket name p all ++ asking_among name p o asked
in_bucket-add_methods name p none asked all = sym (append-nil _)
in_bucket-add_methods name p (some m) asked all = in_bucket-add_plugin name p m asked all

-- All went well, so it did at the first plugin and at the others.
pub filled-tail :
    (info : PluginInfo) (infos : List PluginInfo) (all full : Dict Method Buckets)
    → fill_buckets (info ∷ infos) all ≡ inr full
    → (validate info ≡ none)
      × (fill_buckets infos (add_methods info.methods info.priorities all) ≡ inr full)
filled-tail info infos all full e = ground (arith, e)

pub in_bucket-fill_buckets :
    (name : Method) (p : Priority) (infos : List PluginInfo) (all full : Dict Method Buckets)
    → fill_buckets infos all ≡ inr full
    → in_bucket name p full ≡ in_bucket name p all ++ asking name p infos
in_bucket-fill_buckets name p [] all full e =
    ap (in_bucket name p) (ground (arith, e)) ∙ sym (append-nil _)
in_bucket-fill_buckets name p (info ∷ infos) all full e =
    in_bucket-fill_buckets name p infos more full (filled-tail info infos all full e).1
    ∙ ap (λ (own : List Methods). own ++ asking name p infos)
        (in_bucket-add_methods name p info.methods info.priorities all)
    ∙ append_assoc (in_bucket name p all) _ _
  where
    more : Dict Method Buckets
    more = add_methods info.methods info.priorities all

pub add_bucket_at : (method name : Method) → Buckets → Priority → MethodLists → MethodLists
add_bucket_at method name own p lists =
    if method == name then add_bucket lists p (or_nil (get p own)) else lists

get-add_list :
    (name method : Method) (own : Buckets) (p : Priority) (r : RuntimePrioritizedMethods)
    → lists_or_nil (get name (add_list method own p r))
      ≡ add_bucket_at method name own p (lists_or_nil (get name r))
unfolding add_list add_bucket_at
get-add_list name method own p r =
    let changed : MethodLists = add_bucket (lists_or_nil (get method r)) p (or_nil (get p own)) in
    ground (arith, get-put method name changed r, method_key.same_iff method name)

abbrev pub grown : Buckets → MethodLists → MethodLists
grown own lists = record {
  sync = (lists.sync ++ or_nil (get priority_high own)) ++ or_nil (get priority_regular own);
  async = lists.async ++ or_nil (get priority_async own);
}

grown-nil : (lists : MethodLists) → grown [] lists ≡ lists
unfolding get
grown-nil lists =
    ap₂ (λ (s a : List Methods). let l : MethodLists = record { sync = s; async = a } in l)
      (append-nil _ ∙ append-nil lists.sync) (append-nil lists.async)

-- the three turns of the loop over the priorities
get-add_lists :
    (name method : Method) (own : Buckets) (r : RuntimePrioritizedMethods)
    → (let high : RuntimePrioritizedMethods = add_list method own priority_high r in
        let regular : RuntimePrioritizedMethods = add_list method own priority_regular high in
        lists_or_nil (get name (add_list method own priority_async regular)))
      ≡ (if method == name
          then grown own (lists_or_nil (get name r))
          else lists_or_nil (get name r))
unfolding add_bucket_at
get-add_lists name method own r =
    let high : RuntimePrioritizedMethods = add_list method own priority_high r in
    let regular : RuntimePrioritizedMethods = add_list method own priority_regular high in
    ground (
      arith,
      get-add_list name method own priority_high r,
      get-add_list name method own priority_regular high,
      get-add_list name method own priority_async regular,
    )

get-consolidate :
    (name : Method) (all : Dict Method Buckets) (r : RuntimePrioritizedMethods)
    → Distinct all
    → lists_or_nil (get name (consolidate all r))
      ≡ grown (or_nil (get name all)) (lists_or_nil (get name r))
unfolding Distinct get
get-consolidate name [] r d = sym (grown-nil _)
get-consolidate name ((method, own) ∷ rest) r (fresh, d) =
    get-consolidate name rest _ d
    ∙ ap (grown (or_nil (get name rest))) (get-add_lists name method own r)
    ∙ elim (Bool-cases (method == name)) [
      | inl e ↦ ground (
        arith,
        e,
        fresh,
        (method_key.same_iff method name).0 e,
        grown-nil (grown own (lists_or_nil (get name r))),
      )
      | inr e ↦ ground (arith, e)
    ]

add_plugin-Distinct :
    (m : Methods) (asked : Dict Method Priority) (all : Dict Method Buckets)
    → Distinct all
    → Distinct (add_plugin m asked all)
unfolding add_to_bucket
add_plugin-Distinct m [] all d = d
add_plugin-Distinct m ((method, p) ∷ rest) all d =
    add_plugin-Distinct m rest _ (put-Distinct method _ all d)

add_methods-Distinct :
    (o : Option Methods) (asked : Dict Method Priority) (all : Dict Method Buckets)
    → Distinct all
    → Distinct (add_methods o asked all)
add_methods-Distinct none asked all d = d
add_methods-Distinct (some m) asked all d = add_plugin-Distinct m asked all d

fill_buckets-Distinct :
    (infos : List PluginInfo) (all full : Dict Method Buckets)
    → fill_buckets infos all ≡ inr full
    → Distinct all
    → Distinct full
fill_buckets-Distinct [] all full e d = subst Distinct (ground (arith, e)) d
fill_buckets-Distinct (info ∷ infos) all full e d =
    fill_buckets-Distinct infos _ full (filled-tail info infos all full e).1
      (add_methods-Distinct info.methods info.priorities all d)

-- The lists of plugins in the order in which they ask.
abbrev pub lists_of : Method → List PluginInfo → MethodLists
lists_of name infos = record {
  sync = asking name priority_high infos ++ asking name priority_regular infos;
  async = asking name priority_async infos;
}

pub runtime-filled :
    (infos : List PluginInfo) (r : RuntimePrioritizedMethods)
    → plugin_info_to_runtime_prioritized_methods infos ≡ inr r
    → (full : Dict Method Buckets) × (fill_buckets infos [] ≡ inr full) × (consolidate full [] ≡ r)
unfolding plugin_info_to_runtime_prioritized_methods
runtime-filled infos r e = elim (Sum-cases (fill_buckets infos [])) [
  | inl (err, f) ↦ ground (arith, f, e)
  | inr (full, f) ↦ (full, f, ground (arith, f, e))
]

-- If the plugins are valid, the lists of each method are those of the plugins that ask for it: the
-- ones run in turn are the ones of high priority and then the regular ones, each group in the order
-- of the plugins, and the others are the asynchronous ones in that order.
pub runtime-lists_of :
    (infos : List PluginInfo) (r : RuntimePrioritizedMethods) (name : Method)
    → plugin_info_to_runtime_prioritized_methods infos ≡ inr r
    → lists_or_nil (get name r) ≡ lists_of name infos
unfolding get Distinct
runtime-lists_of infos r name e =
    let (full, f, c) = runtime-filled infos r e in
    ap (λ (x : RuntimePrioritizedMethods). lists_or_nil (get name x)) (sym c)
    ∙ get-consolidate name full [] (fill_buckets-Distinct infos [] full f tt)
    ∙ ap₂ (λ (s a : List Methods). let l : MethodLists = record { sync = s; async = a } in l)
        (ap₂ (λ (h g : List Methods). h ++ g)
          (in_bucket-fill_buckets name priority_high infos [] full f)
          (in_bucket-fill_buckets name priority_regular infos [] full f))
        (in_bucket-fill_buckets name priority_async infos [] full f)
