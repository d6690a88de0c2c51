-- ===== src/QuickActions/RangeStore/Versions.antt =====
-- `SetVersion` asks for a refresh exactly when the version is newer than all before it.
use scip_lsp.Common.{
  String, Option, none, some, List, [], ◌∷◌, Bool, true, ◌≡◌, refl, ap, ◌∙◌, arith, string_key, not,
  if◌then◌else◌, get, put, get-put_self,
}
use scip_lsp.Common.Int.{ℤ, leb_ℤ}
use scip_lsp.QuickActions.RangeStore.{ActionRangeStore, or_empty, set_version}

abbrev pub version_of : ActionRangeStore → String → String → Option ℤ
version_of a s document = get document (or_empty (get s a.versions))

-- the requests for versions of one document, and the answers
abbrev pub set_versions : String → String → ActionRangeStore → List ℤ → ActionRangeStore
set_versions s document a [] = a
set_versions s document a (v ∷ vs) = set_versions s document (set_version a s document v).1 vs

-- the newest of the versions
abbrev pub newest : Option ℤ → List ℤ → Option ℤ
newest o [] = o
newest none (v ∷ vs) = newest (some v) vs
newest (some w) (v ∷ vs) = newest (if leb_ℤ v w then some w else some v) vs

set_version-newest :
    (a : ActionRangeStore) (s document : String) (v : ℤ)
    → version_of (set_version a s document v).1 s document
      ≡ newest (version_of a s document) (v ∷ [])
unfolding set_version
set_version-newest a s document v =
    let docs = or_empty (get s a.versions) in
    ground (
      arith,
      get-put_self s (put document v docs) a.versions,
      get-put_self s docs a.versions,
      get-put_self document v docs,
    )

newest-step :
    (o : Option ℤ) (v : ℤ) (vs : List ℤ) → newest (newest o (v ∷ [])) vs ≡ newest o (v ∷ vs)
newest-step none v vs = refl
newest-step (some w) v vs = refl

set_versions-newest :
    (a : ActionRangeStore) (s document : String) (vs : List ℤ)
    → version_of (set_versions s document a vs) s document ≡ newest (version_of a s document) vs
set_versions-newest a s document [] = refl
set_versions-newest a s document (v ∷ vs) =
    set_versions-newest (set_version a s document v).1 s document vs
    ∙ ap (λ o. newest o vs) (set_version-newest a s document v)
    ∙ newest-step (version_of a s document) v vs

-- `v` is newer than what is kept
abbrev pub is_newer : Option ℤ → ℤ → Bool
is_newer none v = true
is_newer (some w) v = not (leb_ℤ v w)

-- After any sequence of versions of a document, `SetVersion` asks for a refresh exactly when its
-- version is newer than the newest of them and of the one that was stored before, if any.
pub set_version-newer :
    (a : ActionRangeStore) (s document : String) (vs : List ℤ) (v : ℤ)
    → (set_version (set_versions s document a vs) s document v).0
      ≡ is_newer (newest (version_of a s document) vs) v
unfolding set_version
set_version-newer a s document vs v = ground (arith, set_versions-newest a s document vs)
