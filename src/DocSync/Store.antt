-- ===== src/DocSync/Store.antt =====
-- A property of all entries, kept by the writes of the document store.
use mathlib.Core.Path.{subst}
use scip_lsp.Common.{
  String, none, some, [], ◌≡◌, ◌⊎◌, inl, inr, sym, arith, string_key, get, put, remove, get-put,
  get-remove, get-put_self, get-nil, ◌==◌, if◌then◌else◌, Dict, Option-cases,
}
use scip_lsp.DocSync.{Entry, Documents, entry_of, put_entry}

entry_of-put :
    (s s' uri' : String) (docs : Dict String Entry) (ds : Documents)
    → entry_of (put s docs ds) s' uri' ≡ (if s == s' then get uri' docs else entry_of ds s' uri')
entry_of-put s s' uri' docs ds = ground (arith, get-put s s' docs ds)

entry_of-remove :
    (s s' uri' : String) (ds : Documents)
    → entry_of (remove s ds) s' uri' ≡ (if s == s' then none else entry_of ds s' uri')
entry_of-remove s s' uri' ds = ground (arith, get-remove s s' ds)

-- what is read after a write
entry_of-put_entry :
    (s uri : String) (e : Entry) (ds : Documents) (s' uri' : String) (x : Entry)
    → entry_of (put_entry s uri e ds) s' uri' ≡ some x
    → (x ≡ e) ⊎ (entry_of ds s' uri' ≡ some x)
entry_of-put_entry s uri e ds s' uri' x h = elim (Option-cases (get s ds)) [
  | inl n ↦ inr (ground (arith, n, h))
  | inr (docs, y) ↦ ground (
    arith,
    y,
    h,
    entry_of-put s s' uri' (put uri e docs) ds,
    get-put uri uri' e docs,
    string_key.same_iff s s',
  )
]

pub entry_of-put_entry_self :
    (s uri : String) (e old : Entry) (ds : Documents)
    → entry_of ds s uri ≡ some old
    → entry_of (put_entry s uri e ds) s uri ≡ some e
entry_of-put_entry_self s uri e old ds h = elim (Option-cases (get s ds)) [
  | inl n ↦ absurd (ground (arith, n, h))
  | inr (docs, y) ↦ ground (arith, y, get-put_self s (put uri e docs) ds, get-put_self uri e docs)
]

-- a property of every entry of the store
abbrev pub AllEntries : (Entry → Type 0) → Documents → Type 0
AllEntries P ds = (s uri : String) (e : Entry) → entry_of ds s uri ≡ some e → P e

module _ {P : Entry → Type 0} where
  pub put_entry-AllEntries :
      (s uri : String) (e : Entry) (ds : Documents)
      → P e
      → AllEntries P ds
      → AllEntries P (put_entry s uri e ds)
  put_entry-AllEntries s uri e ds p all s' uri' x h =
      elim (entry_of-put_entry s uri e ds s' uri' x h) [
        | inl same ↦ subst P (sym same) p
        | inr old ↦ all s' uri' x old
      ]

  pub put-AllEntries-nil :
      (s : String) (ds : Documents) → AllEntries P ds → AllEntries P (put s [] ds)
  put-AllEntries-nil s ds all s' uri' x h =
      all s' uri' x (ground (arith, h, entry_of-put s s' uri' [] ds, get-nil {V = Entry} uri'))

  pub remove-AllEntries :
      (s : String) (ds : Documents) → AllEntries P ds → AllEntries P (remove s ds)
  remove-AllEntries s ds all s' uri' x h =
      all s' uri' x (ground (arith, h, entry_of-remove s s' uri' ds))

  pub put-remove-AllEntries :
      (s uri : String) (docs : Dict String Entry) (ds : Documents)
      → get s ds ≡ some docs
      → AllEntries P ds
      → AllEntries P (put s (remove uri docs) ds)
  put-remove-AllEntries s uri docs ds y all s' uri' x h = all s' uri' x (
      ground (
        arith,
        y,
        h,
        entry_of-put s s' uri' (remove uri docs) ds,
        get-remove uri uri' docs,
        string_key.same_iff s s',
      ))
