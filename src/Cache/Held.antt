-- ===== src/Cache/Held.antt =====
-- What the cache of packages/agent/src/grackle/cache.py holds of a path, and its sets.
use grackle.Base.{String, Option, none, some, ◌≡◌, refl, ap, sym, ◌∙◌, subst, ite}
use mathlib.Core.Logic.{if_pos, if_neg}
use grackle.Base.{inl, inr}
use grackle.Base.Result.{Result, ok, raise, ◌>>=◌, Result-cases}
use grackle.Base.Dict.{get, some_inj}
use grackle.Base.Text.{string_key, append, String_discrete}
use text.Mathlib.TextEquality.{eq_iff}
use grackle.Json.{Json, obj, Fields, field_get}
use grackle.Cache.{
  load_manifest, entries, Files, entry_of, cache_get, partial_name, is_text, read_partial,
}
use grackle.Json.{as_text, as_dict}
use grackle.Cache.Manifest.{load_manifest-Avoids, Avoids, manifest_name, atomic_write-Avoids}
use grackle.Cache.Set.{
  with_sidecar, CacheCall, set, evict, call, new_entry, set-Avoids, set_get, entry_of-set,
}

-- An entry that does not name the sidecar of a hash.
abbrev pub NotNamed : String → Result (Option Json) → Type 0
NotNamed content_hash o =
    (e : Fields)
    → o ≡ ok (some (obj e))
    → ¬ (as_text (field_get "partial_path" e) ≡ some (append content_hash ".json"))

abbrev path_of : Option Json → Option String
path_of (some (obj e)) = as_text (field_get "partial_path" e)
path_of _ = none

new_path :
    (h : String) (e : Fields)
    → some (new_entry h) ≡ some (obj e)
    → as_text (field_get "partial_path" e) ≡ some (append h ".json")
unfolding as_text field_get String_discrete
new_path h e p = sym (ap path_of p)

partial_name_new : (h : String) → partial_name h (some (new_entry h)) ≡ some (append h ".json")
unfolding partial_name is_text as_text field_get String_discrete
partial_name_new h = rw ((eq_iff h h).1 refl) refl

-- A call on another path, and on another content where it is a set.
abbrev pub IsApart : String → String → CacheCall → Type 0
IsApart key content_hash (set j h partial) =
    (¬ (j ≡ key)) × Avoids h manifest_name × Avoids h (append content_hash ".json")
IsApart key content_hash (evict j) = ¬ (j ≡ key)

-- The entry of a path, where the manifest is read.
pub entry_of-ok :
    {T : Type 0} (loads : T → Result (Option Json)) (key : String) (files : Files T) (m : Fields)
    → load_manifest loads files ≡ ok m
    → entry_of loads key files ≡ ok (field_get key (entries m))
unfolding entry_of
entry_of-ok loads key files m h = ap (λ r. r >>= λ n. ok (field_get key (entries n))) h

-- The manifest was read where an entry is.
pub reads-entry :
    {T : Type 0} (loads : T → Result (Option Json)) (key : String) (files : Files T)
    (o : Option Json)
    → entry_of loads key files ≡ ok o
    → (m : Fields) × (load_manifest loads files ≡ ok m)
unfolding entry_of
reads-entry loads key files o h = elim (Result-cases (load_manifest loads files)) [
  | inl p ↦ p
  | inr (e, q) ↦ cc
]

ok_inj : {a b : Option Json} → ok a ≡ ok b → a ≡ b
ok_inj {a} e = ap (λ r. elim r [ ok v ↦ v | raise x ↦ a ]) e

module _ {T : Type 0} (loads : T → Result (Option Json)) where
  -- No entry of another path names the sidecar of a hash.
  abbrev pub IsOwn : String → String → Files T → Type 0
  IsOwn key content_hash files =
      (j : String) → ¬ (j ≡ key) → NotNamed content_hash (entry_of loads j files)

  module _ (dumps dumps_indented : Json → T) where
    -- What the directory holds of a path.
    abbrev pub Holds : String → String → Fields → Files T → Type 0
    Holds key content_hash partial files =
        (entry_of loads key files ≡ ok (some (new_entry content_hash)))
        × (get (append content_hash ".json") files ≡ some (dumps (obj partial)))
        × IsOwn key content_hash files

    pub Holds-cache_get :
        (key h : String) (partial : Fields) (files : Files T)
        → ((v : Json) → loads (dumps v) ≡ ok (some v))
        → Holds key h partial files
        → cache_get loads key h files ≡ ok (some partial)
    unfolding cache_get read_partial as_dict
    Holds-cache_get key h partial files d (e, f, own) =
        let read_named : Option String → Result (Option Fields) =
          λ o. elim o [ none ↦ ok none | some name ↦ read_partial loads name files ] in
        let read_text : Option T → Result (Option Fields) =
          λ o. elim o [ none ↦ ok none | some text ↦ loads text >>= λ v. ok (as_dict v) ] in
        ap (λ r. r >>= λ o. read_named (partial_name h o)) e
        ∙ (ap read_named (partial_name_new h)
            ∙ (ap read_text f ∙ ap (λ r. r >>= λ v. ok (as_dict v)) (d (obj partial))))

    module _ (decoded : (v : Json) → loads (dumps_indented v) ≡ ok (some v)) where
      set-NotNamed :
          (j h g : String) (partial : Fields) (files : Files T) (k : String) (m : Fields)
          → load_manifest loads (with_sidecar dumps dumps_indented loads g partial files) ≡ ok m
          → ¬ (append g ".json" ≡ append h ".json")
          → (¬ (j ≡ k) → NotNamed h (ok (field_get k (entries m))))
          → NotNamed h (entry_of loads k (call dumps dumps_indented loads (set j g partial) files))
      set-NotNamed j h g partial files k m r d own =
          subst (NotNamed h)
            (sym (entry_of-set dumps dumps_indented loads j g partial files m r decoded k))
            (elim (String_discrete j k)
              as (λ q. NotNamed h (ok (ite q (some (new_entry g)) (field_get k (entries m))))) [
                | yes p ↦ λ e q s. d (some_inj (sym (new_path g e (ok_inj q)) ∙ s))
                | no p ↦ own p
              ])

      -- The manifest is read after the sidecar as it was before.
      sidecar_reads :
          (h : String) (partial : Fields) (files : Files T) (m : Fields)
          → Avoids h manifest_name
          → load_manifest loads files ≡ ok m
          → load_manifest loads (with_sidecar dumps dumps_indented loads h partial files) ≡ ok m
      sidecar_reads h partial files m a r =
          load_manifest-Avoids loads h (dumps (obj partial)) files a ∙ r

      pub set-Holds :
          (key h : String) (partial : Fields) (files : Files T) (m : Fields)
          → load_manifest loads files ≡ ok m
          → Avoids h manifest_name
          → Avoids "manifest" (append h ".json")
          → IsOwn key h files
          → Holds key h partial (call dumps dumps_indented loads (set key h partial) files)
      set-Holds key h partial files m r a b own =
          let r' = sidecar_reads h partial files m a r in
          (
            entry_of-set dumps dumps_indented loads key h partial files m r' decoded key
                ∙ ap ok (if_pos (String_discrete key key) refl _ _),
            set_get dumps dumps_indented loads key h partial files m r' b,
            λ j p.
                subst (NotNamed h)
                  (sym (
                    entry_of-set dumps dumps_indented loads key h partial files m r' decoded j
                    ∙ ap ok (if_neg (String_discrete key j) (λ q. p (sym q)) _ _)
                    ∙ sym (entry_of-ok loads j files m r)))
                  (own j p),
          )

      -- Another path is set.
      pub set_other-Holds :
          (key h j g : String) (partial other : Fields) (files : Files T)
          → IsApart key h (set j g other)
          → Avoids "manifest" (append h ".json")
          → Holds key h partial files
          → Holds key h partial (call dumps dumps_indented loads (set j g other) files)
      set_other-Holds key h j g partial other files (p, a, c) b (e, f, own) =
          let (m, r) = reads-entry loads key files (some (new_entry h)) e in
          let r' = sidecar_reads g other files m a r in
          (
            entry_of-set dumps dumps_indented loads j g other files m r' decoded key
                ∙ ap ok (if_neg (String_discrete j key) p _ _)
                ∙ sym (entry_of-ok loads key files m r)
                ∙ e,
            set-Avoids dumps dumps_indented loads j g other files m r' (append h ".json") b
                ∙ (atomic_write-Avoids g (append h ".json") (dumps (obj other)) files c ∙ f),
            λ k q.
                set-NotNamed j h g other files k m r' (λ t. c.1 (sym t))
                  (λ _. subst (NotNamed h) (entry_of-ok loads k files m r) (own k q)),
          )
