-- ===== src/Cache/Evict.antt =====
-- What an evict of another path leaves in the cache of packages/agent/src/grackle/cache.py.
use grackle.Base.{String, Option, none, some, ◌≡◌, refl, ap, sym, ◌∙◌, subst, ite}
use mathlib.Core.Logic.{if_neg}
use grackle.Base.{[]}
use grackle.Base.Result.{Result, ok, raise, ◌>>=◌}
use grackle.Base.Dict.{get, get-pop-other, ite_elim}
use grackle.Base.Text.{string_key, append, String_discrete}
use grackle.Json.{Json, obj, Fields, field_get, field_put, field_pop, field_get-field_pop}
use grackle.Cache.{
  Files, entries, apply_all, apply, unlinks, load_manifest, save_manifest, entry_of, evict_entry,
  cache_evict, Changes,
}
use grackle.Json.{as_text}
use grackle.Cache.Manifest.{
  Avoids, entries-field_put, apply_all-append, atomic_write-Avoids, load_manifest-save_manifest,
}
use grackle.Cache.Held.{Holds, NotNamed, entry_of-ok, reads-entry}

unlinks-get :
    {T : Type 0} (o : Option String) (name : String) (files : Files T)
    → ¬ (o ≡ some name)
    → get name (apply_all (unlinks o) files) ≡ get name files
unfolding unlinks apply_all apply
unlinks-get none name files d = refl
unlinks-get (some n) name files d = get-pop-other n name files (λ p. d (ap some (sym p)))

module _ {T : Type 0} (loads : T → Result (Option Json)) where
  module _ (dumps dumps_indented : Json → T) where
    module _ (decoded : (v : Json) → loads (dumps_indented v) ≡ ok (some v)) where
      -- The directory after an evict of an entry.
      module _ (j : String) (o : Option String) (files : Files T) (m : Fields)
          (reads : load_manifest loads files ≡ ok m) where
        abbrev shrunk : Fields
        shrunk = field_put "entries" (obj (field_pop j (entries m))) m

        abbrev evicted : Files T
        evicted = apply_all (save_manifest dumps_indented shrunk) (apply_all (unlinks o) files)

        entry_of-evicted :
            (k : String)
            → entry_of loads k evicted
              ≡ ok (ite (String_discrete j k) none (field_get k (entries m)))
        unfolding entry_of
        entry_of-evicted k =
            let left = field_pop j (entries m) in
            ap (λ r. r >>= λ n. ok (field_get k (entries n)))
              (load_manifest-save_manifest loads dumps_indented decoded left m
                (apply_all (unlinks o) files))
            ∙ (ap (λ es. ok (field_get k es)) (entries-field_put left m)
                ∙ ap ok (field_get-field_pop j k (entries m)))

        evicted-get :
            (name : String)
            → Avoids "manifest" name
            → ¬ (o ≡ some name)
            → get name evicted ≡ get name files
        unfolding save_manifest
        evicted-get name a d =
            atomic_write-Avoids "manifest" name (dumps_indented (obj shrunk))
              (apply_all (unlinks o) files) a
            ∙ unlinks-get o name files d

        evicted-Holds :
            (key h : String) (partial : Fields)
            → ¬ (j ≡ key)
            → Avoids "manifest" (append h ".json")
            → ¬ (o ≡ some (append h ".json"))
            → Holds loads dumps dumps_indented key h partial files
            → Holds loads dumps dumps_indented key h partial evicted
        evicted-Holds key h partial p b d (e, f, own) = (
          entry_of-evicted key
              ∙ ap ok (if_neg (String_discrete j key) p _ _)
              ∙ sym (entry_of-ok loads key files m reads)
              ∙ e,
          evicted-get (append h ".json") b d ∙ f,
          λ k q. subst (NotNamed h) (sym (entry_of-evicted k)) (
              ite_elim (λ x. NotNamed h (ok x)) (String_discrete j k) none (field_get k (entries m))
                (λ x r. cc) (subst (NotNamed h) (entry_of-ok loads k files m reads) (own k q))),
        )

      evict_entry-Holds :
          (key h j : String) (partial : Fields) (files : Files T) (m : Fields)
          → load_manifest loads files ≡ ok m
          → ¬ (j ≡ key)
          → Avoids "manifest" (append h ".json")
          → Holds loads dumps dumps_indented key h partial files
          → (o : Option Json) → field_get j (entries m) ≡ o
          → Holds loads dumps dumps_indented key h partial
              (apply_all (evict_entry dumps_indented j m o) files)
      unfolding evict_entry apply_all
      evict_entry-Holds key h j partial files m r p b hold (some (obj entry)) q =
          let name = as_text (field_get "partial_path" entry) in
          subst (Holds loads dumps dumps_indented key h partial)
            (sym (
              apply_all-append (unlinks name)
                (save_manifest dumps_indented (shrunk j name files m r)) files))
            (evicted-Holds j name files m r key h partial p b
              (hold.2 j p entry (entry_of-ok loads j files m r ∙ ap ok q)) hold)
      evict_entry-Holds key h j partial files m r p b hold _ q = hold

      pub evict-Holds :
          (key h j : String) (partial : Fields) (files : Files T)
          → ¬ (j ≡ key)
          → Avoids "manifest" (append h ".json")
          → Holds loads dumps dumps_indented key h partial files
          → Holds loads dumps dumps_indented key h partial
              (apply_all (cache_evict loads dumps_indented j files).0 files)
      unfolding cache_evict apply_all
      evict-Holds key h j partial files p b hold =
          let (m, r) = reads-entry loads key files _ hold.0 in
          let changes : Result Fields → Changes T = λ x. elim x [
            | raise e ↦ ([], raise e)
            | ok n ↦ (evict_entry dumps_indented j n (field_get j (entries n)), ok tt)
          ] in
          subst
            (λ x. Holds loads dumps dumps_indented key h partial (apply_all (changes x).0 files))
            (sym r)
            (evict_entry-Holds key h j partial files m r p b hold (field_get j (entries m)) refl)
