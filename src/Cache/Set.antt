-- ===== src/Cache/Set.antt =====
-- What a set of packages/agent/src/grackle/cache.py leaves: the sidecar, the other files and the entries.
use grackle.Base.{String, List, [], ◌∷◌, ◌++◌, Option, some, ◌≡◌, ap, ◌∙◌, ite}
use grackle.Base.Result.{Result, ok, raise, ◌>>=◌}
use grackle.Base.Dict.{get}
use grackle.Base.Text.{string_key, append, String_discrete}
use grackle.Json.{Json, obj, str, Fields, end, field, field_get, field_put, field_get-field_put}
use grackle.Cache.{
  Files, Changes, entries, apply_all, atomic_write, set_entry, load_manifest, save_manifest,
  entry_of, cache_set, cache_evict,
}
use grackle.Cache.Manifest.{
  Avoids, entries-field_put, apply_all-append, get-atomic_write, atomic_write-Avoids,
  load_manifest-save_manifest,
}

-- set and evict, as they are called.
pub data CacheCall : Type 0 where
  set : String → String → Fields → CacheCall
  evict : String → CacheCall

abbrev pub new_entry : String → Json
new_entry content_hash =
    obj (
      field "hash" (str content_hash)
        (field "partial_path" (str (append content_hash ".json")) end))

module _ {T : Type 0} (dumps dumps_indented : Json → T) (loads : T → Result (Option Json)) where
  unfoldable pub call : CacheCall → Files T → Files T
  unfolding apply_all cache_set cache_evict
  call (set key content_hash partial) files =
      apply_all (cache_set loads dumps_indented dumps key content_hash partial files).0 files
  call (evict key) files = apply_all (cache_evict loads dumps_indented key files).0 files

  unfoldable pub call_all : List CacheCall → Files T → Files T
  unfolding call
  call_all [] files = files
  call_all (c ∷ cs) files = call_all cs (call c files)

  -- The files after the sidecar of a set is written.
  abbrev pub with_sidecar : String → Fields → Files T → Files T
  with_sidecar content_hash partial files =
      apply_all (atomic_write content_hash (dumps (obj partial))) files

  -- A set over a manifest that is read.
  module _ (key content_hash : String) (partial : Fields) (files : Files T) (m : Fields)
      (reads : load_manifest loads (with_sidecar content_hash partial files) ≡ ok m) where
    abbrev saved : Fields
    saved = set_entry key content_hash m

    set_as :
        call (set key content_hash partial) files
        ≡ apply_all (save_manifest dumps_indented saved) (with_sidecar content_hash partial files)
    unfolding call cache_set
    set_as =
        let first = atomic_write content_hash (dumps (obj partial)) in
        let changes : Result Fields → Changes T = λ r. elim r [
          | raise e ↦ (first, raise e)
          | ok m' ↦ (first ++ save_manifest dumps_indented (set_entry key content_hash m'), ok tt)
        ] in
        ap (λ r. apply_all (changes r).0 files) reads
        ∙ apply_all-append first (save_manifest dumps_indented saved) files

    pub set-Avoids :
        (name : String)
        → Avoids "manifest" name
        → get name (call (set key content_hash partial) files)
          ≡ get name (with_sidecar content_hash partial files)
    unfolding save_manifest
    set-Avoids name a =
        ap (get name) set_as
        ∙ atomic_write-Avoids "manifest" name (dumps_indented (obj saved))
            (with_sidecar content_hash partial files) a

    pub set_get :
        Avoids "manifest" (append content_hash ".json")
        → get (append content_hash ".json") (call (set key content_hash partial) files)
          ≡ some (dumps (obj partial))
    set_get a =
        set-Avoids (append content_hash ".json") a
        ∙ get-atomic_write content_hash (dumps (obj partial)) files

    set_manifest :
        ((v : Json) → loads (dumps_indented v) ≡ ok (some v))
        → load_manifest loads (call (set key content_hash partial) files) ≡ ok saved
    unfolding set_entry
    set_manifest decoded =
        ap (load_manifest loads) set_as
        ∙ load_manifest-save_manifest loads dumps_indented decoded
            (field_put key (new_entry content_hash) (entries m)) m
            (with_sidecar content_hash partial files)

    pub entry_of-set :
        ((v : Json) → loads (dumps_indented v) ≡ ok (some v))
        → (j : String)
        → entry_of loads j (call (set key content_hash partial) files)
          ≡ ok (
              ite (String_discrete key j) (some (new_entry content_hash)) (field_get j (entries m)))
    unfolding entry_of set_entry
    entry_of-set decoded j =
        let es = field_put key (new_entry content_hash) (entries m) in
        ap (λ r. r >>= λ n. ok (field_get j (entries n))) (set_manifest decoded)
        ∙ (ap (λ n. ok (field_get j n)) (entries-field_put es m)
            ∙ ap ok (field_get-field_put key j (new_entry content_hash) (entries m)))
