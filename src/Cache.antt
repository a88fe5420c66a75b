-- ===== src/Cache.antt =====
-- packages/agent/src/grackle/cache.py: CacheManager over the files of its directory. A file is a name and
-- what is written in it, reading it and json are parameters, and the key and the hash of a path are arguments. Under its lock each operation runs alone, and is the list of its changes with how it ends.
use grackle.Base.{String, List, [], ◌∷◌, ◌++◌, Option, none, some, Bool, false, if◌then◌else◌}
use grackle.Base.Result.{Result, ok, raise, ◌>>=◌}
use grackle.Base.Dict.{get, put, pop}
use grackle.Base.Text.{string_key, same_text, append}
use grackle.Json.{
  Json, str, obj, Fields, end, field, field_get, field_put, field_pop, as_text, as_dict,
}
pub mod Manifest
pub mod Set
pub mod Held
pub mod Evict
pub mod Kept
mod Tests

-- A change of the directory.
pub data FileStep (T : Type 0) : Type 0 where
  write : String → T → FileStep T
  replace : String → String → FileStep T
  unlink : String → FileStep T

-- What an operation did to the directory, and how it ended.
abbrev pub Changes : Type 0 → Type 0
Changes T = List (FileStep T) × Result (Unit {0})

abbrev pub Files : Type 0 → Type 0
Files T = List (String × T)

-- `manifest["entries"]`, a dict in every manifest that is loaded.
unfoldable pub entries : Fields → Fields
unfolding field_get
entries m = elim (field_get "entries" m) [ some (obj es) ↦ es | _ ↦ end ]

-- `_normalize_manifest(data)`
unfoldable pub with_entries : Option Json → Fields → Fields
unfolding field_put
with_entries (some (obj es)) m = m
with_entries _ m = field_put "entries" (obj end) m

unfoldable pub normalize_manifest : Option Json → Fields
unfolding with_entries field_get
normalize_manifest (some (obj m)) = with_entries (field_get "entries" m) m
normalize_manifest _ = field "entries" (obj end) end

-- `entry.get("hash") == content_hash`
unfoldable pub is_text : String → Option Json → Bool
is_text s (some (str t)) = same_text t s
is_text s _ = false

-- The guards of get on the entry of the path.
unfoldable pub partial_name : String → Option Json → Option String
unfolding is_text as_text field_get
partial_name content_hash (some (obj entry)) =
    if is_text content_hash (field_get "hash" entry)
    then as_text (field_get "partial_path" entry)
    else none
partial_name content_hash _ = none

-- What set puts into the manifest.
unfoldable pub set_entry : String → String → Fields → Fields
unfolding entries field_put
set_entry key content_hash m =
    let entry =
      field "hash" (str content_hash)
        (field "partial_path" (str (append content_hash ".json")) end) in
    field_put "entries" (obj (field_put key (obj entry) (entries m))) m

module _ {T : Type 0} where
  unfoldable pub apply : FileStep T → Files T → Files T
  unfolding get put pop
  apply (write name text) files = put name text files
  apply (replace from to) files = elim (get from files) [
    | none ↦ files
    | some text ↦ put to text (pop from files)
  ]
  apply (unlink name) files = pop name files

  unfoldable pub apply_all : List (FileStep T) → Files T → Files T
  unfolding apply
  apply_all [] files = files
  apply_all (s ∷ ss) files = apply_all ss (apply s files)

  -- `_atomic_write(stem.json, text)`
  unfoldable pub atomic_write : String → T → List (FileStep T)
  atomic_write stem text =
      write (append stem ".tmp") text ∷ replace (append stem ".tmp") (append stem ".json") ∷ []

  -- `unlink(missing_ok=True)` of the sidecar of an entry.
  unfoldable pub unlinks : Option String → List (FileStep T)
  unlinks none = []
  unlinks (some name) = unlink name ∷ []

  module _ (dumps_indented : Json → T) where
    -- `_save_manifest(manifest)`
    unfoldable pub save_manifest : Fields → List (FileStep T)
    unfolding atomic_write
    save_manifest m = atomic_write "manifest" (dumps_indented (obj m))

    -- What evict does with the entry that it takes out of the manifest.
    unfoldable pub evict_entry : String → Fields → Option Json → List (FileStep T)
    unfolding unlinks save_manifest entries as_text field_pop field_put
    evict_entry key m (some (obj entry)) =
        unlinks (as_text (field_get "partial_path" entry))
        ++ save_manifest (field_put "entries" (obj (field_pop key (entries m))) m)
    evict_entry key m _ = []

  -- `loads` reads a file and decodes it: none is a text that is no JSON, and what else it raises, as
  -- UnicodeDecodeError, is not caught.
  module _ (loads : T → Result (Option Json)) where
    -- `_load_manifest()`, of the file if there is one.
    unfoldable pub parse_manifest : Option T → Result Fields
    unfolding normalize_manifest
    parse_manifest none = ok (field "entries" (obj end) end)
    parse_manifest (some text) = loads text >>= λ v. ok (normalize_manifest v)

    unfoldable pub load_manifest : Files T → Result Fields
    unfolding parse_manifest get
    load_manifest files = parse_manifest (get (append "manifest" ".json") files)

    -- The entry of a path.
    unfoldable pub entry_of : String → Files T → Result (Option Json)
    unfolding load_manifest entries
    entry_of key files = load_manifest files >>= λ m. ok (field_get key (entries m))

    -- The sidecar, if it is a dict.
    unfoldable pub read_partial : String → Files T → Result (Option Fields)
    unfolding as_dict get
    read_partial name files = elim (get name files) [
      | none ↦ ok none
      | some text ↦ loads text >>= λ result. ok (as_dict result)
    ]

    -- `get(path)`
    unfoldable pub cache_get : String → String → Files T → Result (Option Fields)
    unfolding partial_name entry_of read_partial
    cache_get key content_hash files = entry_of key files >>= λ entry.
        elim (partial_name content_hash entry) [
          | none ↦ ok none
          | some name ↦ read_partial name files
        ]

    module _ (dumps_indented : Json → T) where
      -- `evict(path)`
      unfoldable pub cache_evict : String → Files T → Changes T
      unfolding evict_entry load_manifest entries
      cache_evict key files = elim (load_manifest files) [
        | raise e ↦ ([], raise e)
        | ok m ↦ (evict_entry dumps_indented key m (field_get key (entries m)), ok tt)
      ]

      -- `set(path, content_hash, partial)`: the manifest is loaded after the sidecar is written.
      unfoldable pub cache_set : (Json → T) → String → String → Fields → Files T → Changes T
      unfolding apply_all atomic_write save_manifest set_entry load_manifest
      cache_set dumps key content_hash partial files =
          let first = atomic_write content_hash (dumps (obj partial)) in
          elim (load_manifest (apply_all first files)) [
            | raise e ↦ (first, raise e)
            | ok m ↦ (first ++ save_manifest dumps_indented (set_entry key content_hash m), ok tt)
          ]
