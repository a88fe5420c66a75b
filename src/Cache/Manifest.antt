-- ===== src/Cache/Manifest.antt =====
-- The manifest and the files after a change of the directory of packages/agent/src/grackle/cache.py.
use grackle.Base.{String, List, [], ◌∷◌, ◌++◌, Option, none, some, ◌≡◌, refl, ap, ◌∙◌}
use mathlib.Core.Logic.{if_pos}
use grackle.Base.Dict.{get, put, pop, get-put-same, get-put-other, get-pop-other}
use grackle.Base.Text.{string_key, append, String_discrete}
use grackle.Json.{Json, obj, Fields, end, field, field_get, field_put, field_get-field_put}
use grackle.Base.Result.{Result, ok, ◌>>=◌}
use grackle.Cache.{
  FileStep, Files, entries, with_entries, normalize_manifest, apply_all, apply, atomic_write,
  parse_manifest, load_manifest, save_manifest,
}

-- Names that the writing of a file does not touch.
abbrev pub Avoids : String → String → Type 0
Avoids stem name = (¬ (name ≡ append stem ".tmp")) × (¬ (name ≡ append stem ".json"))

unfoldable pub manifest_name : String
manifest_name = append "manifest" ".json"

-- A manifest whose entries are a dict.
abbrev pub IsManifest : Fields → Type 0
IsManifest m = (es : Fields) × (field_get "entries" m ≡ some (obj es))

get_entries : (es m : Fields) → field_get "entries" (field_put "entries" (obj es) m) ≡ some (obj es)
get_entries es m =
    field_get-field_put "entries" "entries" (obj es) m
    ∙ if_pos (String_discrete "entries" "entries") refl (some (obj es)) (field_get "entries" m)

put_entries-IsManifest : (es m : Fields) → IsManifest (field_put "entries" (obj es) m)
put_entries-IsManifest es m = (es, get_entries es m)

abbrev entries_from : Option Json → Fields
entries_from (some (obj es)) = es
entries_from _ = end

pub entries-field_put : (es m : Fields) → entries (field_put "entries" (obj es) m) ≡ es
unfolding entries
entries-field_put es m = ap entries_from (get_entries es m)

with_entries-IsManifest :
    (o : Option Json) (m : Fields) → field_get "entries" m ≡ o → IsManifest (with_entries o m)
unfolding with_entries
with_entries-IsManifest (some (obj es)) m e = (es, e)
with_entries-IsManifest none m e = put_entries-IsManifest end m
with_entries-IsManifest (some _) m e = put_entries-IsManifest end m

bare-IsManifest : IsManifest (field "entries" (obj end) end)
unfolding field_get
bare-IsManifest = (end, if_pos (String_discrete "entries" "entries") refl (some (obj end)) none)

normalize_manifest-IsManifest : (o : Option Json) → IsManifest (normalize_manifest o)
unfolding normalize_manifest
normalize_manifest-IsManifest (some (obj m)) =
    with_entries-IsManifest (field_get "entries" m) m refl
normalize_manifest-IsManifest none = bare-IsManifest
normalize_manifest-IsManifest (some _) = bare-IsManifest

normalize_manifest_id : (m : Fields) → IsManifest m → normalize_manifest (some (obj m)) ≡ m
unfolding normalize_manifest with_entries
normalize_manifest_id m (es, e) = rw e refl

module _ {T : Type 0} where
  pub apply_all-append :
      (xs ys : List (FileStep T)) (files : Files T)
      → apply_all (xs ++ ys) files ≡ apply_all ys (apply_all xs files)
  unfolding apply_all
  apply_all-append [] ys files = refl
  apply_all-append (x ∷ xs) ys files = apply_all-append xs ys (apply x files)

  atomic_write-put :
      (stem : String) (t : T) (files : Files T)
      → apply_all (atomic_write stem t) files
        ≡ put (append stem ".json") t (pop (append stem ".tmp") (put (append stem ".tmp") t files))
  unfolding apply_all atomic_write apply
  atomic_write-put stem t files =
      let tmp = append stem ".tmp" in
      let files' : Files T = put tmp t files in
      ap
        (λ o. elim o as (λ _. Files T) [
          | none ↦ files'
          | some text ↦ put (append stem ".json") text (pop tmp files')
        ])
        (get-put-same tmp t files)

  pub get-atomic_write :
      (stem : String) (t : T) (files : Files T)
      → get (append stem ".json") (apply_all (atomic_write stem t) files) ≡ some t
  get-atomic_write stem t files = rw (atomic_write-put stem t files) (get-put-same _ t _)

  pub atomic_write-Avoids :
      (stem name : String) (t : T) (files : Files T)
      → Avoids stem name
      → get name (apply_all (atomic_write stem t) files) ≡ get name files
  atomic_write-Avoids stem name t files (p, q) =
      ap (get name) (atomic_write-put stem t files)
      ∙ (get-put-other (append stem ".json") name t _ q
          ∙ (get-pop-other (append stem ".tmp") name _ p
              ∙ get-put-other (append stem ".tmp") name t files p))

  module _ (loads : T → Result (Option Json)) where
    pub load_manifest-Avoids :
        (stem : String) (t : T) (files : Files T)
        → Avoids stem manifest_name
        → load_manifest loads (apply_all (atomic_write stem t) files) ≡ load_manifest loads files
    unfolding load_manifest manifest_name
    load_manifest-Avoids stem t files h =
        ap (parse_manifest loads) (atomic_write-Avoids stem manifest_name t files h)

    module _ (dumps_indented : Json → T)
        (decoded : (v : Json) → loads (dumps_indented v) ≡ ok (some v)) where
      pub load_manifest-save_manifest :
          (es m : Fields) (files : Files T)
          → let m' = field_put "entries" (obj es) m in
            load_manifest loads (apply_all (save_manifest dumps_indented m') files) ≡ ok m'
      unfolding load_manifest save_manifest parse_manifest
      load_manifest-save_manifest es m files =
          let m' = field_put "entries" (obj es) m in
          ap (parse_manifest loads) (get-atomic_write "manifest" (dumps_indented (obj m')) files)
          ∙ (ap (λ r. r >>= λ v. ok (normalize_manifest v)) (decoded (obj m'))
              ∙ ap ok (normalize_manifest_id m' (put_entries-IsManifest es m)))
