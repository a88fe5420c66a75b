-- ===== src/Cache/Tests.antt =====
-- packages/agent/src/grackle/cache.py: concrete calls, and the theorem on them. A text is the value it decodes to.
use grackle.Base.{String, [], ◌∷◌, Option, none, some, ◌≡◌, refl, false, sym, ◌∙◌}
use grackle.Base.Text.{String_discrete, same_text}
use text.Mathlib.TextEquality.{eq_iff}
use grackle.Base.Result.{Result, ok, raise, value_error}
use grackle.Json.{Json, obj, str, arr, nil, cons, Fields, end, field}
use grackle.Cache.{Files, load_manifest, cache_set, cache_get, entry_of}
use grackle.Cache.Manifest.{manifest_name}
use grackle.Cache.Set.{set, evict, call_all}
use grackle.Cache.Held.{IsOwn}
use grackle.Cache.Kept.{cache_get-set}

abbrev encode : Json → Json
encode v = v

abbrev decode : Json → Result (Option Json)
decode v = ok (some v)

abbrev graph_of : String → Fields
graph_of node = field "nodes" (arr (cons (str node) nil)) end

-- Two files of the same content share a sidecar: the graph of the first is that of the second.
shared_content :
    cache_get decode "a/index.ts" "e3b0" (
      call_all encode encode decode
        (set "a/index.ts" "e3b0" (graph_of "a/index")
          ∷ set "b/index.ts" "e3b0" (graph_of "b/index")
          ∷ [])
        [])
    ≡ ok (some (graph_of "b/index"))
unfolding call_all cache_get String_discrete
shared_content = refl

-- The evict of one takes it from the other.
shared_evict :
    cache_get decode "a/index.ts" "e3b0" (
      call_all encode encode decode
        (set "a/index.ts" "e3b0" (graph_of "a/index")
          ∷ set "b/index.ts" "e3b0" (graph_of "b/index")
          ∷ evict "b/index.ts"
          ∷ [])
        [])
    ≡ ok none
unfolding call_all cache_get String_discrete
shared_evict = refl

-- A manifest of another shape is taken for an empty one.
abbrev spoilt : Files Json
spoilt = ("manifest.json", arr nil) ∷ []

spoilt-IsOwn : IsOwn decode "a.ts" "aa" spoilt
unfolding entry_of String_discrete
spoilt-IsOwn j p e q = cc

-- A manifest that is no UTF-8 makes a get raise, and a set too, after it has written the sidecar.
unreadable : cache_get (λ t. raise value_error) "a.ts" "aa" spoilt ≡ raise value_error
unfolding cache_get String_discrete
unreadable = refl

half_set :
    (cache_set (λ t. raise value_error) encode encode "a.ts" "aa" (graph_of "a") spoilt).1
    ≡ raise value_error
unfolding cache_set String_discrete
half_set = refl

differ : (s t : String) → same_text s t ≡ false → ¬ (s ≡ t)
differ s t h e = cc (sym h ∙ (eq_iff s t).1 e)

cache_get-set_example :
    cache_get decode "a.ts" "aa" (
      call_all encode encode decode
        (set "a.ts" "aa" (graph_of "a")
          ∷ set "b.ts" "bb" (graph_of "b")
          ∷ evict "b.ts"
          ∷ evict "c.ts"
          ∷ [])
        spoilt)
    ≡ ok (some (graph_of "a"))
unfolding manifest_name load_manifest
cache_get-set_example =
    cache_get-set decode encode encode (λ v. refl) "a.ts" "aa" (graph_of "a")
      (set "b.ts" "bb" (graph_of "b") ∷ evict "b.ts" ∷ evict "c.ts" ∷ []) spoilt
      (field "entries" (obj end) end) refl (λ v. refl) (differ _ _ refl, differ _ _ refl)
      (differ _ _ refl, differ _ _ refl) spoilt-IsOwn
      (
        (differ _ _ refl, (differ _ _ refl, differ _ _ refl), (differ _ _ refl, differ _ _ refl)),
        (differ _ _ refl, (differ _ _ refl, tt)),
      )
