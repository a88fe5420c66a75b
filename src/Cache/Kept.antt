-- ===== src/Cache/Kept.antt =====
-- What the cache of packages/agent/src/grackle/cache.py keeps of a path through calls on others.
use grackle.Base.{String, List, [], ◌∷◌, Option, some, ◌≡◌, All}
use grackle.Base.Text.{append}
use grackle.Json.{Json, Fields}
use grackle.Base.Result.{Result, ok}
use grackle.Cache.{Files, load_manifest, cache_get}
use grackle.Cache.Manifest.{Avoids, manifest_name}
use grackle.Cache.Set.{CacheCall, set, evict, call, call_all}
use grackle.Cache.Held.{IsOwn, Holds, IsApart, Holds-cache_get, set-Holds, set_other-Holds}
use grackle.Cache.Evict.{evict-Holds}

module _ {T : Type 0} (loads : T → Result (Option Json)) where
  module _ (dumps dumps_indented : Json → T) where
    module _ (decoded : (v : Json) → loads (dumps_indented v) ≡ ok (some v)) where
      call-Holds :
          (key h : String) (partial : Fields) (files : Files T) (c : CacheCall)
          → Avoids "manifest" (append h ".json")
          → IsApart key h c
          → Holds loads dumps dumps_indented key h partial files
          → Holds loads dumps dumps_indented key h partial (call dumps dumps_indented loads c files)
      unfolding call
      call-Holds key h partial files (set j g other) b a hold =
          set_other-Holds loads dumps dumps_indented decoded key h j g partial other files a b hold
      call-Holds key h partial files (evict j) b a hold =
          evict-Holds loads dumps dumps_indented decoded key h j partial files a b hold

      call_all-Holds :
          (key h : String) (partial : Fields) (cs : List CacheCall) (files : Files T)
          → Avoids "manifest" (append h ".json")
          → All (IsApart key h) cs
          → Holds loads dumps dumps_indented key h partial files
          → Holds loads dumps dumps_indented key h partial
              (call_all dumps dumps_indented loads cs files)
      unfolding call_all
      call_all-Holds key h partial [] files b a hold = hold
      call_all-Holds key h partial (c ∷ cs) files b a hold =
          call_all-Holds key h partial cs (call dumps dumps_indented loads c files) b a.1
            (call-Holds key h partial files c b a.0 hold)

      -- Where json decodes what it encodes and the manifest that is there can be read, a get with the hash of a set returns the partial that the set
      -- stored, after any calls on other paths whose sets are of other contents, if before no entry of another
      -- path names the sidecar, and the names of the sidecar and the manifest differ.
      pub cache_get-set :
          (key h : String) (partial : Fields) (cs : List CacheCall) (files : Files T) (m : Fields)
          → load_manifest loads files ≡ ok m
          → ((v : Json) → loads (dumps v) ≡ ok (some v))
          → Avoids h manifest_name
          → Avoids "manifest" (append h ".json")
          → IsOwn loads key h files
          → All (IsApart key h) cs
          → cache_get loads key h
              (call_all dumps dumps_indented loads (set key h partial ∷ cs) files)
            ≡ ok (some partial)
      unfolding call_all
      cache_get-set key h partial cs files m r d a b own apart =
          let files1 = call dumps dumps_indented loads (set key h partial) files in
          Holds-cache_get loads dumps dumps_indented key h partial
            (call_all dumps dumps_indented loads cs files1) d
            (call_all-Holds key h partial cs files1 b apart
              (set-Holds loads dumps dumps_indented decoded key h partial files m r a b own))
