-- ===== src/Watcher/Tests.antt =====
-- packages/agent/src/grackle/watcher.py: runs, and the theorems at concrete ticks.
use grackle.Base.{ℕ, String, List, [], ◌∷◌, none, some, ◌≡◌, ◌≢◌, ◌↔◌, refl, inl, Any, All}
use grackle.Base.Int.{pos}
use grackle.Base.Dict.{get, put}
use grackle.Base.Text.{string_key, String_discrete}
use grackle.Watcher.{Candidate, Entry, Snapshot, diff, snapshot, watch_poll, last_snapshot, yielded}
use grackle.Watcher.Changes.{digest_at, diff-Changed}
use grackle.Watcher.Ticks.{poll_after_failures}

abbrev hash_bytes : List ℕ → String
hash_bytes [] = "empty"
hash_bytes (c ∷ s) = "full"

abbrev known : Entry
known = record { mtime_ns = pos 1; size = pos 0; digest = "empty" }

abbrev before : Snapshot
before = ("a.py", known) ∷ []

abbrev missing : Candidate
missing = record { key = some "a.py"; stat = none; content = none }

abbrev written : Candidate
written = record { key = some "a.py"; stat = some (pos 9, 2); content = some (1 ∷ 2 ∷ []) }

-- A failing tick reports nothing, a write is reported once, and a removal is reported.
three_ticks :
    yielded
      (watch_poll hash_bytes ((missing ∷ []) ∷ (written ∷ []) ∷ (written ∷ []) ∷ [] ∷ []) before)
    ≡ ("a.py" ∷ []) ∷ ("a.py" ∷ []) ∷ []
unfolding yielded watch_poll get String_discrete put
three_ticks = refl

diff-Changed_example :
    Any (λ k. k ≡ "a.py") (diff before (snapshot hash_bytes (written ∷ []) before))
    ↔ (digest_at "a.py" before ≢ digest_at "a.py" (snapshot hash_bytes (written ∷ []) before))
diff-Changed_example = diff-Changed hash_bytes (written ∷ []) before "a.py"

-- The content changed, but the time and the size are those that were known.
abbrev rewritten : Candidate
rewritten = record { key = some "a.py"; stat = some (pos 1, 0); content = some (1 ∷ []) }

poll_after_failures_example :
    All (λ ks. ¬ Any (λ k. k ≡ "a.py") ks) (watch_poll hash_bytes ((missing ∷ []) ∷ []) before)
    × (Any
          (λ k. k ≡ "a.py")
          (diff (last_snapshot hash_bytes ((missing ∷ []) ∷ []) before) (
            snapshot hash_bytes
              (rewritten ∷ [])
              (last_snapshot hash_bytes ((missing ∷ []) ∷ []) before)))
        ↔ (hash_bytes (1 ∷ []) ≢ "empty"))
unfolding get String_discrete
poll_after_failures_example =
    poll_after_failures hash_bytes "a.py" before known (missing ∷ []) [] (rewritten ∷ []) rewritten
      (pos 1) 0 (1 ∷ []) refl (missing, inl (refl, refl, tt), inl refl) tt (inl (refl, refl, tt))
      refl refl
