-- ===== src/Watcher.antt =====
-- packages/agent/src/grackle/watcher.py: snapshots of the files of a project, and the changes between
-- two of them. What the walk, stat and read_bytes give is an argument; the hash is a parameter.
pub mod Changes
pub mod Listing
pub mod Ticks
mod Tests
use grackle.Base.{
  ℕ, ◌==◌, String, List, [], ◌∷◌, ◌++◌, Option, none, some, Bool, true, false, not, ◌&&◌,
  if◌then◌else◌, is_some,
}
use grackle.Base.Int.{ℤ, pos, negsuc}
use grackle.Base.Dict.{get, put}
use grackle.Base.Text.{string_key, same_text}

-- A file of the walk: its posix key, none where it cannot be computed; and what stat and read_bytes
-- give, none where they raise OSError.
pub record Candidate : Type 0 where
  pub key : Option String
  pub stat : Option (ℤ × ℕ)
  pub content : Option (List ℕ)

-- A value of `_Snapshot`: mtime_ns, size and hash.
pub record Entry : Type 0 where
  pub mtime_ns : ℤ
  pub size : ℤ
  pub digest : String

abbrev pub Snapshot : Type 0
Snapshot = List (String × Entry)

abbrev pub same_int : ℤ → ℤ → Bool
same_int (pos m) (pos n) = m == n
same_int (negsuc m) (negsuc n) = m == n
same_int _ _ = false

-- `(*_STALE_STAT, fallback[2])`
abbrev pub stale : Entry → Entry
stale fallback = record { mtime_ns = negsuc 0; size = negsuc 0; digest = fallback.digest }

-- The tick's answer where the file cannot be read: what is known of it, if anything.
unfoldable pub fallen_back : Option Entry → Option Entry
fallen_back none = none
fallen_back (some e) = some (stale e)

-- `st.st_mtime_ns == fallback[0] and st.st_size == fallback[1]`
unfoldable pub is_unmoved : ℤ → ℕ → Option Entry → Bool
is_unmoved mtime size none = false
is_unmoved mtime size (some e) = same_int mtime e.mtime_ns && same_int (pos size) e.size

-- `if entry is not None: result[key] = entry`
unfoldable pub put_found : String → Option Entry → Snapshot → Snapshot
put_found key none result = result
put_found key (some entry) result = put key entry result

module _ (hash_bytes : List ℕ → String) where
  -- The read in `_stat_and_hash`.
  unfoldable pub read_and_hash : ℤ → ℕ → Option (List ℕ) → Option Entry → Option Entry
  unfolding fallen_back
  read_and_hash mtime size none fallback = fallen_back fallback
  read_and_hash mtime size (some content) fallback =
      some (record { mtime_ns = mtime; size = pos size; digest = hash_bytes content })

  unfoldable pub stat_then_read : Option (ℤ × ℕ) → Option (List ℕ) → Option Entry → Option Entry
  unfolding fallen_back is_unmoved read_and_hash
  stat_then_read none content fallback = fallen_back fallback
  stat_then_read (some (mtime, size)) content fallback =
      if is_unmoved mtime size fallback then fallback else read_and_hash mtime size content fallback

  -- `_stat_and_hash`
  unfoldable pub stat_and_hash : Candidate → Option Entry → Option Entry
  unfolding stat_then_read
  stat_and_hash file fallback = stat_then_read file.stat file.content fallback

  -- One round of the loop of `_snapshot`.
  unfoldable pub add_file : Candidate → Snapshot → Snapshot → Snapshot
  unfolding stat_and_hash put_found
  add_file file prev result = elim file.key [
    | none ↦ result
    | some key ↦ put_found key (stat_and_hash file (get key prev)) result
  ]

  unfoldable pub snapshot_from : List Candidate → Snapshot → Snapshot → Snapshot
  unfolding add_file
  snapshot_from [] prev result = result
  snapshot_from (file ∷ files) prev result = snapshot_from files prev (add_file file prev result)

  -- `_snapshot`
  unfoldable pub snapshot : List Candidate → Snapshot → Snapshot
  unfolding snapshot_from
  snapshot files prev = snapshot_from files prev []

-- `key not in old or old[key][2] != entry[2]`
unfoldable pub is_changed : Option Entry → Entry → Bool
is_changed none entry = true
is_changed (some e) entry = not (same_text e.digest entry.digest)

unfoldable pub changed_keys : Snapshot → Snapshot → List String
unfolding is_changed
changed_keys old [] = []
changed_keys old ((key, entry) ∷ new) =
    let rest = changed_keys old new in if is_changed (get key old) entry then key ∷ rest else rest

-- `old.keys() - new.keys()`
unfoldable pub removed_keys : Snapshot → Snapshot → List String
removed_keys [] new = []
removed_keys ((key, entry) ∷ old) new =
    let rest = removed_keys old new in if is_some (get key new) then rest else key ∷ rest

-- `_diff`, as a list of the keys of the set.
unfoldable pub diff : Snapshot → Snapshot → List String
unfolding changed_keys removed_keys
diff old new = changed_keys old new ++ removed_keys old new

module _ (hash_bytes : List ℕ → String) where
  -- The loop of `_watch_poll`: the keys of each tick, which are handed on where there are any.
  unfoldable pub watch_poll : List (List Candidate) → Snapshot → List (List String)
  unfolding snapshot diff
  watch_poll [] before = []
  watch_poll (files ∷ ticks) before =
      let after = snapshot hash_bytes files before in diff before after ∷ watch_poll ticks after

  -- The snapshot at the end of some ticks.
  unfoldable pub last_snapshot : List (List Candidate) → Snapshot → Snapshot
  unfolding snapshot
  last_snapshot [] before = before
  last_snapshot (files ∷ ticks) before = last_snapshot ticks (snapshot hash_bytes files before)

-- The batches that are yielded.
unfoldable pub yielded : List (List String) → List (List String)
yielded [] = []
yielded ([] ∷ ticks) = yielded ticks
yielded ((k ∷ ks) ∷ ticks) = (k ∷ ks) ∷ yielded ticks
