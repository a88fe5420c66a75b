-- ===== src/Aggregates/Tables.antt =====
-- packages/agent/src/grackle/python_runtime/aggregates.py:
-- the tables that the scan fills, event by event.
use grackle.Base.{
  ℕ, ◌+◌, ◌%◌, String, none, some, List, [], ◌∷◌, ◌++◌, Bool, ◌||◌, ◌==◌, if◌then◌else◌,
}
use grackle.Base.Dict.{get, put, get_default}
use grackle.Base.Text.{string_key, String_discrete}
use grackle.Aggregates.Event.{Event}

pub record Tables : Type 0 where
  pub hits : List (String × List ℕ)
  pub weight_prefix : List (String × List ℕ)
  pub first_seen : List (String × ℕ)
  pub index : ℕ

abbrev pub start : Tables
start = record { hits = []; weight_prefix = []; first_seen = []; index = 0 }

-- `wp[-1] if wp else 0`
unfoldable pub last_or_zero : List ℕ → ℕ
last_or_zero [] = 0
last_or_zero (x ∷ []) = x
last_or_zero (x ∷ y ∷ xs) = last_or_zero (y ∷ xs)

-- `d.setdefault(k, [])` and the append.
unfoldable pub append_at : String → ℕ → List (String × List ℕ) → List (String × List ℕ)
unfolding get put String_discrete
append_at k n m = put k (get_default k [] m ++ n ∷ []) m

-- `sparse_k == 1 or index % sparse_k == 0`
abbrev pub recorded : ℕ → ℕ → Bool
recorded k index = k == 1 || index % k == 0

-- `if node_id not in first_seen`
unfoldable pub first_at : String → ℕ → List (String × ℕ) → List (String × ℕ)
unfolding get put String_discrete
first_at nid index m = elim (get nid m) [ none ↦ put nid index m | some _ ↦ m ]

-- The block under `if node_id`.
unfoldable pub touch : ℕ → String → ℕ → Tables → Tables
unfolding append_at last_or_zero first_at
touch k nid count t =
    let seen = first_at nid t.index t.first_seen in
    let total = last_or_zero (get_default nid [] t.weight_prefix) + count in
    if recorded k t.index
    then record t {
      first_seen = seen;
      hits = append_at nid t.index t.hits;
      weight_prefix = append_at nid total t.weight_prefix;
    }
    else record t { first_seen = seen }

unfoldable pub note : ℕ → Event → Tables → Tables
unfolding touch
note k (none, count) t = record t { index = t.index + 1 }
note k (some nid, count) t = let t' = touch k nid count t in record t' { index = t'.index + 1 }
