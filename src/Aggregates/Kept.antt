-- ===== src/Aggregates/Kept.antt =====
-- The hit index and the prefix sums of one node hold its recorded events in order.
use grackle.Base.{
  ℕ, suc, ◌+◌, String, none, some, List, [], ◌∷◌, ◌++◌, map, if◌then◌else◌, arith, ◌≡◌, refl, ap,
  length, length-append, ite,
}
use mathlib.Core.List.{append_assoc, append-nil, map-append}
use native.Mathlib.Nat.{add-zero, add-suc, suc-add, zero-add}
use grackle.Base.Dict.{get, get_default, get-put}
use grackle.Base.Text.{String_discrete, string_key}
use grackle.Aggregates.Event.{Event}
use grackle.Aggregates.Tables.{Tables, start, recorded, last_or_zero, append_at, touch, note}

-- The recorded events of a node from position `i` on: positions and weights.
abbrev pub hit_of : ℕ → String → ℕ → Event → List (ℕ × ℕ)
hit_of k node_id i (none, count) = []
hit_of k node_id i (some nid, count) =
    if recorded k i then ite (String_discrete nid node_id) ((i, count) ∷ []) [] else []

abbrev pub kept : ℕ → String → ℕ → List Event → List (ℕ × ℕ)
kept k node_id i [] = []
kept k node_id i (e ∷ es) = hit_of k node_id i e ++ kept k node_id (suc i) es

abbrev pub positions : List (ℕ × ℕ) → List ℕ
positions = map (λ h. h.0)

abbrev pub sums : ℕ → List (ℕ × ℕ) → List ℕ
sums acc [] = []
sums acc ((i, w) ∷ hs) = (acc + w) ∷ sums (acc + w) hs

pub kept-snoc :
    (k : ℕ) (node_id : String) (i : ℕ) (es : List Event) (e : Event)
    → kept k node_id i (es ++ e ∷ []) ≡ kept k node_id i es ++ hit_of k node_id (i + length es) e
kept-snoc k node_id i [] e = rw (append-nil, add-zero)
kept-snoc k node_id i (x ∷ es) e =
    rw (kept-snoc k node_id (suc i) es e, append_assoc, suc-add, add-suc)

pub sums-snoc :
    (acc : ℕ) (hs : List (ℕ × ℕ)) (i w : ℕ)
    → sums acc (hs ++ (i, w) ∷ []) ≡ sums acc hs ++ (last_or_zero (acc ∷ sums acc hs) + w) ∷ []
unfolding last_or_zero
sums-snoc acc [] i w = refl
sums-snoc acc ((j, v) ∷ hs) i w = ap (◌∷◌ (acc + v)) (sums-snoc (acc + v) hs i w)

last-sums : (hs : List (ℕ × ℕ)) → last_or_zero (0 ∷ sums 0 hs) ≡ last_or_zero (sums 0 hs)
unfolding last_or_zero
last-sums [] = refl
last-sums ((i, w) ∷ hs) = refl

-- What is appended under one key is read under that key alone.
pub get_default-append_at :
    (j i : String) (n : ℕ) (m : List (String × List ℕ))
    → get_default i [] (append_at j n m)
      ≡ ite (String_discrete j i) (get_default i [] m ++ n ∷ []) (get_default i [] m)
unfolding append_at
get_default-append_at j i n m = ground (arith, get-put j i (get_default j [] m ++ n ∷ []) m)

-- The tables after the events `es`.
pub record Tracks (k : ℕ) (es : List Event) (t : Tables) : Type 0 where
  pub index : t.index ≡ length es
  pub hits : (i : String) → get_default i [] t.hits ≡ positions (kept k i 0 es)
  pub sums : (i : String) → get_default i [] t.weight_prefix ≡ sums 0 (kept k i 0 es)

pub Tracks-start : (k : ℕ) → Tracks k [] start
unfolding get
Tracks-start k = record { index = refl; hits = λ i. refl; sums = λ i. refl }

module _ (k : ℕ) (nid : String) (count : ℕ) (t : Tables) (i : String) where
  touch-hits :
      get_default i [] (touch k nid count t).hits
      ≡ get_default i [] t.hits ++ positions (hit_of k i t.index (some nid, count))
  unfolding touch
  touch-hits =
      ground
        (arith, get_default-append_at nid i t.index t.hits, append-nil (get_default i [] t.hits))

  touch-sums :
      (hs : List (ℕ × ℕ))
      → get_default i [] t.weight_prefix ≡ sums 0 hs
      → get_default i [] (touch k nid count t).weight_prefix
        ≡ sums 0 (hs ++ hit_of k i t.index (some nid, count))
  unfolding touch
  touch-sums hs h = ground (
    arith,
    get_default-append_at nid i (last_or_zero (get_default nid [] t.weight_prefix) + count)
        t.weight_prefix,
    append-nil hs,
    sums-snoc 0 hs t.index count,
    last-sums hs,
  )

  touch-index : (touch k nid count t).index ≡ t.index
  unfolding touch
  touch-index = ground arith

pub Tracks-note :
    (k : ℕ) (es : List Event) (e : Event) (t : Tables)
    → Tracks k es t
    → Tracks k (es ++ e ∷ []) (note k e t)
unfolding note
Tracks-note k es (none, count) t h = record {
  index = omega (arith, h.index, length-append es ((none, count) ∷ []));
  hits = λ i. rw (kept-snoc k i 0 es (none, count), append-nil) (h.hits i);
  sums = λ i. rw (kept-snoc k i 0 es (none, count), append-nil) (h.sums i);
}
Tracks-note k es (some nid, count) t h = record {
  index =
      omega
        (arith, h.index, length-append es ((some nid, count) ∷ []), touch-index k nid count t nid);
  hits = λ i.
      rw (kept-snoc k i 0 es (some nid, count), zero-add, ← h.index, touch-hits, map-append)
        (ap (λ l. l ++ positions (hit_of k i t.index (some nid, count))) (h.hits i));
  sums = λ i.
      rw (kept-snoc k i 0 es (some nid, count), zero-add, ← h.index)
        (touch-sums k nid count t i (kept k i 0 es) (h.sums i));
}
