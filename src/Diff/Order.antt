-- ===== src/Diff/Order.antt =====
-- The entries of a diff: one for each node of the universe, in the order of severity.
use grackle.Base.{
  ℕ, String, Option, List, [], ◌∷◌, Bool, true, false, ◌||◌, if◌then◌else◌, ◌≡◌, refl, ◌∙◌, ite,
  arith, All, ◌⊎◌, ◌<◌, ap,
}
use grackle.Base.Text.{text_le, rank_then_text_total, rank_then_text_trans, String_discrete}
use grackle.Base.Sort.{
  IsOrder, sorted-Ordered, sorted-All, tally, tally-sorted, Pairwise, Ordered-Pairwise,
}
use grackle.Base.Int.{sub_ℕ}
use grackle.Diff.Classes.{Meaning, status-Meaning}
use grackle.Aggregates.Build.{Aggregates}
use grackle.Aggregates.Query.{node_ids, cumulative_heat}
use grackle.Diff.{
  DiffStatus, hotter, new, gone, colder, same, cold, touched, status_order, DiffEntry, shown_first,
  index_or_end, trace_entry, trace_entries, member, union, given, universe, diff_trace_vs_trace,
}

shown_total : (x y : DiffEntry) → shown_first x y ≡ false → shown_first y x ≡ true
unfolding shown_first
shown_total x y h =
    rank_then_text_total (status_order x.status) (status_order y.status) x.node_id y.node_id h

shown_trans :
    (x y z : DiffEntry) → shown_first x y ≡ true → shown_first y z ≡ true → shown_first x z ≡ true
unfolding shown_first
shown_trans x y z h l =
    rank_then_text_trans (status_order x.status) (status_order y.status) (status_order z.status)
      x.node_id y.node_id z.node_id h l

pub shown_first-IsOrder : IsOrder shown_first
shown_first-IsOrder = record { total = shown_total; trans = shown_trans }

pub member-union :
    (k : String) (xs ys : List String) → member k (union xs ys) ≡ (member k xs || member k ys)
unfolding union
member-union k [] ys = refl
member-union k (x ∷ xs) ys = ground (arith, member-union k xs ys)

abbrev is : String → String → Bool
is k j = ite (String_discrete j k) true false

-- An element of a set stands once.
tally-union :
    (k : String) (xs ys : List String)
    → tally (is k) ys ≡ (if member k ys then 1 else 0)
    → tally (is k) (union xs ys) ≡ (if member k (union xs ys) then 1 else 0)
unfolding union
tally-union k [] ys h = h
tally-union k (x ∷ xs) ys h = ground (arith, tally-union k xs ys h)

tally-universe :
    (k : String) (a b : Aggregates) (ids : Option (List String))
    → tally (is k) (universe a b ids) ≡ (if member k (universe a b ids) then 1 else 0)
unfolding universe
tally-universe k a b ids =
    let inner = tally-union k (node_ids b) [] refl in
    let middle = tally-union k (node_ids a) (union (node_ids b) []) inner in
    tally-union k (given ids) (union (node_ids a) (union (node_ids b) [])) middle

-- How severe a status is, the most severe first.
abbrev pub severity : DiffStatus → ℕ
severity hotter = 0
severity new = 1
severity gone = 2
severity colder = 3
severity same = 4
severity cold = 5
severity touched = 6

status_order-severity : (s : DiffStatus) → status_order s ≡ severity s
status_order-severity hotter = refl
status_order-severity new = refl
status_order-severity gone = refl
status_order-severity colder = refl
status_order-severity same = refl
status_order-severity cold = refl
status_order-severity touched = refl

-- An entry of a more severe status stands first, of two that are equally severe the one of the lesser id.
abbrev pub Before : DiffEntry → DiffEntry → Type 0
Before x y =
    (severity x.status < severity y.status)
    ⊎ ((severity x.status ≡ severity y.status) × (text_le x.node_id y.node_id ≡ true))

shown_first-Before : (x y : DiffEntry) → shown_first x y ≡ true → Before x y
unfolding shown_first
shown_first-Before x y h =
    ground (arith, status_order-severity x.status, status_order-severity y.status)

module _ (a b : Aggregates) (ia ib : ℕ) where
  -- The two heats of the node, their difference, and the status whose condition they meet.
  abbrev pub IsEntry : DiffEntry → Type 0
  IsEntry e =
      (e.count_a ≡ cumulative_heat a e.node_id ia)
      × (e.count_b ≡ cumulative_heat b e.node_id ib)
      × (e.delta ≡ sub_ℕ e.count_b e.count_a)
      × Meaning e.status e.count_a e.count_b

  tally-entries :
      (k : String) (ids : List String)
      → tally (λ e. is k e.node_id) (trace_entries a b ia ib ids) ≡ tally (is k) ids
  unfolding trace_entries
  tally-entries k [] = refl
  tally-entries k (nid ∷ ids) = ground (arith, tally-entries k ids)

  entries-All : (ids : List String) → All IsEntry (trace_entries a b ia ib ids)
  unfolding trace_entries trace_entry
  entries-All [] = tt
  entries-All (nid ∷ ids) = (
    (refl, refl, refl, status-Meaning (cumulative_heat a nid ia) (cumulative_heat b nid ib)),
    entries-All ids,
  )

universe-member :
    (k : String) (a b : Aggregates) (ids : Option (List String))
    → member k (universe a b ids)
      ≡ (member k (given ids) || member k (node_ids a) || member k (node_ids b))
unfolding universe
universe-member k a b ids = ground (
  arith,
  member-union k (given ids) (union (node_ids a) (union (node_ids b) [])),
  member-union k (node_ids a) (union (node_ids b) []),
  member-union k (node_ids b) [],
)

-- A diff of two traces: each entry holds the heats of its node in the two traces, their difference and
-- the status whose condition the two heats meet (new: only the second is positive; gone: only the first;
-- hotter, colder: both are, and the second is higher, lower; same: they are equal). The entries are in the
-- order of severity and then of the ids, and each id of the traces or the caller has one entry, any other
-- none.
pub diff_entries :
    (a b : Aggregates) (ids : Option (List String)) (at_a at_b : Option ℕ)
    → let d = diff_trace_vs_trace a b ids at_a at_b in
      All (IsEntry a b (index_or_end at_a a) (index_or_end at_b b)) d
      × Pairwise Before d
      × ((k : String)
          → tally (λ e. ite (String_discrete e.node_id k) true false) d ≡ (
              if member k (given ids) || member k (node_ids a) || member k (node_ids b)
              then 1
              else 0))
unfolding diff_trace_vs_trace
diff_entries a b ids at_a at_b =
    let ia = index_or_end at_a a in
    let ib = index_or_end at_b b in
    let all = trace_entries a b ia ib (universe a b ids) in
    (
      sorted-All shown_first (IsEntry a b ia ib) all (entries-All a b ia ib (universe a b ids)),
      Ordered-Pairwise Before shown_first shown_first-Before _
          (sorted-Ordered shown_first shown_first-IsOrder all),
      λ k.
          tally-sorted (λ e. is k e.node_id) shown_first all
          ∙ (tally-entries a b ia ib k (universe a b ids)
              ∙ (tally-universe k a b ids
                  ∙ ap (λ m. if m then 1 else 0) (universe-member k a b ids))),
    )
