-- ===== src/Profile/Replay.antt =====
-- The events as a machine over the open frames, and the stacks that they move between.
use grackle.Base.{
  ℕ, zero, suc, ◌+◌, ◌≤◌, ◌<◌, String, Option, none, some, List, [], ◌∷◌, ◌++◌, map, arith, ◌≡◌,
  refl, length, take, ite,
}
use mathlib.Core.Option.{map as map_option}
use native.Mathlib.Nat.{add-zero, add-suc, suc-add}
use grackle.Base.Text.{String_discrete}
use grackle.Base.Int.{ℤ}
use grackle.Profile.Tree.{ProfileNode, Stack}
use grackle.Profile.Stream.{call, returned, TraceEvent, common_prefix, id_at, closes, opens}
use grackle.Profile.Labels.{Labelled}

-- A call opens a frame on top of the stack, and its depth is the height of the stack.
abbrev pub push : ℕ → String → List String → Option (List String)
push zero g [] = some (g ∷ [])
push zero g (x ∷ xs) = none
push (suc d) g [] = none
push (suc d) g (x ∷ xs) = map_option (◌∷◌ x) (push d g xs)

-- A return closes the top frame, which is its node at its depth.
abbrev pub pop : ℕ → String → List String → Option (List String)
pop zero g [] = none
pop zero g (x ∷ []) = ite (String_discrete x g) (some []) none
pop zero g (x ∷ y ∷ xs) = none
pop (suc d) g [] = none
pop (suc d) g (x ∷ xs) = map_option (◌∷◌ x) (pop d g xs)

abbrev pub step : TraceEvent → List String → Option (List String)
step e stack = elim e.event [
  | call ↦ push e.frame_depth e.node_id stack
  | returned ↦ pop e.frame_depth e.node_id stack
]

-- The stack after a sequence of events, none where an event does not fit.
abbrev pub replay : List TraceEvent → List String → Option (List String)
replay [] stack = some stack
replay (e ∷ es) stack = elim (step e stack) [ none ↦ none | some stack' ↦ replay es stack' ]

abbrev pub names : Stack → List String
names path = map (λ o. o.1) path

push-take :
    (d : ℕ) (path : Stack)
    → d < length path
    → push d (id_at path d) (take d (names path)) ≡ some (take (suc d) (names path))
push-take d [] h = absurd (omega arith)
push-take zero (o ∷ path) h = refl
push-take (suc d) (o ∷ path) h = rw (push-take d path (omega arith)) refl

pop-take :
    (d : ℕ) (path : Stack)
    → d < length path
    → pop d (id_at path d) (take (suc d) (names path)) ≡ some (take d (names path))
pop-take d [] h = absurd (omega arith)
pop-take zero (o ∷ path) h = ground arith
pop-take (suc d) (o ∷ path) h = rw (pop-take d path (omega arith)) refl

pub closes-replay :
    (prev : Stack) (ts : ℤ) (common n : ℕ) (es : List TraceEvent)
    → common + n ≤ length prev
    → replay (closes prev ts common n ++ es) (take (common + n) (names prev))
      ≡ replay es (take common (names prev))
unfolding closes
closes-replay prev ts common zero es h = rw add-zero refl
closes-replay prev ts common (suc n) es h =
    rw (add-suc common n, pop-take (common + n) prev (omega arith), replay, closes)
      (closes-replay prev ts common n es (omega arith))

pub opens-replay :
    (cur : Stack) (ts : ℤ) (d n : ℕ)
    → d + n ≤ length cur
    → replay (opens cur ts d n) (take d (names cur)) ≡ some (take (d + n) (names cur))
unfolding opens
opens-replay cur ts d zero h = rw add-zero refl
opens-replay cur ts d (suc n) h =
    rw (add-suc d n, push-take d cur (omega arith), replay, opens)
      (rw suc-add at (opens-replay cur ts (suc d) n (omega arith)))

pub common-le :
    (prev cur : Stack)
    → (common_prefix prev cur ≤ length prev) × (common_prefix prev cur ≤ length cur)
unfolding common_prefix
common-le [] cur = (omega arith, omega arith)
common-le (o ∷ prev) [] = (omega arith, omega arith)
common-le ((s, a) ∷ prev) ((t, b) ∷ cur) =
    let (p, q) = common-le prev cur in
    (ground (arith, common-le prev cur), ground (arith, common-le prev cur))

module _ {Frame : Type 0} (resolve : Frame → Option String)
    (nodes : List (ℕ × ProfileNode Frame)) where
  pub common-names :
      (prev cur : Stack)
      → Labelled resolve nodes prev
      → Labelled resolve nodes cur
      → take (common_prefix prev cur) (names prev) ≡ take (common_prefix prev cur) (names cur)
  unfolding common_prefix
  common-names [] [] h k = refl
  common-names [] (o ∷ cur) h k = refl
  common-names (o ∷ prev) [] h k = refl
  common-names ((s, a) ∷ prev) ((t, b) ∷ cur) h k = ground (arith, common-names prev cur)
