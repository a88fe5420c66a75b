-- ===== src/Profile/Stream.antt =====
-- packages/agent/src/grackle/node_runtime/profile_reconstruct.py: the events that move the open
-- stack from sample to sample.
use grackle.Base.{
  ℕ, zero, suc, ◌+◌, ◌-◌, ◌==◌, if◌then◌else◌, String, Option, none, some, List, [], ◌∷◌, ◌++◌,
  length, get_or,
}
use grackle.Base.Int.{ℤ, pos, ◌+ℤ◌, scale, max_ℤ}
use grackle.Base.Dict.{number_key, get}
use grackle.Profile.Tree.{ProfileNode, Stack, index_nodes, build_parents, filtered_path}

pub data EventKind : Type 0 where
  call returned : EventKind

-- What `new_trace_event` records; the thread id is always 0.
pub record TraceEvent : Type 0 where
  pub event : EventKind
  pub node_id : String
  pub ts_ns : ℤ
  pub frame_depth : ℕ

-- `while common < limit and prev[common][0] == cur[common][0]`
unfoldable pub common_prefix : Stack → Stack → ℕ
common_prefix ((s, a) ∷ prev) ((t, b) ∷ cur) =
    let rest = common_prefix prev cur in if s == t then suc rest else 0
common_prefix _ _ = 0

-- `path[depth][1]`
abbrev pub id_at : Stack → ℕ → String
id_at path depth = (get_or path depth (0, "")).1

-- `for depth in range(common + n - 1, common - 1, -1)`
unfoldable pub closes : Stack → ℤ → ℕ → ℕ → List TraceEvent
closes prev ts_ns common zero = []
closes prev ts_ns common (suc n) =
    record {
      event = returned;
      node_id = id_at prev (common + n);
      ts_ns = ts_ns;
      frame_depth = common + n;
    }
    ∷ closes prev ts_ns common n

-- `for depth in range(depth, depth + n)`
unfoldable pub opens : Stack → ℤ → ℕ → ℕ → List TraceEvent
opens cur ts_ns depth zero = []
opens cur ts_ns depth (suc n) =
    record { event = call; node_id = id_at cur depth; ts_ns = ts_ns; frame_depth = depth }
    ∷ opens cur ts_ns (suc depth) n

-- `_emit_transition`: the events it appends.
unfoldable pub emit_transition : Stack → Stack → ℤ → List TraceEvent
unfolding common_prefix closes opens
emit_transition prev cur ts_ns =
    let common = common_prefix prev cur in
    closes prev ts_ns common (length prev - common) ++ opens cur ts_ns common (length cur - common)

pub record Profile (Frame : Type 0) : Type 0 where
  pub nodes : List (ProfileNode Frame)
  pub samples : List ℕ
  pub time_deltas : List ℤ
  pub start_time : Option ℤ
  pub end_time : Option ℤ

-- The variables of the loop over the samples.
pub record Progress : Type 0 where
  pub events : List TraceEvent
  pub prev : Stack
  pub cum_us : ℤ
  pub path_cache : List (ℕ × Stack)

-- `int(profile.get(key, d))`
abbrev pub or_default : Option ℤ → ℤ → ℤ
or_default none d = d
or_default (some t) d = t

module _ {Frame : Type 0} (resolve : Frame → Option String) where
  -- `for i, raw_sid in enumerate(samples)`; none is a walk that runs out of fuel.
  unfoldable pub replay_samples :
      List (ℕ × ProfileNode Frame)
      → List (ℕ × Option ℕ)
      → List ℤ
      → ℕ
      → List ℕ
      → Progress
      → Option Progress
  unfolding get filtered_path emit_transition
  replay_samples nodes parent_of deltas i [] s = some s
  replay_samples nodes parent_of deltas i (sid ∷ rest) s =
      let cum = s.cum_us +ℤ get_or deltas i (pos 0) in
      elim (get sid nodes) [
        | none ↦ replay_samples nodes parent_of deltas (suc i) rest (record s { cum_us = cum })
        | some _ ↦ elim (filtered_path resolve nodes parent_of s.path_cache sid) [
          | none ↦ none
          | some (cur, cache) ↦ replay_samples nodes parent_of deltas (suc i) rest record {
            events = s.events ++ emit_transition s.prev cur (scale 1000 s.cum_us);
            prev = cur;
            cum_us = cum;
            path_cache = cache;
          }
        ]
      ]

  unfoldable pub reconstruct : Profile Frame → Option (List TraceEvent)
  unfolding replay_samples index_nodes build_parents emit_transition
  reconstruct profile = elim profile.samples [
    | [] ↦ some []
    | sid ∷ rest ↦
        let nodes = index_nodes profile.nodes [] in
        let start_us = or_default profile.start_time (pos 0) in
        let end_us = or_default profile.end_time start_us in
        elim (replay_samples nodes (build_parents nodes) profile.time_deltas 0 (sid ∷ rest)
          record { events = []; prev = []; cum_us = start_us; path_cache = [] }) [
            | none ↦ none
            | some s ↦
                some (s.events ++ emit_transition s.prev [] (scale 1000 (max_ℤ end_us s.cum_us)))
          ]
  ]
