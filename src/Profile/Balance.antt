-- ===== src/Profile/Balance.antt =====
-- The stream of a profile moves the open frames from one sampled stack to the next.
use grackle.Base.{
  List-cases, ap, ℕ, zero, suc, ◌+◌, ◌-◌, String, Option, none, some, List, [], ◌∷◌, ◌++◌, arith,
  ◌≡◌, refl, sym, ◌∙◌, length, take, get_or, Option-cases, inl, inr,
}
use grackle.Base.Int.{max_ℤ, ℤ, pos, ◌+ℤ◌, scale}
use grackle.Base.Dict.{number_key, get, Values}
use grackle.Profile.Tree.{build_parents, index_nodes, ProfileNode, Stack}
use grackle.Profile.Stream.{
  or_default, Profile, reconstruct, TraceEvent, common_prefix, closes, opens, emit_transition,
  Progress, replay_samples,
}
use grackle.Profile.Labels.{Labelled, filtered_path-Labelled}
use grackle.Profile.Replay.{
  replay, step, names, closes-replay, opens-replay, common-le, common-names,
}

take-all : (n : ℕ) (path : Stack) → n ≡ length path → take n (names path) ≡ names path
take-all zero [] h = refl
take-all zero (o ∷ path) h = absurd (omega arith)
take-all (suc n) [] h = absurd (omega arith)
take-all (suc n) (o ∷ path) h = rw (take-all n path (omega arith)) refl

replay-append :
    (xs ys : List TraceEvent) (stack : List String)
    → replay (xs ++ ys) stack
      ≡ elim (replay xs stack) [ none ↦ none | some stack' ↦ replay ys stack' ]
replay-append [] ys stack = refl
replay-append (x ∷ xs) ys stack = elim (Option-cases (step x stack)) [
  | inl e ↦ rw (e, replay) refl
  | inr (stack', e) ↦ rw (e, replay) (replay-append xs ys stack')
]

module _ {Frame : Type 0} (resolve : Frame → Option String)
    (nodes : List (ℕ × ProfileNode Frame)) where
  -- The events of one transition fit the stack that is open, and leave the next one open.
  pub transition-replay :
      (prev cur : Stack) (ts : ℤ)
      → Labelled resolve nodes prev
      → Labelled resolve nodes cur
      → replay (emit_transition prev cur ts) (names prev) ≡ some (names cur)
  unfolding emit_transition
  transition-replay prev cur ts h k =
      let common = common_prefix prev cur in
      let (le_prev, le_cur) = common-le prev cur in
      let opened = opens cur ts common (length cur - common) in
      ap (replay (closes prev ts common (length prev - common) ++ opened))
        (sym (take-all (common + (length prev - common)) prev (omega arith)))
      ∙ closes-replay prev ts common (length prev - common) opened (omega arith)
      ∙ ap (replay opened) (common-names resolve nodes prev cur h k)
      ∙ opens-replay cur ts common (length cur - common) (omega arith)
      ∙ ap some (take-all (common + (length cur - common)) cur (omega arith))

  -- The events so far leave the last sampled stack open.
  record Sound (s : Progress) : Type 0 where
    open_frames : replay s.events [] ≡ some (names s.prev)
    prev : Labelled resolve nodes s.prev
    cache : Values (Labelled resolve nodes) s.path_cache

  Sound-transition :
      (s : Progress) (cur : Stack) (cache : List (ℕ × Stack)) (cum : ℤ)
      → Sound s
      → Labelled resolve nodes cur
      → Values (Labelled resolve nodes) cache
      → Sound record {
        events = s.events ++ emit_transition s.prev cur (scale 1000 s.cum_us);
        prev = cur;
        cum_us = cum;
        path_cache = cache;
      }
  Sound-transition s cur cache cum h k l = record {
    open_frames =
        rw (replay-append, h.open_frames)
          (transition-replay s.prev cur (scale 1000 s.cum_us) h.prev k);
    prev = k;
    cache = l;
  }

  replay_samples-Sound :
      (parent_of : List (ℕ × Option ℕ)) (deltas : List ℤ) (i : ℕ) (samples : List ℕ) (s : Progress)
      → Sound s
      → (s' : Progress) × (replay_samples resolve nodes parent_of deltas i samples s ≡ some s')
        × Sound s'
  unfolding replay_samples
  replay_samples-Sound parent_of deltas i [] s h = (s, refl, h)
  replay_samples-Sound parent_of deltas i (sid ∷ rest) s h = elim (Option-cases (get sid nodes)) [
    | inl e ↦
        rw (e, replay_samples)
          (replay_samples-Sound parent_of deltas (suc i) rest
            (record s { cum_us = s.cum_us +ℤ get_or deltas i (pos 0) })
            record { open_frames = h.open_frames; prev = h.prev; cache = h.cache })
    | inr (node, e) ↦
        let (cur, cache, found, cur_ok, cache_ok) =
          filtered_path-Labelled resolve nodes parent_of s.path_cache sid h.cache in
        rw (e, found, replay_samples)
          (replay_samples-Sound parent_of deltas (suc i) rest
            record {
              events = s.events ++ emit_transition s.prev cur (scale 1000 s.cum_us);
              prev = cur;
              cum_us = s.cum_us +ℤ get_or deltas i (pos 0);
              path_cache = cache;
            }
            (Sound-transition s cur cache (s.cum_us +ℤ get_or deltas i (pos 0)) h cur_ok cache_ok))
  ]

  finish-Sound :
      (s : Progress) (ts : ℤ)
      → Sound s
      → replay (s.events ++ emit_transition s.prev [] ts) [] ≡ some []
  finish-Sound s ts h = rw (replay-append, h.open_frames) (transition-replay s.prev [] ts h.prev tt)

module _ {Frame : Type 0} (resolve : Frame → Option String) where
  -- For every profile, with any call tree, parent cycles included, the stream is complete: its
  -- events fit one after the other from no open frame, each call at the height of the stack, each
  -- return the node on top at that height, and at the end no frame is open.
  pub reconstruct-balanced :
      (profile : Profile Frame)
      → (events : List TraceEvent) × (reconstruct resolve profile ≡ some events)
        × (replay events [] ≡ some [])
  unfolding reconstruct
  reconstruct-balanced profile = elim (List-cases profile.samples) [
    | inl e ↦ ([], rw (e, reconstruct) refl, refl)
    | inr (sid, rest, e) ↦
        let nodes = index_nodes profile.nodes [] in
        let start_us = or_default profile.start_time (pos 0) in
        let end_us = or_default profile.end_time start_us in
        let (s, found, sound) =
          replay_samples-Sound resolve nodes (build_parents nodes) profile.time_deltas 0
            (sid ∷ rest) record { events = []; prev = []; cum_us = start_us; path_cache = [] }
            record { open_frames = refl; prev = tt; cache = tt } in
        (
          s.events ++ emit_transition s.prev [] (scale 1000 (max_ℤ end_us s.cum_us)),
          rw (e, found, reconstruct) refl,
          finish-Sound resolve nodes s (scale 1000 (max_ℤ end_us s.cum_us)) sound,
        )
  ]
