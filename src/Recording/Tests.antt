-- ===== src/Recording/Tests.antt =====
-- packages/agent/src/grackle/python_runtime/writer.py and recording_sink.py: concrete recordings, and
-- the theorems on them.
use grackle.Base.{ℕ, ◌≤◌, Option, none, some, List, [], ◌∷◌, true, false, ◌≡◌, refl, All, length}
use grackle.Base.Result.{ok}
use grackle.Jsonl
use grackle.Jsonl.{split_lines}
use grackle.Aggregates.Build.{strip}
use grackle.Recording.Part.{
  Writer, Wrote, whole, torn, open_part, Faults, finalize, write, write_jsonl,
}
use grackle.Recording.Sink.{RecordingSink, start_recording, finalize_recording, is_safe_session_id}
use grackle.Recording.Salvage.{accepted, writes}
use grackle.Recording.Finalize.{Salvaged, finalize-Salvaged}
use grackle.Recording.Lines.{OneLine}
use grackle.Recording.Register.{Registered, record_events, recording-Registered}
use grackle.Recording.Agree.{all_whole, finalize-write_jsonl, finalize-index}
use grackle.Recording.SafeId.{in_segment, plain_start, is_safe_session_id-All}

-- Two events, a torn write, and an event that comes too late.
abbrev events : List (Option (List ℕ) × Wrote)
events =
    (some (97 ∷ []), whole)
    ∷ (some (98 ∷ 99 ∷ []), whole)
    ∷ (some (100 ∷ 101 ∷ []), torn 1)
    ∷ (some (102 ∷ []), whole)
    ∷ []

abbrev no_faults : Faults
no_faults = record {
  truncate_fails = false;
  close_fails = none;
  rename_fails = false;
  unlink_fails = false;
}

abbrev opened : Writer
opened = record {
  part = some [];
  final = none;
  closed = false;
  count = 0;
  broken = false;
  last_good_offset = 0;
  finalized = false;
}

opens : open_part none none ≡ ok opened
unfolding open_part
opens = refl

abbrev saved : Writer
saved = record {
  part = none;
  final = some (97 ∷ 10 ∷ 98 ∷ 99 ∷ 10 ∷ []);
  closed = true;
  count = 2;
  broken = true;
  last_good_offset = 5;
  finalized = true;
}

saves : finalize no_faults (writes events opened) ≡ (ok tt, saved)
unfolding finalize write
saves = refl

finalize-Salvaged_example :
    Salvaged none (accepted events) (finalize no_faults (writes events opened))
finalize-Salvaged_example = finalize-Salvaged events none no_faults opened opens

one_line : All OneLine (accepted events)
unfolding strip
one_line = (((refl, tt), (97, [], refl)), (((refl, (refl, tt)), (98, 99 ∷ [], refl)), tt))

finalize-index_example :
    (content : List ℕ) × (saved.final ≡ some content)
    × (Jsonl.len (Jsonl.build (split_lines content)) ≡ saved.count)
finalize-index_example = finalize-index events none no_faults opened saved one_line opens saves

abbrev saved_all : Writer
saved_all = record {
  part = none;
  final = some (97 ∷ 10 ∷ 98 ∷ 10 ∷ []);
  closed = true;
  count = 2;
  broken = false;
  last_good_offset = 4;
  finalized = true;
}

saves_all :
    finalize no_faults (writes (all_whole ((97 ∷ []) ∷ (98 ∷ []) ∷ [])) opened) ≡ (ok tt, saved_all)
unfolding finalize write
saves_all = refl

finalize-write_jsonl_example :
    (saved_all.final ≡ some (write_jsonl ((97 ∷ []) ∷ (98 ∷ []) ∷ [])).0)
    × (saved_all.count ≡ (write_jsonl ((97 ∷ []) ∷ (98 ∷ []) ∷ [])).1)
finalize-write_jsonl_example =
    finalize-write_jsonl ((97 ∷ []) ∷ (98 ∷ []) ∷ []) none no_faults opened saved_all opens
      saves_all

abbrev sink : RecordingSink
sink = record { session_id = "s1"; language = "python"; finalized = false; writer = opened }

sink_starts : start_recording "s1" "python" none none ≡ ok sink
unfolding start_recording
sink_starts = refl

recording-Registered_example :
    let r = finalize_recording no_faults false (record_events events sink) [] in
    Registered "s1" "python" (accepted events) [] r
    × (finalize_recording no_faults true r.0 r.1 ≡ r)
recording-Registered_example =
    recording-Registered "s1" "python" none events no_faults no_faults false true [] sink
      sink_starts

-- An id that ends in a newline passes.
newline_passes : is_safe_session_id (97 ∷ 10 ∷ []) ≡ true
unfolding is_safe_session_id
newline_passes = refl

abbrev newline_id : List ℕ
newline_id = 97 ∷ 10 ∷ []

is_safe_session_id-All_example :
    All (λ c. in_segment c ≡ true) newline_id
    × (plain_start newline_id ≡ true)
    × (length newline_id ≤ 129)
is_safe_session_id-All_example = is_safe_session_id-All newline_id newline_passes
