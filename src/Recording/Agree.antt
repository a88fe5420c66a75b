-- ===== src/Recording/Agree.antt =====
-- The incremental writer against the atomic one, and against the index that reads its file.
use grackle.Base.{ℕ, Option, none, some, List, [], ◌∷◌, map, ◌≡◌, refl, sym, ap, ◌∙◌, subst, All}
use grackle.Base.Result.{ok}
use grackle.Jsonl
use grackle.Jsonl.{split_lines}
use grackle.Recording.Part.{Writer, Wrote, whole, open_part, Faults, finalize, write_jsonl}
use grackle.Recording.Salvage.{accepted, writes, line_bytes}
use grackle.Recording.Finalize.{Salvaged, finalize-Salvaged}
use grackle.Recording.Lines.{OneLine, index-line_bytes, write_jsonl-line_bytes}

abbrev pub all_whole : List (List ℕ) → List (Option (List ℕ) × Wrote)
all_whole ts = map (λ t. (some t, whole)) ts

accepted-all_whole : (ts : List (List ℕ)) → accepted (all_whole ts) ≡ ts
accepted-all_whole [] = refl
accepted-all_whole (t ∷ ts) = ap (◌∷◌ t) (accepted-all_whole ts)

-- Events written one by one, with no write that fails, and a finalize that returns: the file has
-- the bytes that write_jsonl writes for these events, and the counts agree.
pub finalize-write_jsonl :
    (texts : List (List ℕ)) (old : Option (List ℕ)) (faults : Faults) (w w' : Writer)
    → open_part none old ≡ ok w
    → finalize faults (writes (all_whole texts) w) ≡ (ok tt, w')
    → (w'.final ≡ some (write_jsonl texts).0) × (w'.count ≡ (write_jsonl texts).1)
finalize-write_jsonl texts old faults w w' e h =
    let (final, part, count) : Salvaged old texts (ok tt, w') = subst (Salvaged old texts) h (
      subst (λ l. Salvaged old l (finalize faults (writes (all_whole texts) w)))
        (accepted-all_whole texts) (finalize-Salvaged (all_whole texts) old faults w e)) in
    (rw write_jsonl-line_bytes final, rw write_jsonl-line_bytes count)

-- After any sequence of writes and a finalize that returns, the byte-offset index of the file has
-- as many entries as the writer has counted, where each text written is on one line and not blank.
pub finalize-index :
    (events : List (Option (List ℕ) × Wrote)) (old : Option (List ℕ)) (faults : Faults)
    (w w' : Writer)
    → All OneLine (accepted events)
    → open_part none old ≡ ok w
    → finalize faults (writes events w) ≡ (ok tt, w')
    → (content : List ℕ) × (w'.final ≡ some content)
      × (Jsonl.len (Jsonl.build (split_lines content)) ≡ w'.count)
finalize-index events old faults w w' one e h =
    let (final, part, count) : Salvaged old (accepted events) (ok tt, w') =
      subst (Salvaged old (accepted events)) h (finalize-Salvaged events old faults w e) in
    (line_bytes (accepted events), final, index-line_bytes (accepted events) one ∙ sym count)
