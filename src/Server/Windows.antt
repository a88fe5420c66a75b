-- ===== src/Server/Windows.antt =====
-- What packages/agent/src/grackle/server.py answers to a seek into an unchanged file.
use grackle.Base.{
  ℕ, suc, ◌≤◌, String, List, [], ◌∷◌, Option, none, some, false, min, ◌≡◌, refl, ap, ◌∙◌, All,
  All-take, All-drop, arith, take, drop, length, length-take-le,
}
use grackle.Base.Int.{ℤ, pos, pos_part}
use grackle.Base.Dict.{get}
use grackle.Base.Text.{string_key}
use grackle.Base.Result.{Result, ok, raise, ◌>>=◌}
use grackle.Json.{
  Json, null, bool, int, float, str, arr, obj, Items, nil, cons, Fields, field_or, as_text,
}
use grackle.Jsonl.{build, window_start, split_lines, kept}
use grackle.Jsonl.Window.{nonblank, decoded, window_reads, length-index}
use grackle.Aggregates.Build.{Aggregates}
use grackle.Server.{dict_of, dicts_of, window_reply, make_trace_window, make_trace_seek_error}
use grackle.Server.Seek.{
  SeekableSession, Sessions, as_index, max_seek_count, seek_window, seek_session, seek,
  window_or_error,
}

-- A line that is a dict if it decodes.
abbrev pub IsDict : Result (Option Json) → Type 0
IsDict (ok none) = Unit
IsDict (ok (some (obj fs))) = Unit
IsDict (ok (some v)) = ⊥
IsDict (raise e) = Unit

abbrev pub items_of : List Json → Items
items_of [] = nil
items_of (v ∷ vs) = cons v (items_of vs)

-- At most n dicts, unless reading them raises.
abbrev AreDicts : ℕ → Result (List Json) → Type 0
AreDicts n (ok vs) = (dicts_of vs ≡ ok (items_of vs)) × (length vs ≤ n)
AreDicts n (raise e) = Unit

kept-AreDicts :
    (n : ℕ) (r : Result (Option Json)) (m : Result (List Json))
    → IsDict r
    → AreDicts n m
    → AreDicts (suc n) (r >>= λ event. m >>= λ others. ok (kept event others))
unfolding dicts_of dict_of
kept-AreDicts n (ok none) (ok vs) d (h, k) = (h, omega arith)
kept-AreDicts n (ok (some (obj fs))) (ok vs) d (h, k) = (rw h refl, omega arith)
kept-AreDicts n (ok none) (raise e) d h = tt
kept-AreDicts n (ok (some (obj fs))) (raise e) d h = tt
kept-AreDicts n (raise e) m d h = tt
kept-AreDicts n (ok (some null)) m d h = absurd d
kept-AreDicts n (ok (some (bool b))) m d h = absurd d
kept-AreDicts n (ok (some (int i))) m d h = absurd d
kept-AreDicts n (ok (some (float x))) m d h = absurd d
kept-AreDicts n (ok (some (str t))) m d h = absurd d
kept-AreDicts n (ok (some (arr xs))) m d h = absurd d

module _ (loads : List ℕ → Result (Option Json)) where
  decoded-AreDicts :
      (lines : List (List ℕ))
      → All (λ raw. IsDict (loads raw)) lines
      → AreDicts (length lines) (decoded loads lines)
  unfolding dicts_of
  decoded-AreDicts [] h = (refl, omega arith)
  decoded-AreDicts (raw ∷ rest) h =
      kept-AreDicts (length rest) (loads raw) (decoded loads rest) h.0 (decoded-AreDicts rest h.1)

  module _ (id sid : String) (content : List ℕ) (aggregates : Aggregates) (payload : Fields)
      (sessions : Sessions) where
    abbrev lines : List (List ℕ)
    lines = nonblank (split_lines content)

    -- The lines that a request is about.
    abbrev pub asked : ℤ → ℤ → List (List ℕ)
    asked start count =
        take (min (pos_part count) max_seek_count) (drop (window_start start (length lines)) lines)

    -- The reply to a seek from a start: the values that were read, at most 1000, or an error.
    abbrev pub Answered : ℤ → Result (List Json) → Result Json → Type 0
    Answered start (ok vs) r =
        (r
          ≡ ok (
              window_reply id sid (window_start start (length lines)) (items_of vs) (length lines)))
        × (length vs ≤ max_seek_count)
    Answered start (raise e) r = r ≡ ok (make_trace_seek_error id sid "read error")

    window-Answered :
        (start : ℤ) (n : ℕ) (m : Result (List Json))
        → n ≤ max_seek_count
        → AreDicts n m
        → Answered start m
            (window_or_error id sid (window_start start (length lines)) (length lines) m)
    unfolding window_or_error make_trace_window
    window-Answered start n (ok vs) h (d, k) = (rw d refl, omega arith)
    window-Answered start n (raise e) h d = refl

    abbrev unchanged : SeekableSession
    unchanged = record {
      index = build (split_lines content);
      aggregates = aggregates;
      content = content;
    }

    seek_window-Answered :
        (start count : ℤ)
        → All (λ raw. IsDict (loads raw)) lines
        → Answered start
            (decoded loads (asked start count))
            (seek_window loads false id sid unchanged (some start) (some count))
    unfolding seek_window
    seek_window-Answered start count dicts =
        rw
          (
            window_reads loads content start (pos (min (pos_part count) max_seek_count)),
            length-index content,
          )
          (window-Answered start (length (asked start count)) (decoded loads (asked start count))
            (omega (
              arith,
              length-take-le (min (pos_part count) max_seek_count)
                  (drop (window_start start (length lines)) lines),
            ))
            (decoded-AreDicts (asked start count) (
              All-take _ (min (pos_part count) max_seek_count) _
                (All-drop _ (window_start start (length lines)) lines dicts))))

    -- A seek into a session of a file that is unchanged, each line of which is a dict if it decodes, gets one
    -- reply: the values of the lines from the start that is echoed, as many as asked for and at most 1000, in
    -- the order of the file, and the number of all lines that are not blank. Where reading these lines raises,
    -- which is what json.loads raises other than its two errors for a line that does not decode, the reply is a
    -- read error.
    pub seek_reads :
        (start count : ℤ)
        → field_or "session_id" (str "") payload ≡ str sid
        → get sid sessions ≡ some unchanged
        → as_index (field_or "start_index" (int (pos 0)) payload) ≡ some start
        → as_index (field_or "count" (int (pos 0)) payload) ≡ some count
        → All (λ raw. IsDict (loads raw)) lines
        → (reply : Result Json) × (seek loads false id payload sessions
            ≡ (reply >>= λ r. ok (r ∷ [])))
          × Answered start (decoded loads (asked start count)) reply
    unfolding seek seek_session as_text
    seek_reads start count e f g h dicts =
        let send : Result Json → Result (List Json) = λ m. m >>= λ r. ok (r ∷ []) in
        (
          seek_window loads false id sid unchanged (some start) (some count),
          ap
                (λ v. elim (as_text (some v)) as (λ _. Result (List Json)) [
                  | none ↦ ok []
                  | some s ↦ send (seek_session loads false id s payload (get s sessions))
                ])
                e
              ∙ (ap (λ o. send (seek_session loads false id sid payload o)) f
                  ∙ (ap
                        (λ o. send (
                          seek_window loads false id sid unchanged o
                            (as_index (field_or "count" (int (pos 0)) payload))))
                        g
                      ∙ ap (λ o. send (seek_window loads false id sid unchanged (some start) o))
                          h)),
          seek_window-Answered start count dicts,
        )
