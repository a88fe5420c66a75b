-- ===== src/Recording/Sink.antt =====
-- packages/agent/src/grackle/python_runtime/recording_sink.py: RecordingSink and the test of session
-- ids.
use grackle.Base.{
  ℕ, zero, suc, ◌==◌, leb, ◌&&◌, ◌||◌, String, Option, List, [], ◌∷◌, ◌++◌, Bool, true, false,
  if◌then◌else◌,
}
use grackle.Base.Text.{same_text}
use grackle.Base.Result.{Result, ok, raise}
use grackle.Recording.Part.{Writer, Wrote, Faults, open_part, write, finalize, discard}

-- What the store keeps of a session, as far as the sink computes it.
pub record SessionMeta : Type 0 where
  pub id : String
  pub event_count : ℕ
  pub language : String

pub record RecordingSink : Type 0 where
  pub session_id : String
  pub language : String
  pub finalized : Bool
  pub writer : Writer

-- `__init__`
unfoldable pub start_recording :
    String → String → Option (List ℕ) → Option (List ℕ) → Result RecordingSink
unfolding open_part
start_recording session_id language part final = elim (open_part part final) [
  | raise e ↦ raise e
  | ok w ↦ ok record { session_id = session_id; language = language; finalized = false; writer = w }
]

-- `write`: what the writer raises is logged.
unfoldable pub record_event : Option (List ℕ) → Wrote → RecordingSink → RecordingSink
unfolding write
record_event text result s = record s { writer = (write text result s.writer).1 }

unfoldable pub discard_recording : Faults → RecordingSink → RecordingSink
unfolding discard
discard_recording faults s = record s { writer = (discard faults s.writer).1 }

-- The rows of the store but those with an id.
unfoldable pub without : String → List SessionMeta → List SessionMeta
without id [] = []
without id (m ∷ rest) = let kept = without id rest in if same_text m.id id then kept else m ∷ kept

-- `SessionStore.save_session`: INSERT OR REPLACE, with the id as the primary key.
unfoldable pub put_session : SessionMeta → List SessionMeta → List SessionMeta
unfolding without
put_session meta store = without meta.id store ++ meta ∷ []

-- The `else` of the try statements: the session is saved, unless the store raises.
unfoldable pub save_session : Bool → RecordingSink → List SessionMeta → List SessionMeta
unfolding put_session
save_session true s store = store
save_session false s store =
    put_session record { id = s.session_id; event_count = s.writer.count; language = s.language }
      store

-- `finalize`: the sink and the store after it.
unfoldable pub finalize_recording :
    Faults → Bool → RecordingSink → List SessionMeta → RecordingSink × List SessionMeta
unfolding discard_recording finalize save_session
finalize_recording faults save_fails s store = elim s.finalized [
  | true ↦ (s, store)
  | false ↦
      let s' = record s { finalized = true } in
      elim (s.writer.count == 0) [
        | true ↦ (discard_recording faults s', store)
        | false ↦
            let (result, w) = finalize faults s.writer in
            elim result [
              | raise e ↦ (discard_recording faults (record s' { writer = w }), store)
              | ok a ↦
                  let s'' = record s' { writer = w } in (s'', save_session save_fails s'' store)
            ]
      ]
]

-- `[A-Za-z0-9_]` and `[A-Za-z0-9._-]` on code points.
unfoldable pub word_char : ℕ → Bool
word_char c = (leb 65 c && leb c 90) || (leb 97 c && leb c 122) || (leb 48 c && leb c 57) || c == 95

unfoldable pub id_char : ℕ → Bool
unfolding word_char
id_char c = word_char c || c == 46 || c == 45

-- `[A-Za-z0-9._-]{0,n}$`: the dollar also matches before a newline that ends the text.
unfoldable pub id_tail : ℕ → List ℕ → Bool
unfolding id_char
id_tail n [] = true
id_tail zero (c ∷ []) = c == 10
id_tail (suc n) (c ∷ []) = id_char c || c == 10
id_tail zero (c ∷ d ∷ s) = false
id_tail (suc n) (c ∷ d ∷ s) = id_char c && id_tail n (d ∷ s)

unfoldable pub is_safe_session_id : List ℕ → Bool
unfolding word_char id_tail
is_safe_session_id [] = false
is_safe_session_id (c ∷ s) = word_char c && id_tail 127 s
