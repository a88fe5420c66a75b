-- ===== src/Server/Source.antt =====
-- packages/agent/src/grackle/server.py: _read_source and the answer to a read_source message. A resolved path
-- is the list of its components; what the file system says of it is an argument.
use grackle.Base.Result.{Result, ok, raise, os_error, ◌>>=◌}
use grackle.Base.{
  ℕ, ◌≤◌, String, List, [], ◌∷◌, ◌++◌, Option, none, some, Bool, true, not, ◌||◌, ltb, ◌≡◌,
  if◌then◌else◌, is_yes, false,
}
use grackle.Base.Ascii.{codes, contains}
use grackle.Base.Dict.{list_key}
use grackle.Base.Text.{same_text, string_key}
use grackle.Json.{Json, str, Fields, field_or, as_text}
use grackle.Server.{make_source_response, make_source_error}

-- What `read_text` does.
pub data ReadText : Type 0 where
  read : String → ReadText
  undecodable unreadable : ReadText

-- The file system at the joined path: none is a resolve that raises, exists() or is_file() that does, or a stat
-- that does.
pub record Found : Type 0 where
  pub abs_path : Option (List String)
  pub is_comparable : Bool
  pub is_file : Option Bool
  pub size : Option ℕ
  pub read_text : ReadText

-- `_MAX_SOURCE_BYTES`
abbrev pub max_source_bytes : ℕ
max_source_bytes = 1048576

-- `os.path.commonpath` of two absolute paths.
unfoldable pub commonpath : List String → List String → List String
commonpath (a ∷ p) (b ∷ q) = let rest = commonpath p q in if same_text a b then a ∷ rest else []
commonpath _ _ = []

-- A text, or the reason that there is none.
pub data SourceResult : Type 0 where
  source : String → SourceResult
  refused : String → SourceResult

unfoldable pub read_result : ReadText → SourceResult
read_result (read text) = source text
read_result undecodable = refused "binary"
read_result unreadable = refused "not_found"

unfoldable pub read_sized : Option ℕ → ReadText → SourceResult
unfolding read_result
read_sized none t = refused "not_found"
read_sized (some size) t = if ltb max_source_bytes size then refused "too_large" else read_result t

-- `exists()` and `is_file()` are called outside of a try statement.
unfoldable pub read_file : Found → Option Bool → Result SourceResult
unfolding read_sized
read_file found none = raise os_error
read_file found (some false) = ok (refused "not_found")
read_file found (some true) = ok (read_sized found.size found.read_text)

-- The tests after the resolve.
unfoldable pub read_resolved : List String → Found → Option (List String) → Result SourceResult
unfolding read_file commonpath
read_resolved root found none = ok (refused "not_found")
read_resolved root found (some abs_path) =
    if not found.is_comparable
    then ok (refused "forbidden")
    else if not (is_yes (list_key.same (commonpath root abs_path) root))
    then ok (refused "forbidden")
    else read_file found found.is_file

unfoldable pub read_source : List String → String → Found → Result SourceResult
unfolding read_resolved codes contains
read_source root posix_path found =
    if same_text posix_path "" || contains (codes posix_path) (92 ∷ [])
    then ok (refused "forbidden")
    else read_resolved root found found.abs_path

unfoldable pub source_reply : String → String → SourceResult → Json
source_reply id path (source text) = make_source_response id path text "utf-8"
source_reply id path (refused reason) = make_source_error id path reason

-- The replies to the message: none to a path that is not a text.
unfoldable pub answer_source : String → List String → Fields → Found → Result (List Json)
unfolding source_reply read_source field_or as_text
answer_source id root payload found = elim (as_text (some (field_or "path" (str "") payload))) [
  | none ↦ ok []
  | some path ↦ (do r ← read_source root path found; ok (source_reply id path r ∷ []))
]

-- A file below the root that is not too large, with the text that was read.
abbrev pub IsBelow : List String → Found → String → Type 0
IsBelow root found text =
    (rest : List String) × (found.abs_path ≡ some (root ++ rest))
    × (found.is_file ≡ some true)
    × ((n : ℕ) × (found.size ≡ some n) × (n ≤ max_source_bytes))
    × (found.read_text ≡ read text)
