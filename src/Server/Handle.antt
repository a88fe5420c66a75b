-- ===== src/Server/Handle.antt =====
-- packages/agent/src/grackle/server.py: the dispatch of _receive_loop over the requests that it answers from
-- what it holds.
use grackle.Base.{ℕ, String, List, [], ◌∷◌, Option, Bool, if◌then◌else◌}
use grackle.Base.Int.{ℤ}
use grackle.Base.Text.{same_text}
use grackle.Base.Result.{Result, ok}
use grackle.Json.{Json}
use grackle.Server.{Envelope, make_pong}
use grackle.Server.Seek.{Sessions, seek}
use grackle.Server.Query.{query}
use grackle.Server.Source.{Found, answer_source}

module _ (repr_of : Json → String) (int_of : String → Option ℤ)
    (loads : List ℕ → Result (Option Json)) (root : List String) (found : Found) (read_fails : Bool)
    (sessions : Sessions) where
  -- The replies to an envelope, in the order of the tests; another type gives none here.
  unfoldable pub handle : Envelope → Result (List Json)
  unfolding seek query answer_source
  handle envelope =
      if same_text envelope.type_name "ping"
      then ok (make_pong envelope.id ∷ [])
      else if same_text envelope.type_name "read_source"
      then answer_source envelope.id root envelope.payload found
      else if same_text envelope.type_name "trace_seek_request"
      then seek loads read_fails envelope.id envelope.payload sessions
      else if same_text envelope.type_name "trace_query_request"
      then ok (query repr_of int_of envelope.id envelope.payload sessions ∷ [])
      else ok []
