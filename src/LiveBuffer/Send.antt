-- ===== src/LiveBuffer/Send.antt =====
-- packages/agent/src/grackle/python_runtime/live_buffer.py: the flush to a late consumer, and the
-- broadcast. A connection takes some number of messages, and then it is closed; a send that blocks for
-- good, and with it the sends after it, is not modelled.
use mathlib.Core.List.{append_assoc, append-nil}
use grackle.Base.{
  refl, ◌∙◌, arith, sym, ℕ, zero, suc, String, Option, none, some, List, [], ◌∷◌, ◌++◌, Bool, true,
  false, take, map, ◌==◌, ◌≡◌,
}
use grackle.LiveBuffer.{Entry}

pub record Connection : Type 0 where
  pub id : ℕ
  pub sent : List String
  pub room : ℕ

-- `await ws.send(raw)`: none is ConnectionClosed.
unfoldable pub send : String → Connection → Option Connection
send raw ws = elim ws.room [
  | zero ↦ none
  | suc n ↦ some (record ws { sent = ws.sent ++ raw ∷ []; room = n })
]

-- `flush_ring_buffer` on its snapshot.
unfoldable pub flush_ring_buffer : Connection → List Entry → Connection
unfolding send
flush_ring_buffer ws [] = ws
flush_ring_buffer ws ((ts_ns, raw) ∷ rest) = elim (send raw ws) [
  | none ↦ ws
  | some ws' ↦ flush_ring_buffer ws' rest
]

abbrev pub is_excluded : Connection → Option ℕ → Bool
is_excluded ws none = false
is_excluded ws (some id) = ws.id == id

-- What one consumer sees of a broadcast.
unfoldable pub broadcast_to : String → Option ℕ → Connection → Connection
unfolding send
broadcast_to raw exclude ws = elim (is_excluded ws exclude) [
  | true ↦ ws
  | false ↦ elim (send raw ws) [ none ↦ ws | some ws' ↦ ws' ]
]

-- `broadcast`: each connection of the set, in some order.
unfoldable pub broadcast : String → List Connection → Option ℕ → List Connection
unfolding broadcast_to
broadcast raw [] exclude = []
broadcast raw (ws ∷ rest) exclude = broadcast_to raw exclude ws ∷ broadcast raw rest exclude

send-room :
    (n : ℕ) (raw : String) (ws : Connection)
    → ws.room ≡ suc n
    → send raw ws ≡ some (record ws { sent = ws.sent ++ raw ∷ []; room = n })
unfolding send
send-room n raw ws h = ground arith

send-closed : (raw : String) (ws : Connection) → ws.room ≡ 0 → send raw ws ≡ none
unfolding send
send-closed raw ws h = ground arith

flush-room :
    (n : ℕ) (ws : Connection) (es : List Entry)
    → ws.room ≡ n
    → (flush_ring_buffer ws es).sent ≡ ws.sent ++ take n (map (λ e. e.1) es)
unfolding flush_ring_buffer
flush-room zero ws [] h = sym (append-nil ws.sent)
flush-room (suc n) ws [] h = sym (append-nil ws.sent)
flush-room zero ws ((ts_ns, raw) ∷ rest) h =
    rw (send-closed raw ws h, flush_ring_buffer) (sym (append-nil ws.sent))
flush-room (suc n) ws ((ts_ns, raw) ∷ rest) h =
    let ws' = record ws { sent = ws.sent ++ raw ∷ []; room = n } in
    rw (send-room n raw ws h, flush_ring_buffer)
      (flush-room n ws' rest refl ∙ append_assoc ws.sent (raw ∷ []) (take n (map (λ e. e.1) rest)))

-- A flush sends the messages of the buffer in order, up to the one at which the connection closes.
flush-take :
    (ws : Connection) (es : List Entry)
    → (flush_ring_buffer ws es).sent ≡ ws.sent ++ take ws.room (map (λ e. e.1) es)
flush-take ws es = flush-room ws.room ws es refl
