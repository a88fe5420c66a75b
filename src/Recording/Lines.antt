-- ===== src/Recording/Lines.antt =====
-- The bytes of a recording as the lines of a trace file.
use grackle.Base.{
  ℕ, suc, ◌==◌, List, [], ◌∷◌, ◌++◌, map, false, arith, ◌≡◌, refl, sym, ap, ◌∙◌, length, All,
}
use mathlib.Core.List.{append_assoc, append-nil}
use grackle.Aggregates.Build.{strip}
use grackle.Jsonl
use grackle.Jsonl.{split_lines}
use grackle.Jsonl.Window.{nonblank, length-index}
use grackle.Recording.Part.{join_lines, write_jsonl}
use grackle.Recording.Salvage.{line_bytes}

abbrev ended : List ℕ → List ℕ
ended t = t ++ 10 ∷ []

-- The texts that json.dumps gives: on one line, and not blank.
abbrev pub OneLine : List ℕ → Type 0
OneLine t =
    All (λ c. (c == 10) ≡ false) t × ((c : ℕ) × (s : List ℕ) × (strip (t ++ 10 ∷ []) ≡ c ∷ s))

split_lines-line :
    (t rest : List ℕ)
    → All (λ c. (c == 10) ≡ false) t
    → split_lines ((t ++ 10 ∷ []) ++ rest) ≡ ended t ∷ split_lines rest
unfolding split_lines
split_lines-line [] rest h = refl
split_lines-line (c ∷ t) rest h = rw (h.0, split_lines-line t rest h.1) refl

split_lines-line_bytes :
    (ts : List (List ℕ)) → All OneLine ts → split_lines (line_bytes ts) ≡ map ended ts
unfolding split_lines
split_lines-line_bytes [] h = refl
split_lines-line_bytes (t ∷ ts) h =
    split_lines-line t (line_bytes ts) h.0.0 ∙ ap (◌∷◌ (ended t)) (split_lines-line_bytes ts h.1)

nonblank-cons :
    (t : List ℕ) (ts : List (List ℕ)) (c : ℕ) (s : List ℕ)
    → strip (t ++ 10 ∷ []) ≡ c ∷ s
    → nonblank (map ended (t ∷ ts)) ≡ ended t ∷ nonblank (map ended ts)
nonblank-cons t ts c s e = ground arith

nonblank-map : (ts : List (List ℕ)) → All OneLine ts → nonblank (map ended ts) ≡ map ended ts
nonblank-map [] h = refl
nonblank-map (t ∷ ts) h =
    let (one, (c, s, e)) = h.0 in
    nonblank-cons t ts c s e ∙ ap (◌∷◌ (ended t)) (nonblank-map ts h.1)

length-map : (ts : List (List ℕ)) → length (map ended ts) ≡ length ts
length-map [] = refl
length-map (t ∷ ts) = ap suc (length-map ts)

-- The index of a recording has one entry for each event that was written.
pub index-line_bytes :
    (ts : List (List ℕ))
    → All OneLine ts
    → Jsonl.len (Jsonl.build (split_lines (line_bytes ts))) ≡ length ts
index-line_bytes ts h =
    length-index (line_bytes ts)
    ∙ ap length (ap nonblank (split_lines-line_bytes ts h) ∙ nonblank-map ts h)
    ∙ length-map ts

join_lines-line_bytes :
    (t : List ℕ) (ts : List (List ℕ)) → join_lines (t ∷ ts) ++ 10 ∷ [] ≡ line_bytes (t ∷ ts)
unfolding join_lines
join_lines-line_bytes t [] = sym (append-nil (t ++ 10 ∷ []))
join_lines-line_bytes t (u ∷ ts) =
    append_assoc t (10 ∷ join_lines (u ∷ ts)) (10 ∷ [])
    ∙ ap (λ z. t ++ 10 ∷ z) (join_lines-line_bytes u ts)
    ∙ sym (append_assoc t (10 ∷ []) (line_bytes (u ∷ ts)))

-- One atomic write of all events gives the bytes that writing them one by one gives.
pub write_jsonl-line_bytes : (ts : List (List ℕ)) → write_jsonl ts ≡ (line_bytes ts, length ts)
unfolding write_jsonl
write_jsonl-line_bytes [] = refl
write_jsonl-line_bytes (t ∷ ts) = ap (λ z. (z, length (t ∷ ts))) (join_lines-line_bytes t ts)
