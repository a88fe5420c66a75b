-- ===== src/Recording/Salvage.antt =====
-- What the files of a recording hold, whatever writes and calls fail.
use grackle.Base.{
  length-append, arith, sym, take, ◌∙◌, ap, ℕ, Option, none, some, List, [], ◌∷◌, ◌++◌, true, false,
  ◌≡◌, refl, length,
}
use mathlib.Core.List.{append_assoc, append-nil}
use grackle.Recording.Part.{Writer, Wrote, whole, torn, write, write_data}

-- The texts that were written as whole lines: those before the first event that fails.
abbrev pub accepted : List (Option (List ℕ) × Wrote) → List (List ℕ)
accepted [] = []
accepted ((none, result) ∷ rest) = []
accepted ((some t, torn n) ∷ rest) = []
accepted ((some t, whole) ∷ rest) = t ∷ accepted rest

-- Writes of a caller that goes on after a failure, as RecordingSink does.
abbrev pub writes : List (Option (List ℕ) × Wrote) → Writer → Writer
writes [] w = w
writes ((text, result) ∷ rest) w = writes rest (write text result w).1

-- The bytes of texts as lines.
abbrev pub line_bytes : List (List ℕ) → List ℕ
line_bytes [] = []
line_bytes (t ∷ ts) = (t ++ 10 ∷ []) ++ line_bytes ts

line_bytes-append : (xs ys : List (List ℕ)) → line_bytes (xs ++ ys) ≡ line_bytes xs ++ line_bytes ys
line_bytes-append [] ys = refl
line_bytes-append (x ∷ xs) ys =
    ap (λ z. (x ++ 10 ∷ []) ++ z) (line_bytes-append xs ys)
    ∙ sym (append_assoc (x ++ 10 ∷ []) (line_bytes xs) (line_bytes ys))

-- An open writer whose part file holds the lines and then a torn tail, which only a broken one has.
pub record Holds (old : Option (List ℕ)) (lines : List (List ℕ)) (w : Writer) : Type 0 where
  pub tail : List ℕ
  pub final : w.final ≡ old
  pub part : w.part ≡ some (line_bytes lines ++ tail)
  pub whole_lines : w.broken ≡ false → tail ≡ []
  pub offset : w.last_good_offset ≡ length (line_bytes lines)
  pub count : w.count ≡ length lines
  pub still_open : w.closed ≡ false
  pub not_final : w.finalized ≡ false

write-broken :
    (text : Option (List ℕ)) (result : Wrote) (w : Writer)
    → w.broken ≡ true
    → (write text result w).1 ≡ w
unfolding write
write-broken text result w h = ground arith

write-refused :
    (result : Wrote) (w : Writer)
    → w.broken ≡ false
    → (write none result w).1 ≡ record w { broken = true }
unfolding write
write-refused result w h = rw (h, write) refl

write-open :
    (t : List ℕ) (result : Wrote) (w : Writer)
    → w.broken ≡ false
    → w.closed ≡ false
    → write (some t) result w ≡ write_data (t ++ 10 ∷ []) result w
unfolding write
write-open t result w h k = ground arith

broken-writes :
    (events : List (Option (List ℕ) × Wrote)) (w : Writer) → w.broken ≡ true → writes events w ≡ w
broken-writes [] w h = refl
broken-writes ((text, result) ∷ rest) w h =
    rw (write-broken text result w h) (broken-writes rest w h)

broken-Holds :
    (old : Option (List ℕ)) (events : List (Option (List ℕ) × Wrote)) (lines : List (List ℕ))
    (w w' : Writer)
    → w' ≡ w
    → w.broken ≡ true
    → Holds old lines w
    → Holds old (lines ++ []) (writes events w')
broken-Holds old events lines w w' e b h = rw (append-nil, e, broken-writes events w b) h

add_line :
    (lines : List (List ℕ)) (t tail : List ℕ)
    → tail ≡ []
    → (line_bytes lines ++ tail) ++ (t ++ 10 ∷ []) ≡ line_bytes (lines ++ t ∷ []) ++ []
add_line lines t tail h = simp (h, append-nil, line_bytes-append)

next_Holds :
    (old : Option (List ℕ)) (rest : List (Option (List ℕ) × Wrote)) (lines : List (List ℕ))
    (t : List ℕ) (w : Writer)
    → w.broken ≡ false
    → w.closed ≡ false
    → Holds old
        ((lines ++ t ∷ []) ++ accepted rest)
        (writes rest (write_data (t ++ 10 ∷ []) whole w).1)
    → Holds old (lines ++ t ∷ accepted rest) (writes rest (write (some t) whole w).1)
next_Holds old rest lines t w e k h = rw (write-open t whole w e k) (rw append_assoc at h)

pub writes-Holds :
    (old : Option (List ℕ)) (events : List (Option (List ℕ) × Wrote)) (lines : List (List ℕ))
    (w : Writer)
    → w.broken ≡ false
    → Holds old lines w
    → Holds old (lines ++ accepted events) (writes events w)
unfolding write_data
writes-Holds old [] lines w e h = rw append-nil h
writes-Holds old ((none, result) ∷ rest) lines w e h =
    broken-Holds old rest lines (record w { broken = true }) (write none result w).1
      (write-refused result w e) refl
      record {
        tail = h.tail;
        final = h.final;
        part = h.part;
        whole_lines = λ b. cc;
        offset = h.offset;
        count = h.count;
        still_open = h.still_open;
        not_final = h.not_final;
      }
writes-Holds old ((some t, torn n) ∷ rest) lines w e h =
    broken-Holds old rest lines (write_data (t ++ 10 ∷ []) (torn n) w).1
      (write (some t) (torn n) w).1 (ap (λ d. d.1) (write-open t (torn n) w e h.still_open)) refl
      record {
        tail = h.tail ++ take n (t ++ 10 ∷ []);
        final = h.final;
        part = rw h.part (ap some (append_assoc (line_bytes lines) h.tail (take n (t ++ 10 ∷ []))));
        whole_lines = λ b. cc;
        offset = h.offset;
        count = h.count;
        still_open = h.still_open;
        not_final = h.not_final;
      }
writes-Holds old ((some t, whole) ∷ rest) lines w e h =
    let w' = (write_data (t ++ 10 ∷ []) whole w).1 in
    let next : Holds old (lines ++ t ∷ []) w' = record {
      tail = [];
      final = h.final;
      part = rw h.part (ap some (add_line lines t h.tail (h.whole_lines e)));
      whole_lines = λ b. refl;
      offset = rw (h.offset, line_bytes-append, length-append (line_bytes lines), append-nil) refl;
      count = omega (arith, h.count, length-append lines (t ∷ []));
      still_open = h.still_open;
      not_final = h.not_final;
    } in
    next_Holds old rest lines t w e h.still_open (writes-Holds old rest (lines ++ t ∷ []) w' e next)
