-- ===== src/Jsonl/Window.antt =====
-- Reading by offsets reads the lines of the file in order.
use grackle.Base.Int.{pos_part}
use mathlib.Core.List.{append_assoc}
use grackle.Base.{
  length-drop, take-min, leb, ◌-◌, get_or, ap, ◌<◌, zero, suc, List-cases, take, length-append, ◌≤◌,
  ◌+◌, ℕ, List, [], ◌∷◌, ◌++◌, false, Option, ◌==◌, drop, length, ◌≡◌, refl, arith, Bool-cases, inl,
  inr,
}
use grackle.Json.{Json}
use grackle.Base.Result.{Result, ok, ◌>>=◌}
use grackle.Aggregates.Build.{strip}
use grackle.Jsonl.{
  window_end, build, window_start, ℤ, read_window, len, read_range, cons_head, split_lines,
  readline, offsets_from, kept,
}

-- The lines that are not blank.
abbrev pub nonblank : List (List ℕ) → List (List ℕ)
nonblank [] = []
nonblank (raw ∷ rest) = elim (strip raw) [ [] ↦ nonblank rest | _ ↦ raw ∷ nonblank rest ]

-- The values of the lines that decode, unless a line raises what is not caught.
abbrev pub decoded : (List ℕ → Result (Option Json)) → List (List ℕ) → Result (List Json)
decoded loads [] = ok []
decoded loads (raw ∷ rest) = do
  event ← loads raw
  others ← decoded loads rest
  ok (kept event others)

abbrev concat : List (List ℕ) → List ℕ
concat [] = []
concat (l ∷ ls) = l ++ concat ls

-- Each line is what a read from its start returns.
abbrev Proper : List (List ℕ) → Type 0
Proper [] = Unit
Proper (l ∷ ls) = (readline (l ++ concat ls) ≡ l) × Proper ls

cons_head-concat : (c : ℕ) (ls : List (List ℕ)) → concat (cons_head c ls) ≡ c ∷ concat ls
cons_head-concat c [] = refl
cons_head-concat c (l ∷ ls) = refl

concat-split_lines : (s : List ℕ) → concat (split_lines s) ≡ s
unfolding split_lines
concat-split_lines [] = refl
concat-split_lines (c ∷ s) =
    ground (arith, cons_head-concat c (split_lines s), concat-split_lines s)

cons_head-Proper :
    (c : ℕ) (ls : List (List ℕ)) → (c == 10) ≡ false → Proper ls → Proper (cons_head c ls)
unfolding readline
cons_head-Proper c [] e h = (rw e refl, tt)
cons_head-Proper c (l ∷ ls) e h = (rw (e, h.0) refl, h.1)

split_lines-Proper : (s : List ℕ) → Proper (split_lines s)
unfolding split_lines readline
split_lines-Proper [] = tt
split_lines-Proper (c ∷ s) = elim (Bool-cases (c == 10)) [
  | inl e ↦ rw e (rw e refl, split_lines-Proper s)
  | inr e ↦ rw e (cons_head-Proper c (split_lines s) e (split_lines-Proper s))
]

drop-append : (pre s : List ℕ) → drop (length pre) (pre ++ s) ≡ s
drop-append [] s = refl
drop-append (c ∷ pre) s = drop-append pre s

-- A read at each offset returns the line.
abbrev ReadsAt : List ℕ → List ℕ → List (List ℕ) → Type 0
ReadsAt content [] [] = Unit
ReadsAt content (o ∷ os) (l ∷ ls) = (readline (drop o content) ≡ l) × ReadsAt content os ls
ReadsAt content _ _ = ⊥

offsets-ReadsAt :
    (pre : List ℕ) (ls : List (List ℕ))
    → Proper ls
    → ReadsAt (pre ++ concat ls) (offsets_from (length pre) ls) (nonblank ls)
unfolding offsets_from
offsets-ReadsAt pre [] h = tt
offsets-ReadsAt pre (l ∷ ls) h =
    let rest : ReadsAt (pre ++ (l ++ concat ls)) (offsets_from (length pre + length l) ls)
        (nonblank ls) =
      rw (length-append pre l, append_assoc) at (offsets-ReadsAt (pre ++ l) ls h.1) in
    elim (List-cases (strip l)) [
      | inl e ↦ rw (e, offsets_from, nonblank) rest
      | inr (c, s, e) ↦
          rw (e, offsets_from, nonblank) (rw (drop-append pre (l ++ concat ls)) h.0, rest)
    ]

read_at :
    (content os : List ℕ) (ls : List (List ℕ)) (i : ℕ)
    → ReadsAt content os ls
    → i < length os
    → (l : List ℕ) × (drop i ls ≡ l ∷ drop (suc i) ls)
      × (readline (drop (get_or os i 0) content) ≡ l)
read_at content [] ls i r h = elim h [ ]
read_at content (o ∷ os) [] i r h = elim r [ ]
read_at content (o ∷ os) (l ∷ ls) zero r h = (l, refl, r.0)
read_at content (o ∷ os) (l ∷ ls) (suc i) r h = read_at content os ls i r.1 (omega arith)

module _ (loads : List ℕ → Result (Option Json)) (content os : List ℕ) (ls : List (List ℕ)) where
  read_range-suc :
      (i n : ℕ) (l : List ℕ)
      → drop i ls ≡ l ∷ drop (suc i) ls
      → readline (drop (get_or os i 0) content) ≡ l
      → read_range loads content os (suc i) n ≡ decoded loads (take n (drop (suc i) ls))
      → read_range loads content os i (suc n) ≡ decoded loads (take (suc n) (drop i ls))
  unfolding read_range
  read_range-suc i n l rest here later = ground arith

  read_range-decoded :
      (i n : ℕ)
      → ReadsAt content os ls
      → i + n ≤ length os
      → read_range loads content os i n ≡ decoded loads (take n (drop i ls))
  unfolding read_range
  read_range-decoded i zero r h = refl
  read_range-decoded i (suc n) r h =
      let (l, rest, here) = read_at content os ls i r (omega arith) in
      read_range-suc i n l rest here (read_range-decoded (suc i) n r (omega arith))

pub ReadsAt-length :
    (content os : List ℕ) (ls : List (List ℕ)) → ReadsAt content os ls → length os ≡ length ls
ReadsAt-length content [] [] r = refl
ReadsAt-length content [] (l ∷ ls) r = elim r [ ]
ReadsAt-length content (o ∷ os) [] r = elim r [ ]
ReadsAt-length content (o ∷ os) (l ∷ ls) r = ap suc (ReadsAt-length content os ls r.1)

build-ReadsAt :
    (content : List ℕ)
    → ReadsAt content (build (split_lines content)).offsets (nonblank (split_lines content))
unfolding build
build-ReadsAt content =
    rw concat-split_lines at (offsets-ReadsAt [] (split_lines content) (split_lines-Proper content))

-- The index has one offset for each line that is not blank.
pub length-index :
    (content : List ℕ) → len (build (split_lines content)) ≡ length (nonblank (split_lines content))
unfolding len
length-index content = ReadsAt-length content _ _ (build-ReadsAt content)

module _ (loads : List ℕ → Result (Option Json)) (content : List ℕ) (start count : ℤ) where
  abbrev lines : List (List ℕ)
  lines = nonblank (split_lines content)

  abbrev offsets : List ℕ
  offsets = (build (split_lines content)).offsets

  abbrev from : ℕ
  from = window_start start (length offsets)

  abbrev to : ℕ
  to = window_end from count (length offsets)

  read_range_none : (i n : ℕ) → n ≡ 0 → read_range loads content offsets i n ≡ ok []
  unfolding read_range
  read_range_none i zero h = refl
  read_range_none i (suc n) h = absurd (omega arith)

  read_window-range :
      read_window loads (build (split_lines content)) content start count
      ≡ read_range loads content offsets from (to - from)
  unfolding read_window read_range
  read_window-range = elim (Bool-cases (leb to from)) [
    | inl e ↦ ground (arith, read_range_none from (to - from))
    | inr e ↦ rw e
  ]

  window-take :
      (length offsets ≡ length lines)
      → take (to - from) (drop from lines) ≡ take (pos_part count) (drop from lines)
  window-take h =
      take-min (to - from) (pos_part count) (drop from lines)
        (ground (arith, length-drop from lines))

  -- A window of an unchanged file: the start is clamped to the number of lines, and the window
  -- holds the values of the lines there that decode, in the order of the file. A start below 0 is
  -- 0, and a negative count gives no events. Where json.loads raises something else than the two
  -- errors that are caught, the window raises what it raises on the first such line there.
  pub window_reads :
      read_window loads (build (split_lines content)) content start count
      ≡ decoded loads (take (pos_part count) (drop (window_start start (length lines)) lines))
  window_reads =
      let reads = build-ReadsAt content in
      let same : length offsets ≡ length lines = ReadsAt-length content offsets lines reads in
      rw (
        read_window-range,
        read_range-decoded loads content offsets lines from (to - from) reads (ground arith),
        window-take same,
        same,
      )
