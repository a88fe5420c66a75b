-- ===== src/Coverage/LineMap.antt =====
-- packages/agent/src/grackle/node_runtime/coverage_poll.py: OffsetLineMap.
use grackle.Base.{
  ℕ, zero, suc, ◌+◌, ◌==◌, ◌≤◌, List, [], ◌∷◌, true, not, ltb, max, take, if◌then◌else◌, arith, ◌≡◌,
  refl, All, All-mono, Bool-cases, inl, inr,
}
use grackle.Base.Bisect.{rank-tally, bisect_right-rank, bisect_right, Upward}
use grackle.Base.Sort.{tally}

-- `for i, ch in enumerate(source)`: the offsets behind the newlines.
unfoldable pub starts_from : ℕ → List ℕ → List ℕ
starts_from i [] = []
starts_from i (ch ∷ source) =
    let later = starts_from (suc i) source in if ch == 10 then suc i ∷ later else later

-- `__init__`
unfoldable pub line_starts : List ℕ → List ℕ
unfolding starts_from
line_starts source = 0 ∷ starts_from 0 source

unfoldable pub line_of : List ℕ → ℕ → ℕ
unfolding bisect_right
line_of starts offset = max 1 (bisect_right (λ s. ltb offset s) starts)

starts_from-All : (i : ℕ) (source : List ℕ) → All (λ s. suc i ≤ s) (starts_from i source)
unfolding starts_from
starts_from-All i [] = tt
starts_from-All i (ch ∷ source) =
    let later =
      All-mono (λ s. suc (suc i) ≤ s) (λ s. suc i ≤ s) (λ s h. omega arith)
        (starts_from (suc i) source) (starts_from-All (suc i) source) in
    elim (Bool-cases (ch == 10)) [ inl e ↦ rw e (omega arith, later) | inr e ↦ rw e later ]

starts_from-Upward :
    (offset i : ℕ) (source : List ℕ) → Upward (λ s. ltb offset s) (starts_from i source)
unfolding starts_from
starts_from-Upward offset i [] = tt
starts_from-Upward offset i (ch ∷ source) = elim (Bool-cases (ch == 10)) [
  | inl e ↦ rw e (
    λ h.
        All-mono (λ s. suc (suc i) ≤ s) (λ s. ltb offset s ≡ true) (λ s l. ground arith)
          (starts_from (suc i) source) (starts_from-All (suc i) source),
    starts_from-Upward offset (suc i) source,
  )
  | inr e ↦ rw e (starts_from-Upward offset (suc i) source)
]

starts_from-none :
    (offset i : ℕ) (source : List ℕ)
    → offset ≤ i
    → tally (λ s. not (ltb offset s)) (starts_from i source) ≡ 0
unfolding starts_from
starts_from-none offset i [] h = refl
starts_from-none offset i (ch ∷ source) h = ground (arith, starts_from-none offset (suc i) source)

-- `r` characters from `i` on lie before the offset.
starts_from-tally :
    (offset i r : ℕ) (source : List ℕ)
    → offset ≡ i + r
    → tally (λ s. not (ltb offset s)) (starts_from i source)
      ≡ tally (λ ch. ch == 10) (take r source)
unfolding starts_from
starts_from-tally offset i zero [] h = refl
starts_from-tally offset i (suc r) [] h = refl
starts_from-tally offset i (suc r) (ch ∷ source) h =
    ground (arith, starts_from-tally offset (suc i) r source)
starts_from-tally offset i zero (ch ∷ source) h =
    starts_from-none offset i (ch ∷ source) (omega arith)

line_starts-tally :
    (source : List ℕ) (offset : ℕ)
    → tally (λ s. not (ltb offset s)) (line_starts source)
      ≡ suc (tally (λ ch. ch == 10) (take offset source))
unfolding line_starts
line_starts-tally source offset = ground (arith, starts_from-tally offset 0 offset source)

line_starts-Upward :
    (source : List ℕ) (offset : ℕ) → Upward (λ s. ltb offset s) (line_starts source)
unfolding line_starts
line_starts-Upward source offset = (λ h. absurd (ground arith), starts_from-Upward offset 0 source)

-- The line of an offset is one more than the number of newlines before it.
line_of-newlines :
    (source : List ℕ) (offset : ℕ)
    → line_of (line_starts source) offset ≡ suc (tally (λ ch. ch == 10) (take offset source))
unfolding line_of
line_of-newlines source offset =
    let u = line_starts-Upward source offset in
    ground (
      arith,
      bisect_right-rank (λ s. ltb offset s) (line_starts source) u,
      rank-tally (λ s. ltb offset s) (line_starts source) u,
      line_starts-tally source offset,
    )
