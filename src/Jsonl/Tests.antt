-- ===== src/Jsonl/Tests.antt =====
-- packages/agent/src/grackle/python_runtime/jsonl_index.py: concrete files, and the theorems on them.
use grackle.Base.{ℕ, ◌≡◌, refl, List, [], ◌∷◌, take, drop, length}
use grackle.Base.Int.{pos, negsuc, pos_part}
use grackle.Jsonl.{build, len, read_window, split_lines, window_start}
use grackle.Jsonl.Window.{nonblank, decoded, window_reads}
use grackle.Aggregates.Build.{strip}
use grackle.Aggregates.Tests.{loads}

-- `a`, a blank line, `x` and `e`.
abbrev content : List ℕ
content = 97 ∷ 10 ∷ 32 ∷ 10 ∷ 120 ∷ 10 ∷ 101 ∷ []

abbrev lines : List (List ℕ)
lines = nonblank (split_lines content)

index_len : len (build (split_lines content)) ≡ 3
unfolding len build split_lines strip
index_len = refl

window_reads_example :
    read_window loads (build (split_lines content)) content (negsuc 4) (pos 2)
    ≡ decoded loads (take (pos_part (pos 2)) (drop (window_start (negsuc 4) (length lines)) lines))
window_reads_example = window_reads loads content (negsuc 4) (pos 2)
