-- ===== src/Recording/SafeId.antt =====
-- What the test of session ids lets through.
use grackle.Base.{
  ℕ, zero, suc, ◌==◌, ◌≤◌, ◌&&◌, not, List, [], ◌∷◌, Bool, true, false, arith, ◌≡◌, length, All,
}
use grackle.Recording.Sink.{word_char, id_char, id_tail, is_safe_session_id}

-- Neither a separator of paths, slash or backslash, nor the NUL character.
abbrev pub in_segment : ℕ → Bool
in_segment c = not (c == 47) && not (c == 92) && not (c == 0)

-- Neither a dot nor a dash.
abbrev pub plain_start : List ℕ → Bool
plain_start [] = false
plain_start (c ∷ s) = not (c == 46) && not (c == 45)

id_char-in_segment : (c : ℕ) → id_char c ≡ true → in_segment c ≡ true
unfolding id_char word_char
id_char-in_segment c h = ground arith

end-in_segment : (c : ℕ) → (c == 10) ≡ true → in_segment c ≡ true
end-in_segment c h = ground arith

id_tail-All :
    (n : ℕ) (s : List ℕ)
    → id_tail n s ≡ true
    → All (λ c. in_segment c ≡ true) s × (length s ≤ suc n)
unfolding id_tail
id_tail-All n [] h = (tt, omega arith)
id_tail-All zero (c ∷ []) h = ((end-in_segment c h, tt), omega arith)
id_tail-All (suc n) (c ∷ []) h =
    ((ground (arith, id_char-in_segment c, end-in_segment c), tt), omega arith)
id_tail-All zero (c ∷ d ∷ s) h = cc
id_tail-All (suc n) (c ∷ d ∷ s) h =
    let (rest, short) = id_tail-All n (d ∷ s) (ground arith) in
    ((ground (arith, id_char-in_segment c), rest), omega (arith, short))

-- An id that passes is one segment of a path: it has no separator and no NUL, it starts with
-- neither a dot nor a dash, and it has at most 129 characters.
pub is_safe_session_id-All :
    (s : List ℕ)
    → is_safe_session_id s ≡ true
    → All (λ c. in_segment c ≡ true) s × (plain_start s ≡ true) × (length s ≤ 129)
unfolding is_safe_session_id id_char
is_safe_session_id-All [] h = cc
is_safe_session_id-All (c ∷ s) h =
    let (rest, short) = id_tail-All 127 s (ground arith) in
    ((ground (arith, id_char-in_segment c), rest), ground arith, omega (arith, short))
