-- ===== src/LiveBuffer/Fresh.antt =====
-- What a trim keeps.
use grackle.Base.Result.{Result-cases}
use grackle.Base.{
  inr, inl, zero, ltb, Bool-cases, suc, ◌++◌, ℕ, ◌-◌, ◌≤◌, Option, none, some, List, [], ◌∷◌, false,
  arith, ◌≡◌, refl, length, drop, All, if◌then◌else◌,
}
use grackle.Base.Int.{ℤ, pos, ltb_ℤ}
use grackle.LiveBuffer.{
  ok, ◌>>=◌, cutoff, Float, count_cap, trim_ring_buffer, Entry, age_trim, count_trim,
}

-- The entries that are not older than the cutoff.
abbrev pub fresh : ℤ → List Entry → List Entry
fresh cutoff_ns [] = []
fresh cutoff_ns ((ts, raw) ∷ rest) =
    if ltb_ℤ (pos ts) cutoff_ns then fresh cutoff_ns rest else (ts, raw) ∷ fresh cutoff_ns rest

-- The last entries, as many as the cap allows.
abbrev pub last_of : Option ℕ → List Entry → List Entry
last_of none entries = entries
last_of (some n) entries = drop (length entries - n) entries

-- The entries came in one after the other.
abbrev pub InOrder : List Entry → Type 0
InOrder [] = Unit
InOrder ((ts, raw) ∷ rest) = All (λ e. ts ≤ e.0) rest × InOrder rest

fresh-id :
    (c : ℤ) (ts : ℕ) (es : List Entry)
    → ltb_ℤ (pos ts) c ≡ false
    → All (λ e. ts ≤ e.0) es
    → fresh c es ≡ es
fresh-id c ts [] h k = refl
fresh-id c ts ((t, raw) ∷ es) h k = ground (arith, fresh-id c ts es h k.1)

age_trim-fresh : (c : ℤ) (es : List Entry) → InOrder es → age_trim c es ≡ fresh c es
unfolding age_trim
age_trim-fresh c [] h = refl
age_trim-fresh c ((ts, raw) ∷ es) h = ground (arith, age_trim-fresh c es h.1, fresh-id c ts es)

drop-nil : (n : ℕ) → drop {A = Entry} n [] ≡ []
drop-nil zero = refl
drop-nil (suc n) = refl

count_trim-last : (n : ℕ) (es : List Entry) → count_trim n es ≡ drop (length es - n) es
unfolding count_trim
count_trim-last n [] = rw drop-nil refl
count_trim-last n (e ∷ es) = elim (Bool-cases (ltb n (suc (length es)))) [
  | inl h ↦
      let more : suc (length es) - n ≡ suc (length es - n) = ground arith in
      rw (h, more, count_trim) (count_trim-last n es)
  | inr h ↦
      let none_over : suc (length es) - n ≡ 0 = ground arith in rw (h, none_over, count_trim) refl
]

count_cap-last : (cap : Option ℕ) (es : List Entry) → count_cap cap es ≡ last_of cap es
count_cap-last none es = refl
count_cap-last (some n) es = count_trim-last n es

pub fresh-append : (c : ℤ) (es fs : List Entry) → fresh c (es ++ fs) ≡ fresh c es ++ fresh c fs
fresh-append c [] fs = refl
fresh-append c ((ts, raw) ∷ es) fs = ground (arith, fresh-append c es fs)

-- Where the entries came in one after the other, a trim keeps exactly the last of the entries that
-- are not older than the window, as many as the cap allows. A window that int() refuses raises.
pub trim_ring_buffer-last_of :
    (es : List Entry) (now_ns : ℕ) (window : Float) (cap : Option ℕ)
    → InOrder es
    → trim_ring_buffer es now_ns window cap
      ≡ (cutoff now_ns window >>= λ c. ok (last_of cap (fresh c es)))
unfolding trim_ring_buffer
trim_ring_buffer-last_of es now_ns window cap h = elim (Result-cases (cutoff now_ns window)) [
  | inl (c, e) ↦ rw (e, age_trim-fresh c es h, count_cap-last) refl
  | inr (x, e) ↦ rw e refl
]
