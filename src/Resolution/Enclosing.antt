-- ===== src/Resolution/Enclosing.antt =====
-- The lookup by declaration lines finds the nearest declaration at or above a line.
use grackle.Base.{
  sym, subst, All-Any, Option-cases, ap, Any, ◌∙◌, ◌<◌, if◌then◌else◌, ℕ, zero, suc, ◌≤◌, String,
  Option, none, some, List, [], ◌∷◌, Bool, true, ltb, arith, ◌≡◌, refl, All, All-mono, Bool-cases,
  inl, inr,
}
use grackle.Base.Text.{rank_then_text_total, rank_then_text_trans}
use grackle.Resolution.Resolve.{id_before, decl_at}
use grackle.Base.Bisect.{bisect_right-rank, rank, Upward}
use grackle.Base.Sort.{Any-sorted, All-sorted, sorted-Ordered, sorted, Ordered, IsOrder}
use grackle.Resolution.Index.{decl_before}

decl_before-IsOrder : IsOrder decl_before
unfolding decl_before
decl_before-IsOrder = record {
  total = λ (m, s) (n, t) h. rank_then_text_total m n s t h;
  trans = λ (m, s) (n, t) (k, u) h l. rank_then_text_trans m n k s t u h l;
}

-- Below a declaration in the order no line is smaller.
decl_before-le : (p q : ℕ × String) → decl_before p q ≡ true → p.0 ≤ q.0
unfolding decl_before
decl_before-le (m, s) (n, t) h = ground arith

abbrev beyond : ℕ → ℕ × String → Bool
beyond line p = ltb line p.0

Ordered-Upward :
    (line : ℕ) (ps : List (ℕ × String)) → Ordered decl_before ps → Upward (beyond line) ps
Ordered-Upward line [] h = tt
Ordered-Upward line (p ∷ ps) h = (
  λ e.
      All-mono (λ q. decl_before p q ≡ true) (λ q. beyond line q ≡ true)
        (λ q l. ground (arith, decl_before-le p q l)) ps h.0,
  Ordered-Upward line ps h.1,
)

-- The last declaration that starts at or above the line, going through the list.
abbrev pub enclosing : ℕ → List (ℕ × String) → Option String
enclosing line [] = none
enclosing line ((decl, id) ∷ ps) = elim (enclosing line ps) [
  | some inner ↦ some inner
  | none ↦ if ltb line decl then none else some id
]

enclosing-beyond :
    (line : ℕ) (ps : List (ℕ × String))
    → All (λ q. beyond line q ≡ true) ps
    → enclosing line ps ≡ none
enclosing-beyond line [] h = refl
enclosing-beyond line (p ∷ ps) h = ground (arith, enclosing-beyond line ps h.1)

id_before-suc :
    (p : ℕ × String) (ps : List (ℕ × String)) (r : ℕ)
    → id_before (suc r) (p ∷ ps)
      ≡ elim (id_before r ps) [ some inner ↦ some inner | none ↦ some p.1 ]
id_before-suc p ps zero = refl
id_before-suc p ps (suc r) = refl

rank-enclosing :
    (line : ℕ) (ps : List (ℕ × String))
    → Upward (beyond line) ps
    → id_before (rank (beyond line) ps) ps ≡ enclosing line ps
rank-enclosing line [] u = refl
rank-enclosing line (p ∷ ps) u = elim (Bool-cases (beyond line p)) [
  | inl e ↦ ground (arith, enclosing-beyond line ps (u.0 e))
  | inr e ↦ ground (arith, id_before-suc p ps (rank (beyond line) ps), rank-enclosing line ps u.1)
]

decl_at-enclosing :
    (line : ℕ) (ps : List (ℕ × String))
    → Ordered decl_before ps
    → decl_at line ps ≡ enclosing line ps
unfolding decl_at
decl_at-enclosing line [] h = refl
decl_at-enclosing line (p ∷ ps) h =
    let u = Ordered-Upward line (p ∷ ps) h in
    ap (λ n. id_before n (p ∷ ps)) (bisect_right-rank (beyond line) (p ∷ ps) u)
    ∙ rank-enclosing line (p ∷ ps) u

-- What the lookup says of the declarations of a file.
abbrev pub Nearest : ℕ → List (ℕ × String) → Option String → Type 0
Nearest line ps none = All (λ q. line < q.0) ps
Nearest line ps (some id) =
    (decl : ℕ) × (decl ≤ line)
    × Any (λ q. q ≡ (decl, id)) ps
    × All (λ q. q.0 ≤ line → q.0 ≤ decl) ps

Nearest-none :
    (line : ℕ) (p : ℕ × String) (ps : List (ℕ × String))
    → enclosing line ps ≡ none
    → Nearest line ps none
    → Nearest line (p ∷ ps) (enclosing line (p ∷ ps))
Nearest-none line p ps e h = elim (Bool-cases (ltb line p.0)) [
  | inl b ↦ rw (e, b) (ground arith, h)
  | inr b ↦
      rw (e, b)
        (
          p.0,
          ground arith,
          inl refl,
          (
            λ l. omega arith,
            All-mono (λ q. line < q.0) (λ q. q.0 ≤ line → q.0 ≤ p.0)
                (λ q lt le. absurd (omega arith)) ps h,
          ),
        )
]

Nearest-some :
    (line : ℕ) (p : ℕ × String) (ps : List (ℕ × String)) (id : String)
    → All (λ q. decl_before p q ≡ true) ps
    → enclosing line ps ≡ some id
    → Nearest line ps (some id)
    → Nearest line (p ∷ ps) (enclosing line (p ∷ ps))
Nearest-some line p ps id o e (decl, le, found, rest) = rw e (
  decl,
  le,
  inr found,
  (
    λ l. decl_before-le p (decl, id) (All-Any (λ q. decl_before p q ≡ true) (decl, id) ps o found),
    rest,
  ),
)

enclosing-Nearest :
    (line : ℕ) (ps : List (ℕ × String))
    → Ordered decl_before ps
    → Nearest line ps (enclosing line ps)
enclosing-Nearest line [] h = tt
enclosing-Nearest line (p ∷ ps) h = elim (Option-cases (enclosing line ps)) [
  | inl e ↦ Nearest-none line p ps e (subst (Nearest line ps) e (enclosing-Nearest line ps h.1))
  | inr (id, e) ↦
      Nearest-some line p ps id h.0 e (subst (Nearest line ps) e (enclosing-Nearest line ps h.1))
]

Nearest-sorted :
    (line : ℕ) (ps : List (ℕ × String)) (o : Option String)
    → Nearest line (sorted decl_before ps) o
    → Nearest line ps o
Nearest-sorted line ps none h = All-sorted decl_before (λ q. line < q.0) ps h
Nearest-sorted line ps (some id) (decl, le, found, rest) = (
  decl,
  le,
  Any-sorted decl_before (λ q. q ≡ (decl, id)) ps found,
  All-sorted decl_before (λ q. q.0 ≤ line → q.0 ≤ decl) ps rest,
)

-- The lookup in the sorted declarations of a file, whatever order they came in: it gives the id of
-- a declaration at or above the line below which no other starts there, and none only where each
-- declaration starts below the line.
pub decl_at-Nearest :
    (line : ℕ) (ps : List (ℕ × String)) → Nearest line ps (decl_at line (sorted decl_before ps))
decl_at-Nearest line ps =
    let order = sorted-Ordered decl_before decl_before-IsOrder ps in
    Nearest-sorted line ps (decl_at line (sorted decl_before ps)) (
      subst (Nearest line (sorted decl_before ps))
        (sym (decl_at-enclosing line (sorted decl_before ps) order))
        (enclosing-Nearest line (sorted decl_before ps) order))
