-- ===== src/Recording/Finalize.antt =====
-- What a finalize leaves behind, on success and on failure.
use mathlib.Core.List.{append-nil}
use grackle.Base.{
  subst, refl, ◌∙◌, zero, true, [], ap, ◌∷◌, arith, false, suc, Bool_split, ℕ, Option, none, some,
  List, ◌++◌, ◌≡◌, take, drop, length, sym,
}
use mathlib.Core.Option.{map as map_option}
use grackle.Base.Result.{value_error, os_error, ok, raise}
use grackle.Recording.Part.{
  Wrote, finalize, open_part, Writer, Done, then_step, Faults, truncate, close, rename,
}
use grackle.Recording.Salvage.{writes-Holds, writes, accepted, Holds, line_bytes}

-- A file that begins like the lines, and after the last of them may have a tail.
abbrev pub HoldsFirst : List (List ℕ) → Option (List ℕ) → Type 0
HoldsFirst lines part =
    (kept : List ℕ) × (lost : List ℕ) × (tail : List ℕ) × (part ≡ some kept)
    × (kept ++ lost ≡ line_bytes lines ++ tail)

whole-HoldsFirst :
    (lines : List (List ℕ)) (tail : List ℕ) (part : Option (List ℕ))
    → part ≡ some (line_bytes lines ++ tail)
    → HoldsFirst lines part
whole-HoldsFirst lines tail part h = (line_bytes lines ++ tail, [], tail, h, append-nil _)

take-drop : (n : ℕ) (xs : List ℕ) → take n xs ++ drop n xs ≡ xs
take-drop zero [] = refl
take-drop zero (x ∷ xs) = refl
take-drop (suc n) [] = refl
take-drop (suc n) (x ∷ xs) = ap (◌∷◌ x) (take-drop n xs)

lost-HoldsFirst :
    (lines : List (List ℕ)) (n : ℕ) (part : Option (List ℕ))
    → part ≡ some (line_bytes lines)
    → HoldsFirst lines (map_option (take n) part)
lost-HoldsFirst lines n part h = (
  take n (line_bytes lines),
  drop n (line_bytes lines),
  [],
  ap (map_option (take n)) h,
  take-drop n (line_bytes lines) ∙ sym (append-nil (line_bytes lines)),
)

-- A finalize that returns has put the lines in place of the old file; one that raises has left the
-- old file and, in the part file, the first bytes of the lines and what follows them.
abbrev pub Salvaged : Option (List ℕ) → List (List ℕ) → Done → Type 0
Salvaged old lines (ok a, w) =
    (w.final ≡ some (line_bytes lines)) × (w.part ≡ none) × (w.count ≡ length lines)
Salvaged old lines (raise e, w) = (w.final ≡ old) × HoldsFirst lines w.part

-- On the way: the part file holds the lines alone.
record Ready (old : Option (List ℕ)) (lines : List (List ℕ)) (w : Writer) : Type 0 where
  final : w.final ≡ old
  part : w.part ≡ some (line_bytes lines)
  count : w.count ≡ length lines

abbrev Step : Option (List ℕ) → List (List ℕ) → Done → Type 0
Step old lines (ok a, w) = Ready old lines w
Step old lines (raise e, w) = (w.final ≡ old) × HoldsFirst lines w.part

then-Step :
    (old : Option (List ℕ)) (lines : List (List ℕ)) (d : Done) (f : Writer → Done)
    → Step old lines d
    → ((w : Writer) → Ready old lines w → Step old lines (f w))
    → Step old lines (then_step d f)
then-Step old lines (ok a, w) f h k = k w h
then-Step old lines (raise e, w) f h k = h

then-Salvaged :
    (old : Option (List ℕ)) (lines : List (List ℕ)) (d : Done) (f : Writer → Done)
    → Step old lines d
    → ((w : Writer) → Ready old lines w → Salvaged old lines (f w))
    → Salvaged old lines (then_step d f)
then-Salvaged old lines (ok a, w) f h k = k w h
then-Salvaged old lines (raise e, w) f h k = h

take-lines : (xs ys : List ℕ) (n : ℕ) → n ≡ length xs → take n (xs ++ ys) ≡ xs
take-lines [] ys zero h = refl
take-lines [] ys (suc n) h = absurd (omega arith)
take-lines (x ∷ xs) ys zero h = absurd (omega arith)
take-lines (x ∷ xs) ys (suc n) h = rw (take-lines xs ys n (omega arith)) refl

truncate-Step :
    (old : Option (List ℕ)) (lines : List (List ℕ)) (faults : Faults) (w : Writer)
    → Holds old lines w
    → Step old lines (truncate faults w)
unfolding truncate
truncate-Step old lines faults w h =
    Bool_split (Step old lines) w.broken _ (ok tt, w)
      (λ b.
        Bool_split (Step old lines) w.closed (raise value_error, w) _ (λ c. cc)
          (λ c.
            Bool_split (Step old lines) faults.truncate_fails (raise os_error, w) _
              (λ f. (h.final, whole-HoldsFirst lines h.tail w.part h.part))
              (λ f. record {
                final = h.final;
                part =
                    rw h.part
                      (ap some (take-lines (line_bytes lines) h.tail w.last_good_offset h.offset));
                count = h.count;
              })))
      (λ b. record {
        final = h.final;
        part = h.part ∙ ap some (rw (h.whole_lines b) (append-nil (line_bytes lines)));
        count = h.count;
      })

close-Step :
    (old : Option (List ℕ)) (lines : List (List ℕ)) (faults : Faults) (w : Writer)
    → Ready old lines w
    → Step old lines (close faults w)
unfolding close
close-Step old lines faults w h =
    Bool_split (Step old lines) w.closed (ok tt, w) _ (λ c. h)
      (λ c.
        elim faults.close_fails
          as (λ o. Step old lines (elim o as (λ _. Done) [
            | some n ↦
                (raise os_error, record w { part = map_option (take n) w.part; closed = true })
            | none ↦ (ok tt, record w { closed = true })
          ])) [
            | none ↦ record { final = h.final; part = h.part; count = h.count }
            | some n ↦ (h.final, lost-HoldsFirst lines n w.part h.part)
          ])

rename-some :
    (faults : Faults) (w : Writer) (content : List ℕ)
    → w.part ≡ some content
    → rename faults w ≡ elim faults.rename_fails [
      | true ↦ (raise os_error, w)
      | false ↦ (ok tt, record w { part = none; final = some content; finalized = true })
    ]
unfolding rename
rename-some faults w content h = ground arith

rename-Salvaged :
    (old : Option (List ℕ)) (lines : List (List ℕ)) (faults : Faults) (w : Writer)
    → Ready old lines w
    → Salvaged old lines (rename faults w)
unfolding rename
rename-Salvaged old lines faults w h = rw (rename-some faults w (line_bytes lines) h.part) (
    Bool_split (Salvaged old lines) faults.rename_fails (raise os_error, w) _
      (λ f. (h.final, whole-HoldsFirst lines [] w.part (rw append-nil h.part)))
      (λ f. (refl, refl, h.count)))

pub finalize-open :
    (faults : Faults) (w : Writer)
    → w.finalized ≡ false
    → finalize faults w
      ≡ then_step (truncate faults w) (λ w'. then_step (close faults w') (rename faults))
unfolding finalize
finalize-open faults w h = ground arith

pub Holds-Salvaged :
    (old : Option (List ℕ)) (lines : List (List ℕ)) (faults : Faults) (w : Writer)
    → Holds old lines w
    → Salvaged old lines (finalize faults w)
Holds-Salvaged old lines faults w h = rw (finalize-open faults w h.not_final) (
    then-Salvaged old lines (truncate faults w) (λ w'. then_step (close faults w') (rename faults))
      (truncate-Step old lines faults w h)
      (λ w' r.
        then-Salvaged old lines (close faults w') (rename faults) (close-Step old lines faults w' r)
          (rename-Salvaged old lines faults)))

abbrev pub opened : Option (List ℕ) → Writer
opened old = record {
  part = some [];
  final = old;
  closed = false;
  count = 0;
  broken = false;
  last_good_offset = 0;
  finalized = false;
}

pub opened-Holds : (old : Option (List ℕ)) → Holds old [] (opened old)
opened-Holds old = record {
  tail = [];
  final = refl;
  part = refl;
  whole_lines = λ b. refl;
  offset = refl;
  count = refl;
  still_open = refl;
  not_final = refl;
}

pub open_part-opened :
    (old : Option (List ℕ)) (w : Writer) → open_part none old ≡ ok w → opened old ≡ w
unfolding open_part
open_part-opened old w e = cc

-- After any sequence of writes, of which any may fail or be torn, a finalize that returns has
-- written exactly the lines before the first failure, and the count is their number. A finalize
-- that raises, at whichever call, leaves the old file as it was, and the part file begins like
-- these lines: it is cut off where a close that fails has stopped, and may have a tail after them.
pub finalize-Salvaged :
    (events : List (Option (List ℕ) × Wrote)) (old : Option (List ℕ)) (faults : Faults) (w : Writer)
    → open_part none old ≡ ok w
    → Salvaged old (accepted events) (finalize faults (writes events w))
finalize-Salvaged events old faults w e =
    subst (λ v. Salvaged old (accepted events) (finalize faults (writes events v)))
      (open_part-opened old w e)
      (Holds-Salvaged old (accepted events) faults (writes events (opened old))
        (writes-Holds old events [] (opened old) refl (opened-Holds old)))
