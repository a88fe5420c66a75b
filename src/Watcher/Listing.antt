-- ===== src/Watcher/Listing.antt =====
-- A file that is listed once in the walk has one entry in the snapshot.
use grackle.Base.{
  ℕ, String, List, [], ◌∷◌, Option, none, some, ◌≡◌, ◌≢◌, ◌⊎◌, refl, inl, inr, sym, ap, subst, ◌∙◌,
}
use grackle.Base.Dict.{get, get-put}
use grackle.Base.Text.{string_key, String_discrete}
use mathlib.Core.Logic.{if_pos, if_neg}
use grackle.Watcher.{Candidate, Entry, Snapshot, stat_and_hash, put_found, add_file, snapshot_from}

-- No file of the walk has the key.
abbrev pub NoneOf : String → List Candidate → Type 0
NoneOf key [] = Unit
NoneOf key (f ∷ fs) = (f.key ≢ some key) × NoneOf key fs

-- One file of the walk has the key, and it is this one.
abbrev pub OneOf : String → Candidate → List Candidate → Type 0
OneOf key file [] = ⊥
OneOf key file (f ∷ fs) =
    ((f ≡ file) × (file.key ≡ some key) × NoneOf key fs) ⊎ ((f.key ≢ some key) × OneOf key file fs)

get-put_found :
    (j key : String) (entry : Option Entry) (result : Snapshot)
    → j ≢ key
    → get key (put_found j entry result) ≡ get key result
unfolding put_found
get-put_found j key none result h = refl
get-put_found j key (some entry) result h =
    get-put j key entry result ∙ if_neg (String_discrete j key) h (some entry) (get key result)

get-put_found_self :
    (key : String) (entry : Option Entry) (result : Snapshot)
    → get key result ≡ none
    → get key (put_found key entry result) ≡ entry
unfolding put_found
get-put_found_self key none result h = h
get-put_found_self key (some entry) result h =
    get-put key key entry result
    ∙ if_pos (String_discrete key key) refl (some entry) (get key result)

module _ (hash_bytes : List ℕ → String) (key : String) where
  other-add_file :
      (f : Candidate) (prev result : Snapshot)
      → f.key ≢ some key
      → get key (add_file hash_bytes f prev result) ≡ get key result
  unfolding add_file
  other-add_file f prev result =
      elim f.key
        as (λ k.
          k ≢ some key
          → get key (elim k [
            | none ↦ result
            | some j ↦ put_found j (stat_and_hash hash_bytes f (get j prev)) result
          ])
            ≡ get key result) [
              | none ↦ λ h. refl
              | some j ↦ λ h.
                  get-put_found j key (stat_and_hash hash_bytes f (get j prev)) result
                    (λ e. h (ap some e))
            ]

  same-add_file :
      (file : Candidate) (prev result : Snapshot)
      → file.key ≡ some key
      → get key result ≡ none
      → get key (add_file hash_bytes file prev result)
        ≡ stat_and_hash hash_bytes file (get key prev)
  unfolding add_file
  same-add_file file prev result h n =
      subst
        (λ k.
          get key (elim k [
            | none ↦ result
            | some j ↦ put_found j (stat_and_hash hash_bytes file (get j prev)) result
          ])
          ≡ stat_and_hash hash_bytes file (get key prev))
        (sym h) (get-put_found_self key (stat_and_hash hash_bytes file (get key prev)) result n)

  none-snapshot :
      (fs : List Candidate) (prev result : Snapshot)
      → NoneOf key fs
      → get key (snapshot_from hash_bytes fs prev result) ≡ get key result
  unfolding snapshot_from
  none-snapshot [] prev result h = refl
  none-snapshot (f ∷ fs) prev result h =
      none-snapshot fs prev (add_file hash_bytes f prev result) h.1
      ∙ other-add_file f prev result h.0

  pub one-snapshot :
      (fs : List Candidate) (file : Candidate) (prev result : Snapshot)
      → OneOf key file fs
      → get key result ≡ none
      → get key (snapshot_from hash_bytes fs prev result)
        ≡ stat_and_hash hash_bytes file (get key prev)
  unfolding snapshot_from
  one-snapshot [] file prev result h n = elim h [ ]
  one-snapshot (f ∷ fs) file prev result h n = elim h [
    | inl (e, k, rest) ↦
        none-snapshot fs prev (add_file hash_bytes f prev result) rest
        ∙ (ap (λ g. get key (add_file hash_bytes g prev result)) e
            ∙ same-add_file file prev result k n)
    | inr (o, rest) ↦
        one-snapshot fs file prev (add_file hash_bytes f prev result) rest
          (other-add_file f prev result o ∙ n)
  ]
