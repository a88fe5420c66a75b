-- ===== src/Watcher/Ticks.antt =====
-- What the poll reports of a file that cannot be read for some ticks.
use grackle.Base.{
  ℕ, String, List, [], ◌∷◌, Option, none, some, Bool, true, false, ◌≡◌, ◌≢◌, ◌↔◌, ◌⊎◌, refl, inl,
  inr, Any, All, sym, ap, ◌∙◌, ◌&&◌,
}
use grackle.Base.Int.{ℤ, pos, negsuc}
use grackle.Base.Dict.{get, some_inj}
use grackle.Base.Text.{string_key}
use grackle.Watcher.{
  Candidate, Entry, Snapshot, stale, fallen_back, is_unmoved, stat_and_hash, stat_then_read,
  read_and_hash, same_int, snapshot, diff, watch_poll, last_snapshot,
}
use grackle.Watcher.Changes.{digest_of, diff-Changed}
use grackle.Watcher.Listing.{OneOf, one-snapshot}

and_false : (b : Bool) → (b && false) ≡ false
and_false true = refl
and_false false = refl

-- What is known of a file after a failure: its hash, with a time and size that no file has.
stale_moved : (mtime : ℤ) (size : ℕ) (e : Entry) → is_unmoved mtime size (some (stale e)) ≡ false
unfolding is_unmoved
stale_moved mtime size e = and_false (same_int mtime (negsuc 0))

module _ (hash_bytes : List ℕ → String) (key : String) where
  -- A tick lists the file once, and its stat fails, or it has another time or size than an entry and its
  -- read fails.
  abbrev pub FailsFrom : Entry → List Candidate → Type 0
  FailsFrom e files =
      (file : Candidate) × OneOf key file files
      × ((file.stat ≡ none)
          ⊎ ((file.content ≡ none)
              × ((mtime : ℤ) (size : ℕ)
                  → file.stat ≡ some (mtime, size)
                  → is_unmoved mtime size (some e) ≡ false)))

  -- A tick that fails after another one: no file has the time and size that are remembered.
  abbrev pub Fails : List Candidate → Type 0
  Fails files =
      (file : Candidate) × OneOf key file files × ((file.stat ≡ none) ⊎ (file.content ≡ none))

  stat_then_read-stale :
      (stat : Option (ℤ × ℕ)) (content : Option (List ℕ)) (e : Entry)
      → (stat ≡ none)
        ⊎ ((content ≡ none)
            × ((mtime : ℤ) (size : ℕ)
                → stat ≡ some (mtime, size)
                → is_unmoved mtime size (some e) ≡ false))
      → stat_then_read hash_bytes stat content (some e) ≡ some (stale e)
  unfolding stat_then_read read_and_hash fallen_back
  stat_then_read-stale none content e h = refl
  stat_then_read-stale (some (mtime, size)) content e (inl h) = cc
  stat_then_read-stale (some (mtime, size)) content e (inr (p, moved)) =
      rw (moved mtime size refl, p) refl

  first_tick :
      (files : List Candidate) (before : Snapshot) (e : Entry)
      → FailsFrom e files
      → get key before ≡ some e
      → get key (snapshot hash_bytes files before) ≡ some (stale e)
  unfolding snapshot stat_and_hash get
  first_tick files before e (file, one, fails) known =
      one-snapshot hash_bytes key files file before [] one refl
      ∙ (ap (stat_then_read hash_bytes file.stat file.content) known
          ∙ stat_then_read-stale file.stat file.content e fails)

  Fails-FailsFrom : (files : List Candidate) (e : Entry) → Fails files → FailsFrom (stale e) files
  Fails-FailsFrom files e (file, one, inl h) = (file, one, inl h)
  Fails-FailsFrom files e (file, one, inr h) =
      (file, one, inr (h, λ mtime size q. stale_moved mtime size e))

  last_stale :
      (ticks : List (List Candidate)) (before : Snapshot) (e : Entry)
      → All Fails ticks
      → get key before ≡ some (stale e)
      → get key (last_snapshot hash_bytes ticks before) ≡ some (stale e)
  unfolding last_snapshot
  last_stale [] before e h known = known
  last_stale (files ∷ ticks) before e h known =
      last_stale ticks (snapshot hash_bytes files before) e h.1
        (first_tick files before (stale e) (Fails-FailsFrom files e h.0) known)

  not_reported :
      (files : List Candidate) (before : Snapshot) (e d : Entry)
      → get key before ≡ some e
      → get key (snapshot hash_bytes files before) ≡ some d
      → e.digest ≡ d.digest
      → ¬ Any (λ k. k ≡ key) (diff before (snapshot hash_bytes files before))
  not_reported files before e d p q same r =
      (diff-Changed hash_bytes files before key).0 r
        (ap digest_of p ∙ (ap some same ∙ sym (ap digest_of q)))

  -- No tick that fails reports the file.
  watch_poll_silent :
      (ticks : List (List Candidate)) (before : Snapshot) (e : Entry)
      → All Fails ticks
      → get key before ≡ some (stale e)
      → All (λ ks. ¬ Any (λ k. k ≡ key) ks) (watch_poll hash_bytes ticks before)
  unfolding watch_poll
  watch_poll_silent [] before e h known = tt
  watch_poll_silent (files ∷ ticks) before e h known =
      let after = first_tick files before (stale e) (Fails-FailsFrom files e h.0) known in
      (
        not_reported files before (stale e) (stale e) known after refl,
        watch_poll_silent ticks (snapshot hash_bytes files before) e h.1 after,
      )

  -- A file that is known is listed once in each tick. In a first tick its stat fails, or it has another time or
  -- size and its read fails; in some more ticks its stat or read fails; then both succeed, whatever time and
  -- size they give, also those that were known at first. No failing tick reports the file, and the tick after
  -- them reports it exactly if its content has another hash than when it was last read.
  pub poll_after_failures :
      (before : Snapshot) (e : Entry) (first : List Candidate) (ticks : List (List Candidate))
      (files : List Candidate) (file : Candidate) (mtime : ℤ) (size : ℕ) (content : List ℕ)
      → get key before ≡ some e
      → FailsFrom e first
      → All Fails ticks
      → OneOf key file files
      → file.stat ≡ some (mtime, size)
      → file.content ≡ some content
      → let last = last_snapshot hash_bytes (first ∷ ticks) before in
        All (λ ks. ¬ Any (λ k. k ≡ key) ks) (watch_poll hash_bytes (first ∷ ticks) before)
        × (Any (λ k. k ≡ key) (diff last (snapshot hash_bytes files last))
            ↔ (hash_bytes content ≢ e.digest))
  unfolding snapshot stat_and_hash stat_then_read read_and_hash get watch_poll last_snapshot
  poll_after_failures before e first ticks files file mtime size content known fails more one st
        rd =
      let stale_first = first_tick first before e fails known in
      let last = last_snapshot hash_bytes ticks (snapshot hash_bytes first before) in
      let remembered = last_stale ticks (snapshot hash_bytes first before) e more stale_first in
      let read : get key (snapshot hash_bytes files last)
          ≡ some (record { mtime_ns = mtime; size = pos size; digest = hash_bytes content }) =
        one-snapshot hash_bytes key files file last [] one refl
        ∙ rw (remembered, st, rd, stale_moved mtime size e) refl in
      let changed = diff-Changed hash_bytes files last key in
      (
        (
          not_reported first before e (stale e) known stale_first refl,
          watch_poll_silent ticks (snapshot hash_bytes first before) e more stale_first,
        ),
        (
          λ r q.
              changed.0 r (ap digest_of remembered ∙ (ap some (sym q) ∙ sym (ap digest_of read))),
          λ h.
              changed.1
                (λ q. h (some_inj (sym (ap digest_of read) ∙ (sym q ∙ ap digest_of remembered)))),
        ),
      )
