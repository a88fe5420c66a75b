-- ===== src/Watcher/Changes.antt =====
-- The difference of two snapshots is where their hashes differ.
use grackle.Base.{
  ℕ, String, List, [], ◌∷◌, ◌++◌, Option, none, some, Bool, true, false, not, ◌≡◌, ◌≢◌, ◌↔◌, ◌⊎◌,
  refl, inl, inr, Any, is_some, Bool-cases, if◌then◌else◌, sym, ap, subst, ◌∙◌,
}
use grackle.Base.Dict.{get, Distinct, put-Distinct, some_inj}
use grackle.Base.Text.{string_key, String_discrete, same_text}
use grackle.Watcher.{
  Candidate, Entry, Snapshot, is_changed, changed_keys, removed_keys, diff, add_file, snapshot_from,
  snapshot, stat_and_hash, put_found,
}
use mathlib.Core.Logic.{if_pos, if_neg}
use text.Mathlib.TextEquality.{eq_iff}

-- The hash of a key in a snapshot.
abbrev pub digest_of : Option Entry → Option String
digest_of none = none
digest_of (some e) = some e.digest

abbrev pub digest_at : String → Snapshot → Option String
digest_at key m = digest_of (get key m)

none-some : {e : Entry} → none ≡ some e → ⊥
none-some h = cc

not_both : (b : Bool) → b ≡ true → not b ≡ true → ⊥
not_both true h k = cc
not_both false h k = cc

none-is_some : (o : Option Entry) → o ≡ none → is_some o ≡ true → ⊥
none-is_some none h k = cc
none-is_some (some e) h k = cc

is_some-false : (o : Option Entry) → is_some o ≡ false → o ≡ none
is_some-false none h = refl
is_some-false (some e) h = cc

Any-append : (P : String → Type 0) (xs ys : List String) → Any P (xs ++ ys) ↔ (Any P xs ⊎ Any P ys)
Any-append P [] ys = (λ h. inr h, elim [ inl h ↦ elim h [ ] | inr h ↦ h ])
Any-append P (x ∷ xs) ys = (
  elim [
    | inl h ↦ inl (inl h)
    | inr h ↦ elim ((Any-append P xs ys).0 h) [ inl k ↦ inl (inr k) | inr k ↦ inr k ]
  ],
  elim [
    | inl h ↦ elim h [ inl k ↦ inl k | inr k ↦ inr ((Any-append P xs ys).1 (inl k)) ]
    | inr h ↦ inr ((Any-append P xs ys).1 (inr h))
  ],
)

module _ (key : String) where
  abbrev Reported : List String → Type 0
  Reported = Any (λ k. k ≡ key)

  -- A change that the new snapshot shows.
  abbrev Shown : Option Entry → Option Entry → Type 0
  Shown o n = (e : Entry) × (n ≡ some e) × (is_changed o e ≡ true)

  abbrev Gone : Option Entry → Option Entry → Type 0
  Gone o n = (is_some o ≡ true) × (n ≡ none)

  Reported-iff :
      (b : Bool) (j : String) (rest : List String)
      → Reported (if b then j ∷ rest else rest) ↔ (((b ≡ true) × (j ≡ key)) ⊎ Reported rest)
  Reported-iff true j rest =
      (elim [ inl p ↦ inl (refl, p) | inr r ↦ inr r ], elim [ inl p ↦ inl p.1 | inr r ↦ inr r ])
  Reported-iff false j rest = (λ r. inr r, elim [ inl p ↦ cc | inr r ↦ r ])

  differ_iff : (o n : Option Entry) → (digest_of o ≢ digest_of n) ↔ (Shown o n ⊎ Gone o n)
  unfolding is_changed
  differ_iff none none = (λ h. absurd (h refl), elim [ inl (e, q, c) ↦ cc | inr (q, r) ↦ cc ])
  differ_iff none (some e) = (λ h. inl (e, refl, refl), λ h q. cc)
  differ_iff (some e) none = (λ h. inr (refl, refl), λ h q. cc)
  differ_iff (some d) (some e) = elim (Bool-cases (same_text d.digest e.digest)) [
    | inl same ↦
        let eq = (eq_iff d.digest e.digest).0 same in
        (
          λ h. absurd (h (ap some eq)),
          elim [
            | inl (f, q, c) ↦
                let c' : not (same_text d.digest e.digest) ≡ true =
                  subst (λ g. not (same_text d.digest g.digest) ≡ true) (sym (some_inj q)) c in
                absurd (not_both _ same c')
            | inr (q, r) ↦ cc
          ],
        )
    | inr other ↦ (
      λ h. inl (e, refl, rw other refl),
      λ c q. absurd (not_both _ ((eq_iff d.digest e.digest).1 (some_inj q)) (rw other refl)),
    )
  ]

  changed-Shown :
      (old new : Snapshot)
      → Distinct new
      → Reported (changed_keys old new) ↔ Shown (get key old) (get key new)
  unfolding changed_keys get
  changed-Shown old [] h = (λ k. elim k [ ], λ (e, q, c). cc)
  changed-Shown old ((j, e) ∷ new) h =
      let ih = changed-Shown old new h.1 in
      let report = Reported-iff (is_changed (get j old) e) j (changed_keys old new) in
      elim (String_discrete j key) [
        | yes p ↦ rw (if_pos _ p) (
          λ k. elim (report.0 k) [
            | inl (c, _) ↦ (e, refl, subst (λ i. is_changed (get i old) e ≡ true) p c)
            | inr r ↦
                let (f, q, c) = ih.0 r in absurd (none-some (sym h.0 ∙ (ap (λ i. get i new) p ∙ q)))
          ],
          λ (f, q, c). report.1 (
              inl (
                subst (λ i. is_changed (get i old) e ≡ true) (sym p)
                    (subst (λ g. is_changed (get key old) g ≡ true) (sym (some_inj q)) c),
                p,
              )),
        )
        | no p ↦ rw (if_neg _ p) (
          λ k. elim (report.0 k) [ inl (_, q) ↦ absurd (p q) | inr r ↦ ih.0 r ],
          λ c. report.1 (inr (ih.1 c)),
        )
      ]

  removed-Gone :
      (old new : Snapshot) → Reported (removed_keys old new) ↔ Gone (get key old) (get key new)
  unfolding removed_keys get
  removed-Gone [] new = (λ k. elim k [ ], λ (q, c). cc)
  removed-Gone ((j, e) ∷ old) new =
      let ih = removed-Gone old new in
      elim (Bool-cases (is_some (get j new))) [
        | inl kept ↦ elim (String_discrete j key) [
          | yes p ↦
              rw (kept, if_pos _ p)
                (
                  λ r. (refl, (ih.0 r).1),
                  λ (_, n). absurd (none-is_some (get j new) (ap (λ i. get i new) p ∙ n) kept),
                )
          | no p ↦ rw (kept, if_neg _ p) ih
        ]
        | inr lost ↦ elim (String_discrete j key) [
          | yes p ↦
              rw (lost, if_pos _ p)
                (
                  elim [
                    | inl _ ↦ (refl, ap (λ i. get i new) (sym p) ∙ is_some-false (get j new) lost)
                    | inr r ↦ (refl, (ih.0 r).1)
                  ],
                  λ _. inl p,
                )
          | no p ↦
              rw (lost, if_neg _ p)
                (elim [ inl q ↦ absurd (p q) | inr r ↦ ih.0 r ], λ c. inr (ih.1 c))
        ]
      ]

-- Without two entries of a key, the keys of a difference are those whose hashes differ, with a missing
-- key as a difference.
diff_of_Distinct :
    (key : String) (old new : Snapshot)
    → Distinct new
    → Any (λ k. k ≡ key) (diff old new) ↔ (digest_at key old ≢ digest_at key new)
unfolding diff
diff_of_Distinct key old new h =
    let parts = Any-append (λ k. k ≡ key) (changed_keys old new) (removed_keys old new) in
    let d = differ_iff key (get key old) (get key new) in
    let c = changed-Shown key old new h in
    let r = removed-Gone key old new in
    (
      λ k. elim (parts.0 k) [ inl x ↦ d.1 (inl (c.0 x)) | inr y ↦ d.1 (inr (r.0 y)) ],
      λ k. elim (d.0 k) [ inl x ↦ parts.1 (inl (c.1 x)) | inr y ↦ parts.1 (inr (r.1 y)) ],
    )

put_found-Distinct :
    (key : String) (entry : Option Entry) (result : Snapshot)
    → Distinct result
    → Distinct (put_found key entry result)
unfolding put_found
put_found-Distinct key none result h = h
put_found-Distinct key (some entry) result h = put-Distinct key entry result h

module _ (hash_bytes : List ℕ → String) where
  add_file-Distinct :
      (file : Candidate) (prev result : Snapshot)
      → Distinct result
      → Distinct (add_file hash_bytes file prev result)
  unfolding add_file
  add_file-Distinct file prev result h =
      elim file.key
        as (λ k. Distinct (elim k [
          | none ↦ result
          | some key ↦ put_found key (stat_and_hash hash_bytes file (get key prev)) result
        ])) [
          | none ↦ h
          | some key ↦
              put_found-Distinct key (stat_and_hash hash_bytes file (get key prev)) result h
        ]

  snapshot_from-Distinct :
      (files : List Candidate) (prev result : Snapshot)
      → Distinct result
      → Distinct (snapshot_from hash_bytes files prev result)
  unfolding snapshot_from
  snapshot_from-Distinct [] prev result h = h
  snapshot_from-Distinct (file ∷ files) prev result h =
      snapshot_from-Distinct files prev (add_file hash_bytes file prev result)
        (add_file-Distinct file prev result h)

  -- Between a snapshot and the next, exactly the keys are reported whose hash differs, that were added
  -- or that are gone: a new time or size of a file with the same hash is not reported.
  pub diff-Changed :
      (files : List Candidate) (old : Snapshot) (key : String)
      → Any (λ k. k ≡ key) (diff old (snapshot hash_bytes files old))
        ↔ (digest_at key old ≢ digest_at key (snapshot hash_bytes files old))
  unfolding snapshot
  diff-Changed files old key =
      diff_of_Distinct key old (snapshot hash_bytes files old)
        (snapshot_from-Distinct files old [] tt)
