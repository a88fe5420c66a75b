-- ===== src/Diff/Classes.antt =====
-- What the statuses say of the two counts, and when a diff reports a regression.
use grackle.Base.{subst, ℕ, ◌<◌, ◌≡◌, ◌↔◌, arith}
use grackle.Diff.{DiffStatus, touched, cold, new, gone, hotter, colder, same, status_of}

-- The condition on the two counts under which a node gets a status.
abbrev pub Meaning : DiffStatus → ℕ → ℕ → Type 0
Meaning new ca cb = (ca ≡ 0) × (0 < cb)
Meaning gone ca cb = (0 < ca) × (cb ≡ 0)
Meaning hotter ca cb = (0 < ca) × (ca < cb)
Meaning colder ca cb = (cb < ca) × (0 < cb)
Meaning same ca cb = ca ≡ cb
Meaning cold ca cb = ⊥
Meaning touched ca cb = ⊥

pub status-Meaning : (ca cb : ℕ) → Meaning (status_of ca cb) ca cb
unfolding status_of
status-Meaning ca cb = ground arith

Meaning-status : (s : DiffStatus) (ca cb : ℕ) → Meaning s ca cb → status_of ca cb ≡ s
unfolding status_of
Meaning-status new ca cb h = ground arith
Meaning-status gone ca cb h = ground arith
Meaning-status hotter ca cb h = ground arith
Meaning-status colder ca cb h = ground arith
Meaning-status same ca cb h = ground arith
Meaning-status cold ca cb h = elim h [ ]
Meaning-status touched ca cb h = elim h [ ]

-- The five statuses partition the pairs of counts: a node has a status exactly when its two counts
-- meet the condition of that status.
status_iff : (s : DiffStatus) (ca cb : ℕ) → (status_of ca cb ≡ s) ↔ Meaning s ca cb
status_iff s ca cb =
    (λ e. subst (λ x. Meaning x ca cb) e (status-Meaning ca cb), Meaning-status s ca cb)
