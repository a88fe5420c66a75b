-- ===== src/Recording/Rows.antt =====
-- The rows of the session store by id, as packages/agent/src/grackle/session_store.py keeps them.
use grackle.Base.{
  String, List, [], ◌∷◌, ◌++◌, true, if◌then◌else◌, ◌≡◌, refl, ap, ◌∙◌, sym, arith, Bool-cases, inl,
  inr,
}
use mathlib.Core.List.{append-nil}
use grackle.Base.Text.{same_text}
use text.Mathlib.TextEquality.{eq_iff}
use grackle.Recording.Sink.{SessionMeta, without, put_session}

-- The rows of the store with an id.
abbrev pub rows : String → List SessionMeta → List SessionMeta
rows id [] = []
rows id (m ∷ store) = if same_text m.id id then m ∷ rows id store else rows id store

rows-append :
    (id : String) (xs ys : List SessionMeta) → rows id (xs ++ ys) ≡ rows id xs ++ rows id ys
rows-append id [] ys = refl
rows-append id (x ∷ xs) ys = ground (arith, rows-append id xs ys)

same_as : (s t u : String) → same_text s t ≡ true → same_text s u ≡ same_text t u
same_as s t u h = ap (λ k. same_text k u) ((eq_iff s t).0 h)

same_to : (s t u : String) → same_text t u ≡ true → same_text s u ≡ same_text s t
same_to s t u h = ap (same_text s) (sym ((eq_iff t u).0 h))

rows-without :
    (id other : String) (store : List SessionMeta)
    → rows id (without other store) ≡ (if same_text other id then [] else rows id store)
unfolding without
rows-without id other [] = ground arith
rows-without id other (m ∷ store) = elim (Bool-cases (same_text m.id other)) [
  | inl e ↦ ground (arith, rows-without id other store, same_as m.id other id e)
  | inr e ↦ elim (Bool-cases (same_text other id)) [
    | inl f ↦ ground (arith, rows-without id other store, same_to m.id other id f)
    | inr f ↦ ground (arith, rows-without id other store)
  ]
]

-- A session that is put is the one row of its id, and the rows of other ids stay.
pub rows-put_session :
    (id : String) (meta : SessionMeta) (store : List SessionMeta)
    → rows id (put_session meta store) ≡ (if same_text meta.id id then meta ∷ [] else rows id store)
unfolding put_session
rows-put_session id meta store = ground (
  arith,
  rows-append id (without meta.id store) (meta ∷ []),
  rows-without id meta.id store,
  append-nil (rows id store),
)

-- The store after a put: what the statement leaves, in which the session is the one row of its id.
abbrev pub IsPut : SessionMeta → List SessionMeta → List SessionMeta → Type 0
IsPut meta store store' =
    (store' ≡ put_session meta store)
    × ((id : String) → rows id store' ≡ (if same_text meta.id id then meta ∷ [] else rows id store))

pub put_session-IsPut :
    (meta : SessionMeta) (store store' : List SessionMeta)
    → store' ≡ put_session meta store
    → IsPut meta store store'
put_session-IsPut meta store store' e = (e, λ id. ap (rows id) e ∙ rows-put_session id meta store)

-- The row of an id after sessions that are put one by one: the last of this id, or what was there.
abbrev pub latest : String → List SessionMeta → List SessionMeta → List SessionMeta
latest id [] before = before
latest id (m ∷ ms) before = latest id ms (if same_text m.id id then m ∷ [] else before)
