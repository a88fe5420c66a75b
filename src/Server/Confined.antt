-- ===== src/Server/Confined.antt =====
-- What packages/agent/src/grackle/server.py reads for a client: files below the root only.
use grackle.Base.Result.{Result, ok}
use grackle.Base.{
  ℕ, ◌≤◌, String, List, [], ◌∷◌, ◌++◌, Option, none, some, Bool, true, false, not, ◌||◌, ltb, ◌≡◌,
  refl, ap, arith, if◌then◌else◌, Bool-cases, inl, inr, is_yes,
}
use text.Mathlib.TextEquality.{eq_iff}
use grackle.Base.Ascii.{codes, contains}
use grackle.Base.Dict.{list_key}
use grackle.Base.Text.{same_text, string_key}
use grackle.Server.Source.{
  ReadText, read, undecodable, unreadable, Found, max_source_bytes, commonpath, SourceResult,
  source, refused, read_result, read_sized, read_file, read_resolved, read_source, IsBelow,
}

-- A guard that refuses has not fired where a text comes out.
passed :
    (b : Bool) (reason text : String) (x : Result SourceResult)
    → (if b then ok (refused reason) else x) ≡ ok (source text)
    → (b ≡ false) × (x ≡ ok (source text))
passed true reason text x e = cc
passed false reason text x e = (refl, e)

small_enough :
    (b : Bool) (text : String) (x : SourceResult)
    → (if b then refused "too_large" else x) ≡ source text
    → (b ≡ false) × (x ≡ source text)
small_enough true text x e = cc
small_enough false text x e = (refl, e)

yes_holds : {P : Type 0} (d : Dec P) → not (is_yes d) ≡ false → P
yes_holds (yes p) h = p
yes_holds (no p) h = cc

commonpath-below :
    (root abs_path : List String)
    → commonpath root abs_path ≡ root
    → (rest : List String) × (abs_path ≡ root ++ rest)
unfolding commonpath
commonpath-below [] abs_path e = (abs_path, refl)
commonpath-below (a ∷ p) [] e = cc
commonpath-below (a ∷ p) (b ∷ q) e = elim (Bool-cases (same_text a b)) [
  | inl h ↦
      let e' : a ∷ commonpath p q ≡ a ∷ p = rw h at e in
      let (rest, f) = commonpath-below p q (cc e') in (rest, cc (f, (eq_iff a b).0 h))
  | inr h ↦ let e' : ◌≡◌ {A = List String} [] (a ∷ p) = rw h at e in cc e'
]

read_result_lem : (t : ReadText) (text : String) → read_result t ≡ source text → t ≡ read text
unfolding read_result
read_result_lem (read s) text e = cc
read_result_lem undecodable text e = cc
read_result_lem unreadable text e = cc

read_sized_lem :
    (size : Option ℕ) (t : ReadText) (text : String)
    → read_sized size t ≡ source text
    → ((n : ℕ) × (size ≡ some n) × (n ≤ max_source_bytes)) × (t ≡ read text)
unfolding read_sized
read_sized_lem none t text e = cc
read_sized_lem (some n) t text e =
    let (small, f) = small_enough (ltb max_source_bytes n) text (read_result t) e in
    ((n, refl, ground arith), read_result_lem t text f)

read_file_lem :
    (found : Found) (o : Option Bool) (text : String)
    → read_file found o ≡ ok (source text)
    → (o ≡ some true)
      × ((n : ℕ) × (found.size ≡ some n) × (n ≤ max_source_bytes))
      × (found.read_text ≡ read text)
unfolding read_file
read_file_lem found none text e = cc
read_file_lem found (some false) text e = cc
read_file_lem found (some true) text e =
    let (sized, f) = read_sized_lem found.size found.read_text text (cc e) in (refl, sized, f)

read_resolved_lem :
    (root : List String) (found : Found) (o : Option (List String)) (text : String)
    → read_resolved root found o ≡ ok (source text)
    → (rest : List String) × (o ≡ some (root ++ rest))
      × (found.is_file ≡ some true)
      × ((n : ℕ) × (found.size ≡ some n) × (n ≤ max_source_bytes))
      × (found.read_text ≡ read text)
unfolding read_resolved
read_resolved_lem root found none text e = cc
read_resolved_lem root found (some p) text e =
    let (a, e1) = passed (not found.is_comparable) "forbidden" text _ e in
    let (b, e2) =
      passed (not (is_yes (list_key.same (commonpath root p) root))) "forbidden" text _ e1 in
    let (file, sized, f) = read_file_lem found found.is_file text e2 in
    let (rest, g) =
      commonpath-below root p (yes_holds (list_key.same (commonpath root p) root) b) in
    (rest, ap some g, file, sized, f)

-- What a client gets to read is the text of a file whose resolved path is below the root, and that has at most
-- 1 MiB: no path with a backslash, no empty one, and none that leads out of the root.
pub read_source-IsBelow :
    (root : List String) (posix_path : String) (found : Found) (text : String)
    → read_source root posix_path found ≡ ok (source text)
    → IsBelow root found text × (contains (codes posix_path) (92 ∷ []) ≡ false)
unfolding read_source
read_source-IsBelow root posix_path found text e =
    let (a, f) =
      passed (same_text posix_path "" || contains (codes posix_path) (92 ∷ [])) "forbidden" text _
        e in
    (read_resolved_lem root found found.abs_path text f, ground arith)
