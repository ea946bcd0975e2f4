-- ===== src/Db/Table.antt =====
-- An IndexedDB object store (apps/web/src/db/index.ts): a map from the primary key to a row. The
-- representation is private: clients have `table_laws`. The order in which the browser enumerates
-- the rows is not modelled beyond "some order".
use mathlib.Core.Option
use privex.Prelude.{
  ◌≡◌, refl, Bool, true, Option, none, some, List, [], ◌∷◌, arith, Eq, ◌==◌, if◌then◌else◌, inl,
  inr, Option-cases, Bool-cases,
}

pub record Table (K V : Type 0) : Type 0 where
  entries : List (K × V)

abbrev pub keep : {V : Type 0} → (V → Bool) → Option V → Option V
keep p none = none
keep p (some v) = if p v then none else some v

module _ {K V : Type 0} where
  pub empty : Table K V
  empty = record { entries = [] }

module _ {K V : Type 0} ⦃e : Eq K⦄ where
  -- the entries but those under a key
  without : K → List (K × V) → List (K × V)
  without k [] = []
  without k ((i, w) ∷ rest) = if i == k then without k rest else (i, w) ∷ without k rest

  lookup : K → List (K × V) → Option V
  lookup k [] = none
  lookup k ((i, w) ∷ rest) = if i == k then some w else lookup k rest

  lookup-without :
      (k j : K) (es : List (K × V))
      → lookup j (without k es) ≡ (if k == j then none else lookup j es)
  unfolding lookup without
  lookup-without k j [] = ground arith
  lookup-without k j ((i, w) ∷ rest) =
      ground (arith, lookup-without k j rest, e.same_iff i k, e.same_iff i j, e.same_iff k j)

  -- table.get(key)
  pub get : Table K V → K → Option V
  get t k = lookup k t.entries

  -- table.put(row)
  pub put : Table K V → K → V → Table K V
  put t k v = record { entries = (k, v) ∷ without k t.entries }

  -- table.delete(key)
  pub delete : Table K V → K → Table K V
  delete t k = record { entries = without k t.entries }

  put_all : Table K V → K → Option V → Table K V
  put_all t k none = t
  put_all t k (some v) = put t k v

  -- table.update(key, changes): no row, no change
  pub update : Table K V → K → (V → V) → Table K V
  unfolding put_all
  update t k f = put_all t k (Option.map f (get t k))

  pub get-put :
      (t : Table K V) (k : K) (v : V) (j : K)
      → get (put t k v) j ≡ (if k == j then some v else get t j)
  unfolding get put lookup
  get-put t k v j = ground (arith, lookup-without k j t.entries)

  pub get-delete :
      (t : Table K V) (k j : K) → get (delete t k) j ≡ (if k == j then none else get t j)
  unfolding get delete
  get-delete t k j = lookup-without k j t.entries

  pub get-update :
      (t : Table K V) (k : K) (f : V → V) (j : K)
      → get (update t k f) j ≡ (if k == j then Option.map f (get t k) else get t j)
  unfolding update
  get-update t k f j = elim (Option-cases (get t k)) [
    | inl e₁ ↦ rw (e₁, update) (ground (arith, e.same_iff k j, e₁))
    | inr (v, e₁) ↦ rw (e₁, update) (get-put t k (f v) j)
  ]

  -- a row is listed once, under the key that finds it
  compact : List (K × V) → List (K × V)
  compact [] = []
  compact ((k, v) ∷ l) = (k, v) ∷ without k (compact l)

  lookup-compact : (j : K) (l : List (K × V)) → lookup j (compact l) ≡ lookup j l
  unfolding lookup compact
  lookup-compact j [] = refl
  lookup-compact j ((k, v) ∷ l) = ground (arith, lookup-without k j (compact l), lookup-compact j l)

  -- table.toArray()
  pub rows : Table K V → List (K × V)
  rows t = compact t.entries

  pub get-empty : (j : K) → get empty j ≡ none
  unfolding get lookup empty
  get-empty j = refl

  -- table.filter(p).delete()
  drop_rows : (V → Bool) → List (K × V) → List (K × V)
  drop_rows p [] = []
  drop_rows p ((k, v) ∷ l) =
      let rest = drop_rows p l in if p v then without k rest else (k, v) ∷ rest

  lookup-drop_rows :
      (p : V → Bool) (j : K) (l : List (K × V)) → lookup j (drop_rows p l) ≡ keep p (lookup j l)
  unfolding lookup drop_rows
  lookup-drop_rows p j [] = refl
  lookup-drop_rows p j ((k, v) ∷ l) =
      ground (arith, lookup-without k j (drop_rows p l), lookup-drop_rows p j l)

  pub delete_where : (V → Bool) → Table K V → Table K V
  delete_where p t = record { entries = drop_rows p t.entries }

  pub get-delete_where :
      (p : V → Bool) (t : Table K V) (j : K) → get (delete_where p t) j ≡ keep p (get t j)
  unfolding get delete_where
  get-delete_where p t j = lookup-drop_rows p j t.entries

  -- the first row that passes a test
  pub find_row : (V → Bool) → List (K × V) → Option (K × V)
  find_row p [] = none
  find_row p ((k, v) ∷ l) = if p v then some (k, v) else find_row p l

  -- each key stands once
  abbrev IsKeyed : List (K × V) → Type 0
  IsKeyed [] = Unit
  IsKeyed ((k, v) ∷ l) = (lookup k l ≡ none) × IsKeyed l

  without-IsKeyed : (k : K) (l : List (K × V)) → IsKeyed l → IsKeyed (without k l)
  unfolding without
  without-IsKeyed k [] h = tt
  without-IsKeyed k ((j, v) ∷ l) (h, u) = elim (Bool-cases (j == k)) [
    | inl q ↦ rw q (without-IsKeyed k l u)
    | inr q ↦ rw q (ground (arith, lookup-without k j l), without-IsKeyed k l u)
  ]

  compact-IsKeyed : (l : List (K × V)) → IsKeyed (compact l)
  unfolding compact
  compact-IsKeyed [] = tt
  compact-IsKeyed ((k, v) ∷ l) = (
    rw lookup-without (ground (arith, e.same_iff k k)),
    without-IsKeyed k (compact l) (compact-IsKeyed l),
  )

  find_row-lookup :
      (p : V → Bool) (l : List (K × V)) (k : K) (v : V)
      → IsKeyed l
      → find_row p l ≡ some (k, v)
      → (lookup k l ≡ some v) × (p v ≡ true)
  unfolding find_row lookup
  find_row-lookup p [] k v u h = cc
  find_row-lookup p ((j, w) ∷ l) k v (f, u) h =
      ground (arith, e.same_iff j k, find_row-lookup p l k v)

  -- The row that a search returns is the row under its key, and passes the test.
  pub find_row-get :
      (p : V → Bool) (t : Table K V) (k : K) (v : V)
      → find_row p (rows t) ≡ some (k, v)
      → (get t k ≡ some v) × (p v ≡ true)
  unfolding get rows
  find_row-get p t k v h =
      rw (← lookup-compact k t.entries)
        (find_row-lookup p (compact t.entries) k v (compact-IsKeyed t.entries) h)

  pub rows-empty : rows (empty {K = K} {V = V}) ≡ []
  unfolding rows empty compact
  rows-empty = refl

  pub rows-put : (k : K) (v : V) → rows (put empty k v) ≡ (k, v) ∷ []
  unfolding rows put empty compact without
  rows-put k v = refl

pub ruleset table_laws = (get-empty, get-put, get-update, get-delete, get-delete_where)
