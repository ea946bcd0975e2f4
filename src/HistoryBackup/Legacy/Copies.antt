-- ===== src/HistoryBackup/Legacy/Copies.antt =====
-- The copies of the rows that a move of ids deletes (`dropLegacyIds` of apps/web/src/services/history-backup.ts).
use privex.Prelude.{
  ◌≡◌, refl, ap, inl, inr, Bool, true, ◌||◌, Option, none, some, List, [], ◌∷◌, map, any,
  if◌then◌else◌, ◌==◌, eq_of_beq, beq_refl, bytes_eq, Bool-cases, All, All-append, In, arith,
}
use privex.Crypto.Hex.{Text}
use privex.HistoryRecords.{HistoryRecord}
use privex.HistoryBackup.{Blob, HistoryKeys, HistoryEnv, record_id, history_blob_id}
use privex.HistoryBackup.Legacy.{Legacy, legacy_of, legacy_rows, put_missing, missing_from}

-- a blob is there under an id
abbrev pub has : Text → List Blob → Bool
has id blobs = any (λ b. b.blob_id == id) blobs

put_missing-has :
    (id : Text) (b : Blob) (blobs : List Blob)
    → ((b.blob_id == id) || has id blobs) ≡ true
    → has id (put_missing b blobs) ≡ true
unfolding put_missing
put_missing-has id b [] h = h
put_missing-has id b (c ∷ rest) h = elim (Bool-cases (c.blob_id == b.blob_id)) [
  | inl q ↦ let e = ap (λ t. t == id) (eq_of_beq c.blob_id b.blob_id q) in rw q (ground (arith, e))
  | inr q ↦ rw q (ground (arith, put_missing-has id b rest))
]

-- a name is listed, or is among some blobs
abbrev pub has_copy : List Text → Text → List Blob → Bool
has_copy ids id blobs = any (λ i. i == id) ids || has id blobs

missing_from-keeps :
    (ids : List Text) (legacy : List Legacy) (missing : List Blob) (id : Text)
    → has id missing ≡ true
    → has id (missing_from ids legacy missing) ≡ true
unfolding missing_from
missing_from-keeps ids [] missing id h = h
missing_from-keeps ids (l ∷ legacy) missing id h =
    elim (Bool-cases (any (λ i. i == l.opaque) ids)) [
      | inl q ↦ rw q (missing_from-keeps ids legacy missing id h)
      | inr q ↦
          rw q (missing_from-keeps ids legacy _ id (put_missing-has id _ missing (ground arith)))
    ]

-- what is missing after one more row
abbrev with_row : List Text → Legacy → List Blob → List Blob
with_row ids l missing =
    if any (λ i. i == l.opaque) ids
    then missing
    else put_missing (record { blob_id = l.opaque; ciphertext = l.ciphertext }) missing

head-has_copy :
    (ids : List Text) (l : Legacy) (legacy : List Legacy) (missing : List Blob)
    → has_copy ids l.opaque (missing_from ids legacy (with_row ids l missing)) ≡ true
head-has_copy ids l legacy missing = elim (Bool-cases (any (λ i. i == l.opaque) ids)) [
  | inl q ↦ rw q refl
  | inr q ↦ rw q (
      missing_from-keeps ids legacy _ l.opaque
        (put_missing-has l.opaque _ missing (rw (beq_refl l.opaque) refl)))
]

-- every row that is moved has a copy
pub missing_from-has_copy :
    (ids : List Text) (legacy : List Legacy) (missing : List Blob)
    → All (λ l. has_copy ids l.opaque (missing_from ids legacy missing) ≡ true) legacy
unfolding missing_from
missing_from-has_copy ids [] missing = tt
missing_from-has_copy ids (l ∷ legacy) missing =
    (head-has_copy ids l legacy missing, missing_from-has_copy ids legacy (with_row ids l missing))

-- a blob that decrypts to a record whose id gives the blob's name
pub record Carries (env : HistoryEnv) (keys : HistoryKeys) (b : Blob) : Type 0 where
  pub content : HistoryRecord
  pub reads : env.decrypt keys.enc b.ciphertext ≡ some content
  pub own : history_blob_id env keys.id (record_id content) ≡ b.blob_id

-- where a record with this name is found: a row that was listed has the name, whatever it holds, or a blob
-- just posted has the name and carries a record that gives it
pub data Copied (env : HistoryEnv) (keys : HistoryKeys) (rows posted : List Blob) (opaque : Text)
    : Type 0 where
  was_listed : (w : Blob) → In w rows → w.blob_id ≡ opaque → Copied env keys rows posted opaque
  is_posted :
      (b : Blob)
      → In b posted
      → b.blob_id ≡ opaque
      → Carries env keys b
      → Copied env keys rows posted opaque

-- a row that may go: the name that its record gives is found
pub record IsSafe (env : HistoryEnv) (keys : HistoryKeys) (rows posted : List Blob) (id : Text)
    : Type 0 where
  pub row : Blob
  pub listed : In row rows
  pub name : row.blob_id ≡ id
  pub content : HistoryRecord
  pub reads : env.decrypt keys.enc row.ciphertext ≡ some content
  pub copied : Copied env keys rows posted (history_blob_id env keys.id (record_id content))

-- where the row of a legacy entry comes from
pub record IsFrom (env : HistoryEnv) (keys : HistoryKeys) (rows : List Blob) (l : Legacy)
    : Type 0 where
  pub row : Blob
  pub listed : In row rows
  pub name : row.blob_id ≡ l.blob_id
  pub content : HistoryRecord
  pub reads : env.decrypt keys.enc row.ciphertext ≡ some content
  pub own : history_blob_id env keys.id (record_id content) ≡ l.opaque
  pub carries : env.decrypt keys.enc l.ciphertext ≡ some content

put_missing-All :
    (P : Blob → Type 0) (b : Blob) (blobs : List Blob)
    → P b
    → All P blobs
    → All P (put_missing b blobs)
unfolding put_missing
put_missing-All P b [] p h = (p, tt)
put_missing-All P b (c ∷ rest) p (q, h) = elim (Bool-cases (c.blob_id == b.blob_id)) [
  | inl e ↦ rw e (p, h)
  | inr e ↦ rw e (q, put_missing-All P b rest p h)
]

abbrev moved_blob : Legacy → Blob
moved_blob l = record { blob_id = l.opaque; ciphertext = l.ciphertext }

missing_from-All :
    (P : Blob → Type 0) (ids : List Text) (legacy : List Legacy) (missing : List Blob)
    → All (λ l. P (moved_blob l)) legacy
    → All P missing
    → All P (missing_from ids legacy missing)
unfolding missing_from
missing_from-All P ids [] missing ps h = h
missing_from-All P ids (l ∷ legacy) missing (p, ps) h =
    elim (Bool-cases (any (λ i. i == l.opaque) ids)) [
      | inl q ↦ rw q (missing_from-All P ids legacy missing ps h)
      | inr q ↦ rw q (
          missing_from-All P ids legacy (put_missing (moved_blob l) missing) ps
            (put_missing-All P (moved_blob l) missing p h))
    ]

find_blob :
    (P : Blob → Type 0) (id : Text) (blobs : List Blob)
    → has id blobs ≡ true
    → All P blobs
    → (b : Blob) × In b blobs × (b.blob_id ≡ id) × P b
find_blob P id [] h p = absurd cc
find_blob P id (b ∷ blobs) h (p, ps) = elim (Bool-cases (b.blob_id == id)) [
  | inl q ↦ (b, inl refl, eq_of_beq b.blob_id id q, p)
  | inr q ↦ let (c, i, e, r) = find_blob P id blobs (ground (arith)) ps in (c, inr i, e, r)
]

find_name :
    (id : Text) (rows : List Blob)
    → any (λ i. i == id) (map (λ (w : Blob). w.blob_id) rows) ≡ true
    → (w : Blob) × In w rows × (w.blob_id ≡ id)
find_name id [] h = absurd cc
find_name id (w ∷ rows) h = elim (Bool-cases (w.blob_id == id)) [
  | inl q ↦ (w, inl refl, eq_of_beq w.blob_id id q)
  | inr q ↦ let (c, i, e) = find_name id rows (ground arith) in (c, inr i, e)
]

module _ (env : HistoryEnv) (keys : HistoryKeys) where
  legacy_of-IsFrom :
      (all : List Blob) (w : Blob) (o : Option HistoryRecord)
      → In w all
      → env.decrypt keys.enc w.ciphertext ≡ o
      → All (IsFrom env keys all) (legacy_of env keys w o)
  unfolding legacy_of
  legacy_of-IsFrom all w none i q = tt
  legacy_of-IsFrom all w (some r) i q =
      elim (Bool-cases (history_blob_id env keys.id (record_id r) == w.blob_id)) [
        | inl e ↦ rw e tt
        | inr e ↦ rw e (
          record {
            row = w;
            listed = i;
            name = refl;
            content = r;
            reads = q;
            own = refl;
            carries = q;
          },
          tt,
        )
      ]

  pub legacy_rows-IsFrom :
      (all rows : List Blob)
      → ((w : Blob) → In w rows → In w all)
      → All (IsFrom env keys all) (legacy_rows env keys rows)
  unfolding legacy_rows
  legacy_rows-IsFrom all [] sub = tt
  legacy_rows-IsFrom all (w ∷ rows) sub =
      All-append (IsFrom env keys all) (legacy_of env keys w (env.decrypt keys.enc w.ciphertext))
        (legacy_rows env keys rows) (legacy_of-IsFrom all w _ (sub w (inl refl)) refl)
        (legacy_rows-IsFrom all rows (λ x i. sub x (inr i)))

  found_copy :
      (rows posted : List Blob) (id : Text)
      → has_copy (map (λ (w : Blob). w.blob_id) rows) id posted ≡ true
      → All (Carries env keys) posted
      → Copied env keys rows posted id
  found_copy rows posted id h c =
      elim (Bool-cases (any (λ i. i == id) (map (λ (w : Blob). w.blob_id) rows))) [
        | inl q ↦ let (w, i, e) = find_name id rows q in was_listed w i e
        | inr q ↦
            let (b, i, e, r) = find_blob (Carries env keys) id posted (rw q at h) c in
            is_posted b i e r
      ]

  pub missing-Carries :
      (rows : List Blob) (ids : List Text) (legacy : List Legacy)
      → All (IsFrom env keys rows) legacy
      → All (Carries env keys) (missing_from ids legacy [])
  missing-Carries rows ids legacy h =
      missing_from-All (Carries env keys) ids legacy [] (each legacy h) tt
    where
      each :
          (ls : List Legacy)
          → All (IsFrom env keys rows) ls
          → All (λ l. Carries env keys (moved_blob l)) ls
      each [] h = tt
      each (l ∷ ls) (f, fs) =
          (record { content = f.content; reads = f.carries; own = f.own }, each ls fs)

  legacy-IsSafe :
      (rows posted : List Blob) (l : Legacy)
      → IsFrom env keys rows l
      → has_copy (map (λ (w : Blob). w.blob_id) rows) l.opaque posted ≡ true
      → All (Carries env keys) posted
      → IsSafe env keys rows posted l.blob_id
  legacy-IsSafe rows posted l f h c = record {
    row = f.row;
    listed = f.listed;
    name = f.name;
    content = f.content;
    reads = f.reads;
    copied = rw f.own (found_copy rows posted l.opaque h c);
  }

  pub All-IsSafe :
      (rows posted : List Blob) (legacy : List Legacy)
      → All (IsFrom env keys rows) legacy
      → All (λ l. has_copy (map (λ (w : Blob). w.blob_id) rows) l.opaque posted ≡ true) legacy
      → All (Carries env keys) posted
      → All (IsSafe env keys rows posted) (map (λ l. Legacy.blob_id l) legacy)
  All-IsSafe rows posted [] f h c = tt
  All-IsSafe rows posted (l ∷ legacy) (f, fs) (h, hs) c =
      (legacy-IsSafe rows posted l f h c, All-IsSafe rows posted legacy fs hs c)
