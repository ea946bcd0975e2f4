-- ===== src/Files.antt =====
-- File manifests (apps/web/src/services/files.ts): what the receiver of one checks and keeps.
use privex.Prelude.{
  ℕ, ◌≤◌, ◌⊎◌, String, ◌≡◌, inl, inr, Bool, true, ◌&&◌, ◌||◌, Option, none, some, List, [], ◌∷◌,
  arith, leb, nat_beq, if◌then◌else◌, Bool-cases, Option-cases, length, All, nat_eq, string_eq,
  bytes_eq,
}
use Prim.Native.Char.{code}
use mathlib.Core.Option
use privex.Crypto.Hex.{Bytes, Text, to_hex}
use privex.Wire.{FileFields}

-- the code points of a text
abbrev pub codes : String → Text
codes String.[] = []
codes (String.◌∷◌ c s) = code c ∷ codes s

abbrev pub is_lower_hex : ℕ → Bool
is_lower_hex c = (leb 48 c && leb c 57) || (leb 97 c && leb c 102)

abbrev pub all : (ℕ → Bool) → Text → Bool
all p [] = true
all p (c ∷ cs) = p c && all p cs

-- 64 lowercase hexadecimal digits
pub record IsChunkId (id : String) : Type 0 where
  pub count : length (codes id) ≡ 64
  pub digits : All (λ c. ((48 ≤ c) × (c ≤ 57)) ⊎ ((97 ≤ c) × (c ≤ 102))) (codes id)

all-digits :
    (cs : Text)
    → all is_lower_hex cs ≡ true
    → All (λ c. ((48 ≤ c) × (c ≤ 57)) ⊎ ((97 ≤ c) × (c ≤ 102))) cs
all-digits [] h = tt
all-digits (c ∷ cs) h = elim (Bool-cases (is_lower_hex c)) [
  | inl q ↦ (ground arith, all-digits cs (rw q at h))
  | inr q ↦ absurd (cc (rw q at h))
]

-- /^[0-9a-f]{64}$/
unfoldable pub is_hex64 : String → Bool
is_hex64 s = nat_beq (length (codes s)) 64 && all is_lower_hex (codes s)

pub record FileMeta : Type 0 where
  pub name : Bytes
  pub mime : Bytes
  pub size : ℕ
  pub sha256 : Text
  pub chunks : List String
  pub cek : Text
  pub thumb : Option Bytes

-- the crypto worker and Web Crypto; `none` is a throw
pub record FileCryptoApi : Type 0 where
  pub unwrap_cek : Bytes → Bytes → Bytes → Option Bytes
  pub meta_key : Bytes → Bytes
  pub gcm_decrypt : Bytes → Bytes → Option Bytes

infixl 5 ◌>>=◌
abbrev ◌>>=◌ : {A B : Type 0} → Option A → (A → Option B) → Option B
none >>= f = none
some a >>= f = f a

-- the loop over `assertChunkId`
assert_chunk_ids : List String → Option (Unit {0})
assert_chunk_ids [] = some tt
assert_chunk_ids (id ∷ ids) = if is_hex64 id then assert_chunk_ids ids else none

module _ (fc : FileCryptoApi) where
  -- texts stand as their UTF-8 bytes, the thumbnail as its image bytes
  dec_meta : Bytes → Bytes → Option Bytes
  dec_meta cek bytes = fc.gcm_decrypt (fc.meta_key cek) bytes

  thumb_of : Bytes → Option Bytes → Option (Option Bytes)
  thumb_of cek none = some none
  thumb_of cek (some t) = Option.map some (fc.gcm_decrypt (fc.meta_key cek) t)

  unfoldable pub materialize_incoming : FileFields → Bytes → Option FileMeta
  unfolding assert_chunk_ids dec_meta thumb_of
  materialize_incoming f my_ik_priv = do
    checked ← assert_chunk_ids f.chunk_ids
    cek ← fc.unwrap_cek f.wrapped_cek f.eph_pub my_ik_priv
    mime ← dec_meta cek f.mime_enc
    thumb ← thumb_of cek f.thumbnail_enc
    name ← dec_meta cek f.filename_enc
    some (record {
      name = name;
      mime = mime;
      size = f.total_size;
      sha256 = to_hex f.sha256;
      chunks = f.chunk_ids;
      cek = to_hex cek;
      thumb = thumb;
    })

  is_hex64-IsChunkId : (id : String) → is_hex64 id ≡ true → IsChunkId id
  unfolding is_hex64
  is_hex64-IsChunkId id h = record {
    count = ground arith;
    digits = all-digits (codes id) (ground arith);
  }

  assert_chunk_ids-All : (ids : List String) → assert_chunk_ids ids ≡ some tt → All IsChunkId ids
  unfolding assert_chunk_ids
  assert_chunk_ids-All [] h = tt
  assert_chunk_ids-All (id ∷ ids) h = elim (Bool-cases (is_hex64 id)) [
    | inl q ↦ (is_hex64-IsChunkId id q, assert_chunk_ids-All ids (rw q at h))
    | inr q ↦ absurd (cc (rw q at h))
  ]

  -- Every chunk id that a received manifest leaves on this device, and that is later put into a URL, is
  -- 64 lowercase hexadecimal digits.
  pub materialize_incoming-All :
      (f : FileFields) (my_ik_priv : Bytes) (m : FileMeta)
      → materialize_incoming f my_ik_priv ≡ some m
      → All IsChunkId m.chunks
  unfolding materialize_incoming
  materialize_incoming-All f my_ik_priv m h = elim (Option-cases (assert_chunk_ids f.chunk_ids)) [
    | inl q ↦ absurd (ground arith)
    | inr (u, q) ↦ rw (← chunks_eq m h) (assert_chunk_ids-All f.chunk_ids q)
  ]
    where
      chunks_eq :
          (m : FileMeta) → materialize_incoming f my_ik_priv ≡ some m → f.chunk_ids ≡ m.chunks
      chunks_eq m h = ground arith
