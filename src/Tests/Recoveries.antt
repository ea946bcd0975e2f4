-- ===== src/Tests/Recoveries.antt =====
-- The recovery with contacts, at concrete values.
use privex.Prelude.{
  ◌≡◌, refl, sym, inl, inr, Bool, true, false, ◌&&◌, ◌||◌, Option, none, some, List, [], ◌∷◌, ◌++◌,
  replicate, ltb, if◌then◌else◌, ◌==◌, bytes_eq, nat_eq, arith,
}
use mathlib.Core.Option.{some-injective}
use privex.Crypto.Hex.{Bytes, Text, IsBytes, to_hex, from_hex}
use privex.Exec.{done}
use privex.Recovery.{
  ContactRecoveryCrypto, ShareWire, seal_blob, unseal_blob, find_share, approved_blob,
  unseal_and_reconstruct,
}
use privex.Recovery.Reconstruct.{
  IsValidating, IsPair, IsSealing, OpensBytes, unseal_and_reconstruct-seed,
}

abbrev all_bytes : Bytes → Bool
all_bytes [] = true
all_bytes (x ∷ b) = ltb x 256 && all_bytes b

all_bytes-IsBytes : (b : Bytes) → all_bytes b ≡ true → IsBytes b
all_bytes-IsBytes [] h = tt
all_bytes-IsBytes (x ∷ b) h = (ground arith, all_bytes-IsBytes b (ground arith))

IsBytes-all_bytes : (b : Bytes) → IsBytes b → all_bytes b ≡ true
IsBytes-all_bytes [] h = refl
IsBytes-all_bytes (x ∷ b) (h, hs) = ground (arith, IsBytes-all_bytes b hs)

abbrev seed : Bytes
seed = 42 ∷ []

-- opened by the key pair that begins with the byte it begins with
abbrev opened : Bytes → Bytes → Option Bytes
opened (t ∷ share) (k ∷ key) = if t == k && all_bytes share then some share else none
opened _ _ = none

abbrev crypto : ContactRecoveryCrypto
crypto = record {
  wrap_cek = λ share pub_key. record { wrapped = pub_key ++ share; eph_pub = replicate 32 0 };
  unwrap_cek = λ w e priv. opened w priv;
  shamir_split = λ s k n. (1 ∷ []) ∷ (2 ∷ []) ∷ [];
  shamir_reconstruct = λ x y.
      if (x == 1 ∷ [] && y == 2 ∷ []) || (x == 2 ∷ [] && y == 1 ∷ []) then some seed else none;
}

seed_or_none : (b : Bool) (s : Bytes) → (if b then some seed else none) ≡ some s → s ≡ seed
seed_or_none true s h = sym (some-injective seed s h)
seed_or_none false s h = absurd cc

validating : (shares : List Bytes) → IsValidating crypto seed shares
validating shares = record { only = λ x y s i j h. seed_or_none _ s h }

pair : IsPair crypto seed (1 ∷ []) (2 ∷ [])
pair = record { opens = refl; opens_back = refl; apart = λ e. absurd cc }

sealing : IsSealing crypto (9 ∷ []) (9 ∷ [])
sealing = record {
  opens = λ share b. rw (IsBytes-all_bytes share b) refl;
  eph_len = λ share. refl;
  not_empty = λ share. omega arith;
  bytes = λ share b. all_bytes-IsBytes (replicate 32 0 ++ 9 ∷ share) (IsBytes-all_bytes share b);
}

if_some :
    (b : Bool) (share s : Bytes)
    → (if b then some share else none) ≡ some s
    → (b ≡ true) × (share ≡ s)
if_some true share s h = (refl, some-injective share s h)
if_some false share s h = absurd cc

opened-IsBytes : (w key s : Bytes) → opened w key ≡ some s → IsBytes s
opened-IsBytes [] key s h = absurd cc
opened-IsBytes (t ∷ share) [] s h = absurd cc
opened-IsBytes (t ∷ share) (k ∷ key) s h =
    let (q, e) = if_some _ share s h in rw (← e) (all_bytes-IsBytes share (ground arith))

opens_bytes : OpensBytes crypto (9 ∷ [])
opens_bytes = record { bytes = λ w e share h. opened-IsBytes w (9 ∷ []) share h }

-- a share for each of two contacts
abbrev stored : List ShareWire
stored =
    record { share_index = 1; encrypted_share = seal_blob crypto (1 ∷ []) (7 ∷ []) }
    ∷ record { share_index = 2; encrypted_share = seal_blob crypto (2 ∷ []) (8 ∷ []) }
    ∷ []

first_finds : find_share crypto (7 ∷ []) stored ≡ some (1 ∷ [])
unfolding find_share seal_blob unseal_blob to_hex from_hex
first_finds = refl

second_finds : find_share crypto (8 ∷ []) stored ≡ some (2 ∷ [])
unfolding find_share seal_blob unseal_blob to_hex from_hex
second_finds = refl

first_approves :
    approved_blob crypto (7 ∷ []) (9 ∷ []) stored ≡ done (seal_blob crypto (1 ∷ []) (9 ∷ []))
unfolding approved_blob find_share seal_blob unseal_blob to_hex from_hex
first_approves = refl

second_approves :
    approved_blob crypto (8 ∷ []) (9 ∷ []) stored ≡ done (seal_blob crypto (2 ∷ []) (9 ∷ []))
unfolding approved_blob find_share seal_blob unseal_blob to_hex from_hex
second_approves = refl

-- the two posts, with another between them
abbrev bucket : List Text
bucket = seal_blob crypto (1 ∷ []) (9 ∷ []) ∷ (48 ∷ []) ∷ seal_blob crypto (2 ∷ []) (9 ∷ []) ∷ []

unseal_and_reconstruct-seed_example :
    (unseal_and_reconstruct crypto (9 ∷ []) bucket []).0 ≡ some seed
unseal_and_reconstruct-seed_example =
    unseal_and_reconstruct-seed crypto seed (9 ∷ []) (9 ∷ []) (7 ∷ []) (8 ∷ []) (1 ∷ []) (2 ∷ [])
      stored _ _ bucket [] (validating _) pair (omega arith, tt) (omega arith, tt) sealing
      opens_bytes first_finds second_finds first_approves second_approves (inl refl)
      (inr (inr (inl refl))) tt
