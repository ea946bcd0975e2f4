-- ===== src/Recovery.antt =====
-- Recovery with the help of contacts (apps/web/src/services/recovery.ts): the shares of the seed, the
-- code that the owner hands out, and what both sides do with sealed shares.
pub mod Collected
pub mod Reconstruct
pub mod Code
use privex.Prelude.{
  ℕ, zero, suc, ◌+◌, String, Bool, true, false, ◌||◌, Option, none, some, List, [], ◌∷◌, ◌++◌, map,
  take, drop, any, length, leb, ltb, nat_beq, if◌then◌else◌, ◌==◌, string_eq, bytes_eq,
}
use privex.Crypto.Hex.{Bytes, Text, to_hex, from_hex}
use privex.Device.{Fault}
use privex.Exec.{Outcome, done, thrown}

-- what a key is wrapped to: the ephemeral key, and the ciphertext
pub record Wrapped : Type 0 where
  pub wrapped : Bytes
  pub eph_pub : Bytes

-- the crypto worker; `none` is a throw
pub record ContactRecoveryCrypto : Type 0 where
  pub wrap_cek : Bytes → Bytes → Wrapped
  pub unwrap_cek : Bytes → Bytes → Bytes → Option Bytes
  pub shamir_split : Bytes → ℕ → ℕ → List Bytes
  pub shamir_reconstruct : Bytes → Bytes → Option Bytes

pub record RecoveryContact : Type 0 where
  pub px_id : String
  pub ik_x25519 : Bytes

-- one stored share
pub record ShareWire : Type 0 where
  pub share_index : ℕ
  pub encrypted_share : Text

abbrev pub rk_pub_len : ℕ
rk_pub_len = 32

abbrev pub recovery_id_len : ℕ
recovery_id_len = 16

pub record RecoveryCode : Type 0 where
  pub recovery_id : Text
  pub rk_pub : Bytes

-- the code: the id of the bucket, then the key
unfoldable pub recovery_code : Bytes → Bytes → Text
recovery_code rid rk_pub = to_hex (rid ++ rk_pub)

abbrev pub parsed_code : Bytes → Outcome RecoveryCode
parsed_code bytes =
    if nat_beq (length bytes) (recovery_id_len + rk_pub_len)
    then done (record {
      recovery_id = to_hex (take recovery_id_len bytes);
      rk_pub = drop recovery_id_len bytes;
    })
    else thrown (Fault.error "That recovery code isn't valid.")

-- `trim` is `String.prototype.trim`
unfoldable pub parse_recovery_code : (Text → Text) → Text → Outcome RecoveryCode
parse_recovery_code trim code = parsed_code (from_hex (trim code))

-- `map.set` under the hexadecimal form
unfoldable pub collect : Bytes → List (Text × Bytes) → List (Text × Bytes)
collect share [] = (to_hex share, share) ∷ []
collect share ((k, v) ∷ rest) =
    let rest' = collect share rest in
    if k == to_hex share then (k, share) ∷ rest else (k, v) ∷ rest'

module _ (crypto : ContactRecoveryCrypto) where
  -- ephPub || wrapped
  unfoldable pub seal_blob : Bytes → Bytes → Text
  seal_blob share pub_key = let w = crypto.wrap_cek share pub_key in to_hex (w.eph_pub ++ w.wrapped)

  -- a call of the worker that throws counts as no share
  abbrev pub unseal_bytes : Bytes → Bytes → Option Bytes
  unseal_bytes blob my_priv =
      if leb (length blob) rk_pub_len
      then none
      else crypto.unwrap_cek (drop rk_pub_len blob) (take rk_pub_len blob) my_priv

  unfoldable pub unseal_blob : Text → Bytes → Option Bytes
  unseal_blob hex my_priv = unseal_bytes (from_hex hex) my_priv

  -- the inner loop
  unfoldable pub try_with : Bytes → List Bytes → Option Bytes
  try_with x [] = none
  try_with x (y ∷ rest) =
      let later = try_with x rest in
      elim (crypto.shamir_reconstruct x y) [ none ↦ later | some seed ↦ some seed ]

  unfoldable pub try_reconstruct : List Bytes → Option Bytes
  try_reconstruct [] = none
  try_reconstruct (x ∷ rest) =
      let later = try_reconstruct rest in
      elim (try_with x rest) [ none ↦ later | some seed ↦ some seed ]

  abbrev pub collect_some : Option Bytes → List (Text × Bytes) → List (Text × Bytes)
  collect_some none collected = collected
  collect_some (some share) collected = collect share collected

  unfoldable pub collect_blobs : Bytes → List Text → List (Text × Bytes) → List (Text × Bytes)
  collect_blobs rk_priv [] collected = collected
  collect_blobs rk_priv (hex ∷ blobs) collected =
      collect_blobs rk_priv blobs (collect_some (unseal_blob hex rk_priv) collected)

  -- the seed, and what is collected
  unfoldable pub unseal_and_reconstruct :
      Bytes → List Text → List (Text × Bytes) → Option Bytes × List (Text × Bytes)
  unseal_and_reconstruct rk_priv blobs collected =
      let collected' = collect_blobs rk_priv blobs collected in
      (try_reconstruct (map (λ (e : Text × Bytes). e.1) collected'), collected')

  -- the first share that is sealed to us
  unfoldable pub find_share : Bytes → List ShareWire → Option Bytes
  find_share my_priv [] = none
  find_share my_priv (s ∷ shares) =
      let later = find_share my_priv shares in
      elim (unseal_blob s.encrypted_share my_priv) [ none ↦ later | some share ↦ some share ]

  -- what a contact that approves posts: its share, sealed to the key of the code
  unfoldable pub approved_blob : Bytes → Bytes → List ShareWire → Outcome Text
  approved_blob my_priv rk_pub shares = elim (find_share my_priv shares) [
    | none ↦ thrown (Fault.error "You don't hold a recovery share for this contact.")
    | some share ↦ done (seal_blob share rk_pub)
  ]

  -- the shares, each to its contact
  unfoldable pub seal_shares : ℕ → List Bytes → List RecoveryContact → List ShareWire
  seal_shares i (share ∷ shares) (c ∷ contacts) =
      record { share_index = i + 1; encrypted_share = seal_blob share c.ik_x25519 }
      ∷ seal_shares (i + 1) shares contacts
  seal_shares i _ _ = []

  -- what is stored on the server, after the checks; any two shares open the seed
  unfoldable pub emergency_shares : String → Bytes → List RecoveryContact → Outcome (List ShareWire)
  emergency_shares user_id seed contacts =
      if ltb (length contacts) 2 || ltb 3 (length contacts)
      then thrown (Fault.error "Choose 2 or 3 recovery contacts.")
      else if any (λ c. nat_beq (length c.ik_x25519) 0) contacts
      then thrown (Fault.error "A selected contact is missing a key - message them first.")
      else if any (λ c. c.px_id == user_id) contacts
      then thrown (Fault.error "You can't choose yourself as a recovery contact.")
      else done (seal_shares 0 (crypto.shamir_split seed 2 (length contacts)) contacts)
