-- ===== src/Wire.antt =====
-- The values that cross the crypto boundary and the wire (apps/web/src/crypto/onboarding-crypto.ts,
-- apps/web/src/crypto/message-crypto.ts, apps/web/src/services/envelope.ts), and the crypto worker as
-- an interface. A call of the worker that throws is `none`.
use privex.Prelude.{ℕ, String, Bool, Option, List, nat_eq, string_eq, bytes_eq}
use privex.Crypto.Hex.{Bytes}
use privex.Db.Rows.{ReceiptType}

pub record IdentityKeys : Type 0 where
  pub ed25519_pub : Bytes
  pub ed25519_priv : Bytes
  pub dilithium3_pub : Bytes
  pub dilithium3_priv : Bytes
  pub kyber1024_pub : Bytes
  pub kyber1024_priv : Bytes
  pub x25519_pub : Bytes
  pub x25519_priv : Bytes

pub record PreKey : Type 0 where
  pub id : ℕ
  pub pub_key : Bytes
  pub priv : Bytes

pub record KeyPair : Type 0 where
  pub pub_key : Bytes
  pub priv : Bytes

pub record HybridSig : Type 0 where
  pub ed : Bytes
  pub dil : Bytes

pub record RetiredSpk : Type 0 where
  pub pub_key : Bytes
  pub priv : Bytes
  pub retired_at : Option ℕ

-- `mnemonic` and `masterSeed` are left out: nothing modelled reads them
pub record IdentityBundle : Type 0 where
  pub user_id : String
  pub identity : IdentityKeys
  pub spk : KeyPair
  pub spk_sig : HybridSig
  pub opks : List PreKey
  pub prev_spks : Option (List RetiredSpk)
  pub spk_rotate_after : Option ℕ
  pub spk_pending : Option Bool
  pub opk_pending : Option (List ℕ)

pub record RatchetEncrypted : Type 0 where
  pub ciphertext : Bytes
  pub header : Bytes
  pub new_state : Bytes

pub record RatchetDecrypted : Type 0 where
  pub plaintext : Bytes
  pub new_state : Bytes

pub record SealedOpened : Type 0 where
  pub plaintext : Bytes
  pub sender_id : String
  pub sender_verified : Bool
  pub sender_ed_pub : Bytes
  pub sender_x25519_pub : Bytes

pub record PqxdhInitFields : Type 0 where
  pub alice_ik_pub : Bytes
  pub alice_ek_pub : Bytes
  pub kyber_ciphertext : Bytes
  pub opk_used : Bool

pub record PqxdhInitWire : Type 0 where
  pub alice_ik_pub : Bytes
  pub alice_ek_pub : Bytes
  pub kyber_ciphertext : Bytes
  pub opk_used : Bool
  pub opk_id : ℕ

pub record DeviceSyncWire : Type 0 where
  pub to_device : Bytes
  pub from_device : Bytes
  pub blob : Bytes

pub record DecodedEnvelope : Type 0 where
  pub header : Bytes
  pub ciphertext : Bytes
  pub pqxdh : Option PqxdhInitWire
  pub device_sync : Option DeviceSyncWire

pub record ReceiptRequestWire : Type 0 where
  pub token_id : Bytes
  pub request_delivery : Bool
  pub request_read : Bool

pub record DecodedText : Type 0 where
  pub body : String
  pub sent_at : ℕ

pub record FileFields : Type 0 where
  pub filename_enc : Bytes
  pub mime_enc : Bytes
  pub total_size : ℕ
  pub sha256 : Bytes
  pub chunk_ids : List String
  pub wrapped_cek : Bytes
  pub eph_pub : Bytes
  pub thumbnail_enc : Option Bytes
  pub sent_at : ℕ

pub record DecodedReceipt : Type 0 where
  pub token_id : Bytes
  pub receipt_type : ReceiptType

-- An absent `contactHello` or `contactAccept` is `false`.
pub record DecodedContent : Type 0 where
  pub text : Option DecodedText
  pub file : Option FileFields
  pub contact_hello : Bool
  pub contact_accept : Bool
  pub receipt : Option DecodedReceipt
  pub receipt_request : Option ReceiptRequestWire

pub record MessageCryptoApi : Type 0 where
  pub ratchet_encrypt : Bytes → Bytes → Option RatchetEncrypted
  pub ratchet_decrypt : Bytes → Bytes → Bytes → Option RatchetDecrypted
  pub ratchet_init_bob : Bytes → Bytes → Bytes → Option Bytes
  pub generate_sender_cert : String → IdentityKeys → ℕ → ℕ → Option Bytes
  pub sealed_sender_encrypt : Bytes → Bytes → Bytes → Option Bytes
  pub sealed_sender_decrypt : Bytes → Bytes → ℕ → Option SealedOpened
  pub pqxdh_respond : PqxdhInitFields → Bytes → Bytes → Bytes → Bytes → Option Bytes
