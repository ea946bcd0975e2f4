-- ===== src/Db/Rekey.antt =====
-- The encryption of fields at rest, and the change of its key (`rekeyAllEncryptedFields` of
-- apps/web/src/db/encrypted-db.ts). Of each row of apps/web/src/db/index.ts the key and the encrypted
-- fields are kept.
pub mod Kept
use privex.Prelude.{String, Option, none, some, List, [], ◌∷◌}
use privex.Crypto.Hex.{Bytes}
use privex.Device.{Fault}
use privex.Exec.{Flow, Outcome, Done, done, thrown, pure, ◌>>=◌, ◌>>◌}

-- AES-GCM of the browser: `encrypt` draws its own initialisation vector
pub record Aes : Type 0 where
  pub encrypt : Bytes → Bytes → Bytes
  pub decrypt : Bytes → Bytes → Option Bytes

pub record IdentityFields : Type 0 where
  pub user_id : String
  pub priv_bundle_enc : Option Bytes

pub record MessageFields : Type 0 where
  pub msg_id : String
  pub content_enc : Bytes
  pub preview_enc : Option Bytes

pub record ContactFields : Type 0 where
  pub px_id : String
  pub display_name_enc : Option Bytes

pub record SessionFields : Type 0 where
  pub session_id : String
  pub ratchet_state_enc : Bytes
  pub pqxdh_init_enc : Option Bytes

pub record BlobFields : Type 0 where
  pub blob_id : String
  pub cek_enc : Bytes
  pub filename_enc : Option Bytes

pub record GroupFields : Type 0 where
  pub group_id : String
  pub name_enc : Option Bytes
  pub mls_state_enc : Option Bytes

-- the keys of the links between our devices, under the same key at rest
pub record LinkedDeviceFields : Type 0 where
  pub device_id : String
  pub send_key_enc : Bytes
  pub recv_key_enc : Bytes

-- the tables with fields under the key at rest; the last is not among those whose key is changed
pub record EncryptedDb : Type 0 where
  pub identity : List IdentityFields
  pub messages : List MessageFields
  pub contacts : List ContactFields
  pub sessions : List SessionFields
  pub blobs : List BlobFields
  pub groups : List GroupFields
  pub linked_devices : List LinkedDeviceFields

-- the rows one by one: those before a row that fails are changed
unfoldable pub update_rows : {A : Type 0} → (A → Option A) → List A → Outcome Done × List A
update_rows f [] = (done tt, [])
update_rows f (r ∷ rows) = elim (f r) [
  | none ↦ (thrown (Fault.error "decrypt"), r ∷ rows)
  | some r' ↦ let (o, rows') = update_rows f rows in (o, r' ∷ rows')
]

-- a table of the database
pub record Column (A : Type 0) : Type 0 where
  pub rows : EncryptedDb → List A
  pub set : List A → EncryptedDb → EncryptedDb

abbrev pub identity_rows : Column IdentityFields
identity_rows = record { rows = λ d. d.identity; set = λ rows d. record d { identity = rows } }

abbrev pub message_rows : Column MessageFields
message_rows = record { rows = λ d. d.messages; set = λ rows d. record d { messages = rows } }

abbrev pub contact_rows : Column ContactFields
contact_rows = record { rows = λ d. d.contacts; set = λ rows d. record d { contacts = rows } }

abbrev pub session_rows : Column SessionFields
session_rows = record { rows = λ d. d.sessions; set = λ rows d. record d { sessions = rows } }

abbrev pub blob_rows : Column BlobFields
blob_rows = record { rows = λ d. d.blobs; set = λ rows d. record d { blobs = rows } }

abbrev pub group_rows : Column GroupFields
group_rows = record { rows = λ d. d.groups; set = λ rows d. record d { groups = rows } }

unfoldable pub each : {A : Type 0} → Column A → (A → Option A) → Flow EncryptedDb Done
each c f d = let (o, rows') = update_rows f (c.rows d) in (o, c.set rows' d)

abbrev pub with_field : {A B : Type 0} → Option A → (A → B) → Option B
with_field none f = none
with_field (some a) f = some (f a)

module _ (aes : Aes) (old_key new_key : Bytes) where
  unfoldable pub recrypt : Bytes → Option Bytes
  recrypt blob = with_field (aes.decrypt old_key blob) (aes.encrypt new_key)

  -- a field that a row may lack
  unfoldable pub recrypt_some : Option Bytes → Option (Option Bytes)
  recrypt_some none = some none
  recrypt_some (some blob) = with_field (recrypt blob) some

  abbrev pub rekey_identity : IdentityFields → Option IdentityFields
  rekey_identity r =
      with_field (recrypt_some r.priv_bundle_enc) (λ b. record r { priv_bundle_enc = b })

  abbrev pub rekey_message : MessageFields → Option MessageFields
  rekey_message r = elim (recrypt r.content_enc) [
    | none ↦ none
    | some c ↦
        with_field (recrypt_some r.preview_enc) (λ p. record r { content_enc = c; preview_enc = p })
  ]

  abbrev pub rekey_contact : ContactFields → Option ContactFields
  rekey_contact r =
      with_field (recrypt_some r.display_name_enc) (λ n. record r { display_name_enc = n })

  abbrev pub rekey_session : SessionFields → Option SessionFields
  rekey_session r = elim (recrypt r.ratchet_state_enc) [
    | none ↦ none
    | some c ↦
        with_field (recrypt_some r.pqxdh_init_enc)
          (λ p. record r { ratchet_state_enc = c; pqxdh_init_enc = p })
  ]

  abbrev pub rekey_blob : BlobFields → Option BlobFields
  rekey_blob r = elim (recrypt r.cek_enc) [
    | none ↦ none
    | some c ↦
        with_field (recrypt_some r.filename_enc) (λ p. record r { cek_enc = c; filename_enc = p })
  ]

  abbrev pub rekey_group : GroupFields → Option GroupFields
  rekey_group r = elim (recrypt_some r.name_enc) [
    | none ↦ none
    | some c ↦
        with_field (recrypt_some r.mls_state_enc)
          (λ p. record r { name_enc = c; mls_state_enc = p })
  ]

  unfoldable pub rekey_all_encrypted_fields : Flow EncryptedDb Done
  unfolding each
  rekey_all_encrypted_fields = do
    each identity_rows rekey_identity
    each message_rows rekey_message
    each contact_rows rekey_contact
    each session_rows rekey_session
    each blob_rows rekey_blob
    each group_rows rekey_group
