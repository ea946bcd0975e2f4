-- ===== src/Db/Rekey/Kept.antt =====
-- What the change of the key keeps (`rekeyAllEncryptedFields` of apps/web/src/db/encrypted-db.ts).
use privex.Prelude.{
  ◌≡◌, refl, ap, ap₂, sym, ◌∙◌, String, Option, none, some, List, [], ◌∷◌, map, All,
}
use privex.Crypto.Hex.{Bytes}
use privex.Exec.Runs.{bind_done}
use privex.Exec.{Outcome, Done, done}
use privex.Db.Rekey.{
  Aes, EncryptedDb, IdentityFields, MessageFields, ContactFields, SessionFields, BlobFields,
  GroupFields, Column, identity_rows, message_rows, contact_rows, session_rows, blob_rows,
  group_rows, update_rows, each, with_field, recrypt, recrypt_some, rekey_identity, rekey_message,
  rekey_contact, rekey_session, rekey_blob, rekey_group, rekey_all_encrypted_fields,
}

-- what the browser documents of AES-GCM: what a key sealed it opens
pub record IsLossless (aes : Aes) : Type 0 where
  pub opens : (key plain : Bytes) → aes.decrypt key (aes.encrypt key plain) ≡ some plain

-- a change of rows that succeeds on each and keeps what is seen of it
update_rows-map :
    {A V : Type 0} (f : A → Option A) (before after : A → V) (P : A → Type 0)
    → ((r : A) → P r → (r' : A) × (f r ≡ some r') × (after r' ≡ before r))
    → (rows : List A) → All P rows
    → ((update_rows f rows).0 ≡ done tt) × (map after (update_rows f rows).1 ≡ map before rows)
unfolding update_rows
update_rows-map f before after P h [] ps = (refl, refl)
update_rows-map f before after P h (r ∷ rows) (p, ps) =
    let (r', q, e) = h r p in
    let (o, m) = update_rows-map f before after P h rows ps in rw (q, update_rows) (o, ap₂ ◌∷◌ e m)

each-done :
    {A : Type 0} (c : Column A) (f : A → Option A) (d : EncryptedDb)
    → (update_rows f (c.rows d)).0 ≡ done tt
    → each c f d ≡ (done tt, c.set (update_rows f (c.rows d)).1 d)
unfolding each
each-done c f d q = ap (λ o. (o, c.set (update_rows f (c.rows d)).1 d)) q

-- two fields, one after the other
both :
    {A B C : Type 0} (x : Option A) (y : Option B) (g : A → B → C) (a : A) (b : B)
    → x ≡ some a
    → y ≡ some b
    → (elim x [ none ↦ none | some c ↦ with_field y (g c) ]) ≡ some (g a b)
both x y g a b p q = rw (p, q) refl

module _ (aes : Aes) where
  -- what a key reads of the rows
  abbrev pub read_some : Bytes → Option Bytes → Option (Option Bytes)
  read_some key o = with_field o (aes.decrypt key)

  abbrev pub read_identity : Bytes → IdentityFields → String × Option (Option Bytes)
  read_identity key r = (r.user_id, read_some key r.priv_bundle_enc)

  abbrev pub read_message : Bytes → MessageFields → String × Option Bytes × Option (Option Bytes)
  read_message key r = (r.msg_id, aes.decrypt key r.content_enc, read_some key r.preview_enc)

  abbrev pub read_contact : Bytes → ContactFields → String × Option (Option Bytes)
  read_contact key r = (r.px_id, read_some key r.display_name_enc)

  abbrev pub read_session : Bytes → SessionFields → String × Option Bytes × Option (Option Bytes)
  read_session key r =
      (r.session_id, aes.decrypt key r.ratchet_state_enc, read_some key r.pqxdh_init_enc)

  abbrev pub read_blob : Bytes → BlobFields → String × Option Bytes × Option (Option Bytes)
  read_blob key r = (r.blob_id, aes.decrypt key r.cek_enc, read_some key r.filename_enc)

  abbrev pub read_group :
      Bytes → GroupFields → String × Option (Option Bytes) × Option (Option Bytes)
  read_group key r = (r.group_id, read_some key r.name_enc, read_some key r.mls_state_enc)

  -- what a key reads of the tables whose key is changed
  pub record Reading : Type 0 where
    pub identity : List (String × Option (Option Bytes))
    pub messages : List (String × Option Bytes × Option (Option Bytes))
    pub contacts : List (String × Option (Option Bytes))
    pub sessions : List (String × Option Bytes × Option (Option Bytes))
    pub blobs : List (String × Option Bytes × Option (Option Bytes))
    pub groups : List (String × Option (Option Bytes) × Option (Option Bytes))

  abbrev pub reading : Bytes → EncryptedDb → Reading
  reading key d = record {
    identity = map (read_identity key) d.identity;
    messages = map (read_message key) d.messages;
    contacts = map (read_contact key) d.contacts;
    sessions = map (read_session key) d.sessions;
    blobs = map (read_blob key) d.blobs;
    groups = map (read_group key) d.groups;
  }

  -- the key opens the field, where there is one
  abbrev pub Opens : Bytes → Bytes → Type 0
  Opens key blob = (p : Bytes) × (aes.decrypt key blob ≡ some p)

  abbrev pub OpensSome : Bytes → Option Bytes → Type 0
  OpensSome key none = Unit
  OpensSome key (some blob) = Opens key blob

  -- the key opens every field of those tables
  pub record IsReadable (key : Bytes) (d : EncryptedDb) : Type 0 where
    pub identity : All (λ r. OpensSome key r.priv_bundle_enc) d.identity
    pub messages : All (λ r. Opens key r.content_enc × OpensSome key r.preview_enc) d.messages
    pub contacts : All (λ r. OpensSome key r.display_name_enc) d.contacts
    pub sessions :
        All (λ r. Opens key r.ratchet_state_enc × OpensSome key r.pqxdh_init_enc) d.sessions
    pub blobs : All (λ r. Opens key r.cek_enc × OpensSome key r.filename_enc) d.blobs
    pub groups : All (λ r. OpensSome key r.name_enc × OpensSome key r.mls_state_enc) d.groups

  module _ (law : IsLossless aes) (old_key new_key : Bytes) where
    recrypt-read :
        (blob : Bytes)
        → Opens old_key blob
        → (b : Bytes) × (recrypt aes old_key new_key blob ≡ some b)
          × (aes.decrypt new_key b ≡ aes.decrypt old_key blob)
    unfolding recrypt
    recrypt-read blob (p, q) = (aes.encrypt new_key p, rw q refl, law.opens new_key p ∙ sym q)

    recrypt_some-read :
        (o : Option Bytes)
        → OpensSome old_key o
        → (b : Option Bytes) × (recrypt_some aes old_key new_key o ≡ some b)
          × (read_some new_key b ≡ read_some old_key o)
    unfolding recrypt_some
    recrypt_some-read none h = (none, refl, refl)
    recrypt_some-read (some blob) h =
        let (b, q, e) = recrypt-read blob h in (some b, rw q refl, ap some e)

    Kept : {A V : Type 0} → (A → Option A) → (Bytes → A → V) → A → Type 0
    Kept {A} f read r = (r' : A) × (f r ≡ some r') × (read new_key r' ≡ read old_key r)

    identity-Kept :
        (r : IdentityFields)
        → OpensSome old_key r.priv_bundle_enc
        → Kept (rekey_identity aes old_key new_key) read_identity r
    unfolding Kept
    identity-Kept r h =
        let (b, q, e) = recrypt_some-read r.priv_bundle_enc h in
        (record r { priv_bundle_enc = b }, rw q refl, ap (λ x. (r.user_id, x)) e)

    message-Kept :
        (r : MessageFields)
        → Opens old_key r.content_enc × OpensSome old_key r.preview_enc
        → Kept (rekey_message aes old_key new_key) read_message r
    unfolding Kept
    message-Kept r (h, k) =
        let (c, q, e) = recrypt-read r.content_enc h in
        let (p, q', e') = recrypt_some-read r.preview_enc k in
        (
          record r { content_enc = c; preview_enc = p },
          both _ _ _ c p q q',
          ap₂ (λ x y. (r.msg_id, x, y)) e e',
        )

    contact-Kept :
        (r : ContactFields)
        → OpensSome old_key r.display_name_enc
        → Kept (rekey_contact aes old_key new_key) read_contact r
    unfolding Kept
    contact-Kept r h =
        let (b, q, e) = recrypt_some-read r.display_name_enc h in
        (record r { display_name_enc = b }, rw q refl, ap (λ x. (r.px_id, x)) e)

    session-Kept :
        (r : SessionFields)
        → Opens old_key r.ratchet_state_enc × OpensSome old_key r.pqxdh_init_enc
        → Kept (rekey_session aes old_key new_key) read_session r
    unfolding Kept
    session-Kept r (h, k) =
        let (c, q, e) = recrypt-read r.ratchet_state_enc h in
        let (p, q', e') = recrypt_some-read r.pqxdh_init_enc k in
        (
          record r { ratchet_state_enc = c; pqxdh_init_enc = p },
          both _ _ _ c p q q',
          ap₂ (λ x y. (r.session_id, x, y)) e e',
        )

    blob-Kept :
        (r : BlobFields)
        → Opens old_key r.cek_enc × OpensSome old_key r.filename_enc
        → Kept (rekey_blob aes old_key new_key) read_blob r
    unfolding Kept
    blob-Kept r (h, k) =
        let (c, q, e) = recrypt-read r.cek_enc h in
        let (p, q', e') = recrypt_some-read r.filename_enc k in
        (
          record r { cek_enc = c; filename_enc = p },
          both _ _ _ c p q q',
          ap₂ (λ x y. (r.blob_id, x, y)) e e',
        )

    group-Kept :
        (r : GroupFields)
        → OpensSome old_key r.name_enc × OpensSome old_key r.mls_state_enc
        → Kept (rekey_group aes old_key new_key) read_group r
    unfolding Kept
    group-Kept r (h, k) =
        let (c, q, e) = recrypt_some-read r.name_enc h in
        let (p, q', e') = recrypt_some-read r.mls_state_enc k in
        (
          record r { name_enc = c; mls_state_enc = p },
          both _ _ _ c p q q',
          ap₂ (λ x y. (r.group_id, x, y)) e e',
        )

    -- the rows of one table
    table-Kept :
        {A V : Type 0} (f : A → Option A) (read : Bytes → A → V) (P : A → Type 0)
        → ((r : A) → P r → Kept f read r)
        → (rows : List A) → All P rows
        → ((update_rows f rows).0 ≡ done tt)
          × (map (read new_key) (update_rows f rows).1 ≡ map (read old_key) rows)
    unfolding Kept
    table-Kept f read P h rows ps = update_rows-map f (read old_key) (read new_key) P h rows ps

    rekeyed : EncryptedDb → EncryptedDb
    rekeyed d = record {
      identity = (update_rows (rekey_identity aes old_key new_key) d.identity).1;
      messages = (update_rows (rekey_message aes old_key new_key) d.messages).1;
      contacts = (update_rows (rekey_contact aes old_key new_key) d.contacts).1;
      sessions = (update_rows (rekey_session aes old_key new_key) d.sessions).1;
      blobs = (update_rows (rekey_blob aes old_key new_key) d.blobs).1;
      groups = (update_rows (rekey_group aes old_key new_key) d.groups).1;
      linked_devices = d.linked_devices;
    }

    runs :
        (d : EncryptedDb)
        → IsReadable old_key d
        → rekey_all_encrypted_fields aes old_key new_key d ≡ (done tt, rekeyed d)
    unfolding rekey_all_encrypted_fields rekeyed
    runs d h =
        bind_done _ _ _ _ _ (
          each-done identity_rows (rekey_identity aes old_key new_key) _
            (table-Kept _ read_identity _ identity-Kept _ h.identity).0)
        ∙ bind_done _ _ _ _ _ (
            each-done message_rows (rekey_message aes old_key new_key) _
              (table-Kept _ read_message _ message-Kept _ h.messages).0)
        ∙ bind_done _ _ _ _ _ (
            each-done contact_rows (rekey_contact aes old_key new_key) _
              (table-Kept _ read_contact _ contact-Kept _ h.contacts).0)
        ∙ bind_done _ _ _ _ _ (
            each-done session_rows (rekey_session aes old_key new_key) _
              (table-Kept _ read_session _ session-Kept _ h.sessions).0)
        ∙ bind_done _ _ _ _ _ (
            each-done blob_rows (rekey_blob aes old_key new_key) _
              (table-Kept _ read_blob _ blob-Kept _ h.blobs).0)
        ∙ each-done group_rows (rekey_group aes old_key new_key) _
            (table-Kept _ read_group _ group-Kept _ h.groups).0

    reading-rekeyed :
        (d : EncryptedDb) → IsReadable old_key d → reading new_key (rekeyed d) ≡ reading old_key d
    unfolding rekeyed
    reading-rekeyed d h = λ i. record {
      identity = (table-Kept _ read_identity _ identity-Kept d.identity h.identity).1 i;
      messages = (table-Kept _ read_message _ message-Kept d.messages h.messages).1 i;
      contacts = (table-Kept _ read_contact _ contact-Kept d.contacts h.contacts).1 i;
      sessions = (table-Kept _ read_session _ session-Kept d.sessions h.sessions).1 i;
      blobs = (table-Kept _ read_blob _ blob-Kept d.blobs h.blobs).1 i;
      groups = (table-Kept _ read_group _ group-Kept d.groups h.groups).1 i;
    }

    unlinked : (d : EncryptedDb) → (rekeyed d).linked_devices ≡ d.linked_devices
    unfolding rekeyed
    unlinked d = refl

    -- A change of the key of a database whose identity, messages, contacts, sessions, blobs and groups
    -- the old key reads succeeds, and the new key reads of every field of these six tables what the old
    -- one did. The keys of linked devices are left as they are, so under the old key.
    pub rekey_all-reading :
        (d : EncryptedDb)
        → IsReadable old_key d
        → let (o, d') = rekey_all_encrypted_fields aes old_key new_key d in
          (o ≡ done tt)
          × (reading new_key d' ≡ reading old_key d)
          × (d'.linked_devices ≡ d.linked_devices)
    rekey_all-reading d h = (
      ap (λ r. r.0) (runs d h),
      ap (λ (r : Outcome Done × EncryptedDb). reading new_key r.1) (runs d h) ∙ reading-rekeyed d h,
      ap (λ (r : Outcome Done × EncryptedDb). r.1.linked_devices) (runs d h) ∙ unlinked d,
    )
