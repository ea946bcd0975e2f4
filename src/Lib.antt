-- ===== src/Lib.antt =====
-- The Privex web client: end-to-end encrypted messaging in the browser. The model follows the
-- TypeScript of apps/web/src; the server, the WebAssembly crypto (packages/crypto-wasm), the
-- generated protobuf code and the browser are parameters.
--
-- One device is the record Device (Device.antt): the local database, the identity and certificate
-- caches of services/messaging.ts, the session token of store/auth.ts, the clock warning, and what
-- has left the device. The services are functions on it. The stored identity is `saved`, the cached one
-- `bundle`; Messaging/Bundle has what the read of it answers. Asynchronous code that awaits its calls one
-- by one is an action (Exec.antt) on the device, or on the state of the part it belongs to: it returns
-- or throws, and what it wrote before a throw stays.
-- Calls that are started and not awaited (`void f()`) are entries of `events`.
--
-- The files and the code that they follow:
--   Db: db/index.ts (the rows and the tables, as maps with laws) and db/encrypted-db.ts (the contact
--     store). Fields under the at-rest cipher stand as their plain values. Columns with auto-increment
--     keys are lists with the next key beside them. Db/Rekey has the encrypted fields themselves, and
--     the change of their key; Db/Aes the layout of one.
--   Crypto/Hex: toHex and fromHex of crypto/onboarding-crypto.ts. Texts that code walks are lists of
--     code units.
--   Wire: the types of crypto/onboarding-crypto.ts, crypto/message-crypto.ts and services/envelope.ts,
--     and the crypto worker as a record of functions; `none` is a call that throws.
--   Data: data/sessions.ts and data/contacts.ts.
--   Receipts, Outbox, TimeSync, Envelope, Files, DeviceSync: the services of those names.
--   Handshake: contacts/handshake.ts.
--   Prekeys: services/prekeys.ts, `prekeyUpkeep` of services/messaging.ts (Prekeys/Upkeep) and the key
--     generators of crypto/onboarding-crypto.ts. The server's copy of our keys is part of Device. A run
--     of the loop takes a list of turns, and runs as many of them as signals ask for. The time of the
--     next rotation is computed exactly, where the source rounds as a double does.
--   KeyWatch, HistoryRecords: the services of those names (key-watch.ts, history-records.ts).
--   AuthSession: services/auth-session.ts over store/auth.ts. Here calls interleave: what runs between two
--     awaits is a function, and a step relation takes them in any order.
--   Keystore and AppLock: crypto/keystore.ts and services/applock.ts, on a state of their own, the Vault.
--     A key is its bytes, whether or not the browser lets code read them.
--   DeviceLink: services/devicelink.ts. Export and Import are the two ends, each a function of a state
--     and an event; the await that seals a frame is one step with its send. Sas and Token the texts that the users compare and scan; DeviceSync/Link the
--     linking of two devices.
--   HistoryBackup: services/history-backup.ts, with Legacy its `dropLegacyIds` and `migrateBackupIds` and
--     Restore its `restoreHistory`; a page that the server fails to send is a `none`. The deletion in
--     slices runs on fuel, as much as there are ids, and every slice takes at least one.
--   Recovery: the recovery with contacts of services/recovery.ts. What a call posts is its result.
--   Messaging: services/messaging.ts. Its own file holds the shared actions, Send `sealAndSend` and the
--     sends, Receive `receiveMessage` by stages (the last stage stands first, an early return is a
--     stage that does not call the next), Receive/Content what a decrypted message does.
--   Exec/Keeps, Exec/Leads, Exec/Yields, Exec/Ends, Exec/Runs, Messaging/Acks and the files named
--     Keeps and Acks carry statements through actions, one rule for each way to build one and one lemma for each
--     stage.
--   Tests: a device, a worker and generated code at concrete values, and each result at an input.
--
-- Outside AuthSession and DeviceLink a call runs alone: the interleaving of two calls at their awaits is not
-- modelled. No other loop needs fuel: each runs over a list. Clocks are read once for each call, but in the
-- outbox, where each row has its own reading. Random values, clocks and the network's answers are
-- fields of `Env` or arguments.
--
-- Not modelled: the screens, the WebSocket and cover-traffic timers, onboarding, and of recovery
-- the password, the seed phrase and what follows the seed; the copies of a send that go to linked
-- devices; the upload of files.
pub mod Prelude
pub mod Crypto
pub mod Db
pub mod Wire
pub mod Device
pub mod Exec
pub mod Data
pub mod Receipts
pub mod Outbox
pub mod TimeSync
pub mod Envelope
pub mod Files
pub mod DeviceSync
pub mod Handshake
pub mod Messaging
pub mod Prekeys
pub mod KeyWatch
pub mod HistoryRecords
pub mod AuthSession
pub mod Keystore
pub mod AppLock
pub mod DeviceLink
pub mod HistoryBackup
pub mod Recovery
pub mod Tests
