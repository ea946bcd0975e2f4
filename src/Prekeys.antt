-- ===== src/Prekeys.antt =====
-- Prekey upkeep (apps/web/src/services/prekeys.ts, `prekeyUpkeep` of
-- apps/web/src/services/messaging.ts, and the generators of
-- apps/web/src/crypto/onboarding-crypto.ts). The identity is passed by value: a call that changes the
-- cached object returns it.
pub mod Backed
pub mod Run
pub mod Retention
pub mod Ids
pub mod Upkeep
use privex.Prelude.{
  ℕ, zero, suc, ◌+◌, ◌-◌, ◌*◌, ◌/◌, ◌^◌, max, String, Bool, true, false, not, ◌&&◌, ◌||◌, Option,
  none, some, List, [], ◌∷◌, ◌++◌, map, ltb, leb, length, any, filter, if◌then◌else◌, is_some,
  or_else, ◌==◌, nat_eq, string_eq, bytes_eq,
}
use privex.Crypto.Hex.{Bytes, Text, to_hex}
use privex.Wire.{IdentityBundle, PreKey, KeyPair, HybridSig, RetiredSpk}
use privex.Device.{Device, Fault}
use privex.Messaging.Receive.{opk_low_water}
use privex.Exec.{Exec, Done, pure, throw, gets, await, modify, catch, ◌>>=◌, ◌>>◌}

abbrev pub opk_batch : ℕ
opk_batch = 50

abbrev pub day : ℕ
day = 86400

abbrev pub spk_retain_secs : ℕ
spk_retain_secs = 61 * day

-- an upload that fails may have reached the server all the same
pub data Answer : Type 0 where
  stored : Answer
  refused lost : Fault → Answer

-- The clock, the random values, the crypto worker, the disk and the network while one call runs.
-- `keypair` gives the pairs that the generator draws, `sample` the 32-bit random value; the worker
-- may fail, and so may a save.
pub record PrekeyEnv : Type 0 where
  pub now : ℕ
  pub sample : ℕ
  pub keypair : ℕ → KeyPair
  pub sign_hybrid : Bytes → Bytes → Bytes → HybridSig
  pub worker : Option Fault
  pub save : IdentityBundle → Option Fault
  pub replenish : List (ℕ × Text) → Answer
  pub rotate : Text → Text → Text → Answer

pub record SignedSpk : Type 0 where
  pub pub_key : Bytes
  pub priv : Bytes
  pub sig_ed : Bytes
  pub sig_dil : Bytes

-- 30 ± 5 days: (25 + 10 u) days for u = sample / 2 ^ 32, rounded down
unfoldable pub next_spk_rotation : ℕ → ℕ → ℕ
next_spk_rotation sample now = now + (25 * 2 ^ 32 + 10 * sample) * day / 2 ^ 32

abbrev pub dated : ℕ → RetiredSpk → RetiredSpk
dated now k = record k { retired_at = some (or_else k.retired_at now) }

-- the truncated subtraction agrees: a key retired later than now is young
abbrev pub is_retained : ℕ → RetiredSpk → Bool
is_retained now k = ltb (now - or_else k.retired_at now) spk_retain_secs

unfoldable pub retain_spks : List RetiredSpk → ℕ → List RetiredSpk
retain_spks list now = filter (is_retained now) (map (dated now) list)

-- the first id after those that are held
unfoldable pub next_id : List PreKey → ℕ
next_id [] = 1
next_id (o ∷ os) = max (o.id + 1) (next_id os)

abbrev pub opk_upload : PreKey → ℕ × Text
opk_upload o = (o.id, to_hex o.pub_key)

abbrev pub is_low : Bool → IdentityBundle → Bool
is_low server_low me = server_low || ltb (length me.opks) opk_low_water

abbrev pub is_due : ℕ → IdentityBundle → Bool
is_due now me = elim me.spk_rotate_after [ none ↦ true | some at ↦ leb at now ]

abbrev pub undated : RetiredSpk → Bool
undated k = not (is_some k.retired_at)

pub failed_with : Option Fault → Exec Done
failed_with none = pure tt
failed_with (some f) = throw f

-- a request, and what it leaves on the server
pub request : (Device → Device) → Answer → Exec Done
request f Answer.stored = modify f
request f (Answer.refused fault) = throw fault
request f (Answer.lost fault) = do modify f; throw fault

module _ (env : PrekeyEnv) where
  -- `count` key pairs with consecutive ids
  unfoldable pub generate_opks : ℕ → ℕ → List PreKey
  generate_opks start zero = []
  generate_opks start (suc count) =
      record { id = start; pub_key = (env.keypair start).pub_key; priv = (env.keypair start).priv }
      ∷ generate_opks (start + 1) count

  unfoldable pub generate_signed_spk : Bytes → Bytes → SignedSpk
  generate_signed_spk ed dil =
      let kp = env.keypair 0 in
      let sig = env.sign_hybrid kp.pub_key ed dil in
      record { pub_key = kp.pub_key; priv = kp.priv; sig_ed = sig.ed; sig_dil = sig.dil }

  -- save the changed identity, then change the cached one
  unfoldable pub commit : IdentityBundle → Exec IdentityBundle
  unfolding failed_with
  commit changed = do
    failed_with (env.save changed)
    modify (λ d. record d { saved = some changed; bundle = some changed })
    pure changed

  unfoldable pub upload_opks : List PreKey → Exec Done
  unfolding request
  upload_opks [] = pure tt
  upload_opks (o ∷ os) =
      request
        (λ d. record d {
          key_server = record d.key_server { opks = map opk_upload (o ∷ os) ++ d.key_server.opks };
        })
        (env.replenish (map opk_upload (o ∷ os)))

  unfoldable pub publish_opks : IdentityBundle → List PreKey → Exec IdentityBundle
  publish_opks me batch = do upload_opks batch; commit (record me { opk_pending = none })

  abbrev pub fresh_batch : IdentityBundle → List PreKey
  fresh_batch me = generate_opks (next_id me.opks) opk_batch

  abbrev pub with_fresh : IdentityBundle → IdentityBundle
  with_fresh me = record me {
    opks = me.opks ++ fresh_batch me;
    opk_pending = some (map (λ (o : PreKey). o.id) (fresh_batch me));
  }

  abbrev pub fresh_opks : IdentityBundle → Exec IdentityBundle
  fresh_opks me = do
    failed_with env.worker
    me' ← commit (with_fresh me)
    publish_opks me' (fresh_batch me)

  -- by the ids of a batch whose upload failed earlier
  unfoldable pub replenish_pending : List ℕ → IdentityBundle → Bool → Exec (IdentityBundle × Bool)
  unfolding failed_with
  replenish_pending (i ∷ is) me server_low = do
    me' ← publish_opks me (filter (λ (o : PreKey). any (λ j. o.id == j) (i ∷ is)) me.opks)
    pure (me', true)
  replenish_pending [] me server_low =
      if is_low server_low me then (do me' ← fresh_opks me; pure (me', true)) else pure (me, false)

  unfoldable pub replenish_opks : IdentityBundle → Bool → Exec (IdentityBundle × Bool)
  unfolding replenish_pending
  replenish_opks me server_low = replenish_pending (or_else me.opk_pending []) me server_low

  -- the public half and its two signatures, on the server
  abbrev pub with_spk : IdentityBundle → Device → Device
  with_spk me d = record d {
    key_server = record d.key_server {
      spk = to_hex me.spk.pub_key;
      spk_sig_ed = to_hex me.spk_sig.ed;
      spk_sig_dil = to_hex me.spk_sig.dil;
    };
  }

  unfoldable pub publish_spk : IdentityBundle → Exec IdentityBundle
  unfolding request
  publish_spk me = do
    request (with_spk me)
        (env.rotate (to_hex me.spk.pub_key) (to_hex me.spk_sig.ed) (to_hex me.spk_sig.dil))
    commit (record me { spk_pending = some false })

  abbrev pub retire : IdentityBundle → List RetiredSpk
  retire me =
      record { pub_key = me.spk.pub_key; priv = me.spk.priv; retired_at = some env.now }
      ∷ or_else me.prev_spks []

  abbrev pub rotated : IdentityBundle → SignedSpk → IdentityBundle
  rotated me spk = record me {
    prev_spks = some (retain_spks (retire me) env.now);
    spk = record { pub_key = spk.pub_key; priv = spk.priv };
    spk_sig = record { ed = spk.sig_ed; dil = spk.sig_dil };
    spk_rotate_after = some (next_spk_rotation env.sample env.now);
    spk_pending = some true;
  }

  -- before the rotation is due, only old keys are forgotten
  abbrev pub without_old : IdentityBundle → IdentityBundle
  without_old me = record me { prev_spks = some (retain_spks (or_else me.prev_spks []) env.now) }

  abbrev pub has_old : List RetiredSpk → Bool
  has_old prev = not (length (retain_spks prev env.now) == length prev) || any undated prev

  abbrev pub forget_old : IdentityBundle → Exec IdentityBundle
  forget_old me = if has_old (or_else me.prev_spks []) then commit (without_old me) else pure me

  abbrev pub rotate_now : IdentityBundle → Exec IdentityBundle
  rotate_now me = do
    failed_with env.worker
    me' ←
        commit
          (rotated me (generate_signed_spk me.identity.ed25519_priv me.identity.dilithium3_priv))
    publish_spk me'

  unfoldable pub rotate_spk_if_due : IdentityBundle → Exec (IdentityBundle × Bool)
  unfolding failed_with
  rotate_spk_if_due me =
      if or_else me.spk_pending false
      then (do me' ← publish_spk me; pure (me', true))
      else if is_due env.now me
      then (do me' ← rotate_now me; pure (me', true))
      else (do me' ← forget_old me; pure (me', false))
