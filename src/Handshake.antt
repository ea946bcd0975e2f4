-- ===== src/Handshake.antt =====
-- Starting a session with a peer (apps/web/src/contacts/handshake.ts). The crypto surface is
-- injectable in the source and an interface here; proof of work and the fetched bundle are opaque.
use privex.Prelude.{ℕ, String, Option, none, some, if◌then◌else◌, nat_eq, string_eq, bytes_eq}
use privex.Crypto.Hex.{Bytes, Text}
use privex.Wire.{IdentityBundle}
use privex.Device.{Fault}
use privex.Exec.{Exec, pure, throw, gets, await, modify, ◌>>=◌, ◌>>◌}
use privex.Data.Contacts.{VerifiedBundle, PqxdhInit, add_verified_contact, is_key_changed}

-- the bundle that `pqxdhInitiate` takes
pub record PqxdhBundleInput : Type 0 where
  pub ik_x25519 : Bytes
  pub spk_x25519 : Bytes
  pub opk : Option Bytes
  pub kyber1024_pub : Bytes

-- `none` is a throw; the network's answers to the challenge and to the fetch are fields too
pub record ContactEnv : Type 0 where
  pub server_pow : Option Bytes
  pub fetch_key_bundle : String → Bytes → Option Bytes
  pub verify_bundle : Text → Bytes → Option VerifiedBundle
  pub pqxdh_initiate : Bytes → PqxdhBundleInput → Option PqxdhInit
  pub ratchet_init_alice : Bytes → Bytes → Option Bytes
  pub kt_signing_pub_hex : Text

abbrev bundle_input : VerifiedBundle → PqxdhBundleInput
bundle_input v = record {
  ik_x25519 = v.ik_x25519;
  spk_x25519 = v.spk_x25519;
  opk = v.opk;
  kyber1024_pub = v.kyber1024_pub;
}

unfoldable pub loaded_identity : Option IdentityBundle → Exec IdentityBundle
loaded_identity none = throw (Fault.error "Your identity isn't loaded. Finish onboarding first.")
loaded_identity (some me) = pure me

unfoldable pub start_session : ContactEnv → String → ℕ → Exec VerifiedBundle
unfolding loaded_identity
start_session env px_id now = do
  bundle ← gets (λ d. d.saved)
  me ← loaded_identity bundle
  pow ← await Fault.offline env.server_pow
  resp ← await Fault.offline (env.fetch_key_bundle px_id pow)
  verified ← await (Fault.error "verification") (env.verify_bundle env.kt_signing_pub_hex resp)
  changed ← gets (λ d. is_key_changed d px_id verified.ik_ed25519)
  if changed then throw (Fault.error "key has changed") else do
    pqx ←
        await (Fault.error "pqxdh")
          (env.pqxdh_initiate me.identity.x25519_priv (bundle_input verified))
    ratchet_state ←
        await (Fault.error "ratchet") (env.ratchet_init_alice pqx.shared_secret verified.spk_x25519)
    modify (add_verified_contact verified pqx ratchet_state now)
    pure verified
