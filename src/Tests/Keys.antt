-- ===== src/Tests/Keys.antt =====
-- Sending and the prekeys, at concrete values.
use privex.Prelude.{
  inr, ◌≡◌, refl, ◌≢◌, ◌+◌, ◌*◌, arith, String, true, false, none, some, List, [], ◌∷◌, In, inl,
  nat_eq, string_eq, bytes_eq, ℕ,
}
use privex.Db.Table.{get-put, get-empty}
use privex.Db.Table
use privex.Db.Rows.{accepted, ContactRow}
use privex.Db.Contacts as ContactStore
use privex.Db.Contacts.{to_plain}
use privex.Device.{Device, Fault}
use privex.Exec.{done}
use privex.Data.Sessions.{
  LoadedSession, load_session, create_inbound_session, load_session-create_inbound_session,
}
use privex.Messaging.Send.{send_message, default_ttl_seconds}
use privex.Messaging.Send.Kept.{IsKept, send_message-IsKept}
use privex.Messaging.Send.Gate.{IsStopped, send_message-IsStopped}
use privex.Messaging.Send.Returns.{CanSend, content_of}
use privex.Wire.{IdentityBundle}
use privex.Messaging.{usable}
use privex.Prekeys.{PrekeyEnv, Answer, SignedSpk, day, rotated, with_fresh}
use privex.Prekeys.Upkeep.{Round, prekey_upkeep}
use privex.Prekeys.Backed.{Backed}
use privex.Prekeys.Run.{prekey_upkeep-Backed}
use privex.Prekeys.Ids.{AreDistinct, with_fresh-AreDistinct}
use privex.Prekeys.Retention.{changes, retired_keys, changes-Kept}
use privex.Tests.Demo

abbrev bob_row : ContactRow
bob_row = record {
  px_id = "bob";
  ik_ed25519_pub = some (7 ∷ []);
  ik_x25519_pub = some (8 ∷ []);
  display_name = none;
  verified_fingerprint = none;
  status = some accepted;
  added_at = 1;
}

-- bob is an accepted contact, with a session
abbrev ready : Device
ready = record Demo.device {
  store = record Demo.store {
    contacts = Table.put Table.empty "bob" bob_row;
    sessions = create_inbound_session Table.empty "bob" (1 ∷ []) 1;
  };
}

abbrev bob_session : LoadedSession
bob_session = record { ratchet_state = 1 ∷ []; pqxdh_init = none; received_ok = true }

bob_is_known : ContactStore.get ready.contacts "bob" ≡ some (to_plain bob_row)
unfolding ContactStore.get
bob_is_known = rw get-put refl

bob_is_accepted : (to_plain bob_row).status ≡ accepted
unfolding to_plain
bob_is_accepted = refl

bob_has_key : (to_plain bob_row).ik_x25519 ≢ []
unfolding to_plain
bob_has_key = λ e. absurd cc

bob_has_session : load_session ready.sessions "bob" ≡ some bob_session
bob_has_session =
    load_session-create_inbound_session Table.empty "bob" "bob" (1 ∷ []) 1 (omega arith, tt)

demo-CanSend :
    CanSend Demo.env "bob" default_ttl_seconds
      (content_of Demo.env "hi" ready)
      ready
      Demo.alice
      (to_plain bob_row)
      bob_session
unfolding usable
demo-CanSend = record {
  enc = _;
  encrypts = refl;
  cert = _;
  certifies = inr (refl, refl);
  sealed = _;
  seals = refl;
  answers = λ status q. absurd cc;
}

send_message-IsKept_example :
    (id : String) × ((send_message Demo.env "bob" "hi" none ready).0 ≡ done id)
    × IsKept Demo.env "bob" default_ttl_seconds "hi" id
        (send_message Demo.env "bob" "hi" none ready).1
send_message-IsKept_example =
    send_message-IsKept Demo.env "bob" "hi" none ready Demo.alice (to_plain bob_row) bob_session
      demo-CanSend refl bob_is_known bob_has_key bob_is_accepted bob_has_session

-- carol is a stranger
carol_is_unknown : ContactStore.get ready.contacts "carol" ≡ none
unfolding ContactStore.get
carol_is_unknown = rw get-put (rw get-empty refl)

send_message-IsStopped_example : IsStopped ready (send_message Demo.env "carol" "hi" none ready)
send_message-IsStopped_example =
    send_message-IsStopped Demo.env "carol" "hi" none ready (λ c q. absurd (cc carol_is_unknown))

-- the worker fails in no way, and the answer to an upload is lost
abbrev prekey_env : ℕ → PrekeyEnv
prekey_env now = record {
  now = now;
  sample = 7;
  keypair = λ n. record { pub_key = n ∷ []; priv = n ∷ n ∷ [] };
  sign_hybrid = λ pub_key ed dil. record { ed = ed; dil = dil };
  worker = none;
  save = λ me. none;
  replenish = λ batch. Answer.stored;
  rotate = λ key ed dil. Answer.lost Fault.offline;
}

demo-Backed : Backed Demo.device
demo-Backed = (
  Demo.alice,
  record {
    cached = refl;
    saved = refl;
    held = record { settled = λ q. refl; signed = inl refl; one_time = λ u i. absurd i };
  },
)

abbrev one_signal : List Round
one_signal =
    record { during = prekey_env 1000; signalled = true }
    ∷ record { during = prekey_env 1001; signalled = false }
    ∷ []

prekey_upkeep-Backed_example :
    Backed (prekey_upkeep Demo.env true (prekey_env 1000) one_signal Demo.device).1
prekey_upkeep-Backed_example =
    prekey_upkeep-Backed Demo.env true (prekey_env 1000) one_signal Demo.device demo-Backed

abbrev signed_spk : SignedSpk
signed_spk = record { pub_key = 9 ∷ []; priv = 10 ∷ []; sig_ed = []; sig_dil = [] }

-- a second rotation thirty days after the first
changes-Kept_example :
    In
      (record { pub_key = 5 ∷ []; priv = 6 ∷ []; retired_at = some 1000 })
      (retired_keys (
        changes
          (rotated (prekey_env 1000) Demo.alice signed_spk)
          ((prekey_env (1000 + 30 * day), some signed_spk) ∷ [])))
changes-Kept_example =
    changes-Kept Demo.alice (prekey_env 1000) signed_spk
      ((prekey_env (1000 + 30 * day), some signed_spk) ∷ []) (omega arith, tt)

-- an identity that holds two one-time prekeys
abbrev with_keys : IdentityBundle
with_keys = record Demo.alice {
  opks =
      record { id = 3; pub_key = 1 ∷ []; priv = 2 ∷ [] }
      ∷ record { id = 9; pub_key = 3 ∷ []; priv = 4 ∷ [] }
      ∷ [];
}

with_fresh-AreDistinct_example : AreDistinct (with_fresh (prekey_env 1000) with_keys).opks
with_fresh-AreDistinct_example =
    with_fresh-AreDistinct (prekey_env 1000) with_keys (refl, (refl, tt))
