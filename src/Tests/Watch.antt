-- ===== src/Tests/Watch.antt =====
-- The key watch, the session renewal and the history records, at concrete values.
use privex.Prelude.{
  ◌≢◌, ◌≡◌, refl, String, arith, true, false, none, some, [], ◌∷◌, if◌then◌else◌, string_eq,
  bytes_eq, nat_eq,
}
use privex.Crypto.Hex.{Text, to_hex}
use privex.Db.Table
use privex.Db.Table.{get-put}
use privex.Db.Rows.{pending_inbound, blocked}
use privex.Db.Contacts.{status_of}
use privex.HistoryRecords.{ContactRecord, contact, message, message_record, import_record}
use privex.HistoryRecords.Import.{
  portable, import_record-message_record, Settled, import_record-Settled,
}
use privex.Wire.{IdentityBundle}
use privex.KeyWatch.{AccountSpk, KeyWatchDeps, Watch, to_lower, has, own_keys, check_account_keys}
use privex.KeyWatch.Alerts.{is_foreign, alerts-check_account_keys, replay_unalerted}
use privex.AuthSession.{
  Session, Reaches, start, next, started, fired, signed_out, minted, start_token_renewal,
  schedule_renewal, run_renewal, reauthenticate, answer_reauth, sign_out,
}
use privex.AuthSession.Genuine.{IsGenuine, Reaches-IsGenuine}
use privex.AuthSession.Renewed.{IsAlive, Reaches-IsAlive}
use privex.Tests.Demo

abbrev deps_with : IdentityBundle → KeyWatchDeps
deps_with me = record {
  load_bundle = some (some me);
  verify_hybrid = λ bytes sig_ed ed sig_dil dil. some true;
}

abbrev reply_of : Text → AccountSpk
reply_of spk = record { spk_x25519 = spk; spk_sig_ed = []; spk_sig_dil = [] }

-- a key of another device, in capital letters
abbrev foreign : Text
foreign = 48 ∷ 65 ∷ []

abbrev unwatched : Watch
unwatched = record { known = Table.empty; alerts = Table.empty; announced = 0 }

alerts-check_account_keys_example :
    Table.get
      (check_account_keys (deps_with Demo.alice) (some (reply_of foreign)) unwatched).alerts
      "alice"
    ≡ (if is_foreign (deps_with Demo.alice) Demo.alice (reply_of foreign) unwatched
        then some (to_lower foreign)
        else Table.get unwatched.alerts "alice")
alerts-check_account_keys_example =
    alerts-check_account_keys (deps_with Demo.alice) Demo.alice (reply_of foreign) unwatched "alice"
      refl

-- the identity after a rotation, and after the old key is forgotten
abbrev later_alice : IdentityBundle
later_alice = record Demo.alice { spk = record { pub_key = 9 ∷ []; priv = 10 ∷ [] } }

was_held : has (own_keys Demo.alice) (to_lower (48 ∷ 53 ∷ [])) ≡ true
unfolding to_lower to_hex
was_held = refl

replay_unalerted_example :
    let seen = check_account_keys (deps_with Demo.alice) (some (reply_of foreign)) unwatched in
    Table.get
      (check_account_keys (deps_with later_alice) (some (reply_of (48 ∷ 53 ∷ []))) seen).alerts
      "alice"
    ≡ Table.get seen.alerts "alice"
replay_unalerted_example =
    replay_unalerted (deps_with Demo.alice) (deps_with later_alice) Demo.alice later_alice
      (reply_of foreign) (reply_of (48 ∷ 53 ∷ [])) unwatched "alice" refl refl refl was_held

abbrev alerted : Watch
alerted = record unwatched { alerts = Table.put Table.empty "alice" (to_lower foreign) }

is_alerted : Table.get alerted.alerts "alice" ≡ some (to_lower foreign)
is_alerted = rw get-put refl

abbrev MintedFor : String → String → Type 0
MintedFor user_id token = token ≡ "t1"

-- signed in, and nothing else
abbrev idle : Session
idle = record {
  auth = record { authenticated = true; user_id = some "alice"; session_token = none };
  renewal = record { renew_enabled = false; renew_backoff_ms = 0; timer = none };
  saved = some "alice";
  reauth = none;
  waiting = 0;
}

abbrev renewing : Session
renewing = record idle { renewal = start_token_renewal idle.renewal }

has_timer : renewing.renewal.timer ≡ some 79200000
unfolding start_token_renewal schedule_renewal
has_timer = refl

in_flight : (run_renewal renewing).reauth ≡ some "alice"
unfolding run_renewal start_token_renewal schedule_renewal reauthenticate
in_flight = refl

-- the renewal starts, its timer fires, and the token arrives after a sign-out
abbrev late : Session
late =
    answer_reauth "alice" (some "t1")
      (record (run_renewal renewing) { auth = sign_out (run_renewal renewing).auth })

late-Reaches : Reaches MintedFor idle late
late-Reaches =
    next _ _ _
      (next _ _ _
        (next _ _ _ (next _ _ _ (start idle) (started idle)) (fired renewing 79200000 has_timer))
        (signed_out (run_renewal renewing)))
      (minted (record (run_renewal renewing) { auth = sign_out (run_renewal renewing).auth })
        "alice" "t1" in_flight refl)

Reaches-IsGenuine_example : IsGenuine MintedFor late.auth
Reaches-IsGenuine_example =
    Reaches-IsGenuine MintedFor idle late late-Reaches (record { token = tt })

Reaches-IsAlive_example : IsAlive late
Reaches-IsAlive_example = Reaches-IsAlive MintedFor idle late late-Reaches (record {
  goes_on = λ q. cc;
  in_flight = λ l. absurd (omega arith);
  timed = tt;
  capped = omega arith;
})

import_record-message_record_example :
    Table.get
      (import_record
        (message (message_record Demo.sent_row))
        pending_inbound
        5
        Demo.device).messages
      "m0"
    ≡ some (portable Demo.sent_row)
import_record-message_record_example =
    import_record-message_record Demo.sent_row pending_inbound 5 Demo.device "m0"

-- a record of bob, whom this device has as accepted
abbrev blocked_bob : ContactRecord
blocked_bob = record {
  px_id = "bob";
  name = "Bob";
  ik_ed25519 = [];
  ik_x25519 = [];
  verified = none;
  status = some blocked;
}

import_record-Settled_example :
    Settled
      (status_of Demo.device.contacts "bob")
      blocked
      (status_of (import_record (contact blocked_bob) pending_inbound 5 Demo.device).contacts "bob")
    × ((j : String)
        → "bob" ≢ j
        → status_of (import_record (contact blocked_bob) pending_inbound 5 Demo.device).contacts j
          ≡ status_of Demo.device.contacts j)
import_record-Settled_example = import_record-Settled blocked_bob pending_inbound 5 Demo.device
