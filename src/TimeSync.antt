-- ===== src/TimeSync.antt =====
-- Signed delivery timestamps (apps/web/src/services/time-sync.ts).
pub mod Laws
use privex.Prelude.{
  ℕ, zero, suc, ◌+◌, ◌-◌, ◌/◌, ◌%◌, ◌^◌, String, Bool, true, false, not, ◌&&◌, ◌||◌, Option, none,
  some, [], ◌∷◌, ◌++◌, leb, if◌then◌else◌,
}
use privex.Prelude.Int.{ℤ, pos, sub_ℕ}
use privex.Crypto.Hex.{Bytes, Text, from_hex}

abbrev pub drift_tolerance_secs : ℕ
drift_tolerance_secs = 90

-- `setBigUint64(…, false)`: eight bytes, the most significant first, modulo 2^64
unfoldable pub be_bytes : ℕ → ℕ → Bytes
be_bytes zero n = []
be_bytes (suc k) n = n / 256 ^ k % 256 ∷ be_bytes k n

-- What lies outside: the text encoder of the browser, the signature check of the crypto worker
-- (`none` if it throws), the pinned key of the build and the clock.
pub record TimeEnv : Type 0 where
  pub utf8 : String → Bytes
  pub verify : Bytes → Bytes → Bytes → Option Bool
  pub time_signing_pub_hex : Text
  pub local_now_secs : ℕ

pub record DeliveryTimeFields : Type 0 where
  pub message_id : String
  pub queued_at : ℕ
  pub server_ts : Option ℕ
  pub server_ts_sig : Option Text

pub record TimeVerifyResult : Type 0 where
  pub valid_signature : Bool
  pub within_tolerance : Bool
  pub drift_seconds : ℤ
  pub anchor : Option ℕ

-- what the warning of the user interface shows
pub record ClockStatus : Type 0 where
  pub warning : Bool
  pub drift_seconds : ℤ
  -- how often the listeners were told
  pub notified : ℕ

unfoldable pub set_drift : ℤ → Bool → ClockStatus → ClockStatus
set_drift drift within c = record {
  warning = not within;
  drift_seconds = drift;
  notified =
      if (c.warning && not within) || (not c.warning && within) then c.notified else c.notified + 1;
}

unfoldable pub time_signing_input : TimeEnv → ℕ → ℕ → String → Bytes
time_signing_input env server_ts queued_at message_id =
    be_bytes 8 server_ts ++ (be_bytes 8 queued_at ++ env.utf8 message_id)

abbrev unverifiable : TimeVerifyResult
unverifiable = record {
  valid_signature = false;
  within_tolerance = true;
  drift_seconds = pos 0;
  anchor = none;
}

-- `!sig`: the empty text is false
abbrev present : Option Text → Option Text
present none = none
present (some []) = none
present (some (c ∷ cs)) = some (c ∷ cs)

-- a check that throws does not hold
abbrev holds : Option Bool → Bool
holds none = false
holds (some b) = b

-- |local - server| ≤ tolerance
abbrev pub within_drift : ℕ → ℕ → Bool
within_drift now server_ts =
    leb (now - server_ts) drift_tolerance_secs && leb (server_ts - now) drift_tolerance_secs

verified_result : TimeEnv → ℕ → ℕ → TimeVerifyResult
verified_result env server_ts queued_at = record {
  valid_signature = true;
  within_tolerance = within_drift env.local_now_secs server_ts;
  drift_seconds = sub_ℕ env.local_now_secs server_ts;
  anchor = some queued_at;
}

check_signed :
    TimeEnv
    → DeliveryTimeFields
    → Option ℕ
    → Option Text
    → ClockStatus
    → TimeVerifyResult × ClockStatus
unfolding verified_result set_drift
check_signed env frame (some server_ts) (some sig) c =
    if holds (
      env.verify (time_signing_input env server_ts frame.queued_at frame.message_id) (from_hex sig)
        (from_hex env.time_signing_pub_hex))
    then (
      verified_result env server_ts frame.queued_at,
      set_drift (sub_ℕ env.local_now_secs server_ts) (within_drift env.local_now_secs server_ts) c,
    )
    else (unverifiable, c)
check_signed env frame _ _ c = (unverifiable, c)

unfoldable pub check_delivery_time :
    TimeEnv → DeliveryTimeFields → ClockStatus → TimeVerifyResult × ClockStatus
unfolding check_signed
check_delivery_time env frame c =
    check_signed env frame frame.server_ts (present frame.server_ts_sig) c
