-- ===== src/AuthSession.antt =====
-- The session token and its renewal (apps/web/src/services/auth-session.ts, over
-- apps/web/src/store/auth.ts). What the awaits interleave is a step relation: each step is what runs
-- between two awaits.
pub mod Genuine
pub mod Renewed
pub mod Backoff
use privex.Prelude.{
  ◌≡◌, ℕ, zero, suc, ◌+◌, ◌-◌, ◌*◌, max, min, String, Bool, true, false, not, ◌||◌, Option, none,
  some, if◌then◌else◌, is_some, ◌==◌, nat_eq, string_eq, bytes_eq,
}

pub record Auth : Type 0 where
  pub authenticated : Bool
  pub user_id : Option String
  pub session_token : Option String

unfoldable pub set_session : String → String → Auth → Auth
set_session token user_id a = record a { session_token = some token; user_id = some user_id }

unfoldable pub set_authenticated : String → Auth → Auth
set_authenticated user_id a = record a { authenticated = true; user_id = some user_id }

unfoldable pub sign_out : Auth → Auth
sign_out a = record { authenticated = false; user_id = none; session_token = none }

abbrev pub token_ttl_ms : ℕ
token_ttl_ms = 86400000

abbrev pub renew_lead_ms : ℕ
renew_lead_ms = 7200000

abbrev pub max_backoff_ms : ℕ
max_backoff_ms = 900000

-- `timer` is the delay of the timer that is set
pub record Renewal : Type 0 where
  pub renew_enabled : Bool
  pub renew_backoff_ms : ℕ
  pub timer : Option ℕ

unfoldable pub schedule_renewal : ℕ → Renewal → Renewal
schedule_renewal delay_ms r = record r { timer = some (max 60000 delay_ms) }

unfoldable pub start_token_renewal : Renewal → Renewal
start_token_renewal r =
    schedule_renewal (token_ttl_ms - renew_lead_ms)
      (record r { renew_enabled = true; renew_backoff_ms = 0 })

unfoldable pub stop_token_renewal : Renewal → Renewal
stop_token_renewal r = record r { renew_enabled = false; timer = none }

unfoldable pub next_backoff : ℕ → ℕ
next_backoff ms = if ms == 0 then 60000 else min (ms * 2) max_backoff_ms

-- `runRenewal` after its await
unfoldable pub after_renewal : Bool → Renewal → Renewal
after_renewal ok r =
    if not r.renew_enabled
    then r
    else if ok
    then schedule_renewal (token_ttl_ms - renew_lead_ms) (record r { renew_backoff_ms = 0 })
    else schedule_renewal (next_backoff r.renew_backoff_ms)
        (record r { renew_backoff_ms = next_backoff r.renew_backoff_ms })

-- the answer goes to every run that awaits it
unfoldable pub resume_all : ℕ → Bool → Renewal → Renewal
resume_all zero ok r = r
resume_all (suc n) ok r = resume_all n ok (after_renewal ok r)

abbrev pub is_user : Option String → String → Bool
is_user none user_id = false
is_user (some u) user_id = u == user_id

-- `doReauth` after the round trip: a token, or a failure
unfoldable pub finish_reauth : String → Option String → Auth → Auth × Bool
finish_reauth user_id none a = (a, false)
finish_reauth user_id (some token) a =
    if not a.authenticated || not (is_user a.user_id user_id)
    then (a, false)
    else (set_session token user_id a, true)

-- `saved` is the account of the identity that is stored, `reauth` that of the round trip in flight,
-- and `waiting` counts the renewals that await it
pub record Session : Type 0 where
  pub auth : Auth
  pub renewal : Renewal
  pub saved : Option String
  pub reauth : Option String
  pub waiting : ℕ

-- one round trip at a time; without an identity there is none
unfoldable pub reauthenticate : Session → Session
reauthenticate s = if is_some s.reauth then s else record s { reauth = s.saved }

abbrev pub await_reauth : Session → Session
await_reauth s =
    if is_some s.reauth
    then record s { waiting = s.waiting + 1 }
    else record s { renewal = after_renewal false s.renewal }

-- the timer fires: `runRenewal` up to its await
unfoldable pub run_renewal : Session → Session
run_renewal s =
    let s' = record s { renewal = record s.renewal { timer = none } } in
    if s.renewal.renew_enabled then await_reauth (reauthenticate s') else s'

unfoldable pub answer_reauth : String → Option String → Session → Session
answer_reauth user_id token s =
    let (auth, ok) = finish_reauth user_id token s.auth in
    record s {
      auth = auth;
      renewal = resume_all s.waiting ok s.renewal;
      reauth = none;
      waiting = 0;
    }

-- the server minted the token for the account
module _ (Mints : String → String → Type 0) where
  pub data Step : Session → Session → Type 0 where
    signed_out : (s : Session) → Step s (record s { auth = sign_out s.auth })
    restored :
        (s : Session) (user_id token : String)
        → Mints user_id token
        → Step s (record s { auth = set_authenticated user_id (set_session token user_id s.auth) })
    saved_as : (s : Session) (user_id : Option String) → Step s (record s { saved = user_id })
    started : (s : Session) → Step s (record s { renewal = start_token_renewal s.renewal })
    stopped : (s : Session) → Step s (record s { renewal = stop_token_renewal s.renewal })
    rejected : (s : Session) → Step s (reauthenticate s)
    fired : (s : Session) (delay : ℕ) → s.renewal.timer ≡ some delay → Step s (run_renewal s)
    failed :
        (s : Session) (user_id : String)
        → s.reauth ≡ some user_id
        → Step s (answer_reauth user_id none s)
    minted :
        (s : Session) (user_id token : String)
        → s.reauth ≡ some user_id
        → Mints user_id token
        → Step s (answer_reauth user_id (some token) s)

  -- any number of steps
  pub data Reaches : Session → Session → Type 0 where
    start : (s : Session) → Reaches s s
    next : (s t u : Session) → Reaches s t → Step t u → Reaches s u
