-- ===== src/AuthSession/Genuine.antt =====
-- Whose token the session holds (apps/web/src/services/auth-session.ts).
use privex.Prelude.{
  ◌≡◌, refl, ◌∙◌, String, Bool, true, false, not, ◌||◌, Option, none, some, if◌then◌else◌,
  Bool-cases, inl, inr, string_eq, nat_eq, bytes_eq, is_some,
}
use privex.AuthSession.{
  Auth, Session, Step, Reaches, signed_out, restored, saved_as, started, stopped, rejected, fired,
  failed, minted, start, next, set_session, set_authenticated, sign_out, finish_reauth, is_user,
  reauthenticate, run_renewal, answer_reauth, await_reauth,
}

module _ (Mints : String → String → Type 0) where
  -- a token is one that the server minted for the account that is signed in
  abbrev pub Genuine : Option String → Auth → Type 0
  Genuine none a = Unit
  Genuine (some token) a =
      (a.authenticated ≡ true) × ((u : String) × (a.user_id ≡ some u) × Mints u token)

  pub record IsGenuine (a : Auth) : Type 0 where
    pub token : Genuine a.session_token a

  let_in : (b c : Bool) → (not b || c) ≡ false → b ≡ true
  let_in true c h = refl
  let_in false c h = cc

  guarded :
      (dropped : Bool) (u t : String) (a : Auth)
      → (not a.authenticated || not (is_user a.user_id u)) ≡ dropped
      → Mints u t
      → IsGenuine a
      → IsGenuine (if◌then◌else◌ {A = Auth × Bool} dropped (a, false) (set_session t u a, true)).0
  unfolding set_session
  guarded true u t a h m g = g
  guarded false u t a h m g = record { token = (let_in a.authenticated _ h, (u, refl, m)) }

  -- a token that comes too late, or for another account, is dropped
  finish-IsGenuine :
      (u : String) (o : Option String) (a : Auth)
      → ((t : String) → o ≡ some t → Mints u t)
      → IsGenuine a
      → IsGenuine (finish_reauth u o a).0
  unfolding finish_reauth
  finish-IsGenuine u none a m g = g
  finish-IsGenuine u (some t) a m g =
      guarded (not a.authenticated || not (is_user a.user_id u)) u t a refl (m t refl) g

  same_token : (u t v : String) → some t ≡ some v → Mints u t → Mints u v
  same_token u t v e m = let q : t ≡ v = cc in rw (← q) m

  -- the parts that leave the token alone
  reauthenticate-auth : (s : Session) → (reauthenticate s).auth ≡ s.auth
  unfolding reauthenticate
  reauthenticate-auth s = elim (Bool-cases (is_some s.reauth)) [
    | inl q ↦ rw q refl
    | inr q ↦ rw q refl
  ]

  await-auth : (s : Session) → (await_reauth s).auth ≡ s.auth
  await-auth s = elim (Bool-cases (is_some s.reauth)) [ inl q ↦ rw q refl | inr q ↦ rw q refl ]

  run_renewal-auth : (s : Session) → (run_renewal s).auth ≡ s.auth
  unfolding run_renewal
  run_renewal-auth s = elim (Bool-cases s.renewal.renew_enabled) [
    | inl q ↦ rw q (await-auth _ ∙ reauthenticate-auth _)
    | inr q ↦ rw q refl
  ]

  Step-IsGenuine : (s t : Session) → Step Mints s t → IsGenuine s.auth → IsGenuine t.auth
  unfolding sign_out set_session set_authenticated answer_reauth
  Step-IsGenuine _ _ (signed_out s) g = record { token = tt }
  Step-IsGenuine _ _ (restored s u t m) g = record { token = (refl, (u, refl, m)) }
  Step-IsGenuine _ _ (saved_as s u) g = g
  Step-IsGenuine _ _ (started s) g = g
  Step-IsGenuine _ _ (stopped s) g = g
  Step-IsGenuine _ _ (rejected s) g = rw reauthenticate-auth g
  Step-IsGenuine _ _ (fired s d q) g = rw run_renewal-auth g
  Step-IsGenuine _ _ (failed s u q) g = finish-IsGenuine u none s.auth (λ t e. absurd cc) g
  Step-IsGenuine _ _ (minted s u t q m) g =
      finish-IsGenuine u (some t) s.auth (λ v e. same_token u t v e m) g

-- However sign-outs, restores, rejected calls, renewals and late answers interleave, the token that
-- is held was minted for the account that is signed in; a session that is signed out holds none.
pub Reaches-IsGenuine :
    (Mints : String → String → Type 0) (s t : Session)
    → Reaches Mints s t
    → IsGenuine Mints s.auth
    → IsGenuine Mints t.auth
Reaches-IsGenuine Mints _ _ (start s) g = g
Reaches-IsGenuine Mints _ _ (next s t u r p) g =
    Step-IsGenuine Mints t u p (Reaches-IsGenuine Mints s t r g)
