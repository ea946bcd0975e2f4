-- ===== src/Prekeys/Run.antt =====
-- What a run of the prekey upkeep keeps (apps/web/src/services/messaging.ts, `prekeyUpkeep`).
use privex.Prelude.{◌≡◌, Bool, true, false, some, List, [], ◌∷◌}
use privex.Wire.{IdentityBundle}
use privex.Device.{Device}
use privex.Exec.{Exec, ◌>>=◌}
use privex.Exec.Ends.{Ends, Ends-state}
use privex.Exec.Keeps.{
  Keeps, keeps_rules, Keeps-modify, Keeps-bind, Keeps-gets, Keeps-pure, Keeps-if, Keeps-catch,
}
use privex.Messaging.Bundle.{my_bundle-cached}
use privex.Messaging.{Env, my_bundle, session_token}
use privex.Prekeys.{PrekeyEnv}
use privex.Prekeys.Upkeep.{
  Round, one_round, rounds, rotation_turn, upkeep, prekey_upkeep, set_low, set_running, quietly,
}
use privex.Prekeys.Backed.{IsBacked, Backed, replenish_opks-Ends, rotate_spk_if_due-Ends}

module _ (env : Env) where
  with_bundle :
      (k : IdentityBundle → Exec (IdentityBundle × Bool)) (d : Device) (me : IdentityBundle)
      → d.bundle ≡ some me
      → Backed (k me d).1
      → Backed ((do i ← my_bundle env; k i) d).1
  unfolding ◌>>=◌
  with_bundle k d me q b = rw (my_bundle-cached env d me q) b

  -- a call on the cached identity
  on_cached :
      (k : IdentityBundle → Exec (IdentityBundle × Bool))
      → ((me : IdentityBundle) (d : Device)
          → IsBacked me d
          → Ends (λ r. IsBacked r.0) Backed (k me) d)
      → Keeps Backed (do me ← my_bundle env; k me)
  on_cached k h = record {
    at = λ d (me, b).
        with_bundle k d me b.cached
          (Ends-state Backed (k me) d (h me d b) (λ r e i. (r.0, i)) (λ e i. i));
  }

  quietly-Backed : {A : Type 0} (m : Exec A) → Keeps Backed m → Keeps Backed (quietly m)
  quietly-Backed m k = Keeps-catch _ _ (Keeps-bind _ _ k (λ a. Keeps-pure tt))

  set_low-Backed : (b : Bool) → Keeps Backed (set_low b)
  set_low-Backed b =
      Keeps-modify _
        (λ d (me, h). (me, record { cached = h.cached; saved = h.saved; held = h.held }))

  set_running-Backed : (b : Bool) → Keeps Backed (set_running b)
  set_running-Backed b =
      Keeps-modify _
        (λ d (me, h). (me, record { cached = h.cached; saved = h.saved; held = h.held }))

  one_round-Backed : (r : Round) → Keeps Backed (one_round env r)
  unfolding one_round
  one_round-Backed r = Keeps-bind _ _ (Keeps-gets _) λ low.
      Keeps-bind _ _ (set_low-Backed false) λ _.
        Keeps-bind _ _
          (quietly-Backed _ (on_cached _ (λ me d b. replenish_opks-Ends r.during me low d b)))
          λ _. Keeps-if r.signalled _ _ (λ _. set_low-Backed true) (λ _. Keeps-pure tt)

  rounds-Backed : (turns : List Round) → Keeps Backed (rounds env turns)
  unfolding rounds
  rounds-Backed [] = Keeps-pure tt
  rounds-Backed (r ∷ rest) = Keeps-bind _ _ (one_round-Backed r) λ _.
      Keeps-bind _ _ (Keeps-gets _)
        λ low. Keeps-if low _ _ (λ _. rounds-Backed rest) (λ _. Keeps-pure tt)

  rotation_turn-Backed : (during : PrekeyEnv) → Keeps Backed (rotation_turn env during)
  unfolding rotation_turn
  rotation_turn-Backed during =
      quietly-Backed _ (on_cached _ (λ me d b. rotate_spk_if_due-Ends during me d b))

  my_bundle-Backed : Keeps Backed (my_bundle env)
  my_bundle-Backed = record { at = λ d (me, b). rw (my_bundle-cached env d me b.cached) (me, b) }

  session_token-Backed : Keeps Backed (session_token env)
  unfolding session_token
  session_token-Backed = search (keeps_rules)

  upkeep-Backed : (during : PrekeyEnv) (turns : List Round) → Keeps Backed (upkeep env during turns)
  unfolding upkeep
  upkeep-Backed during turns = Keeps-bind _ _ my_bundle-Backed λ me.
      Keeps-bind _ _ session_token-Backed
        λ token. Keeps-bind _ _ (rotation_turn-Backed during) λ _. rounds-Backed turns

  guarded-Backed :
      (low : Bool) (during : PrekeyEnv) (turns : List Round)
      → Keeps Backed (prekey_upkeep env low during turns)
  unfolding prekey_upkeep
  guarded-Backed low during turns =
      Keeps-bind _ _ (Keeps-if low _ _ (λ _. set_low-Backed true) (λ _. Keeps-pure tt)) λ _.
        Keeps-bind _ _ (Keeps-gets _) λ running.
          Keeps-if running _ _ (λ _. Keeps-pure tt)
            λ _. Keeps-bind _ _ (set_running-Backed true) λ _.
              Keeps-bind _ _ (Keeps-catch _ _ (upkeep-Backed during turns))
                λ _. set_running-Backed false

-- If the cached identity is the saved one and holds the private half of every key of the server, then
-- so it is after a run of the upkeep, whatever in it fails: the generation of keys, a save, an upload,
-- or the answer to an upload that the server carried out.
pub prekey_upkeep-Backed :
    (env : Env) (low : Bool) (rotation : PrekeyEnv) (turns : List Round) (d : Device)
    → Backed d
    → Backed (prekey_upkeep env low rotation turns d).1
prekey_upkeep-Backed env low rotation turns d b = (guarded-Backed env low rotation turns).at d b

-- A server-low signal is not lost
