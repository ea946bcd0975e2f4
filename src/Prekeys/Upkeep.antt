-- ===== src/Prekeys/Upkeep.antt =====
-- The prekey upkeep (apps/web/src/services/messaging.ts, `prekeyUpkeep`).
use privex.Prelude.{Bool, true, false, List, [], ◌∷◌, if◌then◌else◌}
use privex.Exec.{Exec, Done, pure, gets, modify, catch, ◌>>=◌, ◌>>◌}
use privex.Messaging.{Env, my_bundle, session_token}
use privex.Prekeys.{PrekeyEnv, replenish_opks, rotate_spk_if_due}

-- one turn of the loop: what it runs against, and whether a signal of the server arrives meanwhile
pub record Round : Type 0 where
  pub during : PrekeyEnv
  pub signalled : Bool

abbrev pub set_low : Bool → Exec Done
set_low low = modify (λ d. record d { server_low = low })

abbrev pub set_running : Bool → Exec Done
set_running b = modify (λ d. record d { upkeep_running = b })

abbrev pub quietly : {A : Type 0} → Exec A → Exec Done
quietly m = catch tt (do m; pure tt)

module _ (env : Env) where
  -- `me` is the cached object, changed in place by what ran before
  unfoldable pub rotation_turn : PrekeyEnv → Exec Done
  rotation_turn during = quietly (do me ← my_bundle env; rotate_spk_if_due during me)

  unfoldable pub one_round : Round → Exec Done
  one_round r = do
    low ← gets (λ d. d.server_low)
    set_low false
    quietly (do me ← my_bundle env; replenish_opks r.during me low)
    if r.signalled then set_low true else pure tt

  -- at least one round, and another as long as a signal has arrived
  unfoldable pub rounds : List Round → Exec Done
  unfolding one_round
  rounds [] = pure tt
  rounds (r ∷ rest) = do
    one_round r
    low ← gets (λ d. d.server_low)
    if low then rounds rest else pure tt

  unfoldable pub upkeep : PrekeyEnv → List Round → Exec Done
  unfolding rounds rotation_turn
  upkeep rotation turns = do my_bundle env; session_token env; rotation_turn rotation; rounds turns

  -- the run against `rotation` and `turns`; the turns that no signal asks for are not run
  unfoldable pub prekey_upkeep : Bool → PrekeyEnv → List Round → Exec Done
  unfolding upkeep
  prekey_upkeep server_low rotation turns = do
    if server_low then set_low true else pure tt
    running ← gets (λ d. d.upkeep_running)
    if running
        then pure tt
        else (do set_running true; catch tt (upkeep rotation turns); set_running false)
