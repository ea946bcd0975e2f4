-- ===== src/Messaging/Bundle.antt =====
-- What `myBundle` answers (apps/web/src/services/messaging.ts).
use privex.Prelude.{
  String, nat_eq, string_eq, bytes_eq, ◌≡◌, refl, ap, sym, ◌∙◌, Option, none, some,
}
use privex.Device.{Device, Fault}
use privex.Wire.{IdentityBundle}
use privex.Exec
use privex.Exec.{Exec, Outcome, done, thrown, gets, await, modify, pure, ◌>>=◌, ◌>>◌}
use privex.Exec.Leads.{Leads}
use privex.Messaging.{Env, my_bundle, or_loaded}
use privex.Messaging.Acks.{Acks, AckOf}

abbrev or_stored : Option IdentityBundle → Option IdentityBundle → Option IdentityBundle
or_stored (some me) stored = some me
or_stored none stored = stored

-- the identity that is cached, or else stored
abbrev pub own_bundle : Device → Option IdentityBundle
own_bundle d = or_stored d.bundle d.saved

-- how the identity is answered: not at all, from the cache, or from the store into the cache
pub data Loaded (d : Device) : Outcome IdentityBundle × Device → Type 0 where
  missing : (f : Fault) → d.bundle ≡ none → d.saved ≡ none → Loaded d (thrown f, d)
  cached : (me : IdentityBundle) → d.bundle ≡ some me → Loaded d (done me, d)
  filled :
      (me : IdentityBundle)
      → d.bundle ≡ none
      → d.saved ≡ some me
      → Loaded d (done me, record d { bundle = some me })

module _ (env : Env) where
  from_store :
      (d : Device) (o : Option IdentityBundle)
      → d.bundle ≡ none
      → d.saved ≡ o
      → Loaded d (
          (do
            me ← await (Fault.error "identity not loaded") o
            modify (λ d. record d { bundle = some me })
            pure me)
            d)
  unfolding await modify pure ◌>>=◌
  from_store d none p q = missing _ p q
  from_store d (some me) p q = filled me p q

  from_cache :
      (d : Device) (o : Option IdentityBundle) → d.bundle ≡ o → Loaded d (or_loaded env o d)
  unfolding gets pure ◌>>=◌
  from_cache d (some me) p = cached me p
  from_cache d none p = from_store d d.saved p refl

  pub my_bundle-Loaded : (d : Device) → Loaded d (my_bundle env d)
  unfolding my_bundle gets ◌>>=◌
  my_bundle-Loaded d = from_cache d d.bundle refl

  pub my_bundle-cached :
      (d : Device) (me : IdentityBundle) → d.bundle ≡ some me → my_bundle env d ≡ (done me, d)
  unfolding my_bundle gets pure ◌>>=◌
  my_bundle-cached d me q = rw q refl

  module _ {P : Device → Type 0} (own : Option IdentityBundle)
      (keeps : (d : Device) (me : IdentityBundle)
        → P d
        → d.bundle ≡ none
        → d.saved ≡ some me
        → P (record d { bundle = some me }))
      (is_own : (d : Device) → P d → own_bundle d ≡ own) where
    loaded_Leads :
        {B : Type 0} {Q : Device → Type 0} (k : IdentityBundle → Exec B)
        → ((d : Device) → P d → Q d)
        → ((me : IdentityBundle) → own ≡ some me → Leads P Q (k me))
        → (d : Device) (r : Outcome IdentityBundle × Device) → P d
        → Loaded d r
        → Q (Exec.resume r.0 k r.1).1
    loaded_Leads k pq h d _ p (missing f a b) = pq d p
    loaded_Leads k pq h d _ p (cached me a) =
        (h me (sym (is_own d p) ∙ ap (λ o. or_stored o d.saved) a)).at d p
    loaded_Leads k pq h d _ p (filled me a b) =
        (h me (sym (is_own d p) ∙ ap (λ o. or_stored o d.saved) a ∙ b)).at _ (keeps d me p a b)

    pub Leads-my_bundle :
        {B : Type 0} {Q : Device → Type 0} (k : IdentityBundle → Exec B)
        → ((d : Device) → P d → Q d)
        → ((me : IdentityBundle) → own ≡ some me → Leads P Q (k me))
        → Leads P Q (my_bundle env >>= k)
    unfolding ◌>>=◌
    Leads-my_bundle k pq h = record {
      at = λ d p. loaded_Leads k pq h d (my_bundle env d) p (my_bundle-Loaded d);
    }

    loaded_Acks :
        {B : Type 0} {id : String} {S : Type 0} (k : IdentityBundle → Exec B)
        → ((me : IdentityBundle) → own ≡ some me → Acks P id S (k me))
        → (d : Device) (r : Outcome IdentityBundle × Device) → P d
        → Loaded d r
        → AckOf id S d.acks (Exec.resume r.0 k r.1).0 (Exec.resume r.0 k r.1).1.acks
    loaded_Acks k h d _ p (missing f a b) = refl
    loaded_Acks k h d _ p (cached me a) =
        (h me (sym (is_own d p) ∙ ap (λ o. or_stored o d.saved) a)).at d p
    loaded_Acks k h d _ p (filled me a b) =
        (h me (sym (is_own d p) ∙ ap (λ o. or_stored o d.saved) a ∙ b)).at _ (keeps d me p a b)

    pub Acks-my_bundle :
        {B : Type 0} {id : String} {S : Type 0} (k : IdentityBundle → Exec B)
        → ((me : IdentityBundle) → own ≡ some me → Acks P id S (k me))
        → Acks P id S (my_bundle env >>= k)
    unfolding ◌>>=◌
    Acks-my_bundle k h = record {
      at = λ d p. loaded_Acks k h d (my_bundle env d) p (my_bundle-Loaded d);
    }
