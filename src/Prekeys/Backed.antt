-- ===== src/Prekeys/Backed.antt =====
-- The private halves of what the key server hands out (apps/web/src/services/prekeys.ts).
use privex.Prelude.{
  ◌≡◌, refl, sym, ℕ, ◌-◌, Bool, true, false, Option, none, some, List, [], ◌∷◌, ◌++◌, map, In,
  In-left, In-right, In-filter, inl, inr, ◌⊎◌, arith, or_else, nat_eq, ltb, string_eq, bytes_eq,
}
use privex.Crypto.Hex.{Text, to_hex}
use privex.Wire.{IdentityBundle, PreKey, RetiredSpk}
use privex.Device.{Device, KeyServer, Fault}
use privex.Exec.{Exec, Done, pure, throw, modify, ◌>>=◌, ◌>>◌}
use privex.Exec.Ends.{Ends, Ends-bind, Ends-if}
use privex.Prekeys.{
  PrekeyEnv, Answer, commit, failed_with, request, opk_upload, upload_opks, publish_opks,
  replenish_opks, replenish_pending, is_low, is_due, publish_spk, with_spk, rotate_spk_if_due,
  retain_spks, rotated, fresh_opks, rotate_now, forget_old, without_old, has_old, with_fresh,
  fresh_batch, retire, spk_retain_secs, generate_signed_spk,
}

-- The identity holds the private half of every key of the server: the signed prekey is the current
-- one or a retired one, the current one unless a publication is pending, and the one-time prekeys are
-- among those that are held.
pub record Holds (me : IdentityBundle) (k : KeyServer) : Type 0 where
  pub settled : or_else me.spk_pending false ≡ false → k.spk ≡ to_hex me.spk.pub_key
  pub signed :
      (k.spk ≡ to_hex me.spk.pub_key)
      ⊎ ((r : RetiredSpk) × In r (or_else me.prev_spks []) × (k.spk ≡ to_hex r.pub_key))
  pub one_time : (u : ℕ × Text) → In u k.opks → (o : PreKey) × In o me.opks × (opk_upload o ≡ u)

-- the identity that is saved is the cached one, and holds what the server hands out
pub record IsBacked (me : IdentityBundle) (d : Device) : Type 0 where
  pub cached : d.bundle ≡ some me
  pub saved : d.saved ≡ some me
  pub held : Holds me d.key_server

abbrev pub Backed : Device → Type 0
Backed d = (me : IdentityBundle) × IsBacked me d

failing :
    (me : IdentityBundle) (f : Option Fault) (d : Device)
    → IsBacked me d
    → Ends (λ u. IsBacked me) Backed (failed_with f) d
unfolding failed_with pure throw
failing me none d b = record { ends = b }
failing me (some f) d b = record { ends = (me, b) }

saving :
    (Q : IdentityBundle → Device → Type 0) (f : Option Fault) (changed : IdentityBundle)
    (d : Device)
    → Backed d
    → Holds changed d.key_server
    → ((e : Device) → IsBacked changed e → Q changed e)
    → Ends Q Backed
        (do
          failed_with f
          modify (λ d. record d { saved = some changed; bundle = some changed })
          pure changed)
        d
unfolding failed_with ◌>>=◌
saving Q none changed d b h q = record {
  ends = q _ (record { cached = refl; saved = refl; held = h });
}
saving Q (some f) changed d b h q = record { ends = b }

-- a request that the server may or may not have carried out
request-Ends :
    (Q : Done → Device → Type 0) (me : IdentityBundle) (f : Device → Device) (a : Answer)
    (d : Device)
    → IsBacked me d
    → IsBacked me (f d)
    → Q tt (f d)
    → Ends Q Backed (request f a) d
unfolding request ◌>>=◌
request-Ends Q me f Answer.stored d b b' q = record { ends = q }
request-Ends Q me f (Answer.refused x) d b b' q = record { ends = (me, b) }
request-Ends Q me f (Answer.lost x) d b b' q = record { ends = (me, b') }

-- one-time prekeys that the identity holds may be uploaded
uploaded :
    (xs ys : List PreKey) (os : List (ℕ × Text))
    → ((o : PreKey) → In o xs → In o ys)
    → ((u : ℕ × Text) → In u os → (o : PreKey) × In o ys × (opk_upload o ≡ u))
    → (u : ℕ × Text) → In u (map opk_upload xs ++ os)
    → (o : PreKey) × In o ys × (opk_upload o ≡ u)
uploaded [] ys os h k u i = k u i
uploaded (x ∷ xs) ys os h k u (inl e) = (x, h x (inl refl), sym e)
uploaded (x ∷ xs) ys os h k u (inr i) = uploaded xs ys os (λ o j. h o (inr j)) k u i

-- the key that a rotation retires is kept
retire-In :
    (env : PrekeyEnv) (me : IdentityBundle) (t : Text)
    → t ≡ to_hex me.spk.pub_key
    → (r : RetiredSpk) × In r (retain_spks (retire env me) env.now) × (t ≡ to_hex r.pub_key)
unfolding retain_spks
retire-In env me t q =
    let young : ltb (env.now - env.now) spk_retain_secs ≡ true = ground arith in
    (
      record { pub_key = me.spk.pub_key; priv = me.spk.priv; retired_at = some env.now },
      rw young (inl refl),
      q,
    )

module _ (env : PrekeyEnv) where
  commit-Ends :
      (changed : IdentityBundle) (d : Device)
      → Backed d
      → Holds changed d.key_server
      → Ends IsBacked Backed (commit env changed) d
  unfolding commit
  commit-Ends changed d b h = saving IsBacked (env.save changed) changed d b h (λ e k. k)

  upload_opks-Ends :
      (me : IdentityBundle) (batch : List PreKey) (d : Device)
      → IsBacked me d
      → ((o : PreKey) → In o batch → In o me.opks)
      → Ends (λ u. IsBacked me) Backed (upload_opks env batch) d
  unfolding upload_opks pure
  upload_opks-Ends me [] d b h = record { ends = b }
  upload_opks-Ends me (o ∷ os) d b h =
      let b' : IsBacked me (record d {
        key_server = record d.key_server { opks = map opk_upload (o ∷ os) ++ d.key_server.opks };
      }) =
        record {
          cached = b.cached;
          saved = b.saved;
          held = record {
            settled = b.held.settled;
            signed = b.held.signed;
            one_time = uploaded (o ∷ os) me.opks d.key_server.opks h b.held.one_time;
          };
        } in
      request-Ends (λ u. IsBacked me) me _ _ d b b' b'

  publish_opks-Ends :
      (me : IdentityBundle) (batch : List PreKey) (d : Device)
      → IsBacked me d
      → ((o : PreKey) → In o batch → In o me.opks)
      → Ends IsBacked Backed (publish_opks env me batch) d
  unfolding publish_opks
  publish_opks-Ends me batch d b h = Ends-bind _ _ d (upload_opks-Ends me batch d b h) λ u e b'.
      commit-Ends _ e (me, b')
        (record { settled = b'.held.settled; signed = b'.held.signed; one_time = b'.held.one_time })

  -- the result of a call that also tells whether it published
  abbrev Told : IdentityBundle × Bool → Device → Type 0
  Told r = IsBacked r.0

  telling :
      (m : Exec IdentityBundle) (b : Bool) (d : Device)
      → Ends IsBacked Backed m d
      → Ends Told Backed (do me ← m; pure (me, b)) d
  unfolding pure
  telling m b d p = Ends-bind _ _ d p λ me e h. record { ends = h }

  IsExtended : IdentityBundle → IdentityBundle → Device → Type 0
  IsExtended me me' e = IsBacked me' e × (me' ≡ with_fresh env me)

  extended :
      (me : IdentityBundle) (e : Device) → IsBacked me e → Holds (with_fresh env me) e.key_server
  extended me e h = record {
    settled = h.held.settled;
    signed = h.held.signed;
    one_time = λ u i.
        let (o, j, q) = h.held.one_time u i in (o, In-left o me.opks (fresh_batch env me) j, q);
  }

  fresh_opks-Ends :
      (me : IdentityBundle) (d : Device)
      → IsBacked me d
      → Ends IsBacked Backed (fresh_opks env me) d
  unfolding commit IsExtended
  fresh_opks-Ends me d b = Ends-bind _ _ d (failing me env.worker d b) λ u e h.
      Ends-bind _ _ e
        (saving (IsExtended me) (env.save (with_fresh env me)) (with_fresh env me) e (me, h)
          (extended me e h) (λ e' k. (k, refl)))
        λ me' e' (k, q).
          publish_opks-Ends me' (fresh_batch env me) e' k
            (λ o i. rw q (In-right o me.opks (fresh_batch env me) i))

  replenish_pending-Ends :
      (is : List ℕ) (me : IdentityBundle) (low : Bool) (d : Device)
      → IsBacked me d
      → Ends Told Backed (replenish_pending env is me low) d
  unfolding replenish_pending pure
  replenish_pending-Ends (i ∷ is) me low d b =
      telling _ true d (publish_opks-Ends me _ d b (In-filter _ me.opks))
  replenish_pending-Ends [] me low d b =
      Ends-if (is_low low me) _ _ d (λ q. telling _ true d (fresh_opks-Ends me d b))
        (λ q. record { ends = b })

  pub replenish_opks-Ends :
      (me : IdentityBundle) (low : Bool) (d : Device)
      → IsBacked me d
      → Ends Told Backed (replenish_opks env me low) d
  unfolding replenish_opks
  replenish_opks-Ends me low d b = replenish_pending-Ends (or_else me.opk_pending []) me low d b

  publish_spk-Ends :
      (me : IdentityBundle) (d : Device)
      → IsBacked me d
      → Ends IsBacked Backed (publish_spk env me) d
  unfolding publish_spk
  publish_spk-Ends me d b =
      let b' : IsBacked me (with_spk env me d) = record {
        cached = b.cached;
        saved = b.saved;
        held = record { settled = λ q. refl; signed = inl refl; one_time = b.held.one_time };
      } in
      Ends-bind _ _ d
        (request-Ends (λ u e. IsBacked me e × (e.key_server.spk ≡ to_hex me.spk.pub_key)) me _ _ d b
          b' (b', refl))
        λ u e (h, q).
          commit-Ends _ e (me, h)
            (record { settled = λ r. q; signed = inl q; one_time = h.held.one_time })

  forget_old-Ends :
      (me : IdentityBundle) (d : Device)
      → IsBacked me d
      → or_else me.spk_pending false ≡ false
      → Ends IsBacked Backed (forget_old env me) d
  unfolding pure
  forget_old-Ends me d b q =
      Ends-if (has_old env (or_else me.prev_spks [])) _ _ d
        (λ t.
          commit-Ends (without_old env me) d (me, b)
            (record {
              settled = b.held.settled;
              signed = inl (b.held.settled q);
              one_time = b.held.one_time;
            }))
        (λ t. record { ends = b })

  rotate_now-Ends :
      (me : IdentityBundle) (d : Device)
      → IsBacked me d
      → or_else me.spk_pending false ≡ false
      → Ends IsBacked Backed (rotate_now env me) d
  rotate_now-Ends me d b q = Ends-bind _ _ d (failing me env.worker d b) λ u e h.
      Ends-bind _ _ e
        (commit-Ends
          (rotated env me
            (generate_signed_spk env me.identity.ed25519_priv me.identity.dilithium3_priv))
          e (me, h)
          (record {
            settled = λ r. absurd cc;
            signed = inr (retire-In env me e.key_server.spk (h.held.settled q));
            one_time = h.held.one_time;
          }))
        λ me' e' h'. publish_spk-Ends me' e' h'

  pub rotate_spk_if_due-Ends :
      (me : IdentityBundle) (d : Device)
      → IsBacked me d
      → Ends Told Backed (rotate_spk_if_due env me) d
  unfolding rotate_spk_if_due
  rotate_spk_if_due-Ends me d b =
      Ends-if (or_else me.spk_pending false) _ _ d (λ t. telling _ true d (publish_spk-Ends me d b))
        λ t.
          Ends-if (is_due env.now me) _ _ d (λ r. telling _ true d (rotate_now-Ends me d b t))
            (λ r. telling _ false d (forget_old-Ends me d b t))
