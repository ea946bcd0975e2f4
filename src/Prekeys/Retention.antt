-- ===== src/Prekeys/Retention.antt =====
-- How long a retired signed prekey is held, and when the next rotation is due
-- (apps/web/src/services/prekeys.ts).
use privex.Prelude.{
  ◌≡◌, refl, ap, sym, ◌∙◌, filter-In, map-In, ℕ, ◌+◌, ◌*◌, ◌≤◌, ◌<◌, ◌^◌, true, Option, none, some,
  List, [], ◌∷◌, map, In, inl, inr, arith, or_else, All,
}
use privex.Wire.{IdentityBundle, RetiredSpk}
use privex.Prekeys.{
  PrekeyEnv, SignedSpk, day, next_spk_rotation, retain_spks, rotated, retire, without_old, dated,
  is_retained, spk_retain_secs,
}

-- one change of the signed prekeys: a rotation to a new key, or the forgetting of old ones
abbrev pub change : IdentityBundle → PrekeyEnv × Option SignedSpk → IdentityBundle
change me (env, some spk) = rotated env me spk
change me (env, none) = without_old env me

abbrev pub changes : IdentityBundle → List (PrekeyEnv × Option SignedSpk) → IdentityBundle
changes me [] = me
changes me (c ∷ cs) = changes (change me c) cs

abbrev pub retired_keys : IdentityBundle → List RetiredSpk
retired_keys me = or_else me.prev_spks []

abbrev pub IsBefore : ℕ → PrekeyEnv × Option SignedSpk → Type 0
IsBefore t c = c.0.now < t

-- a key that was retired at t
abbrev IsRetiredAt : ℕ → RetiredSpk → Type 0
IsRetiredAt t k = k.retired_at ≡ some t

retain-kept :
    (ks : List RetiredSpk) (k : RetiredSpk) (t now : ℕ)
    → In k ks
    → IsRetiredAt t k
    → now < t + spk_retain_secs
    → In k (retain_spks ks now)
unfolding retain_spks
retain-kept ks k t now i h l =
    let age : or_else k.retired_at now ≡ t = rw h refl in
    let same : dated now k ≡ k = ap (λ o. record k { retired_at = o }) (ap some age ∙ sym h) in
    let young : is_retained now k ≡ true = rw h (ground arith) in
    filter-In (is_retained now) (map (dated now) ks) k (rw⁻¹ same (map-In (dated now) ks k i)) young

change-kept :
    (me : IdentityBundle) (c : PrekeyEnv × Option SignedSpk) (k : RetiredSpk) (t : ℕ)
    → In k (retired_keys me)
    → IsRetiredAt t k
    → c.0.now < t + spk_retain_secs
    → In k (retired_keys (change me c))
change-kept me (env, some spk) k t i h l = retain-kept (retire env me) k t env.now (inr i) h l
change-kept me (env, none) k t i h l = retain-kept (retired_keys me) k t env.now i h l

changes-kept :
    (cs : List (PrekeyEnv × Option SignedSpk)) (me : IdentityBundle) (k : RetiredSpk) (t : ℕ)
    → In k (retired_keys me)
    → IsRetiredAt t k
    → All (IsBefore (t + spk_retain_secs)) cs
    → In k (retired_keys (changes me cs))
changes-kept [] me k t i h l = i
changes-kept (c ∷ cs) me k t i h (l, ls) =
    changes-kept cs (change me c) k t (change-kept me c k t i h l) h ls

-- The private half of a signed prekey that a rotation replaces is among the retired ones after that
-- rotation and any further ones, and any forgetting of old keys, as long as each of them runs less
-- than 61 days after the first.
pub changes-Kept :
    (me : IdentityBundle) (env : PrekeyEnv) (spk : SignedSpk)
    (cs : List (PrekeyEnv × Option SignedSpk))
    → All (IsBefore (env.now + spk_retain_secs)) cs
    → In
        (record { pub_key = me.spk.pub_key; priv = me.spk.priv; retired_at = some env.now })
        (retired_keys (changes (rotated env me spk) cs))
changes-Kept me env spk cs l =
    changes-kept cs (rotated env me spk) _ env.now
      (retain-kept (retire env me) _ env.now env.now (inl refl) refl (omega arith)) refl l

-- The next rotation is due at least 25 and less than 35 days from now, for every 32-bit random value.
pub next_spk_rotation-bounds :
    (sample now : ℕ)
    → sample < 2 ^ 32
    → (now + 25 * day ≤ next_spk_rotation sample now)
      × (next_spk_rotation sample now < now + 35 * day)
unfolding next_spk_rotation
next_spk_rotation-bounds sample now h = (omega arith, omega arith)
