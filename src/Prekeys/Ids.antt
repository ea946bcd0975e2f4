-- ===== src/Prekeys/Ids.antt =====
-- The ids of the one-time prekeys (apps/web/src/services/prekeys.ts, `replenishOpks`).
use privex.Prelude.{
  ◌≡◌, refl, ℕ, zero, suc, ◌+◌, ◌≤◌, ◌<◌, Bool, false, ◌||◌, List, [], ◌∷◌, ◌++◌, map, arith, any,
  All, ◌==◌, nat_eq, string_eq, bytes_eq,
}
use privex.Wire.{IdentityBundle, PreKey}
use privex.Prekeys.{PrekeyEnv, generate_opks, next_id, with_fresh, fresh_batch, opk_batch}

abbrev pub ids : List PreKey → List ℕ
ids os = map (λ (o : PreKey). o.id) os

abbrev pub has_id : List ℕ → PreKey → Bool
has_id is o = any (λ j. o.id == j) is

-- no two prekeys have the same id
abbrev pub AreDistinct : List PreKey → Type 0
AreDistinct [] = Unit
AreDistinct (o ∷ os) = (has_id (ids os) o ≡ false) × AreDistinct os

abbrev IsBelow : ℕ → PreKey → Type 0
IsBelow n o = o.id < n

abbrev IsFrom : ℕ → PreKey → Type 0
IsFrom n o = n ≤ o.id

next_id-above : (os : List PreKey) (n : ℕ) → next_id os ≤ n → All (IsBelow n) os
unfolding next_id
next_id-above [] n h = tt
next_id-above (o ∷ os) n h = (omega arith, next_id-above os n (omega arith))

generated_above :
    (env : PrekeyEnv) (m n count : ℕ) → m ≤ n → All (IsFrom m) (generate_opks env n count)
unfolding generate_opks
generated_above env m n zero h = tt
generated_above env m n (suc count) h = (h, generated_above env m (n + 1) count (omega arith))

-- ids from n on are no smaller id
smaller :
    (n : ℕ) (o : PreKey) (os : List PreKey)
    → o.id < n
    → All (IsFrom n) os
    → has_id (ids os) o ≡ false
smaller n o [] l h = refl
smaller n o (x ∷ os) l (g, h) = ground (arith, nat_eq.same_iff o.id x.id, smaller n o os l h)

generated-distinct : (env : PrekeyEnv) (n count : ℕ) → AreDistinct (generate_opks env n count)
unfolding generate_opks
generated-distinct env n zero = tt
generated-distinct env n (suc count) = (
  smaller (n + 1)
      (record { id = n; pub_key = (env.keypair n).pub_key; priv = (env.keypair n).priv })
      (generate_opks env (n + 1) count) (omega arith)
      (generated_above env (n + 1) (n + 1) count (omega arith)),
  generated-distinct env (n + 1) count,
)

any-append :
    (p : ℕ → Bool) (xs ys : List PreKey)
    → any p (ids (xs ++ ys)) ≡ (any p (ids xs) || any p (ids ys))
any-append p [] ys = refl
any-append p (x ∷ xs) ys = ground (arith, any-append p xs ys)

append-distinct :
    (n : ℕ) (xs ys : List PreKey)
    → AreDistinct xs
    → AreDistinct ys
    → All (IsBelow n) xs
    → All (IsFrom n) ys
    → AreDistinct (xs ++ ys)
append-distinct n [] ys d e b f = e
append-distinct n (x ∷ xs) ys (h, d) e (l, b) f =
    (rw (any-append, h) (smaller n x ys l f), append-distinct n xs ys d e b f)

-- A top-up leaves the ids of the one-time prekeys distinct: the fresh ones differ from each other and
-- from those that are held.
pub with_fresh-AreDistinct :
    (env : PrekeyEnv) (me : IdentityBundle)
    → AreDistinct me.opks
    → AreDistinct (with_fresh env me).opks
with_fresh-AreDistinct env me d =
    append-distinct (next_id me.opks) me.opks (fresh_batch env me) d
      (generated-distinct env (next_id me.opks) opk_batch)
      (next_id-above me.opks (next_id me.opks) (omega arith))
      (generated_above env (next_id me.opks) (next_id me.opks) opk_batch (omega arith))
