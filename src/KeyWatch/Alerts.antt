-- ===== src/KeyWatch/Alerts.antt =====
-- Which keys raise an alert (apps/web/src/services/key-watch.ts).
use privex.Prelude.{
  ◌≡◌, refl, ap, ◌∙◌, String, Bool, true, false, not, ◌&&◌, ◌||◌, Option, none, some, List, [], ◌∷◌,
  ◌++◌, any, arith, if◌then◌else◌, Bool-cases, inl, inr, ◌==◌, nat_eq, string_eq, bytes_eq,
  eq_of_beq,
}
use privex.Crypto.Hex.{Text}
use privex.Db.Table
use privex.Db.Table.{get-put, get-delete}
use privex.Wire.{IdentityBundle}
use privex.KeyWatch.{
  AccountSpk, KeyWatchDeps, Watch, to_lower, has, add_key, add_keys, known_keys, own_keys, remember,
  judge, is_alert, signed_by_us, check_with, check_loaded, check_account_keys, trust_alert,
  dismiss_key_alert,
}

has-append : (ks ms : List Text) (j : Text) → has (ks ++ ms) j ≡ (has ks j || has ms j)
has-append [] ms j = refl
has-append (k ∷ ks) ms j = ground (arith, has-append ks ms j)

has-add_key : (ks : List Text) (k j : Text) → has (add_key ks k) j ≡ (has ks j || (j == k))
unfolding add_key
has-add_key ks k j = ground (arith, has-append ks (k ∷ []) j, bytes_eq.same_iff j k)

has-add_keys : (ms ks : List Text) (j : Text) → has (add_keys ks ms) j ≡ (has ks j || has ms j)
unfolding add_keys
has-add_keys [] ks j = ground arith
has-add_keys (m ∷ ms) ks j = ground (arith, has-add_keys ms (add_key ks m) j, has-add_key ks m j)

-- nothing new to add
has-all :
    (ks ms : List Text) (j : Text)
    → any (λ k. not (has ks k)) ms ≡ false
    → has ks j ≡ (has ks j || has ms j)
has-all ks [] j h = ground arith
has-all ks (m ∷ ms) j h = ground (arith, has-all ks ms j, bytes_eq.same_iff j m)

abbrev news : IdentityBundle → Watch → Bool
news me w = any (λ m. not (has (known_keys w me.user_id) m)) (own_keys me)

module _ (me : IdentityBundle) (w : Watch) (j : String) (k : Text) where
  -- the known keys after a table write of the account
  known-put :
      (new : Bool)
      → (news me w ≡ new)
      → has
          (known_keys
            (if new
              then record w {
                known =
                    Table.put w.known me.user_id (add_keys (known_keys w me.user_id) (own_keys me));
              }
              else w)
            j)
          k
        ≡ (has (known_keys w j) k || ((me.user_id == j) && has (own_keys me) k))
  known-put true h = elim (Bool-cases (me.user_id == j)) [
    | inl q ↦
        rw (get-put, q, ← eq_of_beq me.user_id j q)
          (has-add_keys (own_keys me) (known_keys w me.user_id) k)
    | inr q ↦ rw (get-put, q) (ground arith)
  ]
  known-put false h = elim (Bool-cases (me.user_id == j)) [
    | inl q ↦
        rw (q, ← eq_of_beq me.user_id j q) (has-all (known_keys w me.user_id) (own_keys me) k h)
    | inr q ↦ rw q (ground arith)
  ]

  known-remember :
      has (known_keys (remember me w) j) k
      ≡ (has (known_keys w j) k || ((me.user_id == j) && has (own_keys me) k))
  unfolding remember
  known-remember = known-put (news me w) refl

alerts-remember : (me : IdentityBundle) (w : Watch) → (remember me w).alerts ≡ w.alerts
unfolding remember
alerts-remember me w = elim (Bool-cases (news me w)) [ inl q ↦ rw q refl | inr q ↦ rw q refl ]

known-judge :
    (s : Option Bool) (user_id : String) (spk : Text) (w : Watch)
    → (judge s user_id spk w).known ≡ w.known
known-judge none user_id spk w = refl
known-judge (some false) user_id spk w = refl
known-judge (some true) user_id spk w =
    elim (Bool-cases (is_alert (Table.get w.alerts user_id) spk)) [
      | inl q ↦ rw q refl
      | inr q ↦ rw q refl
    ]

-- a signature that verified
abbrev pub is_yes : Option Bool → Bool
is_yes none = false
is_yes (some b) = b

same_alert : (o : Option Text) (spk : Text) → is_alert o spk ≡ true → o ≡ some spk
same_alert none spk h = cc
same_alert (some a) spk h = ap some (eq_of_beq a spk h)

alerts-judge :
    (s : Option Bool) (user_id j : String) (spk : Text) (w : Watch)
    → Table.get (judge s user_id spk w).alerts j
      ≡ (if (user_id == j) && is_yes s then some spk else Table.get w.alerts j)
alerts-judge none user_id j spk w = ground arith
alerts-judge (some false) user_id j spk w = ground arith
alerts-judge (some true) user_id j spk w =
    elim (Bool-cases (is_alert (Table.get w.alerts user_id) spk)) [
      | inl q ↦ rw q (elim (Bool-cases (user_id == j)) [
        | inl e ↦ rw (e, ← eq_of_beq user_id j e) (same_alert _ spk q)
        | inr e ↦ rw e refl
      ])
      | inr q ↦ rw (q, get-put) (ground arith)
    ]

module _ (deps : KeyWatchDeps) (me : IdentityBundle) (reply : AccountSpk) where
  abbrev spk : Text
  spk = to_lower reply.spk_x25519

  -- signed by the account, and neither a known key nor one that the device holds
  abbrev pub is_foreign : Watch → Bool
  is_foreign w =
      is_yes (signed_by_us deps me reply)
      && not (has (known_keys w me.user_id) spk)
      && not (has (own_keys me) spk)

  known_with :
      (w : Watch) (j : String) (k : Text)
      → has (known_keys (check_with deps me reply w) j) k
        ≡ (has (known_keys w j) k || ((me.user_id == j) && has (own_keys me) k))
  unfolding check_with
  known_with w j k = elim (Bool-cases (has (known_keys (remember me w) me.user_id) spk)) [
    | inl q ↦ rw q (known-remember me w j k)
    | inr q ↦ rw (q, known-judge) (known-remember me w j k)
  ]

  alerts_with :
      (w : Watch) (j : String)
      → Table.get (check_with deps me reply w).alerts j
        ≡ (if (me.user_id == j) && is_foreign w then some spk else Table.get w.alerts j)
  unfolding check_with
  alerts_with w j = elim (Bool-cases (has (known_keys (remember me w) me.user_id) spk)) [
    | inl q ↦
        rw (q, alerts-remember)
          (ground
            (arith, known-remember me w me.user_id spk, string_eq.same_iff me.user_id me.user_id))
    | inr q ↦
        rw (q, alerts-judge, alerts-remember)
          (ground
            (arith, known-remember me w me.user_id spk, string_eq.same_iff me.user_id me.user_id))
  ]

-- A report of the server changes the alert of no account but the one that is loaded, and sets that
-- one exactly if the reported key carries this account's signature and is neither known nor held.
pub alerts-check_account_keys :
    (deps : KeyWatchDeps) (me : IdentityBundle) (reply : AccountSpk) (w : Watch) (j : String)
    → deps.load_bundle ≡ some (some me)
    → Table.get (check_account_keys deps (some reply) w).alerts j ≡ (
        if (me.user_id == j) && is_foreign deps me reply w
        then some (to_lower reply.spk_x25519)
        else Table.get w.alerts j)
unfolding check_account_keys
alerts-check_account_keys deps me reply w j h =
    ap (λ o. Table.get (check_loaded deps o reply w).alerts j) h ∙ alerts_with deps me reply w j

known-check :
    (deps : KeyWatchDeps) (me : IdentityBundle) (reply : AccountSpk) (w : Watch) (j : String)
    (k : Text)
    → deps.load_bundle ≡ some (some me)
    → has (known_keys (check_account_keys deps (some reply) w) j) k
      ≡ (has (known_keys w j) k || ((me.user_id == j) && has (own_keys me) k))
unfolding check_account_keys
known-check deps me reply w j k h =
    ap (λ o. has (known_keys (check_loaded deps o reply w) j) k) h ∙ known_with deps me reply w j k

-- a known key raises no alert
unalerted :
    (deps : KeyWatchDeps) (me : IdentityBundle) (reply : AccountSpk) (w : Watch) (j : String)
    → deps.load_bundle ≡ some (some me)
    → has (known_keys w me.user_id) (to_lower reply.spk_x25519) ≡ true
    → Table.get (check_account_keys deps (some reply) w).alerts j ≡ Table.get w.alerts j
unalerted deps me reply w j h q = alerts-check_account_keys deps me reply w j h ∙ (ground arith)

-- A key that this device held at an earlier report raises no alert at a later one for the same
-- account, even if the device holds it no more and the account's signature on it verifies.
pub replay_unalerted :
    (before now : KeyWatchDeps) (old me : IdentityBundle) (first reply : AccountSpk) (w : Watch)
    (j : String)
    → before.load_bundle ≡ some (some old)
    → now.load_bundle ≡ some (some me)
    → old.user_id ≡ me.user_id
    → has (own_keys old) (to_lower reply.spk_x25519) ≡ true
    → let seen = check_account_keys before (some first) w in
      Table.get (check_account_keys now (some reply) seen).alerts j ≡ Table.get seen.alerts j
replay_unalerted before now old me first reply w j h₁ h₂ e q = unalerted now me reply _ j h₂ (
    known-check before old first w me.user_id (to_lower reply.spk_x25519) h₁
    ∙ ground (arith, string_eq.same_iff old.user_id me.user_id))

dismiss-known :
    (o : Option Text) (user_id : String) (w : Watch) (spk : Text)
    → o ≡ some spk
    → has (known_keys (trust_alert o user_id w) user_id) spk ≡ true
dismiss-known none user_id w spk q = cc
dismiss-known (some a) user_id w spk q =
    let e : a ≡ spk = cc in
    rw (get-put, e)
      (ground (
        arith,
        string_eq.same_iff user_id user_id,
        has-add_key (known_keys w user_id) spk spk,
        bytes_eq.same_iff spk spk,
      ))

-- When the user dismisses an alert, the account has none, and the dismissed key raises none again.
pub dismissed_unalerted :
    (deps : KeyWatchDeps) (me : IdentityBundle) (reply : AccountSpk) (w : Watch)
    → deps.load_bundle ≡ some (some me)
    → Table.get w.alerts me.user_id ≡ some (to_lower reply.spk_x25519)
    → Table.get
        (check_account_keys deps (some reply) (dismiss_key_alert me.user_id w)).alerts
        me.user_id
      ≡ none
unfolding dismiss_key_alert
dismissed_unalerted deps me reply w h q =
    unalerted deps me reply _ me.user_id h
      (dismiss-known (Table.get w.alerts me.user_id) me.user_id w _ q)
    ∙ get-delete _ me.user_id me.user_id
    ∙ ground (arith, string_eq.same_iff me.user_id me.user_id)
