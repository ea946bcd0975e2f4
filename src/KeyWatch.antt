-- ===== src/KeyWatch.antt =====
-- The alert for a signed prekey of another device (apps/web/src/services/key-watch.ts). The settings
-- table is one table for each prefix of its keys, by account. A call of the worker or a load that
-- throws is `none`.
pub mod Alerts
use privex.Prelude.{
  ℕ, ◌+◌, String, Bool, true, false, not, ◌&&◌, Option, none, some, List, [], ◌∷◌, ◌++◌, map, ltb,
  leb, any, if◌then◌else◌, or_else, ◌==◌, nat_eq, string_eq, bytes_eq,
}
use privex.Crypto.Hex.{Bytes, Text, to_hex, from_hex}
use privex.Db.Table
use privex.Db.Table.{Table}
use privex.Wire.{IdentityBundle, RetiredSpk}

pub record AccountSpk : Type 0 where
  pub spk_x25519 : Text
  pub spk_sig_ed : Text
  pub spk_sig_dil : Text

pub record KeyWatchDeps : Type 0 where
  pub load_bundle : Option (Option IdentityBundle)
  pub verify_hybrid : Bytes → Bytes → Bytes → Bytes → Bytes → Option Bool

-- the known keys and the unanswered alert of each account, and how often a change was announced
pub record Watch : Type 0 where
  pub known : Table String (List Text)
  pub alerts : Table String Text
  pub announced : ℕ

-- of a hexadecimal text, which has no other letters
abbrev lower_unit : ℕ → ℕ
lower_unit c = if leb 65 c && leb c 90 then c + 32 else c

unfoldable pub to_lower : Text → Text
to_lower t = map lower_unit t

-- Set.prototype.has, add
abbrev pub has : List Text → Text → Bool
has ks k = any (λ j. k == j) ks

unfoldable pub add_key : List Text → Text → List Text
add_key ks k = if has ks k then ks else ks ++ k ∷ []

unfoldable pub add_keys : List Text → List Text → List Text
add_keys ks [] = ks
add_keys ks (m ∷ ms) = add_keys (add_key ks m) ms

abbrev pub known_keys : Watch → String → List Text
known_keys w user_id = or_else (Table.get w.known user_id) []

abbrev pub own_keys : IdentityBundle → List Text
own_keys me =
    to_hex me.spk.pub_key ∷ map (λ (k : RetiredSpk). to_hex k.pub_key) (or_else me.prev_spks [])

unfoldable pub remember : IdentityBundle → Watch → Watch
remember me w =
    let known = known_keys w me.user_id in
    if any (λ k. not (has known k)) (own_keys me)
    then record w { known = Table.put w.known me.user_id (add_keys known (own_keys me)) }
    else w

abbrev pub raise_alert : String → Text → Watch → Watch
raise_alert user_id spk w = record w {
  alerts = Table.put w.alerts user_id spk;
  announced = w.announced + 1;
}

abbrev pub is_alert : Option Text → Text → Bool
is_alert none spk = false
is_alert (some a) spk = a == spk

-- a key that is signed by this account, alerted once
abbrev pub judge : Option Bool → String → Text → Watch → Watch
judge none user_id spk w = w
judge (some false) user_id spk w = w
judge (some true) user_id spk w =
    if is_alert (Table.get w.alerts user_id) spk then w else raise_alert user_id spk w

module _ (deps : KeyWatchDeps) where
  abbrev pub signed_by_us : IdentityBundle → AccountSpk → Option Bool
  signed_by_us me reply =
      deps.verify_hybrid (from_hex (to_lower reply.spk_x25519)) (from_hex reply.spk_sig_ed)
        me.identity.ed25519_pub (from_hex reply.spk_sig_dil) me.identity.dilithium3_pub

  unfoldable pub check_with : IdentityBundle → AccountSpk → Watch → Watch
  check_with me reply w =
      let w' = remember me w in
      let spk = to_lower reply.spk_x25519 in
      if has (known_keys w' me.user_id) spk
      then w'
      else judge (signed_by_us me reply) me.user_id spk w'

  abbrev pub check_loaded : Option (Option IdentityBundle) → AccountSpk → Watch → Watch
  check_loaded none reply w = w
  check_loaded (some none) reply w = w
  check_loaded (some (some me)) reply w = check_with me reply w

  unfoldable pub check_account_keys : Option AccountSpk → Watch → Watch
  check_account_keys none w = w
  check_account_keys (some reply) w = check_loaded deps.load_bundle reply w

unfoldable pub has_key_alert : String → Watch → Bool
has_key_alert user_id w = elim (Table.get w.alerts user_id) [ none ↦ false | some spk ↦ true ]

abbrev pub trust_alert : Option Text → String → Watch → Watch
trust_alert none user_id w = w
trust_alert (some spk) user_id w = record w {
  known = Table.put w.known user_id (add_key (known_keys w user_id) spk);
}

-- "that was me"
unfoldable pub dismiss_key_alert : String → Watch → Watch
dismiss_key_alert user_id w =
    let w' = trust_alert (Table.get w.alerts user_id) user_id w in
    record w' { alerts = Table.delete w'.alerts user_id; announced = w'.announced + 1 }
