-- ===== src/HistoryBackup/Restore/Accepted.antt =====
-- Which contacts one imported record accepts (`restoreHistory` of
-- apps/web/src/services/history-backup.ts).
use privex.Prelude.{
  ◌≡◌, refl, ap, sym, ◌∙◌, ◌⊎◌, inl, inr, ℕ, String, Bool, true, false, Option, none, some, or_else,
  if◌then◌else◌, ◌==◌, eq_of_beq, string_eq,
}
use privex.Db.Rows.{ContactStatus, accepted}
use privex.Db.Contacts.{status_of, final_status}
use privex.Device.{Device}
use mathlib.Core.Option.{some-injective}
use privex.HistoryRecords.{HistoryRecord, message, contact, ContactRecord, import_record}
use privex.HistoryRecords.Import.{status_of-import_record}
use privex.HistoryBackup.Restore.{is_out}

-- a record that says that we accepted a contact
abbrev pub Vouches : HistoryRecord → String → Type 0
Vouches (contact r) j = (r.px_id ≡ j) × (r.status ≡ some accepted)
Vouches (message r) j = (r.peer_id ≡ j) × (is_out r ≡ true)

-- the contacts that a device has accepted
abbrev pub Accepts : Device → String → Type 0
Accepts d j = status_of d.contacts j ≡ some accepted

-- an add that leaves a contact accepted
accepted_by :
    (old : Option ContactStatus) (new : ContactStatus)
    → final_status old new ≡ accepted
    → (old ≡ some accepted) ⊎ (new ≡ accepted)
accepted_by none new h = inr h
accepted_by (some ContactStatus.blocked) new h = absurd cc
accepted_by (some ContactStatus.accepted) new h = inl refl
accepted_by (some ContactStatus.pending_inbound) new h = inr h
accepted_by (some ContactStatus.pending_outbound) new h = inr h

added_by :
    (x : Bool) (d : Device) (px j : String) (new : ContactStatus)
    → (x ≡ true → px ≡ j)
    → (if x then some (final_status (status_of d.contacts px) new) else status_of d.contacts j)
      ≡ some accepted
    → Accepts d j ⊎ ((px ≡ j) × (new ≡ accepted))
added_by false d px j new same h = inl h
added_by true d px j new same h =
    elim (accepted_by (status_of d.contacts px) new (some-injective _ _ h)) [
      | inl q ↦ inl (ap (λ p. status_of d.contacts p) (sym (same refl)) ∙ q)
      | inr q ↦ inr (same refl, q)
    ]

pub import_contact-Accepts :
    (r : ContactRecord) (legacy : ContactStatus) (now : ℕ) (d : Device) (j : String)
    → Accepts (import_record (contact r) legacy now d) j
    → Accepts d j ⊎ ((r.px_id ≡ j) × (or_else r.status legacy ≡ accepted))
import_contact-Accepts r legacy now d j h =
    added_by (r.px_id == j) d r.px_id j (or_else r.status legacy) (eq_of_beq r.px_id j)
      (sym (status_of-import_record r legacy now d j) ∙ h)
