-- ===== src/Notifications/Preferences.antt =====
-- The switches of a member (apps/api/src/modules/notifications/notifications.service.ts).
pub mod Kept
use garba_partner.Notifications.Notify.{switch_or_on, is_of}
use garba_partner.Table.{update_where, find_one}
use garba_partner.Notifications.Model.{ConfigurableNotificationType, NotificationPreference, Db}
use garba_partner.Prelude.{
  ℕ, Bool, true, false, not, ◌&&◌, ◌||◌, Option, none, some, List, [], ◌∷◌, ◌++◌, ◌==◌, ◌+◌,
  is_some, if◌then◌else◌, or_else,
}

-- `NotificationPreferencesDto`
pub record Preferences : Type 0 where
  pub on : ConfigurableNotificationType → Bool
  pub whatsapp : Bool

pub record UpdateInput : Type 0 where
  pub value : ConfigurableNotificationType → Option Bool
  pub whatsapp : Option Bool

-- Consent is off without a row.
consent_of : Option NotificationPreference → Bool
consent_of none = false
consent_of (some p) = p.whatsapp_opt_in

unfoldable pub preferences : ℕ → Db → Preferences
unfolding consent_of
preferences user_id db =
    let row = find_one (is_of user_id) db.preferences in
    record { on = λ type. switch_or_on type row; whatsapp = consent_of row }

-- The column's default values.
abbrev default_row : ℕ → NotificationPreference
default_row user_id = record {
  user_id = user_id;
  interest_received = true;
  interest_accepted = true;
  match_created = true;
  new_message = true;
  verification_completed = true;
  event_reminder = true;
  whatsapp_opt_in = false;
  whatsapp_opt_in_at = none;
}

abbrev with_value : UpdateInput → NotificationPreference → NotificationPreference
with_value input p = record p {
  interest_received =
      or_else (input.value ConfigurableNotificationType.interest_received) p.interest_received;
  interest_accepted =
      or_else (input.value ConfigurableNotificationType.interest_accepted) p.interest_accepted;
  match_created = or_else (input.value ConfigurableNotificationType.match_created) p.match_created;
  new_message = or_else (input.value ConfigurableNotificationType.new_message) p.new_message;
  verification_completed =
      or_else (input.value ConfigurableNotificationType.verification_completed)
        p.verification_completed;
  event_reminder =
      or_else (input.value ConfigurableNotificationType.event_reminder) p.event_reminder;
}

-- When consent was last given; cleared when it is withdrawn.
abbrev with_consent : Option Bool → ℕ → NotificationPreference → NotificationPreference
with_consent none now p = p
with_consent (some true) now p = record p {
  whatsapp_opt_in = true;
  whatsapp_opt_in_at = some (or_else p.whatsapp_opt_in_at now);
}
with_consent (some false) now p = record p { whatsapp_opt_in = false; whatsapp_opt_in_at = none }

-- `findOrCreate`
unfoldable pub with_row : Option NotificationPreference → ℕ → Db → Db
with_row (some p) user_id db = db
with_row none user_id db = record db { preferences = db.preferences ++ default_row user_id ∷ [] }

unfoldable pub update_preferences : ℕ → UpdateInput → ℕ → Db → Preferences × Db
unfolding with_row preferences
update_preferences user_id input now db =
    let created = with_row (find_one (is_of user_id) db.preferences) user_id db in
    let updated = record created {
      preferences =
          update_where (is_of user_id) (λ p. with_consent input.whatsapp now (with_value input p))
            created.preferences;
    } in
    (preferences user_id updated, updated)
