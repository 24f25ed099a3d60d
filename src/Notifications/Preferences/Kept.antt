-- ===== src/Notifications/Preferences/Kept.antt =====
-- What an update of the switches sets and keeps
-- (apps/api/src/modules/notifications/notifications.service.ts).
use garba_partner.Notifications.Notify.{switch_of, is_of}
use garba_partner.Table.{
  find_one-append, find_one-update, find_one-holds, touch, update_where, find_one,
}
use garba_partner.Notifications.Model.{Db, ConfigurableNotificationType, NotificationPreference}
use garba_partner.Notifications.Preferences.{
  default_row, consent_of, with_value, with_row, with_consent, preferences, Preferences,
  update_preferences, UpdateInput,
}
use garba_partner.Prelude.{
  ℕ, ◌≡◌, refl, ◌∙◌, Bool, true, false, Option, none, some, List, [], ◌∷◌, ◌++◌, ==_refl,
  Option-cases, inl, inr, or_else, Bool-cases,
}

-- What the member reads once the input is applied.
pub record Updated (input : UpdateInput) (before after : Preferences) : Type 0 where
  pub switches :
      (type : ConfigurableNotificationType)
      → after.on type ≡ or_else (input.value type) (before.on type)
  pub consent : after.whatsapp ≡ or_else input.whatsapp before.whatsapp

abbrev changed : UpdateInput → ℕ → NotificationPreference → NotificationPreference
changed input now p = with_consent input.whatsapp now (with_value input p)

switch-changed :
    (input : UpdateInput) (now : ℕ) (p : NotificationPreference)
    (type : ConfigurableNotificationType)
    → switch_of type (changed input now p) ≡ or_else (input.value type) (switch_of type p)
switch-changed input now p type = by_consent input.whatsapp type
  where
    by_consent :
        (consent : Option Bool) (type : ConfigurableNotificationType)
        → switch_of type (with_consent consent now (with_value input p))
          ≡ or_else (input.value type) (switch_of type p)
    by_consent none ConfigurableNotificationType.interest_received = refl
    by_consent none ConfigurableNotificationType.interest_accepted = refl
    by_consent none ConfigurableNotificationType.match_created = refl
    by_consent none ConfigurableNotificationType.new_message = refl
    by_consent none ConfigurableNotificationType.verification_completed = refl
    by_consent none ConfigurableNotificationType.event_reminder = refl
    by_consent (some true) ConfigurableNotificationType.interest_received = refl
    by_consent (some true) ConfigurableNotificationType.interest_accepted = refl
    by_consent (some true) ConfigurableNotificationType.match_created = refl
    by_consent (some true) ConfigurableNotificationType.new_message = refl
    by_consent (some true) ConfigurableNotificationType.verification_completed = refl
    by_consent (some true) ConfigurableNotificationType.event_reminder = refl
    by_consent (some false) ConfigurableNotificationType.interest_received = refl
    by_consent (some false) ConfigurableNotificationType.interest_accepted = refl
    by_consent (some false) ConfigurableNotificationType.match_created = refl
    by_consent (some false) ConfigurableNotificationType.new_message = refl
    by_consent (some false) ConfigurableNotificationType.verification_completed = refl
    by_consent (some false) ConfigurableNotificationType.event_reminder = refl

consent-changed :
    (input : UpdateInput) (now : ℕ) (p : NotificationPreference)
    → (changed input now p).whatsapp_opt_in ≡ or_else input.whatsapp p.whatsapp_opt_in
consent-changed input now p = by_consent input.whatsapp
  where
    by_consent :
        (consent : Option Bool)
        → (with_consent consent now (with_value input p)).whatsapp_opt_in
          ≡ or_else consent p.whatsapp_opt_in
    by_consent none = refl
    by_consent (some true) = refl
    by_consent (some false) = refl

keeps_user :
    (input : UpdateInput) (now user_id : ℕ) (p : NotificationPreference)
    → is_of user_id (touch (is_of user_id) (changed input now) p) ≡ is_of user_id p
keeps_user input now user_id p = elim (Bool-cases (is_of user_id p)) [
  | inr e ↦ rw (e, e)
  | inl e ↦ rw (e, same_user input.whatsapp) e
]
  where
    same_user :
        (consent : Option Bool)
        → (with_consent consent now (with_value input p)).user_id ≡ p.user_id
    same_user none = refl
    same_user (some true) = refl
    same_user (some false) = refl

updated-found :
    (user_id : ℕ) (input : UpdateInput) (now : ℕ) (rows : List NotificationPreference)
    (p : NotificationPreference)
    → find_one (is_of user_id) rows ≡ some p
    → find_one (is_of user_id) (update_where (is_of user_id) (changed input now) rows)
      ≡ some (changed input now p)
updated-found user_id input now rows p found =
    let own = find_one-holds (is_of user_id) rows found in
    rw
      (
        find_one-update (is_of user_id) (is_of user_id) (changed input now) rows
            (keeps_user input now user_id),
        found,
        own,
      )
      refl

-- Setting the switches and reading them back: each switch of the input that has a value has that
-- value, and each other, the consent to WhatsApp included, is as it was, also for a member without a
-- row, for whom every switch is on and the consent off.
pub update_preferences-Updated :
    (user_id : ℕ) (input : UpdateInput) (now : ℕ) (db : Db)
    → Updated input
        (preferences user_id db)
        (preferences user_id (update_preferences user_id input now db).1)
unfolding update_preferences preferences with_row consent_of
update_preferences-Updated user_id input now db =
    elim (Option-cases (find_one (is_of user_id) db.preferences)) [
      | inr (p, e) ↦
          let found = updated-found user_id input now db.preferences p e in
          record {
            switches = λ type. rw (e, found) (switch-changed input now p type);
            consent = rw (e, found) (consent-changed input now p);
          }
      | inl e ↦
          let found =
            updated-found user_id input now (db.preferences ++ default_row user_id ∷ [])
              (default_row user_id)
              (find_one-append (is_of user_id) db.preferences (default_row user_id) e
                (==_refl user_id)) in
          record {
            switches = λ type.
                rw (e, found)
                  (switch-changed input now (default_row user_id) type ∙ on_by_default type);
            consent = rw (e, found) (consent-changed input now (default_row user_id));
          }
    ]
  where
    on_by_default :
        (type : ConfigurableNotificationType)
        → or_else (input.value type) (switch_of type (default_row user_id))
          ≡ or_else (input.value type) true
    on_by_default ConfigurableNotificationType.interest_received = refl
    on_by_default ConfigurableNotificationType.interest_accepted = refl
    on_by_default ConfigurableNotificationType.match_created = refl
    on_by_default ConfigurableNotificationType.new_message = refl
    on_by_default ConfigurableNotificationType.verification_completed = refl
    on_by_default ConfigurableNotificationType.event_reminder = refl
