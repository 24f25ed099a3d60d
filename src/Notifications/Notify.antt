-- ===== src/Notifications/Notify.antt =====
-- `notify` and `push` (apps/api/src/modules/notifications/notifications.service.ts). The delivery by
-- SMS or WhatsApp is other code; nothing of it comes back.
use garba_partner.Table.{update_where, find_one, count_where}
use garba_partner.Members.Model.{is_suspended, is_active_status, is_account, Account}
use garba_partner.Notifications.Model.{
  is_unread_of, is_open_chat, Pushed, is_new_message, Db, Notification,
  ConfigurableNotificationType, NotificationType, NotificationData, NotificationPreference,
}
use garba_partner.Prelude.{
  ℕ, Bool, true, not, ◌&&◌, ◌||◌, Option, none, some, List, [], ◌∷◌, ◌++◌, ◌==◌, ◌+◌, is_some,
  if◌then◌else◌, map, filter, any,
}

pub record NotifyInput : Type 0 where
  pub user_id : ℕ
  pub type : NotificationType
  pub actor_user_id : Option ℕ
  pub match_id : Option ℕ
  pub interest_id : Option ℕ
  pub event_id : Option ℕ
  pub booking_id : Option ℕ
  pub details : NotificationData

abbrev pub no_details : NotificationData
no_details = record {
  safety_kind = none;
  verification_type = none;
  outcome = none;
  booking_kind = none;
}

-- `isConfigurable`
abbrev pub configurable : NotificationType → Option ConfigurableNotificationType
configurable NotificationType.interest_received =
    some ConfigurableNotificationType.interest_received
configurable NotificationType.interest_accepted =
    some ConfigurableNotificationType.interest_accepted
configurable NotificationType.match_created = some ConfigurableNotificationType.match_created
configurable NotificationType.new_message = some ConfigurableNotificationType.new_message
configurable NotificationType.verification_completed =
    some ConfigurableNotificationType.verification_completed
configurable NotificationType.event_reminder = some ConfigurableNotificationType.event_reminder
configurable NotificationType.safety = none
configurable NotificationType.booking = none

-- `preference[PREFERENCE_ATTRIBUTE[type]]`
abbrev pub switch_of : ConfigurableNotificationType → NotificationPreference → Bool
switch_of ConfigurableNotificationType.interest_received p = p.interest_received
switch_of ConfigurableNotificationType.interest_accepted p = p.interest_accepted
switch_of ConfigurableNotificationType.match_created p = p.match_created
switch_of ConfigurableNotificationType.new_message p = p.new_message
switch_of ConfigurableNotificationType.verification_completed p = p.verification_completed
switch_of ConfigurableNotificationType.event_reminder p = p.event_reminder

abbrev pub is_of : ℕ → NotificationPreference → Bool
is_of user_id p = p.user_id == user_id

-- Without a row every switch is on.
abbrev pub switch_or_on : ConfigurableNotificationType → Option NotificationPreference → Bool
switch_or_on type none = true
switch_or_on type (some p) = switch_of type p

is_enabled_type : Option ConfigurableNotificationType → ℕ → Db → Bool
is_enabled_type none user_id db = true
is_enabled_type (some type) user_id db = switch_or_on type (find_one (is_of user_id) db.preferences)

unfoldable pub is_enabled : ℕ → NotificationType → Db → Bool
unfolding is_enabled_type
is_enabled user_id type db = is_enabled_type (configurable type) user_id db

abbrev pub is_recipient : ℕ → Account → Bool
is_recipient user_id a =
    is_account user_id a && (is_active_status a.status || is_suspended a.status)

abbrev pub new_notification : ℕ → NotifyInput → ℕ → Notification
new_notification id input now = record {
  id = id;
  user_id = input.user_id;
  type = input.type;
  actor_user_id = input.actor_user_id;
  match_id = input.match_id;
  interest_id = input.interest_id;
  event_id = input.event_id;
  booking_id = input.booking_id;
  details = input.details;
  count = 1;
  occurred_at = now;
  read_at = none;
}

abbrev pub bumped : Option ℕ → ℕ → Notification → Notification
bumped actor_user_id now n = record n {
  count = n.count + 1;
  occurred_at = now;
  actor_user_id = actor_user_id;
}

unfoldable pub insert_new : NotifyInput → ℕ → Db → Option ℕ × Db
insert_new input now db = (
  some db.next_id,
  record db {
    notifications = db.notifications ++ new_notification db.next_id input now ∷ [];
    next_id = db.next_id + 1;
  },
)

-- `INSERT ... ON CONFLICT (user_id, match_id) WHERE type = 'new_message' AND read_at IS NULL`. What
-- is inserted has no more than the columns the statement names.
unfoldable pub upsert : Option Notification → NotifyInput → ℕ → ℕ → Db → Option ℕ × Db
unfolding insert_new
upsert (some n) input match_id now db = (
  some n.id,
  record db {
    notifications =
        update_where (is_open_chat input.user_id match_id) (bumped input.actor_user_id now)
          db.notifications;
  },
)
upsert none input match_id now db =
    insert_new
      (record input {
        interest_id = none;
        event_id = none;
        booking_id = none;
        details = no_details;
      })
      now db

unfoldable pub store_row : Option ℕ → NotifyInput → ℕ → Db → Option ℕ × Db
unfolding upsert insert_new
store_row none input now db = insert_new input now db
store_row (some match_id) input now db =
    if is_new_message input.type
    then upsert (find_one (is_open_chat input.user_id match_id) db.notifications) input match_id now
        db
    else insert_new input now db

unfoldable pub store : NotifyInput → ℕ → Db → Option ℕ × Db
unfolding store_row is_enabled
store input now db =
    if not (is_some (find_one (is_recipient input.user_id) db.accounts))
      || not (is_enabled input.user_id input.type db)
    then (none, db)
    else store_row input.match_id input now db

abbrev pub count_unread : ℕ → Db → ℕ
count_unread user_id db = count_where (is_unread_of user_id) db.notifications

abbrev pushed_of : Db → Notification → Pushed
pushed_of db n = record {
  user_id = n.user_id;
  notification_id = n.id;
  unread_count = count_unread n.user_id db;
}

-- `push`: one event for each row, with the unread total of its member.
unfoldable pub push : List ℕ → Db → Db
push ids db = record db {
  pushed =
      db.pushed ++ map (pushed_of db) (filter (λ n. any (λ id. n.id == id) ids) db.notifications);
}

unfoldable pub push_stored : Option ℕ × Db → Db
unfolding push
push_stored (none, db) = db
push_stored (some id, db) = push (id ∷ []) db

unfoldable pub notify : NotifyInput → ℕ → Db → Db
unfolding store push_stored
notify input now db = push_stored (store input now db)
