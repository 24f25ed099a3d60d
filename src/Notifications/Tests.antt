-- ===== src/Notifications/Tests.antt =====
-- Concrete notifications of one member.
use garba_partner.Notifications.Requests.OneOpen.{serve_all-OneOpen, OneOpen}
use garba_partner.Members.Model.{UserStatus, Account}
use garba_partner.Notifications.Preferences.Kept.{update_preferences-Updated, Updated}
use garba_partner.Notifications.Requests.{serve_all, Request, Timed}
use garba_partner.Table.{update_where, find_one, sum_by, count_where}
use garba_partner.Notifications.Model.{
  ConfigurableNotificationType, is_open_chat, NotificationType, Db,
}
use garba_partner.Notifications.Preferences.{update_preferences, UpdateInput, preferences}
use garba_partner.Notifications.Notify.{no_details, NotifyInput}
use garba_partner.Prelude.{
  ◌≡◌, ◌≤◌, refl, Bool, true, false, none, some, Option, [], ◌∷◌, arith, List,
}

abbrev reader : Account
reader = record {
  id = 1;
  phone_hash = none;
  status = UserStatus.active;
  chat_restricted_at = none;
  last_active_at = none;
}

abbrev start : Db
start = record {
  accounts = reader ∷ [];
  preferences = [];
  notifications = [];
  pushed = [];
  next_id = 1;
}

abbrev message_from_2 : NotifyInput
message_from_2 = record {
  user_id = 1;
  type = NotificationType.new_message;
  actor_user_id = some 2;
  match_id = some 5;
  interest_id = none;
  event_id = none;
  booking_id = none;
  details = no_details;
}

-- two messages, read, and a third
abbrev messages : List Timed
messages =
    record { request = Request.notify message_from_2; now = 100 }
    ∷ record { request = Request.notify message_from_2; now = 200 }
    ∷ record { request = Request.mark_chat_notifications_read 1 5; now = 300 }
    ∷ record { request = Request.notify message_from_2; now = 400 }
    ∷ []

start-OneOpen : OneOpen start
unfolding sum_by
start-OneOpen user_id match_id = omega arith

serve_all-OneOpen_example :
    count_where (is_open_chat 1 5) (serve_all messages start).notifications ≤ 1
serve_all-OneOpen_example = serve_all-OneOpen messages start start-OneOpen 1 5

abbrev no_messages : ConfigurableNotificationType → Option Bool
no_messages ConfigurableNotificationType.new_message = some false
no_messages _ = none

abbrev quiet : UpdateInput
quiet = record { value = no_messages; whatsapp = some true }

update_preferences-Updated_example :
    Updated quiet (preferences 1 start) (preferences 1 (update_preferences 1 quiet 100 start).1)
update_preferences-Updated_example = update_preferences-Updated 1 quiet 100 start

muted :
    (preferences 1 (update_preferences 1 quiet 100 start).1).on
      ConfigurableNotificationType.new_message
    ≡ false
unfolding preferences update_preferences find_one update_where
muted = refl
