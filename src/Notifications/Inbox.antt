-- ===== src/Notifications/Inbox.antt =====
-- Reading and removing notifications (apps/api/src/modules/notifications/notifications.service.ts).
use garba_partner.Pagination.Orders.{newest_first, Cursor}
use garba_partner.Pagination.{Page, page}
use garba_partner.Table.{update_where, find_one, count_where}
use garba_partner.Api.{ok, not_found, err, Handler}
use garba_partner.Notifications.Model.{
  is_unread, is_open_chat, is_unread_of, is_id, Db, Notification,
}
use garba_partner.Prelude.{
  or_else, ℕ, Bool, not, ◌&&◌, ◌||◌, Option, none, some, ◌==◌, is_some, if◌then◌else◌, filter, ltb,
}

abbrev pub read_now : ℕ → Notification → Notification
read_now now n = record n { read_at = some now }

abbrev pub is_own : ℕ → ℕ → Notification → Bool
is_own user_id id n = n.id == id && n.user_id == user_id

unfoldable pub mark_loaded : Option Notification → ℕ → Handler Db Notification
mark_loaded none now db = (err not_found, db)
mark_loaded (some n) now db = if is_some n.read_at then (ok n, db) else (
  ok (read_now now n),
  record db { notifications = update_where (λ x. x.id == n.id) (read_now now) db.notifications },
)

-- `markRead`: only the member's own.
unfoldable pub mark_read : ℕ → ℕ → ℕ → Handler Db Notification
unfolding mark_loaded
mark_read user_id id now db = mark_loaded (find_one (is_own user_id id) db.notifications) now db

unfoldable pub mark_all_read : ℕ → ℕ → Db → ℕ × Db
mark_all_read user_id now db = (
  count_where (is_unread_of user_id) db.notifications,
  record db { notifications = update_where (is_unread_of user_id) (read_now now) db.notifications },
)

-- `markChatNotificationsRead`
unfoldable pub mark_chat_notifications_read : ℕ → ℕ → ℕ → Db → Bool × Db
mark_chat_notifications_read user_id match_id now db = (
  ltb 0 (count_where (is_open_chat user_id match_id) db.notifications),
  record db {
    notifications = update_where (is_open_chat user_id match_id) (read_now now) db.notifications;
  },
)

abbrev pub is_between : ℕ → ℕ → Notification → Bool
is_between a b n =
    (n.user_id == a && is_id n.actor_user_id b) || (n.user_id == b && is_id n.actor_user_id a)

-- `removeNotificationsBetween`, in the transaction of a block or a report.
unfoldable pub remove_notifications_between : ℕ → ℕ → Db → Db
remove_notifications_between a b db = record db {
  notifications = filter (λ n. not (is_between a b n)) db.notifications;
}

abbrev pub notifications_page_size_default : ℕ
notifications_page_size_default = 20

-- `occurredAt.toISOString()` has milliseconds, and so has the model's clock; the column that `now()`
-- fills in SQL is finer.
abbrev pub notification_cursor : Notification → Cursor
notification_cursor n = record { at = n.occurred_at; id = n.id }

abbrev is_listed : ℕ → Bool → Notification → Bool
is_listed user_id unread_only n = n.user_id == user_id && (not unread_only || is_unread n)

-- `list`
unfoldable pub list :
    ℕ → Option ℕ → Bool → Option Cursor → Db → Page newest_first notification_cursor
unfolding page
list user_id limit unread_only cursor db =
    page newest_first notification_cursor (or_else limit notifications_page_size_default) cursor
      (filter (is_listed user_id unread_only) db.notifications)
