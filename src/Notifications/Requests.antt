-- ===== src/Notifications/Requests.antt =====
-- Every request that writes notifications
-- (apps/api/src/modules/notifications/notifications.service.ts).
pub mod OneOpen
use garba_partner.Notifications.Preferences.{UpdateInput}
use garba_partner.Notifications.Notify.{NotifyInput}
use garba_partner.Notifications.Model.{Db}
use garba_partner.Prelude.{ℕ, List, [], ◌∷◌}
use garba_partner.Notifications.Notify
use garba_partner.Notifications.Inbox
use garba_partner.Notifications.Preferences

pub data Request : Type 0 where
  notify : NotifyInput → Request
  push : (ids : List ℕ) → Request
  mark_read : (user_id id : ℕ) → Request
  mark_all_read : (user_id : ℕ) → Request
  mark_chat_notifications_read : (user_id match_id : ℕ) → Request
  remove_notifications_between : (a b : ℕ) → Request
  update_preferences : (user_id : ℕ) → UpdateInput → Request

pub record Timed : Type 0 where
  pub request : Request
  pub now : ℕ

unfoldable pub serve : Request → ℕ → Db → Db
serve (Request.notify input) now db = Notify.notify input now db
serve (Request.push ids) now db = Notify.push ids db
serve (Request.mark_read user_id id) now db = (Inbox.mark_read user_id id now db).1
serve (Request.mark_all_read user_id) now db = (Inbox.mark_all_read user_id now db).1
serve (Request.mark_chat_notifications_read user_id match_id) now db =
    (Inbox.mark_chat_notifications_read user_id match_id now db).1
serve (Request.remove_notifications_between a b) now db = Inbox.remove_notifications_between a b db
serve (Request.update_preferences user_id input) now db =
    (Preferences.update_preferences user_id input now db).1

unfoldable pub serve_all : List Timed → Db → Db
unfolding serve
serve_all [] db = db
serve_all (t ∷ ts) db = serve_all ts (serve t.request t.now db)
