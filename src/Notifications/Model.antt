-- ===== src/Notifications/Model.antt =====
-- Notifications, the members' switches, and what is pushed (apps/api/src/models: notification,
-- notification-preference).
use garba_partner.Prelude.{ℕ, Bool, true, false, not, ◌&&◌, Option, none, some, List, ◌==◌, is_some}
use garba_partner.Members.Model.{SafetyNotificationKind, Account}

pub data NotificationType : Type 0 where
  interest_received interest_accepted match_created new_message : NotificationType
  verification_completed event_reminder safety booking : NotificationType

-- The types that a member can turn off.
pub data ConfigurableNotificationType : Type 0 where
  interest_received interest_accepted match_created new_message : ConfigurableNotificationType
  verification_completed event_reminder : ConfigurableNotificationType

pub data VerificationType : Type 0 where
  photo government_id : VerificationType

pub data BookingNotificationKind : Type 0 where
  confirmed cancelled refund_processed refund_failed : BookingNotificationKind

-- `outcome` is whether the verification was approved.
pub record NotificationData : Type 0 where
  pub safety_kind : Option SafetyNotificationKind
  pub verification_type : Option VerificationType
  pub outcome : Option Bool
  pub booking_kind : Option BookingNotificationKind

pub record Notification : Type 0 where
  pub id : ℕ
  pub user_id : ℕ
  pub type : NotificationType
  pub actor_user_id : Option ℕ
  pub match_id : Option ℕ
  pub interest_id : Option ℕ
  pub event_id : Option ℕ
  pub booking_id : Option ℕ
  pub details : NotificationData
  pub count : ℕ
  pub occurred_at : ℕ
  pub read_at : Option ℕ

pub record NotificationPreference : Type 0 where
  pub user_id : ℕ
  pub interest_received : Bool
  pub interest_accepted : Bool
  pub match_created : Bool
  pub new_message : Bool
  pub verification_completed : Bool
  pub event_reminder : Bool
  pub whatsapp_opt_in : Bool
  pub whatsapp_opt_in_at : Option ℕ

-- A `notification:new` event of a member's sockets.
pub record Pushed : Type 0 where
  pub user_id : ℕ
  pub notification_id : ℕ
  pub unread_count : ℕ

pub record Db : Type 0 where
  pub accounts : List Account
  pub preferences : List NotificationPreference
  pub notifications : List Notification
  pub pushed : List Pushed
  pub next_id : ℕ

abbrev pub is_id : Option ℕ → ℕ → Bool
is_id none id = false
is_id (some n) id = n == id

abbrev pub is_new_message : NotificationType → Bool
is_new_message NotificationType.new_message = true
is_new_message _ = false

abbrev pub is_unread : Notification → Bool
is_unread n = not (is_some n.read_at)

abbrev pub is_unread_of : ℕ → Notification → Bool
is_unread_of user_id n = n.user_id == user_id && is_unread n

-- What the partial unique index on (user_id, match_id) ranges over.
abbrev pub is_open_chat : ℕ → ℕ → Notification → Bool
is_open_chat user_id match_id n =
    is_unread_of user_id n && is_id n.match_id match_id && is_new_message n.type
