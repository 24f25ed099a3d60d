-- ===== src/Connections/Model.antt =====
-- The rows that interests, matches and blocks read and write (apps/api/src/models: user,
-- user-preference, user-profile, event, event-attendance, partner-interest, match, block).
--
-- A UUID in lower case is a number: the source compares pairs by the order of the texts, the model
-- by that of the numbers. `next_id` is the supply from which the database names a new row.
use garba_partner.Prelude.{ℕ, Bool, true, false, Option, List}

pub data InterestStatus : Type 0 where
  pending accepted declined withdrawn cancelled expired : InterestStatus

pub data MatchStatus : Type 0 where
  active unmatched blocked closed : MatchStatus

pub data HiddenReason : Type 0 where
  p0_report report_threshold no_visible_photo suspicious_activity : HiddenReason

-- The columns of `users` that discovery and interests read.
pub record User : Type 0 where
  pub id : ℕ
  pub hidden_from_discovery : Bool
  pub hidden_reason : Option HiddenReason
  pub interactions_restricted_at : Option ℕ

pub record Preference : Type 0 where
  pub user_id : ℕ
  pub discovery_enabled : Bool

pub record Profile : Type 0 where
  pub user_id : ℕ
  pub image_public_id : Option ℕ

-- `is_published` is `status = 'published'`, the only test of the status made here.
pub record Event : Type 0 where
  pub id : ℕ
  pub is_published : Bool
  pub ends_at : ℕ

pub record Attendance : Type 0 where
  pub event_id : ℕ
  pub user_id : ℕ
  pub looking_for_partner : Bool

pub record Interest : Type 0 where
  pub id : ℕ
  pub sender_id : ℕ
  pub receiver_id : ℕ
  pub event_id : Option ℕ
  pub status : InterestStatus
  pub created_at : ℕ
  pub expires_at : ℕ
  pub responded_at : Option ℕ

pub record Match : Type 0 where
  pub id : ℕ
  pub user_a_id : ℕ
  pub user_b_id : ℕ
  pub interest_id : ℕ
  pub event_id : Option ℕ
  pub status : MatchStatus
  pub ended_at : Option ℕ
  pub ended_by_user_id : Option ℕ
  pub ended_by_admin_id : Option ℕ
  pub last_message_at : Option ℕ
  pub user_a_last_read_at : Option ℕ
  pub user_b_last_read_at : Option ℕ

pub record Block : Type 0 where
  pub blocker_id : ℕ
  pub blocked_id : ℕ

-- What members and open apps are told, and what the safety log records.
pub data Signal : Type 0 where
  match_created : (user_id actor_id match_id : ℕ) → Signal
  interest_received : (user_id actor_id interest_id : ℕ) → Signal
  interest_accepted : (user_id actor_id interest_id match_id : ℕ) → Signal
  match_ended : (user_id match_id : ℕ) → Signal
  limit_reached : (user_id sent : ℕ) → Signal
  block_created : (user_id blocked_id : ℕ) → Signal
  block_removed : (user_id unblocked_id : ℕ) → Signal

pub record Db : Type 0 where
  pub users : List User
  pub preferences : List Preference
  pub profiles : List Profile
  pub events : List Event
  pub attendances : List Attendance
  pub interests : List Interest
  pub matches : List Match
  pub blocks : List Block
  pub signals : List Signal
  pub next_id : ℕ

abbrev pub is_pending : InterestStatus → Bool
is_pending pending = true
is_pending _ = false

abbrev pub is_active : MatchStatus → Bool
is_active active = true
is_active _ = false

abbrev pub is_unmatched : MatchStatus → Bool
is_unmatched unmatched = true
is_unmatched _ = false
