-- ===== src/Notifications/Requests/OneOpen.antt =====
-- The unread notification of a chat (apps/api/src/modules/notifications/notifications.service.ts).
use garba_partner.Table.Counts.{count-update_le}
use garba_partner.Notifications.Inbox.{is_own, is_between, mark_loaded, read_now}
use garba_partner.Notifications.Model.{
  is_unread_of, NotificationPreference, is_new_message, is_open_chat, Notification, Db,
}
use garba_partner.Table.{
  count-find_none, sum_by-update_le, sum_by-insert, touch, find_one, update_where, one_if,
  count_where, sum_by,
}
use garba_partner.Notifications.Preferences.{UpdateInput, with_row, update_preferences}
use garba_partner.Notifications.Notify.{
  push_stored, no_details, is_enabled, bumped, is_of, new_notification, is_recipient, NotifyInput,
  store_row, store, upsert, insert_new,
}
use garba_partner.Notifications.Requests.{Request, Timed, serve, serve_all}
use garba_partner.Prelude.{
  ℕ, ◌≡◌, ◌≤◌, ◌+◌, refl, Bool, true, not, ◌||◌, Option, none, some, List, [], ◌∷◌, ◌++◌, ◌==◌, inl,
  inr, Bool-cases, arith, filter, is_some,
}
use garba_partner.Notifications.Notify.{notify, push}
use garba_partner.Notifications.Inbox.{
  mark_read, mark_all_read, mark_chat_notifications_read, remove_notifications_between,
}

-- A member has at most one unread "new message" notification for a match.
abbrev pub OneOpen : Db → Type 0
OneOpen db =
    (user_id match_id : ℕ) → count_where (is_open_chat user_id match_id) db.notifications ≤ 1

count-filter_le :
    {A : Type 0} (p q : A → Bool) (xs : List A) → count_where p (filter q xs) ≤ count_where p xs
unfolding sum_by
count-filter_le p q [] = omega arith
count-filter_le p q (x ∷ xs) = ground (arith, count-filter_le p q xs)

read-fewer :
    (p : Notification → Bool) (now user_id match_id : ℕ) (xs : List Notification)
    → count_where (is_open_chat user_id match_id) (update_where p (read_now now) xs)
      ≤ count_where (is_open_chat user_id match_id) xs
read-fewer p now user_id match_id xs =
    count-update_le (is_open_chat user_id match_id) p (read_now now) xs (λ n h. ground arith)

count-append_one :
    (user_id match_id : ℕ) (xs : List Notification) (n : Notification)
    → count_where (is_open_chat user_id match_id) (xs ++ n ∷ [])
      ≡ count_where (is_open_chat user_id match_id) xs + one_if (is_open_chat user_id match_id) n
count-append_one user_id match_id xs n = sum_by-insert (one_if (is_open_chat user_id match_id)) xs n

insert_new-OneOpen :
    (input : NotifyInput) (now : ℕ) (db : Db)
    → OneOpen db
    → ((user_id match_id : ℕ)
        → is_open_chat user_id match_id (new_notification db.next_id input now) ≡ true
        → count_where (is_open_chat user_id match_id) db.notifications ≡ 0)
    → OneOpen (insert_new input now db).1
unfolding insert_new
insert_new-OneOpen input now db one room user_id match_id =
    let n = new_notification db.next_id input now in
    let appended = count-append_one user_id match_id db.notifications n in
    elim (Bool-cases (is_open_chat user_id match_id n)) [
      | inl e ↦
          let zero = room user_id match_id e in
          let after = rw e at appended in omega (arith, after, zero)
      | inr e ↦
          let before = one user_id match_id in
          let after = rw e at appended in omega (arith, after, before)
    ]

bumped-hit :
    (actor : Option ℕ) (p : Notification → Bool) (now user_id match_id : ℕ) (n : Notification)
    → one_if (is_open_chat user_id match_id) (touch p (bumped actor now) n)
      ≤ one_if (is_open_chat user_id match_id) n
bumped-hit actor p now user_id match_id n = elim (Bool-cases (p n)) [
  | inl e ↦ rw e (omega arith)
  | inr e ↦ rw e (omega arith)
]

upsert-OneOpen :
    (input : NotifyInput) (match_id now : ℕ) (db : Db) (before : Option Notification)
    → input.match_id ≡ some match_id
    → find_one (is_open_chat input.user_id match_id) db.notifications ≡ before
    → OneOpen db
    → OneOpen (upsert before input match_id now db).1
unfolding upsert
upsert-OneOpen input match_id now db (some n) here found one = λ user_id m.
    let before = one user_id m in
    let le =
      sum_by-update_le (one_if (is_open_chat user_id m)) (one_if (is_open_chat user_id m))
        (is_open_chat input.user_id match_id) (bumped input.actor_user_id now) db.notifications
        (bumped-hit input.actor_user_id (is_open_chat input.user_id match_id) now user_id m) in
    omega (arith, before, le)
upsert-OneOpen input match_id now db none here found one =
    insert_new-OneOpen
      (record input {
        interest_id = none;
        event_id = none;
        booking_id = none;
        details = no_details;
      })
      now db one
      (λ user_id m hit.
        let same_user : input.user_id ≡ user_id = ground (arith, hit) in
        let same_match : match_id ≡ m = let o = rw here at hit in ground (arith, o) in
        rw (← same_user, ← same_match)
          (count-find_none (is_open_chat input.user_id match_id) db.notifications found))

store_row-OneOpen :
    (input : NotifyInput) (now : ℕ) (db : Db) (at : Option ℕ)
    → input.match_id ≡ at
    → OneOpen db
    → OneOpen (store_row at input now db).1
unfolding store_row
store_row-OneOpen input now db none here one =
    insert_new-OneOpen input now db one
      (λ user_id m hit. absurd (let o = rw here at hit in ground (arith, o)))
store_row-OneOpen input now db (some match_id) here one =
    elim (Bool-cases (is_new_message input.type)) [
      | inl e ↦ rw e (
          upsert-OneOpen input match_id now db
            (find_one (is_open_chat input.user_id match_id) db.notifications) here refl one)
      | inr e ↦ rw e (
          insert_new-OneOpen input now db one
            (λ user_id m hit. absurd (let o = rw e at hit in ground (arith, o))))
    ]

store-OneOpen :
    (input : NotifyInput) (now : ℕ) (db : Db) → OneOpen db → OneOpen (store input now db).1
unfolding store
store-OneOpen input now db one =
    elim (Bool-cases (
      not (is_some (find_one (is_recipient input.user_id) db.accounts))
      || not (is_enabled input.user_id input.type db))) [
        | inl e ↦ rw e one
        | inr e ↦ rw e (store_row-OneOpen input now db input.match_id refl one)
      ]

push-OneOpen : (ids : List ℕ) (db : Db) → OneOpen db → OneOpen (push ids db)
unfolding push
push-OneOpen ids db one user_id match_id = one user_id match_id

notify-OneOpen :
    (input : NotifyInput) (now : ℕ) (db : Db) → OneOpen db → OneOpen (notify input now db)
unfolding notify push_stored
notify-OneOpen input now db one = pushed (store input now db) (store-OneOpen input now db one)
  where
    pushed : (stored : Option ℕ × Db) → OneOpen stored.1 → OneOpen (push_stored stored)
    pushed (none, db') kept = kept
    pushed (some id, db') kept = push-OneOpen (id ∷ []) db' kept

mark_read-OneOpen :
    (user_id id now : ℕ) (db : Db) → OneOpen db → OneOpen (mark_read user_id id now db).1
unfolding mark_read mark_loaded
mark_read-OneOpen user_id id now db one = loaded (find_one (is_own user_id id) db.notifications)
  where
    loaded : (found : Option Notification) → OneOpen (mark_loaded found now db).1
    loaded none = one
    loaded (some n) = elim (Bool-cases (is_some n.read_at)) [
      | inl e ↦ rw e one
      | inr e ↦ rw e (λ member match_id.
          let le = read-fewer (λ x. x.id == n.id) now member match_id db.notifications in
          let before = one member match_id in omega (arith, le, before))
    ]

read_where-OneOpen :
    (p : Notification → Bool) (now : ℕ) (db : Db)
    → OneOpen db
    → OneOpen (record db { notifications = update_where p (read_now now) db.notifications })
read_where-OneOpen p now db one user_id match_id =
    let le = read-fewer p now user_id match_id db.notifications in
    let before = one user_id match_id in omega (arith, le, before)

remove-OneOpen : (a b : ℕ) (db : Db) → OneOpen db → OneOpen (remove_notifications_between a b db)
unfolding remove_notifications_between
remove-OneOpen a b db one user_id match_id =
    let le =
      count-filter_le (is_open_chat user_id match_id) (λ n. not (is_between a b n))
        db.notifications in
    let before = one user_id match_id in omega (arith, le, before)

update_preferences-OneOpen :
    (user_id : ℕ) (input : UpdateInput) (now : ℕ) (db : Db)
    → OneOpen db
    → OneOpen (update_preferences user_id input now db).1
unfolding update_preferences with_row
update_preferences-OneOpen user_id input now db one =
    created (find_one (is_of user_id) db.preferences)
  where
    created :
        (row : Option NotificationPreference) (member match_id : ℕ)
        → count_where (is_open_chat member match_id) (with_row row user_id db).notifications ≤ 1
    created none = one
    created (some p) = one

serve-OneOpen : (r : Request) (now : ℕ) (db : Db) → OneOpen db → OneOpen (serve r now db)
unfolding serve mark_all_read mark_chat_notifications_read
serve-OneOpen (Request.notify input) now db one = notify-OneOpen input now db one
serve-OneOpen (Request.push ids) now db one = push-OneOpen ids db one
serve-OneOpen (Request.mark_read user_id id) now db one = mark_read-OneOpen user_id id now db one
serve-OneOpen (Request.mark_all_read user_id) now db one =
    read_where-OneOpen (is_unread_of user_id) now db one
serve-OneOpen (Request.mark_chat_notifications_read user_id match_id) now db one =
    read_where-OneOpen (is_open_chat user_id match_id) now db one
serve-OneOpen (Request.remove_notifications_between a b) now db one = remove-OneOpen a b db one
serve-OneOpen (Request.update_preferences user_id input) now db one =
    update_preferences-OneOpen user_id input now db one

-- Whatever requests are served, in any order, a member never has more than one unread "new message"
-- notification for a match, where there were none too many before.
pub serve_all-OneOpen : (ts : List Timed) (db : Db) → OneOpen db → OneOpen (serve_all ts db)
unfolding serve_all
serve_all-OneOpen [] db one = one
serve_all-OneOpen (t ∷ ts) db one =
    serve_all-OneOpen ts (serve t.request t.now db) (serve-OneOpen t.request t.now db one)
