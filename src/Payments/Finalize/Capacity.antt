-- ===== src/Payments/Finalize/Capacity.antt =====
-- The transaction of `finalize` and the capacity of events
-- (apps/api/src/modules/payments/payments.service.ts).
use garba_partner.Prelude.{
  ℕ, ◌+◌, ◌≤◌, ◌<◌, ◌≡◌, refl, sym, true, false, Bool, Option, none, some, List, ◌⊎◌, inl, inr,
  arith, ◌==◌, Bool-cases, Option-cases, is_some, leb, not, ◌&&◌, if◌then◌else◌, ==_iff,
}
use garba_partner.Table.{
  find_one, update_where, touch, sum_by, sum_by-insert, sum_by-update_le, sum_by-release,
  find_one-holds,
}
use garba_partner.Payments.Model.{
  Event, Order, Payment, Booking, CancelReason, RazorpayPayment, Db, is_created, is_captured,
  is_unrefunded,
}
use garba_partner.Payments.Seats.{sold_weight, held_weight, seat_counts}
use garba_partner.Payments.Finalize.{
  upsert_payment, record_payment, mark_refund_pending, cancel_reason_of, over_capacity, paid_at,
  new_booking, book, settle_with, settle, finalize_locked, finalize_tx,
}
use garba_partner.Payments.Capacity.{
  sold_in, held_in, WithinCapacity, SameSeats, WithinCapacity-same, find_event_unique,
}

SameSeats-upsert :
    (found : Option Payment) (locked : Order) (remote : RazorpayPayment) (now : ℕ) (db : Db)
    → SameSeats db (upsert_payment found locked remote now db).1
unfolding upsert_payment
SameSeats-upsert none locked remote now db = record {
  events = refl;
  orders = refl;
  bookings = refl;
}
SameSeats-upsert (some row) locked remote now db = record {
  events = ground arith;
  orders = ground arith;
  bookings = ground arith;
}

pub SameSeats-record_payment :
    (locked : Order) (remote : RazorpayPayment) (now : ℕ) (db : Db)
    → SameSeats db (record_payment locked remote now db).1
unfolding record_payment
SameSeats-record_payment locked remote now db = SameSeats-upsert _ locked remote now db

-- A booking is confirmed only for a live hold, or where free seats are left beside the order's own.
cancel_reason_none :
    (event : Event) (locked : Order) (now : ℕ) (db : Db)
    → cancel_reason_of event locked now db ≡ none
    → ((is_created locked.status ≡ true) × (now < locked.expires_at))
      ⊎ (over_capacity event.pass_capacity
            (seat_counts event.id now (some locked.id) db)
            locked.quantity
          ≡ false)
unfolding cancel_reason_of
cancel_reason_none event locked now db h = elim (Bool-cases (is_created locked.status)) [
  | inl c ↦ elim (Bool-cases (leb locked.expires_at now)) [
    | inl e ↦ inr (ground arith)
    | inr e ↦ inl (c, ground arith)
  ]
  | inr c ↦ inr (ground arith)
]

module _ (k now : ℕ) (locked : Order) where
  abbrev pay : Order → Order
  pay = paid_at now

  paying_frees : (o : Order) → held_weight k now none (pay o) ≡ 0
  paying_frees o = ground arith

  paying_le :
      (o : Order)
      → held_weight k now none (touch (λ x. x.id == locked.id) pay o)
        ≤ held_weight k now (some locked.id) o
  paying_le o = ground arith

  held_in-pay_le :
      (os : List Order)
      → held_in k now (update_where (λ o. o.id == locked.id) pay os)
        ≤ sum_by (held_weight k now (some locked.id)) os
  held_in-pay_le os = sum_by-update_le _ _ _ _ os paying_le

  held_in-pay_mono :
      (os : List Order)
      → held_in k now (update_where (λ o. o.id == locked.id) pay os) ≤ held_in k now os
  held_in-pay_mono os = sum_by-update_le _ _ _ _ os kept
    where
      kept :
          (o : Order)
          → held_weight k now none (touch (λ x. x.id == locked.id) pay o) ≤ held_weight k now none o
      kept o = ground arith

  held_in-pay :
      (os : List Order)
      → find_one (λ o. o.id == locked.id) os ≡ some locked
      → held_in k now (update_where (λ o. o.id == locked.id) pay os) + held_weight k now none locked
        ≤ held_in k now os
  held_in-pay os found =
      sum_by-release (held_weight k now none) _ pay os locked (λ o h. paying_frees o) found

-- A live hold turns into a sale one for one; a lapsed order is sold only into free seats.
confirmed_fits :
    (event : Event) (locked : Order) (now cap : ℕ) (db : Db)
    → find_one (λ o. o.id == locked.id) db.orders ≡ some locked
    → locked.event_id ≡ event.id
    → event.pass_capacity ≡ some cap
    → cancel_reason_of event locked now db ≡ none
    → sold_in event.id db.bookings + held_in event.id now db.orders ≤ cap
    → sold_in event.id db.bookings
        + locked.quantity
        + held_in event.id now (update_where (λ o. o.id == locked.id) (paid_at now) db.orders)
      ≤ cap
confirmed_fits event locked now cap db found same limit kept fits =
    elim (cancel_reason_none event locked now db kept) [
      | inl (live, later) ↦ ground (arith, held_in-pay event.id now locked db.orders found)
      | inr free ↦
          unfold over_capacity seat_counts in
          ground (arith, held_in-pay_le event.id now locked db.orders)
    ]

sold-new_booking :
    (k : ℕ) (locked : Order) (row : Payment) (now : ℕ) (code : List ℕ) (id : ℕ)
    (reason : Option CancelReason)
    → sold_weight k (new_booking locked row now code id reason)
      ≤ (if locked.event_id == k && not (is_some reason) then locked.quantity else 0)
sold-new_booking k locked row now code id none = ground arith
sold-new_booking k locked row now code id (some r) = ground arith

-- What `book` makes of the seats of event `k`.
pub book-seats :
    (event : Event) (locked : Order) (row : Payment) (now : ℕ) (code : List ℕ) (db : Db) (k : ℕ)
    → ((book event locked row now code db).1.events ≡ db.events)
      × (sold_in k (book event locked row now code db).1.bookings
          ≤ sold_in k db.bookings
            + (if locked.event_id == k && not (is_some (cancel_reason_of event locked now db))
                then locked.quantity
                else 0))
      × ((book event locked row now code db).1.orders
          ≡ update_where (λ o. o.id == locked.id) (paid_at now) db.orders)
unfolding book mark_refund_pending
book-seats event locked row now code db k =
    let reason = cancel_reason_of event locked now db in
    (
      ground arith,
      omega (
        arith,
        sum_by-insert (sold_weight k) db.bookings
            (new_booking locked row now code db.next_id reason),
        sold-new_booking k locked row now code db.next_id reason,
      ),
      refl,
    )

-- The seats of the booked event itself.
book_fits_here :
    (event : Event) (locked : Order) (row : Payment) (now : ℕ) (code : List ℕ) (db : Db) (cap : ℕ)
    → find_one (λ o. o.id == locked.id) db.orders ≡ some locked
    → locked.event_id ≡ event.id
    → event.pass_capacity ≡ some cap
    → sold_in event.id db.bookings + held_in event.id now db.orders ≤ cap
    → sold_in event.id (book event locked row now code db).1.bookings
        + held_in event.id now (book event locked row now code db).1.orders
      ≤ cap
book_fits_here event locked row now code db cap found same limit fits =
    rw (book-seats event locked row now code db event.id).2
      (elim (Option-cases (cancel_reason_of event locked now db)) [
        | inl kept ↦ ground (
          arith,
          kept,
          (book-seats event locked row now code db event.id).1,
          confirmed_fits event locked now cap db found same limit kept fits,
        )
        | inr (reason, cancelled) ↦ ground (
          arith,
          cancelled,
          (book-seats event locked row now code db event.id).1,
          held_in-pay_mono event.id now locked db.orders,
        )
      ])

-- The seats of any other event.
book_fits_elsewhere :
    (event : Event) (locked : Order) (row : Payment) (now : ℕ) (code : List ℕ) (db : Db) (k cap : ℕ)
    → (locked.event_id == k) ≡ false
    → sold_in k db.bookings + held_in k now db.orders ≤ cap
    → sold_in k (book event locked row now code db).1.bookings
        + held_in k now (book event locked row now code db).1.orders
      ≤ cap
book_fits_elsewhere event locked row now code db k cap other fits =
    rw (book-seats event locked row now code db k).2 (
      ground (
        arith,
        other,
        (book-seats event locked row now code db k).1,
        held_in-pay_mono k now locked db.orders,
      ))

book-WithinCapacity :
    (event : Event) (locked : Order) (row : Payment) (now : ℕ) (code : List ℕ) (db : Db)
    → find_one (λ e. e.id == locked.event_id) db.events ≡ some event
    → find_one (λ o. o.id == locked.id) db.orders ≡ some locked
    → WithinCapacity now db
    → WithinCapacity now (book event locked row now code db).1
unfolding seat_counts
book-WithinCapacity event locked row now code db found_event found w = record {
  fits = λ k cap event' found' limit.
      let here = rw (book-seats event locked row now code db k).0 at found' in
      elim (Bool-cases (locked.event_id == k)) [
        | inl e ↦
            let at_k : locked.event_id ≡ k = ground (arith, e) in
            let same_event =
              find_event_unique locked.event_id k db.events event event' at_k found_event here in
            let own : event.id ≡ locked.event_id =
              (==_iff _ _).0 (find_one-holds _ db.events found_event) in
            let is_k : k ≡ event.id = cc (at_k, own) in
            let fits = rw is_k at (w.fits k cap event' here limit) in
            let limit' : event.pass_capacity ≡ some cap = cc (same_event, limit) in
            rw is_k (book_fits_here event locked row now code db cap found (sym own) limit' fits)
        | inr e ↦
            book_fits_elsewhere event locked row now code db k cap e
              (w.fits k cap event' here limit)
      ];
}

marked-WithinCapacity :
    (row : Payment) (now : ℕ) (db : Db)
    → WithinCapacity now db
    → WithinCapacity now (mark_refund_pending row db)
unfolding mark_refund_pending
marked-WithinCapacity row now db =
    WithinCapacity-same now db (mark_refund_pending row db)
      (record { events = refl; orders = refl; bookings = refl })

settle_with-WithinCapacity :
    (existing : Option Booking) (event : Event) (locked : Order) (row : Payment) (matches : Bool)
    (now : ℕ) (code : List ℕ) (db : Db)
    → find_one (λ e. e.id == locked.event_id) db.events ≡ some event
    → find_one (λ o. o.id == locked.id) db.orders ≡ some locked
    → WithinCapacity now db
    → WithinCapacity now (settle_with existing event locked row matches now code db).1
unfolding settle_with
settle_with-WithinCapacity (some b) event locked row matches now code db found_event found w =
    elim (Bool-cases (b.payment_id == row.id)) [
      | inl e ↦ rw e w
      | inr e ↦ elim (Bool-cases (is_unrefunded row.refund_status)) [
        | inl u ↦ rw (e, u) (marked-WithinCapacity row now db w)
        | inr u ↦ rw (e, u) w
      ]
    ]
settle_with-WithinCapacity none event locked row true now code db found_event found w =
    book-WithinCapacity event locked row now code db found_event found w
settle_with-WithinCapacity none event locked row false now code db found_event found w =
    elim (Bool-cases (is_unrefunded row.refund_status)) [
      | inl u ↦ rw u (marked-WithinCapacity row now db w)
      | inr u ↦ rw u w
    ]

finalize_found-WithinCapacity :
    (event : Event) (locked : Order) (remote : RazorpayPayment) (matches : Bool) (now : ℕ)
    (code : List ℕ) (db : Db)
    → find_one (λ e. e.id == locked.event_id) db.events ≡ some event
    → find_one (λ o. o.id == locked.id) db.orders ≡ some locked
    → WithinCapacity now db
    → WithinCapacity now (finalize_locked (some event) (some locked) remote matches now code db).1
unfolding finalize_locked settle
finalize_found-WithinCapacity event locked remote matches now code db found_event found w =
    let (row, db') = record_payment locked remote now db in
    let same = SameSeats-record_payment locked remote now db in
    let w' = WithinCapacity-same now db db' same w in
    elim (Bool-cases (is_captured row.status)) [
      | inl e ↦ rw e (
          settle_with-WithinCapacity _ event locked row matches now code db'
            (rw same.events found_event) (rw same.orders found) w')
      | inr e ↦ rw e w'
    ]

-- The transaction of `finalize`, run at `now` for any payment the provider reports of an order
-- that was read before, keeps every event within its capacity, provided that the order has not
-- moved to another event since it was read.
pub finalize_tx-WithinCapacity :
    (order : Order) (remote : RazorpayPayment) (matches : Bool) (now : ℕ) (code : List ℕ) (db : Db)
    → ((locked : Order)
        → find_one (λ o. o.id == order.id) db.orders ≡ some locked
        → locked.event_id ≡ order.event_id)
    → WithinCapacity now db
    → WithinCapacity now (finalize_tx order remote matches now code db).1
unfolding finalize_tx finalize_locked
finalize_tx-WithinCapacity order remote matches now code db same w =
    elim (Option-cases (find_one (λ e. e.id == order.event_id) db.events)) [
      | inl missing ↦ rw missing w
      | inr (event, found_event) ↦
          elim (Option-cases (find_one (λ o. o.id == order.id) db.orders)) [
            | inl missing ↦ rw (found_event, missing) w
            | inr (locked, found) ↦
                let own : locked.id ≡ order.id =
                  (==_iff _ _).0 (find_one-holds _ db.orders found) in
                rw (found_event, found)
                  (finalize_found-WithinCapacity event locked remote matches now code db
                    (rw (same locked found) found_event) (rw (sym own) at found) w)
          ]
    ]
