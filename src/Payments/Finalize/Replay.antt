-- ===== src/Payments/Finalize/Replay.antt =====
-- The transaction of `finalize` run again for the same payment
-- (apps/api/src/modules/payments/payments.service.ts).
use garba_partner.Payments.Finalize.Capacity.{book-seats, SameSeats-record_payment}
use garba_partner.Prelude.{
  false, [], ◌∷◌, ◌++◌, ap, sym, ==_iff, true, Bool, ℕ, ◌≡◌, refl, ◌∙◌, Option, none, some, List,
  inl, inr, arith, ◌==◌, ==_refl, Bool-cases, Option-cases,
}
use garba_partner.Table.{find_one, find_one-update, find_one-append}
use garba_partner.Payments.Model.{Booking, is_captured, Event, Order, Payment, RazorpayPayment, Db}
use garba_partner.Payments.Finalize.{
  paid_at, record_payment, is_backwards, upsert_payment, refund_pending, mark_refund_pending,
  cancel_reason_of, book, has_razorpay_id, FinalizeOutcome, booked, already, settle_with, settle,
  finalize_locked, finalize_tx, is_for_order,
}

-- The row that was recorded is the row that the provider's id finds.
find-upsert :
    (found : Option Payment) (locked : Order) (remote : RazorpayPayment) (now : ℕ) (db : Db)
    → find_one (has_razorpay_id remote.id) db.payments ≡ found
    → find_one (has_razorpay_id remote.id) (upsert_payment found locked remote now db).1.payments
      ≡ some (upsert_payment found locked remote now db).0
unfolding upsert_payment
find-upsert none locked remote now db missing =
    find_one-append (has_razorpay_id remote.id) db.payments _ missing (==_refl remote.id)
find-upsert (some row) locked remote now db found =
    elim (Bool-cases (is_backwards row.status remote.status)) [
      | inl e ↦ rw e found
      | inr e ↦ rw e (
          find_one-update (has_razorpay_id remote.id) (λ p. p.id == row.id) _ db.payments
            (λ p. ground arith)
          ∙ rw found (rw (==_refl row.id)))
    ]

-- The row after `book`, found again.
pub record BookedRow (row : Payment) (remote : ℕ) (db : Db) : Type 0 where
  pub found_row : Payment
  pub found : find_one (has_razorpay_id remote) db.payments ≡ some found_row
  pub same_id : found_row.id ≡ row.id

book-BookedRow :
    (event : Event) (locked : Order) (row : Payment) (now : ℕ) (code : List ℕ) (db : Db)
    (remote : ℕ)
    → find_one (has_razorpay_id remote) db.payments ≡ some row
    → BookedRow row remote (book event locked row now code db).1
unfolding book mark_refund_pending
book-BookedRow event locked row now code db remote found =
    elim (Option-cases (cancel_reason_of event locked now db)) [
      | inl e ↦ record { found_row = row; found = rw e found; same_id = refl }
      | inr (reason, e) ↦ record {
        found_row = refund_pending row;
        found = rw e (
            find_one-update (has_razorpay_id remote) (λ p. p.id == row.id) refund_pending
              db.payments (λ p. ground arith)
            ∙ rw found (rw (==_refl row.id)));
        same_id = refl;
      }
    ]

upsert-captured :
    (y : Payment) (locked : Order) (remote : RazorpayPayment) (now : ℕ) (db : Db)
    → is_captured remote.status ≡ true
    → (is_captured (upsert_payment (some y) locked remote now db).0.status ≡ true)
      × ((upsert_payment (some y) locked remote now db).0.id ≡ y.id)
unfolding upsert_payment
upsert-captured y locked remote now db c = (ground arith, ground arith)

-- What a run that finds booking `b` leaves of `db`.
pub record Replayed (b : Booking) (db : Db) (result : FinalizeOutcome × Db) : Type 0 where
  pub outcome : result.0 ≡ already b
  pub bookings : result.1.bookings ≡ db.bookings
  pub orders : result.1.orders ≡ db.orders

settle-Replayed :
    (event : Event) (locked : Order) (row : Payment) (matches : Bool) (now : ℕ) (code : List ℕ)
    (db : Db) (b : Booking)
    → find_one (is_for_order locked.id) db.bookings ≡ some b
    → b.payment_id ≡ row.id
    → Replayed b db (settle event locked row matches now code db)
unfolding settle settle_with
settle-Replayed event locked row matches now code db b found own =
    let own' : (b.payment_id == row.id) ≡ true = (==_iff _ _).1 own in
    record { outcome = rw (found, own'); bookings = rw (found, own'); orders = rw (found, own') }

-- A run that finds the payment's row and the order's booking for it.
found_again :
    (event : Event) (locked : Order) (remote : RazorpayPayment) (matches : Bool) (now : ℕ)
    (code : List ℕ) (db : Db) (y : Payment) (b : Booking)
    → is_captured remote.status ≡ true
    → find_one (has_razorpay_id remote.id) db.payments ≡ some y
    → find_one (is_for_order locked.id) db.bookings ≡ some b
    → b.payment_id ≡ y.id
    → Replayed b db (finalize_locked (some event) (some locked) remote matches now code db)
unfolding finalize_locked record_payment
found_again event locked remote matches now code db y b c found_row found_booking own =
    let (row, db') = record_payment locked remote now db in
    let same = SameSeats-record_payment locked remote now db in
    let recorded = upsert-captured y locked remote now db c in
    let row_captured : is_captured row.status ≡ true = rw found_row recorded.0 in
    let row_id : row.id ≡ y.id = rw found_row recorded.1 in
    let done =
      settle-Replayed event locked row matches now code db' b (rw same.bookings found_booking)
        (own ∙ sym row_id) in
    rw row_captured (record {
      outcome = done.outcome;
      bookings = done.bookings ∙ same.bookings;
      orders = done.orders ∙ same.orders;
    })

settle-booked :
    (existing : Option Booking) (event : Event) (locked : Order) (row : Payment) (matches : Bool)
    (now : ℕ) (code : List ℕ) (db : Db) (b : Booking) (p : Payment) (refund : Bool)
    → (settle_with existing event locked row matches now code db).0 ≡ booked b p refund
    → (existing ≡ none)
      × (settle_with existing event locked row matches now code db
          ≡ book event locked row now code db)
      × (b.payment_id ≡ row.id)
      × (b.order_id ≡ locked.id)
      × ((settle_with existing event locked row matches now code db).1.bookings
          ≡ db.bookings ++ b ∷ [])
unfolding settle_with book
settle-booked (some x) event locked row matches now code db b p refund h = absurd (ground arith)
settle-booked none event locked row true now code db b p refund h =
    (refl, refl, ground arith, ground arith, ground arith)
settle-booked none event locked row false now code db b p refund h = absurd (ground arith)

-- The order, found again after `book`, has the key that it had.
book-order :
    (event : Event) (locked : Order) (row : Payment) (now : ℕ) (code : List ℕ) (db : Db) (id : ℕ)
    → find_one (λ o. o.id == id) db.orders ≡ some locked
    → (again : Order) × (find_one (λ o. o.id == id) (book event locked row now code db).1.orders
        ≡ some again)
      × (again.id ≡ locked.id)
book-order event locked row now code db id found = (
  paid_at now locked,
  rw (book-seats event locked row now code db 0).2 (
      find_one-update (λ o. o.id == id) (λ o. o.id == locked.id) (paid_at now) db.orders
        (λ o. ground arith)
      ∙ rw found (rw (==_refl locked.id))),
  refl,
)

book-Replayed :
    (order : Order) (event : Event) (locked : Order) (row : Payment) (remote : RazorpayPayment)
    (now : ℕ) (code : List ℕ) (db : Db) (b : Booking) (matches : Bool) (later : ℕ) (code' : List ℕ)
    → is_captured remote.status ≡ true
    → find_one (λ e. e.id == order.event_id) db.events ≡ some event
    → find_one (λ o. o.id == order.id) db.orders ≡ some locked
    → find_one (has_razorpay_id remote.id) db.payments ≡ some row
    → find_one (is_for_order locked.id) db.bookings ≡ none
    → b.payment_id ≡ row.id
    → b.order_id ≡ locked.id
    → (book event locked row now code db).1.bookings ≡ db.bookings ++ b ∷ []
    → let db' = (book event locked row now code db).1 in
      Replayed b db' (finalize_tx order remote matches later code' db')
unfolding finalize_tx
book-Replayed order event locked row remote now code db b matches later code' c found_event found
      found_row missing own own_order added =
    let db' = (book event locked row now code db).1 in
    let row' = book-BookedRow event locked row now code db remote.id found_row in
    let (again, found', same) = book-order event locked row now code db order.id found in
    let event' : find_one (λ e. e.id == order.event_id) db'.events ≡ some event =
      rw (book-seats event locked row now code db 0).0 found_event in
    let own_order' : (b.order_id == locked.id) ≡ true = (==_iff _ _).1 own_order in
    let booking' : find_one (is_for_order again.id) db'.bookings ≡ some b =
      rw (added, same)
        (find_one-append (is_for_order locked.id) db.bookings b missing own_order') in
    rw (event', found')
      (found_again event again remote matches later code' db' row'.found_row b c row'.found booking'
        (own ∙ sym row'.same_id))

finalize_found-Replayed :
    (order : Order) (event : Event) (locked : Order) (remote : RazorpayPayment) (m m' : Bool)
    (now later : ℕ) (code code' : List ℕ) (db : Db) (b : Booking) (p : Payment) (refund : Bool)
    → is_captured remote.status ≡ true
    → find_one (λ e. e.id == order.event_id) db.events ≡ some event
    → find_one (λ o. o.id == order.id) db.orders ≡ some locked
    → (finalize_locked (some event) (some locked) remote m now code db).0 ≡ booked b p refund
    → let db' = (finalize_locked (some event) (some locked) remote m now code db).1 in
      Replayed b db' (finalize_tx order remote m' later code' db')
unfolding finalize_locked settle record_payment
finalize_found-Replayed order event locked remote m m' now later code code' db b p refund c
      found_event found h =
    let recorded : Payment × Db = record_payment locked remote now db in
    let row : Payment = recorded.0 in
    let db1 : Db = recorded.1 in
    let same = SameSeats-record_payment locked remote now db in
    elim (Bool-cases (is_captured row.status)) [
      | inl k ↦
          let h' = rw k at h in
          let (missing, is_book, own, own_order, added) =
            settle-booked (find_one (is_for_order locked.id) db1.bookings) event locked row m now
              code db1 b p refund h' in
          rw k (
            rw is_book (
              book-Replayed order event locked row remote now code db1 b m' later code' c
                (rw same.events found_event) (rw same.orders found)
                (find-upsert _ locked remote now db refl) missing own own_order
                (ap (λ (r : FinalizeOutcome × Db). r.1.bookings) (sym is_book) ∙ added)))
      | inr k ↦ absurd (let h' = rw k at h in cc)
    ]

-- Once `finalize` has booked a captured payment, running it again for that payment, at any later
-- time, reports the booking as already there and leaves every order and booking as it was.
pub finalize_tx-Replayed :
    (order : Order) (remote : RazorpayPayment) (m m' : Bool) (now later : ℕ) (code code' : List ℕ)
    (db : Db) (b : Booking) (p : Payment) (refund : Bool)
    → is_captured remote.status ≡ true
    → (finalize_tx order remote m now code db).0 ≡ booked b p refund
    → let db' = (finalize_tx order remote m now code db).1 in
      Replayed b db' (finalize_tx order remote m' later code' db')
unfolding finalize_tx
finalize_tx-Replayed order remote m m' now later code code' db b p refund c h =
    elim (Option-cases (find_one (λ e. e.id == order.event_id) db.events)) [
      | inl missing ↦ absurd (let h' = rw (missing, finalize_locked) at h in cc)
      | inr (event, found_event) ↦
          elim (Option-cases (find_one (λ o. o.id == order.id) db.orders)) [
            | inl missing ↦
                absurd (let h' = rw (found_event, missing) at h in unfold finalize_locked in cc)
            | inr (locked, found) ↦
                rw (found_event, found)
                  (finalize_found-Replayed order event locked remote m m' now later code code' db b
                    p refund c found_event found (rw (found_event, found) at h))
          ]
    ]
