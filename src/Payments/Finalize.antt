-- ===== src/Payments/Finalize.antt =====
-- `finalize` (apps/api/src/modules/payments/payments.service.ts): the single place where a payment
-- of the provider changes the database.
pub mod Capacity
pub mod Keys
pub mod Booked
pub mod Single
pub mod Replay
pub mod Deliveries
use garba_partner.Prelude.{
  ℕ, ◌+◌, Bool, false, not, ◌&&◌, ◌||◌, Option, none, some, List, [], ◌∷◌, ◌++◌, ltb, leb, ◌==◌,
  if◌then◌else◌, or_else, is_some, take,
}
use garba_partner.Table.{find_one, update_where}
use garba_partner.Payments.Model.{
  Event, Order, OrderStatus, Payment, PaymentStatus, pending, unrefunded, Booking, BookingStatus,
  CancelReason, sold_out, event_unavailable, RazorpayPayment, Db, is_published, is_created,
  is_captured, is_authorized, is_failed, is_unrefunded,
}
use garba_partner.Payments.Seats.{seat_counts, SeatRow}

pub data FinalizeOutcome : Type 0 where
  ignored : FinalizeOutcome
  recorded : Payment → FinalizeOutcome
  booked : Booking → Payment → Bool → FinalizeOutcome
  already : Booking → FinalizeOutcome
  refund_duplicate : Payment → FinalizeOutcome

-- `value ? value.slice(0, max) : null`; the empty text is false too
error_text : Option (List ℕ) → ℕ → Option (List ℕ)
error_text none max = none
error_text (some []) max = none
error_text (some (c ∷ cs)) max = some (take max (c ∷ cs))

-- the status `payment.status` gives the row; 'refunded' maps to itself
abbrev recorded_fields : RazorpayPayment → Option ℕ → Payment → Payment
recorded_fields remote captured_at p = record p {
  status = remote.status;
  amount_paise = remote.amount;
  currency = remote.currency;
  method = error_text remote.method 20;
  error_code = error_text remote.error_code 60;
  error_reason = error_text remote.error_description 255;
  captured_at = captured_at;
}

-- a captured payment is never moved back to authorized or failed
abbrev is_backwards : PaymentStatus → PaymentStatus → Bool
is_backwards old new = is_captured old && (is_authorized new || is_failed new)

upsert_payment : Option Payment → Order → RazorpayPayment → ℕ → Db → Payment × Db
unfolding error_text
upsert_payment (some row) locked remote now db =
    let at =
      if is_captured remote.status then some (or_else row.captured_at now) else row.captured_at in
    if is_backwards row.status remote.status then (row, db) else (
      recorded_fields remote at row,
      record db {
        payments = update_where (λ p. p.id == row.id) (recorded_fields remote at) db.payments;
      },
    )
upsert_payment none locked remote now db =
    let row : Payment = record {
      id = db.next_id;
      order_id = locked.id;
      razorpay_payment_id = remote.id;
      status = remote.status;
      amount_paise = remote.amount;
      currency = remote.currency;
      method = error_text remote.method 20;
      error_code = error_text remote.error_code 60;
      error_reason = error_text remote.error_description 255;
      captured_at = if is_captured remote.status then some now else none;
      amount_refunded_paise = 0;
      refund_status = unrefunded;
      razorpay_refund_id = none;
      refunded_at = none;
    } in
    (row, record db { payments = db.payments ++ row ∷ []; next_id = db.next_id + 1 })

abbrev pub has_razorpay_id : ℕ → Payment → Bool
has_razorpay_id id p = p.razorpay_payment_id == id

unfoldable pub record_payment : Order → RazorpayPayment → ℕ → Db → Payment × Db
unfolding upsert_payment
record_payment locked remote now db =
    upsert_payment (find_one (has_razorpay_id remote.id) db.payments) locked remote now db

-- `row.update({ refundStatus: 'pending' })`
abbrev pub refund_pending : Payment → Payment
refund_pending p = record p { refund_status = pending }

unfoldable pub mark_refund_pending : Payment → Db → Db
mark_refund_pending row db = record db {
  payments = update_where (λ p. p.id == row.id) refund_pending db.payments;
}

over_capacity : Option ℕ → SeatRow → ℕ → Bool
over_capacity none seats quantity = false
over_capacity (some capacity) seats quantity = ltb capacity (seats.sold + seats.reserved + quantity)

-- Can the order be honoured? A live reservation always can; a lapsed one needs free seats.
unfoldable pub cancel_reason_of : Event → Order → ℕ → Db → Option CancelReason
unfolding over_capacity seat_counts
cancel_reason_of event locked now db =
    if not (is_published event.status) || leb event.ends_at now
    then some event_unavailable
    else if (not (is_created locked.status) || leb locked.expires_at now)
        && over_capacity event.pass_capacity (seat_counts event.id now (some locked.id) db)
            locked.quantity
    then some sold_out
    else none

abbrev paid_at : ℕ → Order → Order
paid_at now o = record o { status = OrderStatus.paid; paid_at = some now }

abbrev new_booking : Order → Payment → ℕ → List ℕ → ℕ → Option CancelReason → Booking
new_booking locked row now code id reason = record {
  id = id;
  code = code;
  order_id = locked.id;
  payment_id = row.id;
  user_id = locked.user_id;
  event_id = locked.event_id;
  quantity = locked.quantity;
  amount_paise = locked.amount_paise;
  status = if is_some reason then BookingStatus.cancelled else BookingStatus.confirmed;
  refund_status = if is_some reason then pending else unrefunded;
  cancel_reason = reason;
  cancelled_at = if is_some reason then some now else none;
}

-- The table's unique constraints on the code and the payment, on which the insertion can fail, are
-- left out.
unfoldable pub book : Event → Order → Payment → ℕ → List ℕ → Db → FinalizeOutcome × Db
unfolding cancel_reason_of mark_refund_pending
book event locked row now code db =
    let reason = cancel_reason_of event locked now db in
    let booking = new_booking locked row now code db.next_id reason in
    let marked = if is_some reason then mark_refund_pending row db else db in
    (
      booked booking (if is_some reason then refund_pending row else row) (is_some reason),
      record marked {
        bookings = db.bookings ++ booking ∷ [];
        orders = update_where (λ o. o.id == locked.id) (paid_at now) db.orders;
        next_id = db.next_id + 1;
      },
    )

settle_with :
    Option Booking → Event → Order → Payment → Bool → ℕ → List ℕ → Db → FinalizeOutcome × Db
unfolding book mark_refund_pending
settle_with (some existing) event locked row matches now code db =
    if existing.payment_id == row.id
    then (already existing, db)
    else if is_unrefunded row.refund_status
    then (refund_duplicate (refund_pending row), mark_refund_pending row db)
    else (already existing, db)
settle_with none event locked row matches now code db =
    if matches
    then book event locked row now code db
    else if is_unrefunded row.refund_status
    then (refund_duplicate (refund_pending row), mark_refund_pending row db)
    else (refund_duplicate row, db)

abbrev pub is_for_order : ℕ → Booking → Bool
is_for_order id b = b.order_id == id

-- what follows once the row is captured
unfoldable pub settle : Event → Order → Payment → Bool → ℕ → List ℕ → Db → FinalizeOutcome × Db
unfolding settle_with
settle event locked row matches now code db =
    settle_with (find_one (is_for_order locked.id) db.bookings) event locked row matches now code db

finalize_locked :
    Option Event → Option Order → RazorpayPayment → Bool → ℕ → List ℕ → Db → FinalizeOutcome × Db
unfolding record_payment settle
finalize_locked (some event) (some locked) remote matches now code db =
    let (row, db') = record_payment locked remote now db in
    if is_captured row.status
    then settle event locked row matches now code db'
    else (recorded row, db')
finalize_locked _ _ remote matches now code db = (ignored, db)

-- The transaction of `finalize`: the event and the order are read again under their locks, `order`
-- is what was read before the transaction.
unfoldable pub finalize_tx : Order → RazorpayPayment → Bool → ℕ → List ℕ → Db → FinalizeOutcome × Db
unfolding finalize_locked
finalize_tx order remote matches now code db =
    finalize_locked (find_one (λ e. e.id == order.event_id) db.events)
      (find_one (λ o. o.id == order.id) db.orders) remote matches now code db
