-- ===== src/Payments/Refunds.antt =====
-- Refunds (apps/api/src/modules/payments/payments.service.ts): the call of the provider, what is
-- recorded of its answer, the refund webhook, and the admin's refund of a booking.
pub mod Runs
pub mod Once
pub mod Capacity
pub mod Deliveries
use garba_partner.Prelude.{
  ℕ, ◌-◌, String, Bool, true, not, ◌&&◌, ◌||◌, Option, none, some, [], ◌∷◌, ◌++◌, ◌==◌,
  if◌then◌else◌, or_else, min,
}
use garba_partner.Table.{find_one, update_where}
use garba_partner.Api.{
  Result, ok, err, Handler, transaction, not_found, conflict, payments_unavailable,
}
use garba_partner.Payments.Model.{
  Payment, PaymentStatus, pending, processed, RefundStatus, Booking, BookingStatus, BookingKind,
  admin_refund, RazorpayRefund, Gateway, Notice, RefundAudit, Db, is_captured, is_pending,
  is_processed, is_refund_failed, refund_processed, refund_failed,
}
use garba_partner.Payments.Finalize.{refund_pending}

unfoldable pub notify_booking : Booking → BookingKind → Db → Db
notify_booking b kind db =
    let notice : Notice = record {
      user_id = b.user_id;
      booking_id = b.id;
      event_id = b.event_id;
      kind = kind;
    } in
    record db { outbox = db.outbox ++ notice ∷ [] }

unfoldable pub refund_status_of : RefundStatus → RefundStatus
refund_status_of processed = processed
refund_status_of RefundStatus.failed = RefundStatus.failed
refund_status_of _ = pending

-- the answer to a refund: the provider's, or `none` for the id where the call failed
pub record Refund : Type 0 where
  pub id : Option ℕ
  pub amount : ℕ
  pub status : RefundStatus

abbrev pub refund_id : Option ℕ → Option ℕ → Option ℕ
refund_id (some id) old = some id
refund_id none old = old

-- The row as `payment.update` leaves it; the fields come from the payment that was read.
abbrev pub refunded_row : Payment → Refund → ℕ → Payment → Payment
refunded_row payment refund now p = record p {
  refund_status = refund.status;
  razorpay_refund_id = refund_id refund.id payment.razorpay_refund_id;
  status = if is_processed refund.status then PaymentStatus.refunded else p.status;
  amount_refunded_paise =
      if is_processed refund.status
      then min payment.amount_paise refund.amount
      else p.amount_refunded_paise;
  refunded_at =
      if is_processed refund.status then some (or_else payment.refunded_at now) else p.refunded_at;
}

abbrev pub is_paid_by : ℕ → Booking → Bool
is_paid_by payment_id b = b.payment_id == payment_id

abbrev pub with_refund_status : RefundStatus → Booking → Booking
with_refund_status status b = record b { refund_status = status }

booking_refund : Option Booking → RefundStatus → Db → Option Booking × Db
booking_refund none status db = (none, db)
booking_refund (some b) status db = (
  some (with_refund_status status b),
  record db { bookings = update_where (λ c. c.id == b.id) (with_refund_status status) db.bookings },
)

unfoldable pub apply_refund : Payment → Refund → ℕ → Db → Option Booking × Db
unfolding booking_refund
apply_refund payment refund now db =
    booking_refund (find_one (is_paid_by payment.id) db.bookings) refund.status (record db {
      payments =
          update_where (λ p. p.id == payment.id) (refunded_row payment refund now) db.payments;
    })

notify_if : Bool → Option Booking → BookingKind → Db → Db
unfolding notify_booking
notify_if true (some b) kind db = notify_booking b kind db
notify_if _ _ kind db = db

-- the call of the provider; without a gateway it throws like any other failure
refund_call : Option Gateway → Payment → Result RazorpayRefund
refund_call none payment = err payments_unavailable
refund_call (some g) payment =
    g.refund_payment payment.razorpay_payment_id
      (payment.amount_paise - payment.amount_refunded_paise)

abbrev pub answer_of : RazorpayRefund → Refund
answer_of refund = record {
  id = some refund.id;
  amount = refund.amount;
  status = refund_status_of refund.status;
}

-- what is recorded where the call throws
abbrev pub failed_refund : Refund
failed_refund = record { id = none; amount = 0; status = RefundStatus.failed }

record_refund : Result RazorpayRefund → Payment → ℕ → Db → Db
unfolding apply_refund notify_if refund_status_of
record_refund (ok refund) payment now db =
    let (updated, db') = apply_refund payment (answer_of refund) now db in
    notify_if (is_processed refund.status) updated refund_processed db'
record_refund (err e) payment now db =
    let (updated, db') = apply_refund payment failed_refund now db in
    notify_if true updated refund_failed db'

-- Failures are recorded, not thrown.
unfoldable pub start_refund : Option Gateway → Payment → ℕ → Db → Db
unfolding refund_call record_refund
start_refund gateway payment now db = record_refund (refund_call gateway payment) payment now db

abbrev pub is_final : RefundStatus → RefundStatus → Bool
is_final old new = is_processed old || (is_refund_failed old && is_pending new)

refund_event : Option Payment → RazorpayRefund → ℕ → Db → Db
unfolding apply_refund notify_if refund_status_of
refund_event none refund now db = db
refund_event (some payment) refund now db =
    let status = refund_status_of refund.status in
    let (updated, db') = apply_refund payment (answer_of refund) now db in
    if is_final payment.refund_status status
    then db
    else notify_if (is_refund_failed status) updated refund_failed
        (notify_if (is_processed status) updated refund_processed db')

unfoldable pub on_refund_webhook : RazorpayRefund → ℕ → Db → Db
unfolding refund_event
on_refund_webhook refund now db =
    refund_event (find_one (λ p. p.razorpay_payment_id == refund.payment_id) db.payments) refund now
      db

-- What the transaction of `refundBooking` hands on.
pub record RefundTarget : Type 0 where
  pub booking : Booking
  pub payment : Payment
  pub retry : Bool

abbrev pub cancelled_by_admin : ℕ → Booking → Booking
cancelled_by_admin now b = record b {
  status = BookingStatus.cancelled;
  cancel_reason = some (or_else b.cancel_reason admin_refund);
  cancelled_at = some (or_else b.cancelled_at now);
  refund_status = pending;
}

refund_payment_of : Option Payment → Booking → ℕ → String → ℕ → Db → Result RefundTarget × Db
refund_payment_of none b admin_id reason now db = (err conflict, db)
refund_payment_of (some payment) b admin_id reason now db =
    let retry = is_refund_failed b.refund_status in
    let entry : RefundAudit = record {
      admin_id = admin_id;
      retry = retry;
      booking_id = b.id;
      reason = reason;
      amount_paise = payment.amount_paise - payment.amount_refunded_paise;
    } in
    if not (is_captured payment.status) then (err conflict, db) else (
      ok (record {
        booking = cancelled_by_admin now b;
        payment = refund_pending payment;
        retry = retry;
      }),
      record db {
        bookings = update_where (λ c. c.id == b.id) (cancelled_by_admin now) db.bookings;
        payments = update_where (λ p. p.id == payment.id) refund_pending db.payments;
        audit = db.audit ++ entry ∷ [];
      },
    )

refund_booking_of : Option Booking → ℕ → String → ℕ → Db → Result RefundTarget × Db
unfolding refund_payment_of
refund_booking_of none admin_id reason now db = (err not_found, db)
refund_booking_of (some b) admin_id reason now db =
    if is_pending b.refund_status || is_processed b.refund_status
    then (err conflict, db)
    else refund_payment_of (find_one (λ p. p.id == b.payment_id) db.payments) b admin_id reason now
        db

unfoldable pub refund_booking_tx : ℕ → ℕ → String → ℕ → Handler Db RefundTarget
unfolding refund_booking_of
refund_booking_tx admin_id booking_id reason now db =
    refund_booking_of (find_one (λ b. b.id == booking_id) db.bookings) admin_id reason now db

after_refund_tx : Option Gateway → ℕ → Result RefundTarget × Db → Result (Unit {0}) × Db
unfolding notify_booking start_refund
after_refund_tx gateway now (err e, db) = (err e, db)
after_refund_tx gateway now (ok target, db) =
    let noticed =
      if target.retry then db else notify_booking target.booking BookingKind.cancelled db in
    (ok tt, start_refund gateway target.payment now noticed)

refund_with : Option Gateway → ℕ → ℕ → String → ℕ → Db → Result (Unit {0}) × Db
unfolding refund_booking_tx after_refund_tx
refund_with none admin_id booking_id reason now db = (err payments_unavailable, db)
refund_with (some g) admin_id booking_id reason now db =
    after_refund_tx (some g) now (transaction (refund_booking_tx admin_id booking_id reason now) db)

unfoldable pub refund_booking : Option Gateway → ℕ → ℕ → String → ℕ → Handler Db (Unit {0})
unfolding refund_with
refund_booking gateway admin_id booking_id reason now db =
    refund_with gateway admin_id booking_id reason now db
