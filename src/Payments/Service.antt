-- ===== src/Payments/Service.antt =====
-- `finalize` as its callers run it (apps/api/src/modules/payments/payments.service.ts): the reads
-- before the transaction, the capture of an authorized payment, the transaction, and what follows
-- the commit; and `verify`, which checkout calls.
pub mod Runs
pub mod Deliveries
pub mod Booked
use garba_partner.Prelude.{
  ℕ, Bool, true, false, not, ◌&&◌, Option, none, some, List, ◌==◌, if◌then◌else◌,
}
use text.Mathlib.Text.{◌==◌ as str_eq}
use garba_partner.Table.{find_one}
use garba_partner.Api.{
  Result, ok, err, Handler, and_then, not_found, payments_unavailable, payment_verification_failed,
}
use garba_partner.Payments.Model.{
  Order, Booking, BookingKind, RazorpayPayment, Gateway, Db, is_authorized,
}
use garba_partner.Payments.Finalize.{
  FinalizeOutcome, ignored, booked, refund_duplicate, is_for_order, finalize_tx,
}
use garba_partner.Payments.Refunds.{notify_booking, start_refund}

-- After the commit: automatic refunds and notifications.
unfoldable pub after_commit : Option Gateway → ℕ → FinalizeOutcome → Db → Db
unfolding notify_booking start_refund
after_commit gateway now (booked b payment true) db =
    start_refund gateway payment now (notify_booking b BookingKind.cancelled db)
after_commit gateway now (booked b payment false) db = notify_booking b BookingKind.confirmed db
after_commit gateway now (refund_duplicate payment) db = start_refund gateway payment now db
after_commit gateway now _ db = db

retry_fetch : Gateway → ℕ → Result RazorpayPayment → Result RazorpayPayment
retry_fetch g id (ok payment) = ok payment
retry_fetch g id (err e) = g.fetch_payment id

capture_with : Option Gateway → ℕ → ℕ → Result RazorpayPayment
unfolding retry_fetch
capture_with none id amount = err payments_unavailable
capture_with (some g) id amount = retry_fetch g id (g.capture_payment id amount)

unfoldable pub matches_order : RazorpayPayment → Order → Bool
matches_order remote order = remote.amount == order.amount_paise && str_eq remote.currency "INR"

-- An authorized payment for the order's amount is captured; a failed capture reads it again.
unfoldable pub captured_payment : Option Gateway → RazorpayPayment → Order → Result RazorpayPayment
unfolding capture_with matches_order
captured_payment gateway remote order =
    let capture = capture_with gateway remote.id order.amount_paise in
    if is_authorized remote.status && matches_order remote order then capture else ok remote

finalize_captured :
    Option Gateway → ℕ → List ℕ → Order → Bool → Result RazorpayPayment → Handler Db FinalizeOutcome
unfolding finalize_tx after_commit
finalize_captured gateway now code order matches (err e) db = (err e, db)
finalize_captured gateway now code order matches (ok payment) db =
    let (outcome, db') = finalize_tx order payment matches now code db in
    (ok outcome, after_commit gateway now outcome db')

finalize_order :
    Option Gateway → ℕ → List ℕ → RazorpayPayment → Option Order → Handler Db FinalizeOutcome
unfolding finalize_captured captured_payment matches_order
finalize_order gateway now code remote none db = (ok ignored, db)
finalize_order gateway now code remote (some order) db =
    finalize_captured gateway now code order (matches_order remote order)
      (captured_payment gateway remote order) db

abbrev pub has_razorpay_order : ℕ → Order → Bool
has_razorpay_order id o = elim o.razorpay_order_id [ none ↦ false | some r ↦ r == id ]

finalize_with :
    Option Gateway → ℕ → List ℕ → RazorpayPayment → Option ℕ → Handler Db FinalizeOutcome
unfolding finalize_order
finalize_with gateway now code remote none db = (ok ignored, db)
finalize_with gateway now code remote (some order_id) db =
    finalize_order gateway now code remote (find_one (has_razorpay_order order_id) db.orders) db

unfoldable pub finalize : Option Gateway → ℕ → List ℕ → RazorpayPayment → Handler Db FinalizeOutcome
unfolding finalize_with
finalize gateway now code remote db = finalize_with gateway now code remote remote.order_id db

-- The booking that `verify` and `getOrder` report for an order.
abbrev pub booking_of : ℕ → Db → Option Booking
booking_of order_id db = find_one (is_for_order order_id) db.bookings

abbrev pub is_owned : ℕ → ℕ → Order → Bool
is_owned user_id id o = o.id == id && o.user_id == user_id

unfoldable pub get_order : ℕ → ℕ → Handler Db Order
get_order user_id id db = elim (find_one (is_owned user_id id) db.orders) [
  | none ↦ (err not_found, db)
  | some o ↦ (ok o, db)
]

unfoldable pub get_booking : ℕ → ℕ → Handler Db Booking
get_booking user_id id db = elim (find_one (λ b. b.id == id && b.user_id == user_id) db.bookings) [
  | none ↦ (err not_found, db)
  | some b ↦ (ok b, db)
]

pub record VerifyInput : Type 0 where
  pub razorpay_order_id : ℕ
  pub razorpay_payment_id : ℕ
  pub razorpay_signature : ℕ

abbrev same_order_id : Option ℕ → ℕ → Bool
same_order_id none id = false
same_order_id (some x) id = x == id

verify_fetched : Gateway → ℕ → List ℕ → ℕ → ℕ → Result RazorpayPayment → Handler Db (Option Booking)
unfolding finalize
verify_fetched g now code order_id razorpay_order_id (err e) db = (err e, db)
verify_fetched g now code order_id razorpay_order_id (ok remote) db =
    if not (same_order_id remote.order_id razorpay_order_id)
    then (err payment_verification_failed, db)
    else and_then (finalize (some g) now code remote db)
        (λ outcome db'. (ok (booking_of order_id db'), db'))

verify_order : Gateway → ℕ → List ℕ → VerifyInput → Option Order → Handler Db (Option Booking)
unfolding verify_fetched
verify_order g now code input none db = (err not_found, db)
verify_order g now code input (some order) db =
    if not (same_order_id order.razorpay_order_id input.razorpay_order_id)
    then (err payment_verification_failed, db)
    else if not (
        g.verify_payment_signature input.razorpay_order_id input.razorpay_payment_id
          input.razorpay_signature)
    then (err payment_verification_failed, db)
    else verify_fetched g now code order.id input.razorpay_order_id
        (g.fetch_payment input.razorpay_payment_id) db

verify_with : Option Gateway → ℕ → List ℕ → ℕ → ℕ → VerifyInput → Handler Db (Option Booking)
unfolding verify_order
verify_with none now code user_id order_id input db = (err payments_unavailable, db)
verify_with (some g) now code user_id order_id input db =
    verify_order g now code input (find_one (is_owned user_id order_id) db.orders) db

unfoldable pub verify :
    Option Gateway → ℕ → List ℕ → ℕ → ℕ → VerifyInput → Handler Db (Option Booking)
unfolding verify_with
verify gateway now code user_id order_id input db =
    verify_with gateway now code user_id order_id input db
