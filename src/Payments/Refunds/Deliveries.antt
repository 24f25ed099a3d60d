-- ===== src/Payments/Refunds/Deliveries.antt =====
-- Refunds and the record of webhook deliveries
-- (apps/api/src/modules/payments/payments.service.ts).
use garba_partner.Prelude.{
  List, ℕ, ◌≡◌, refl, ◌∙◌, Bool, true, false, Option, none, some, Bool-cases, inl, inr,
}
use garba_partner.Api.{Result, ok, err}
use garba_partner.Payments.Model.{
  refund_processed, refund_failed, Payment, Booking, BookingKind, RazorpayRefund, RefundStatus,
  Gateway, Db, is_processed, is_refund_failed,
}
use garba_partner.Payments.Refunds.{
  Refund, notify_booking, booking_refund, apply_refund, notify_if, answer_of, failed_refund,
  record_refund, refund_call, start_refund, refund_status_of, is_final, refund_event,
  on_refund_webhook,
}

abbrev pub SameDeliveries : Db → Db → Type 0
SameDeliveries db db' = db'.webhook_events ≡ db.webhook_events

booking_refund-SameDeliveries :
    (found : Option Booking) (status : RefundStatus) (ps : List Payment) (db : Db)
    → SameDeliveries db (booking_refund found status (record db { payments = ps })).1
unfolding booking_refund
booking_refund-SameDeliveries none status ps db = refl
booking_refund-SameDeliveries (some b) status ps db = refl

apply_refund-SameDeliveries :
    (payment : Payment) (refund : Refund) (now : ℕ) (db : Db)
    → SameDeliveries db (apply_refund payment refund now db).1
unfolding apply_refund
apply_refund-SameDeliveries payment refund now db =
    booking_refund-SameDeliveries _ refund.status _ db

notify_if-SameDeliveries :
    (test : Bool) (found : Option Booking) (kind : BookingKind) (db : Db)
    → SameDeliveries db (notify_if test found kind db)
unfolding notify_if notify_booking
notify_if-SameDeliveries true (some b) kind db = refl
notify_if-SameDeliveries true none kind db = refl
notify_if-SameDeliveries false found kind db = refl

record_refund-SameDeliveries :
    (answer : Result RazorpayRefund) (payment : Payment) (now : ℕ) (db : Db)
    → SameDeliveries db (record_refund answer payment now db)
unfolding record_refund
record_refund-SameDeliveries (ok refund) payment now db =
    let (updated, db') = apply_refund payment (answer_of refund) now db in
    notify_if-SameDeliveries (is_processed refund.status) updated refund_processed db'
    ∙ apply_refund-SameDeliveries payment (answer_of refund) now db
record_refund-SameDeliveries (err e) payment now db =
    let (updated, db') = apply_refund payment failed_refund now db in
    notify_if-SameDeliveries true updated refund_failed db'
    ∙ apply_refund-SameDeliveries payment failed_refund now db

pub start_refund-SameDeliveries :
    (gateway : Option Gateway) (payment : Payment) (now : ℕ) (db : Db)
    → SameDeliveries db (start_refund gateway payment now db)
unfolding start_refund
start_refund-SameDeliveries gateway payment now db =
    record_refund-SameDeliveries (refund_call gateway payment) payment now db

refund_event-SameDeliveries :
    (found : Option Payment) (refund : RazorpayRefund) (now : ℕ) (db : Db)
    → SameDeliveries db (refund_event found refund now db)
unfolding refund_event
refund_event-SameDeliveries none refund now db = refl
refund_event-SameDeliveries (some payment) refund now db =
    let status = refund_status_of refund.status in
    let (updated, db') = apply_refund payment (answer_of refund) now db in
    let told = notify_if (is_processed status) updated refund_processed db' in
    elim (Bool-cases (is_final payment.refund_status status)) [
      | inl e ↦ rw e refl
      | inr e ↦ rw e (
          notify_if-SameDeliveries (is_refund_failed status) updated refund_failed told
          ∙ notify_if-SameDeliveries (is_processed status) updated refund_processed db'
          ∙ apply_refund-SameDeliveries payment (answer_of refund) now db)
    ]

pub on_refund_webhook-SameDeliveries :
    (refund : RazorpayRefund) (now : ℕ) (db : Db)
    → SameDeliveries db (on_refund_webhook refund now db)
unfolding on_refund_webhook
on_refund_webhook-SameDeliveries refund now db = refund_event-SameDeliveries _ refund now db
