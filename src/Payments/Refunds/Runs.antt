-- ===== src/Payments/Refunds/Runs.antt =====
-- The refund handlers as steps of the payments module
-- (apps/api/src/modules/payments/payments.service.ts).
use garba_partner.Prelude.{ℕ, String, Bool, true, false, Option, none, some, inl, inr, Bool-cases}
use garba_partner.Api.{Result, ok, err, rollback}
use garba_partner.Payments.Model.{
  Payment, Booking, BookingKind, RazorpayRefund, Gateway, Db, is_processed, is_refund_failed,
  refund_processed, refund_failed,
}
use garba_partner.Payments.Refunds.{
  is_final, refund_status_of, answer_of, failed_refund, notify_booking, notify_if, apply_refund,
  record_refund, start_refund, refund_event, on_refund_webhook, RefundTarget, refund_booking_tx,
  after_refund_tx, refund_with,
}
use garba_partner.Payments.Refunds
use garba_partner.Payments.Steps.{Run, next, refund, refund_booking, notify}

module _ {start : ℕ} {origin : Db} {now : ℕ} where
  notify_if-Run :
      (b : Bool) (found : Option Booking) (kind : BookingKind) {db : Db}
      → Run start origin now db
      → Run start origin now (notify_if b found kind db)
  unfolding notify_if
  notify_if-Run true (some b) kind r = next r (notify b kind)
  notify_if-Run true none kind r = r
  notify_if-Run false found kind r = r

  noted-Run :
      (b : Bool) (kind : BookingKind) (result : Option Booking × Db)
      → Run start origin now result.1
      → Run start origin now (notify_if b result.0 kind result.1)
  noted-Run b kind (found, db) r = notify_if-Run b found kind r

  record_refund-Run :
      (answer : Result RazorpayRefund) (payment : Payment) {db : Db}
      → Run start origin now db
      → Run start origin now (record_refund answer payment now db)
  unfolding record_refund
  record_refund-Run (ok a) payment {db} r =
      noted-Run (is_processed a.status) refund_processed (apply_refund payment (answer_of a) now db)
        (next r (refund payment (answer_of a)))
  record_refund-Run (err e) payment {db} r =
      noted-Run true refund_failed (apply_refund payment failed_refund now db)
        (next r (refund payment failed_refund))

  pub start_refund-Run :
      (gateway : Option Gateway) (payment : Payment) {db : Db}
      → Run start origin now db
      → Run start origin now (start_refund gateway payment now db)
  unfolding start_refund
  start_refund-Run gateway payment r = record_refund-Run _ payment r

  refund_event-Run :
      (found : Option Payment) (answer : RazorpayRefund) {db : Db}
      → Run start origin now db
      → Run start origin now (refund_event found answer now db)
  unfolding refund_event
  refund_event-Run none answer r = r
  refund_event-Run (some payment) answer {db} r =
      let status = refund_status_of answer.status in
      let applied = apply_refund payment (answer_of answer) now db in
      elim (Bool-cases (is_final payment.refund_status status)) [
        | inl e ↦ rw e r
        | inr e ↦ rw e (
            notify_if-Run (is_refund_failed status) applied.0 refund_failed (
              noted-Run (is_processed status) refund_processed applied
                (next r (refund payment (answer_of answer)))))
      ]

  pub on_refund_webhook-Run :
      (answer : RazorpayRefund) {db : Db}
      → Run start origin now db
      → Run start origin now (on_refund_webhook answer now db)
  unfolding on_refund_webhook
  on_refund_webhook-Run answer r = refund_event-Run _ answer r

  -- `after_refund_tx` waits for the transaction's result: split on it, keeping its state.
  after_refund_tx-Run :
      (gateway : Option Gateway) (result : Result RefundTarget) {db : Db}
      → Run start origin now db
      → Run start origin now (after_refund_tx gateway now (result, db)).1
  unfolding after_refund_tx
  after_refund_tx-Run gateway (err e) r = r
  after_refund_tx-Run gateway (ok target) r = elim (Bool-cases target.retry) [
    | inl e ↦ rw e (start_refund-Run gateway target.payment r)
    | inr e ↦ rw e (
        start_refund-Run gateway target.payment
          (next r (notify target.booking BookingKind.cancelled)))
  ]

  rolled_back-Run :
      (g : Gateway) (result : Result RefundTarget × Db) {db : Db}
      → Run start origin now db
      → Run start origin now result.1
      → Run start origin now (after_refund_tx (some g) now (rollback db result)).1
  rolled_back-Run g (ok target, db') r r' = after_refund_tx-Run (some g) (ok target) r'
  rolled_back-Run g (err e, db') r r' = after_refund_tx-Run (some g) (err e) r

  refund_with-Run :
      (gateway : Option Gateway) (admin_id booking_id : ℕ) (reason : String) {db : Db}
      → Run start origin now db
      → Run start origin now (refund_with gateway admin_id booking_id reason now db).1
  unfolding refund_with
  refund_with-Run none admin_id booking_id reason r = r
  refund_with-Run (some g) admin_id booking_id reason {db} r =
      rolled_back-Run g (refund_booking_tx admin_id booking_id reason now db) r
        (next r (refund_booking admin_id booking_id reason))

  pub refund_booking-Run :
      (gateway : Option Gateway) (admin_id booking_id : ℕ) (reason : String) {db : Db}
      → Run start origin now db
      → Run start origin now (Refunds.refund_booking gateway admin_id booking_id reason now db).1
  unfolding Refunds.refund_booking
  refund_booking-Run gateway admin_id booking_id reason r =
      refund_with-Run gateway admin_id booking_id reason r
