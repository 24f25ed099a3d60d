-- ===== src/Payments/Service/Runs.antt =====
-- `finalize` and `verify` as steps of the payments module
-- (apps/api/src/modules/payments/payments.service.ts).
use garba_partner.Prelude.{
  ℕ, ◌≡◌, refl, ap, Bool, true, false, Option, none, some, List, inl, inr, Bool-cases,
}
use garba_partner.Table.{find_one}
use garba_partner.Api.{Result, ok, err, and_then}
use garba_partner.Payments.Model.{Order, BookingKind, RazorpayPayment, Gateway, Db}
use garba_partner.Payments.Finalize.{
  FinalizeOutcome, ignored, recorded, booked, already, refund_duplicate,
}
use garba_partner.Payments.Service.{
  after_commit, finalize_captured, finalize_order, has_razorpay_order, finalize_with, finalize,
  VerifyInput, same_order_id, verify_fetched, verify_order, verify_with, verify, booking_of,
}
use garba_partner.Payments.Refunds.Runs.{start_refund-Run}
use garba_partner.Payments.Steps as Steps
use garba_partner.Payments.Steps.{Run, next, notify, IsSnapshot, IsSound}
use garba_partner.Payments.Steps.Sound.{Run-IsSound}

module _ {start : ℕ} {origin : Db} (sound : IsSound start origin) {now : ℕ} where
  after_commit-Run :
      (gateway : Option Gateway) (outcome : FinalizeOutcome) {db : Db}
      → Run start origin now db
      → Run start origin now (after_commit gateway now outcome db)
  unfolding after_commit
  after_commit-Run gateway ignored r = r
  after_commit-Run gateway (recorded p) r = r
  after_commit-Run gateway (booked b p true) r =
      start_refund-Run gateway p (next r (notify b BookingKind.cancelled))
  after_commit-Run gateway (booked b p false) r = next r (notify b BookingKind.confirmed)
  after_commit-Run gateway (already b) r = r
  after_commit-Run gateway (refund_duplicate p) r = start_refund-Run gateway p r

  -- What a query finds in a table with keys is what its key finds.
  IsSnapshot-of_found :
      (p : Order → Bool) (order : Order) {db : Db}
      → Run start origin now db
      → find_one p db.orders ≡ some order
      → IsSnapshot order db
  IsSnapshot-of_found p order {db} r found = record {
    same_event = λ locked again.
        let by_key = (Run-IsSound sound r).keys.by_key p order found in
        let same : locked ≡ order = cc (by_key, again) in ap (λ (o : Order). o.event_id) same;
  }

  finalize_captured-Run :
      (gateway : Option Gateway) (code : List ℕ) (order : Order) (matches : Bool)
      (answer : Result RazorpayPayment) {db : Db}
      → Run start origin now db
      → IsSnapshot order db
      → Run start origin now (finalize_captured gateway now code order matches answer db).1
  unfolding finalize_captured
  finalize_captured-Run gateway code order matches (err e) r snap = r
  finalize_captured-Run gateway code order matches (ok payment) r snap =
      after_commit-Run gateway _ (next r (Steps.finalize order payment matches code snap))

  finalize_order-Run :
      (gateway : Option Gateway) (code : List ℕ) (remote : RazorpayPayment) (id : ℕ)
      (found : Option Order) {db : Db}
      → Run start origin now db
      → find_one (has_razorpay_order id) db.orders ≡ found
      → Run start origin now (finalize_order gateway now code remote found db).1
  unfolding finalize_order
  finalize_order-Run gateway code remote id none r e = r
  finalize_order-Run gateway code remote id (some order) r e =
      finalize_captured-Run gateway code order _ _ r (IsSnapshot-of_found _ order r e)

  finalize_with-Run :
      (gateway : Option Gateway) (code : List ℕ) (remote : RazorpayPayment) (id : Option ℕ)
      {db : Db}
      → Run start origin now db
      → Run start origin now (finalize_with gateway now code remote id db).1
  unfolding finalize_with
  finalize_with-Run gateway code remote none r = r
  finalize_with-Run gateway code remote (some id) r =
      finalize_order-Run gateway code remote id _ r refl

  pub finalize-Run :
      (gateway : Option Gateway) (code : List ℕ) (remote : RazorpayPayment) {db : Db}
      → Run start origin now db
      → Run start origin now (finalize gateway now code remote db).1
  unfolding finalize
  finalize-Run gateway code remote r = finalize_with-Run gateway code remote _ r

  verify_fetched-Run :
      (g : Gateway) (code : List ℕ) (own provider : ℕ) (answer : Result RazorpayPayment) {db : Db}
      → Run start origin now db
      → Run start origin now (verify_fetched g now code own provider answer db).1
  unfolding verify_fetched
  verify_fetched-Run g code own provider (err e) r = r
  verify_fetched-Run g code own provider (ok remote) {db} r =
      elim (Bool-cases (same_order_id remote.order_id provider)) [
        | inl e ↦ rw e (
            then_booking own (finalize (some g) now code remote db)
              (finalize-Run (some g) code remote r))
        | inr e ↦ rw e r
      ]
    where
      then_booking :
          (id : ℕ) (result : Result FinalizeOutcome × Db)
          → Run start origin now result.1
          → Run start origin now (and_then result (λ outcome db'. (ok (booking_of id db'), db'))).1
      then_booking id (ok outcome, db') r' = r'
      then_booking id (err e, db') r' = r'

  verify_order-Run :
      (g : Gateway) (code : List ℕ) (input : VerifyInput) (found : Option Order) {db : Db}
      → Run start origin now db
      → Run start origin now (verify_order g now code input found db).1
  unfolding verify_order
  verify_order-Run g code input none r = r
  verify_order-Run g code input (some order) r =
      elim (Bool-cases (same_order_id order.razorpay_order_id input.razorpay_order_id)) [
        | inl e ↦
            elim (Bool-cases (
              g.verify_payment_signature input.razorpay_order_id input.razorpay_payment_id
                input.razorpay_signature)) [
                  | inl v ↦
                      rw (e, v) (verify_fetched-Run g code order.id input.razorpay_order_id _ r)
                  | inr v ↦ rw (e, v) r
                ]
        | inr e ↦ rw e r
      ]

  verify_with-Run :
      (gateway : Option Gateway) (code : List ℕ) (user_id id : ℕ) (input : VerifyInput) {db : Db}
      → Run start origin now db
      → Run start origin now (verify_with gateway now code user_id id input db).1
  unfolding verify_with
  verify_with-Run none code user_id id input r = r
  verify_with-Run (some g) code user_id id input r = verify_order-Run g code input _ r

  pub verify-Run :
      (gateway : Option Gateway) (code : List ℕ) (user_id id : ℕ) (input : VerifyInput) {db : Db}
      → Run start origin now db
      → Run start origin now (verify gateway now code user_id id input db).1
  unfolding verify
  verify-Run gateway code user_id id input r = verify_with-Run gateway code user_id id input r
