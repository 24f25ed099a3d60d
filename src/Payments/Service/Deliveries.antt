-- ===== src/Payments/Service/Deliveries.antt =====
-- `finalize` and the record of webhook deliveries
-- (apps/api/src/modules/payments/payments.service.ts).
use garba_partner.Prelude.{ℕ, refl, ◌∙◌, Bool, true, false, Option, none, some, List}
use garba_partner.Api.{Result, ok, err}
use garba_partner.Payments.Model.{Order, RazorpayPayment, Gateway, Db, BookingKind}
use garba_partner.Payments.Finalize.{
  FinalizeOutcome, ignored, recorded, booked, already, refund_duplicate,
}
use garba_partner.Payments.Finalize.Deliveries.{finalize_tx-SameDeliveries}
use garba_partner.Payments.Refunds.{notify_booking}
use garba_partner.Payments.Refunds.Deliveries.{SameDeliveries, start_refund-SameDeliveries}
use garba_partner.Payments.Service.{
  after_commit, finalize_captured, finalize_order, finalize_with, finalize,
}

after_commit-SameDeliveries :
    (gateway : Option Gateway) (now : ℕ) (outcome : FinalizeOutcome) (db : Db)
    → SameDeliveries db (after_commit gateway now outcome db)
unfolding after_commit notify_booking
after_commit-SameDeliveries gateway now (booked b p true) db =
    start_refund-SameDeliveries gateway p now (notify_booking b BookingKind.cancelled db)
after_commit-SameDeliveries gateway now (booked b p false) db = refl
after_commit-SameDeliveries gateway now (refund_duplicate p) db =
    start_refund-SameDeliveries gateway p now db
after_commit-SameDeliveries gateway now ignored db = refl
after_commit-SameDeliveries gateway now (recorded p) db = refl
after_commit-SameDeliveries gateway now (already b) db = refl

finalize_captured-SameDeliveries :
    (gateway : Option Gateway) (now : ℕ) (code : List ℕ) (order : Order) (matches : Bool)
    (payment : Result RazorpayPayment) (db : Db)
    → SameDeliveries db (finalize_captured gateway now code order matches payment db).1
unfolding finalize_captured
finalize_captured-SameDeliveries gateway now code order matches (err e) db = refl
finalize_captured-SameDeliveries gateway now code order matches (ok payment) db =
    after_commit-SameDeliveries gateway now _ _
    ∙ finalize_tx-SameDeliveries order payment matches now code db

finalize_order-SameDeliveries :
    (gateway : Option Gateway) (now : ℕ) (code : List ℕ) (remote : RazorpayPayment)
    (found : Option Order) (db : Db)
    → SameDeliveries db (finalize_order gateway now code remote found db).1
unfolding finalize_order
finalize_order-SameDeliveries gateway now code remote none db = refl
finalize_order-SameDeliveries gateway now code remote (some order) db =
    finalize_captured-SameDeliveries gateway now code order _ _ db

finalize_with-SameDeliveries :
    (gateway : Option Gateway) (now : ℕ) (code : List ℕ) (remote : RazorpayPayment)
    (order_id : Option ℕ) (db : Db)
    → SameDeliveries db (finalize_with gateway now code remote order_id db).1
unfolding finalize_with
finalize_with-SameDeliveries gateway now code remote none db = refl
finalize_with-SameDeliveries gateway now code remote (some order_id) db =
    finalize_order-SameDeliveries gateway now code remote _ db

pub finalize-SameDeliveries :
    (gateway : Option Gateway) (now : ℕ) (code : List ℕ) (remote : RazorpayPayment) (db : Db)
    → SameDeliveries db (finalize gateway now code remote db).1
unfolding finalize
finalize-SameDeliveries gateway now code remote db =
    finalize_with-SameDeliveries gateway now code remote remote.order_id db
