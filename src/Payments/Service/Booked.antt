-- ===== src/Payments/Service/Booked.antt =====
-- What `finalize` books (apps/api/src/modules/payments/payments.service.ts).
use text.Mathlib.Text.{◌==◌ as str_eq}
use garba_partner.Prelude.{
  ℕ, ◌≡◌, refl, sym, ap, ◌∙◌, Bool, true, Option, none, some, List, inl, inr, arith, Option-cases,
  if◌then◌else◌, ◌==◌,
}
use garba_partner.Table.{find_one, find_one-holds}
use garba_partner.Api.{Result, ok, err}
use garba_partner.Payments.Keys.{HasOrderKeys}
use garba_partner.Payments.Model.{
  Order, Payment, Booking, BookingStatus, RazorpayPayment, Gateway, Db, is_captured,
}
use garba_partner.Payments.Finalize.{booked}
use garba_partner.Payments.Finalize.Booked.{BookedFor, finalize_tx-BookedFor}
use garba_partner.Payments.Service.{
  matches_order, captured_payment, finalize_captured, finalize_order, has_razorpay_order,
  finalize_with, finalize,
}

-- What a booking by `finalize` says of the payment that was reported, and of the order.
pub record PaidFor (remote : RazorpayPayment) (db : Db) (b : Booking) (p : Payment) (refund : Bool)
    : Type 0 where
  pub order : Order
  pub stored : find_one (λ o. o.id == order.id) db.orders ≡ some order
  pub same_order : order.razorpay_order_id ≡ remote.order_id
  pub paid_in_full : remote.amount ≡ order.amount_paise
  pub in_rupees : str_eq remote.currency "INR" ≡ true
  pub for_order : b.order_id ≡ order.id
  pub amount : b.amount_paise ≡ remote.amount
  pub quantity : b.quantity ≡ order.quantity
  pub captured_payment : is_captured p.status ≡ true
  pub own_payment : b.payment_id ≡ p.id
  pub confirmed_or_refunded :
      (b.status ≡ (if refund then BookingStatus.cancelled else BookingStatus.confirmed))

captured-BookedFor :
    (gateway : Option Gateway) (now : ℕ) (code : List ℕ) (order : Order) (matches : Bool)
    (answer : Result RazorpayPayment) (db : Db) (b : Booking) (p : Payment) (refund : Bool)
    → find_one (λ o. o.id == order.id) db.orders ≡ some order
    → (finalize_captured gateway now code order matches answer db).0 ≡ ok (booked b p refund)
    → BookedFor order matches b p refund
unfolding finalize_captured
captured-BookedFor gateway now code order matches (err e) db b p refund stored h = absurd (cc)
captured-BookedFor gateway now code order matches (ok payment) db b p refund stored h =
    finalize_tx-BookedFor order payment matches now code db b p refund stored cc

has_razorpay_order-same :
    (id : ℕ) (o : Order) → has_razorpay_order id o ≡ true → o.razorpay_order_id ≡ some id
has_razorpay_order-same id o h = elim (Option-cases o.razorpay_order_id) [
  | inl e ↦ absurd (let h' = rw e at h in cc)
  | inr (r, e) ↦ e ∙ ap some (let h' : (r == id) ≡ true = rw e at h in ground (arith, h'))
]

finalize_with-PaidFor :
    (gateway : Option Gateway) (now : ℕ) (code : List ℕ) (remote : RazorpayPayment)
    (provider_id : Option ℕ) (db : Db) (b : Booking) (p : Payment) (refund : Bool)
    → remote.order_id ≡ provider_id
    → HasOrderKeys db
    → (finalize_with gateway now code remote provider_id db).0 ≡ ok (booked b p refund)
    → PaidFor remote db b p refund
unfolding finalize_with finalize_order matches_order
finalize_with-PaidFor gateway now code remote none db b p refund e keys h = absurd (cc)
finalize_with-PaidFor gateway now code remote (some id) db b p refund e keys h =
    elim (Option-cases (find_one (has_razorpay_order id) db.orders)) [
      | inl miss ↦ absurd (let h' = rw miss at h in cc)
      | inr (order, found) ↦
          let stored = keys.by_key _ order found in
          let run =
            captured-BookedFor gateway now code order (matches_order remote order)
              (captured_payment gateway remote order) db b p refund stored (rw found at h) in
          let same =
            has_razorpay_order-same id order
              (find_one-holds (has_razorpay_order id) db.orders found) in
          let matched = run.amount_matched in
          let full : remote.amount ≡ order.amount_paise = ground (arith, matched) in
          record {
            order = order;
            stored = stored;
            same_order = same ∙ sym e;
            paid_in_full = full;
            in_rupees = ground (arith, matched);
            for_order = run.for_order;
            amount = run.amount ∙ sym full;
            quantity = run.quantity;
            captured_payment = run.captured_payment;
            own_payment = run.own_payment;
            confirmed_or_refunded = run.confirmed_or_refunded;
          }
    ]

-- Where order ids are a key: if `finalize` of a payment that the provider reports books, then the
-- payment names a stored order by its provider's id, its amount is the order's amount and in rupees,
-- and the booking is for that order, with that amount and the order's passes, and is of the row of
-- the payment, which is captured: confirmed, or cancelled where it is to be refunded.
pub finalize-PaidFor :
    (gateway : Option Gateway) (now : ℕ) (code : List ℕ) (remote : RazorpayPayment) (db : Db)
    (b : Booking) (p : Payment) (refund : Bool)
    → HasOrderKeys db
    → (finalize gateway now code remote db).0 ≡ ok (booked b p refund)
    → PaidFor remote db b p refund
unfolding finalize
finalize-PaidFor gateway now code remote db b p refund keys h =
    finalize_with-PaidFor gateway now code remote remote.order_id db b p refund refl keys h
