-- ===== src/Payments/Finalize/Booked.antt =====
-- What a booking made by `finalize` goes with
-- (apps/api/src/modules/payments/payments.service.ts).
use garba_partner.Prelude.{
  ℕ, ◌≡◌, true, false, Bool, Option, none, some, List, inl, inr, arith, Bool-cases, Option-cases,
  if◌then◌else◌, ◌==◌,
}
use garba_partner.Table.{find_one}
use garba_partner.Payments.Model.{
  Event, Order, Payment, Booking, BookingStatus, RazorpayPayment, Db, is_captured,
}
use garba_partner.Payments.Finalize.{
  booked, record_payment, cancel_reason_of, book, settle_with, settle, finalize_locked, finalize_tx,
}

-- What a booked outcome says of the run on the order that it locked.
pub record BookedFor (order : Order) (matches : Bool) (b : Booking) (p : Payment) (refund : Bool)
    : Type 0 where
  pub amount_matched : matches ≡ true
  pub for_order : b.order_id ≡ order.id
  pub amount : b.amount_paise ≡ order.amount_paise
  pub quantity : b.quantity ≡ order.quantity
  pub captured_payment : is_captured p.status ≡ true
  pub own_payment : b.payment_id ≡ p.id
  pub confirmed_or_refunded :
      (b.status ≡ (if refund then BookingStatus.cancelled else BookingStatus.confirmed))

book-BookedFor :
    (event : Event) (locked : Order) (row : Payment) (now : ℕ) (code : List ℕ) (db : Db)
    (b : Booking) (p : Payment) (refund : Bool)
    → is_captured row.status ≡ true
    → (book event locked row now code db).0 ≡ booked b p refund
    → BookedFor locked true b p refund
unfolding book
book-BookedFor event locked row now code db b p refund c h =
    elim (Option-cases (cancel_reason_of event locked now db)) [
      | inl e ↦ ground arith
      | inr (reason, e) ↦ ground arith
    ]

settle_with-BookedFor :
    (existing : Option Booking) (event : Event) (locked : Order) (row : Payment) (matches : Bool)
    (now : ℕ) (code : List ℕ) (db : Db) (b : Booking) (p : Payment) (refund : Bool)
    → is_captured row.status ≡ true
    → (settle_with existing event locked row matches now code db).0 ≡ booked b p refund
    → BookedFor locked matches b p refund
unfolding settle_with
settle_with-BookedFor (some x) event locked row matches now code db b p refund c h =
    absurd (ground arith)
settle_with-BookedFor none event locked row true now code db b p refund c h =
    book-BookedFor event locked row now code db b p refund c h
settle_with-BookedFor none event locked row false now code db b p refund c h = absurd (ground arith)

finalize_locked-BookedFor :
    (event : Option Event) (locked : Order) (remote : RazorpayPayment) (matches : Bool) (now : ℕ)
    (code : List ℕ) (db : Db) (b : Booking) (p : Payment) (refund : Bool)
    → (finalize_locked event (some locked) remote matches now code db).0 ≡ booked b p refund
    → BookedFor locked matches b p refund
unfolding finalize_locked settle
finalize_locked-BookedFor (some event) locked remote matches now code db b p refund h =
    let (row, db') = record_payment locked remote now db in
    elim (Bool-cases (is_captured row.status)) [
      | inl c ↦
          settle_with-BookedFor _ event locked row matches now code db' b p refund c (rw c at h)
      | inr c ↦ absurd (let h' = rw c at h in cc)
    ]
finalize_locked-BookedFor none locked remote matches now code db b p refund h = absurd (cc)

-- If the transaction of `finalize` books an order that is still as it was read, then the payment was
-- found to be for the order's amount (`matches`), its row is captured, and the booking has the
-- order's amount and passes and is of that payment: confirmed, or cancelled where it is to be
-- refunded.
pub finalize_tx-BookedFor :
    (order : Order) (remote : RazorpayPayment) (matches : Bool) (now : ℕ) (code : List ℕ) (db : Db)
    (b : Booking) (p : Payment) (refund : Bool)
    → find_one (λ o. o.id == order.id) db.orders ≡ some order
    → (finalize_tx order remote matches now code db).0 ≡ booked b p refund
    → BookedFor order matches b p refund
unfolding finalize_tx
finalize_tx-BookedFor order remote matches now code db b p refund stored h =
    finalize_locked-BookedFor _ order remote matches now code db b p refund (rw stored at h)
