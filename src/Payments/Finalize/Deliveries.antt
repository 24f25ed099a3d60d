-- ===== src/Payments/Finalize/Deliveries.antt =====
-- The transaction of `finalize` and the record of webhook deliveries
-- (apps/api/src/modules/payments/payments.service.ts).
use garba_partner.Prelude.{
  ℕ, refl, ◌∙◌, Bool, true, false, Option, none, some, List, Bool-cases, inl, inr, is_some, ◌==◌,
}
use garba_partner.Payments.Model.{
  Event, Order, Payment, Booking, RazorpayPayment, Db, is_captured, is_unrefunded,
}
use garba_partner.Payments.Refunds.Deliveries.{SameDeliveries}
use garba_partner.Payments.Finalize.{
  is_backwards, upsert_payment, record_payment, mark_refund_pending, cancel_reason_of, book,
  settle_with, settle, finalize_locked, finalize_tx,
}

upsert-SameDeliveries :
    (found : Option Payment) (locked : Order) (remote : RazorpayPayment) (now : ℕ) (db : Db)
    → SameDeliveries db (upsert_payment found locked remote now db).1
unfolding upsert_payment
upsert-SameDeliveries none locked remote now db = refl
upsert-SameDeliveries (some row) locked remote now db =
    elim (Bool-cases (is_backwards row.status remote.status)) [
      | inl e ↦ rw e refl
      | inr e ↦ rw e refl
    ]

book-SameDeliveries :
    (event : Event) (locked : Order) (row : Payment) (now : ℕ) (code : List ℕ) (db : Db)
    → SameDeliveries db (book event locked row now code db).1
unfolding book mark_refund_pending
book-SameDeliveries event locked row now code db =
    elim (Bool-cases (is_some (cancel_reason_of event locked now db))) [
      | inl e ↦ rw e refl
      | inr e ↦ rw e refl
    ]

settle_with-SameDeliveries :
    (existing : Option Booking) (event : Event) (locked : Order) (row : Payment) (matches : Bool)
    (now : ℕ) (code : List ℕ) (db : Db)
    → SameDeliveries db (settle_with existing event locked row matches now code db).1
unfolding settle_with mark_refund_pending
settle_with-SameDeliveries (some b) event locked row matches now code db =
    elim (Bool-cases (b.payment_id == row.id)) [
      | inl e ↦ rw e refl
      | inr e ↦ elim (Bool-cases (is_unrefunded row.refund_status)) [
        | inl u ↦ rw (e, u) refl
        | inr u ↦ rw (e, u) refl
      ]
    ]
settle_with-SameDeliveries none event locked row true now code db =
    book-SameDeliveries event locked row now code db
settle_with-SameDeliveries none event locked row false now code db =
    elim (Bool-cases (is_unrefunded row.refund_status)) [ inl u ↦ rw u refl | inr u ↦ rw u refl ]

finalize_locked-SameDeliveries :
    (event : Option Event) (found : Option Order) (remote : RazorpayPayment) (matches : Bool)
    (now : ℕ) (code : List ℕ) (db : Db)
    → SameDeliveries db (finalize_locked event found remote matches now code db).1
unfolding finalize_locked settle record_payment
finalize_locked-SameDeliveries (some event) (some locked) remote matches now code db =
    let (row, db') = record_payment locked remote now db in
    let same = upsert-SameDeliveries _ locked remote now db in
    elim (Bool-cases (is_captured row.status)) [
      | inl e ↦ rw e (settle_with-SameDeliveries _ event locked row matches now code db' ∙ same)
      | inr e ↦ rw e same
    ]
finalize_locked-SameDeliveries (some event) none remote matches now code db = refl
finalize_locked-SameDeliveries none found remote matches now code db = refl

pub finalize_tx-SameDeliveries :
    (order : Order) (remote : RazorpayPayment) (matches : Bool) (now : ℕ) (code : List ℕ) (db : Db)
    → SameDeliveries db (finalize_tx order remote matches now code db).1
unfolding finalize_tx
finalize_tx-SameDeliveries order remote matches now code db =
    finalize_locked-SameDeliveries _ _ remote matches now code db
