-- ===== src/Payments/Finalize/Keys.antt =====
-- The transaction of `finalize` and the primary key of the orders
-- (apps/api/src/modules/payments/payments.service.ts).
use garba_partner.Prelude.{
  ℕ, refl, true, false, Bool, Option, none, some, List, inl, inr, arith, ◌==◌, Bool-cases,
}
use garba_partner.Table.Keyed.{IsKeyed-update, IsKeyed-later}
use garba_partner.Payments.Model.{
  Event, Order, Payment, Booking, RazorpayPayment, Db, is_captured, is_unrefunded,
}
use garba_partner.Payments.Finalize.{
  is_backwards, upsert_payment, record_payment, mark_refund_pending, paid_at, book, settle_with,
  settle, finalize_locked, finalize_tx,
}
use garba_partner.Payments.Keys.{HasOrderKeys, order_id}

upsert-HasOrderKeys :
    (found : Option Payment) (locked : Order) (remote : RazorpayPayment) (now : ℕ) (db : Db)
    → HasOrderKeys db
    → HasOrderKeys (upsert_payment found locked remote now db).1
unfolding upsert_payment
upsert-HasOrderKeys none locked remote now db k = IsKeyed-later order_id _ _ _ (omega arith) k
upsert-HasOrderKeys (some row) locked remote now db k =
    elim (Bool-cases (is_backwards row.status remote.status)) [ inl e ↦ rw e k | inr e ↦ rw e k ]

book-HasOrderKeys :
    (event : Event) (locked : Order) (row : Payment) (now : ℕ) (code : List ℕ) (db : Db)
    → HasOrderKeys db
    → HasOrderKeys (book event locked row now code db).1
unfolding book mark_refund_pending
book-HasOrderKeys event locked row now code db k = IsKeyed-later order_id _ _ _ (omega arith) (
    IsKeyed-update order_id db.next_id (λ o. o.id == locked.id) (paid_at now) db.orders (λ o. refl)
      k)

settle_with-HasOrderKeys :
    (existing : Option Booking) (event : Event) (locked : Order) (row : Payment) (matches : Bool)
    (now : ℕ) (code : List ℕ) (db : Db)
    → HasOrderKeys db
    → HasOrderKeys (settle_with existing event locked row matches now code db).1
unfolding settle_with mark_refund_pending
settle_with-HasOrderKeys (some b) event locked row matches now code db k =
    elim (Bool-cases (b.payment_id == row.id)) [
      | inl e ↦ rw e k
      | inr e ↦ elim (Bool-cases (is_unrefunded row.refund_status)) [
        | inl u ↦ rw (e, u) k
        | inr u ↦ rw (e, u) k
      ]
    ]
settle_with-HasOrderKeys none event locked row true now code db k =
    book-HasOrderKeys event locked row now code db k
settle_with-HasOrderKeys none event locked row false now code db k =
    elim (Bool-cases (is_unrefunded row.refund_status)) [ inl u ↦ rw u k | inr u ↦ rw u k ]

finalize_locked-HasOrderKeys :
    (event : Option Event) (found : Option Order) (remote : RazorpayPayment) (matches : Bool)
    (now : ℕ) (code : List ℕ) (db : Db)
    → HasOrderKeys db
    → HasOrderKeys (finalize_locked event found remote matches now code db).1
unfolding finalize_locked settle record_payment
finalize_locked-HasOrderKeys (some event) (some locked) remote matches now code db k =
    let (row, db') = record_payment locked remote now db in
    let k' = upsert-HasOrderKeys _ locked remote now db k in
    elim (Bool-cases (is_captured row.status)) [
      | inl e ↦ rw e (settle_with-HasOrderKeys _ event locked row matches now code db' k')
      | inr e ↦ rw e k'
    ]
finalize_locked-HasOrderKeys _ _ remote matches now code db k = k

pub finalize_tx-HasOrderKeys :
    (order : Order) (remote : RazorpayPayment) (matches : Bool) (now : ℕ) (code : List ℕ) (db : Db)
    → HasOrderKeys db
    → HasOrderKeys (finalize_tx order remote matches now code db).1
unfolding finalize_tx
finalize_tx-HasOrderKeys order remote matches now code db k =
    finalize_locked-HasOrderKeys _ _ remote matches now code db k
