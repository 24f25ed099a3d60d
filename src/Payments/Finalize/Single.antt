-- ===== src/Payments/Finalize/Single.antt =====
-- The bookings of an order in the transaction of `finalize`
-- (apps/api/src/modules/payments/payments.service.ts).
use garba_partner.Payments.Finalize.Capacity.{SameSeats-record_payment}
use garba_partner.Prelude.{
  some, none, true, false, refl, Bool, Option, ℕ, ◌≤◌, ◌≡◌, List, inl, inr, arith, ◌==◌, Bool-cases,
}
use garba_partner.Table.{find_one, one_if, count_where, sum_by-insert, count-find_none}
use garba_partner.Payments.Model.{is_captured, Booking, RazorpayPayment, Event, Order, Payment, Db}
use garba_partner.Payments.Finalize.{
  record_payment, mark_refund_pending, cancel_reason_of, new_booking, book, is_for_order,
  settle_with, settle, finalize_locked, finalize_tx,
}

pub record OneBookingEach (db : Db) : Type 0 where
  pub single : (id : ℕ) → count_where (is_for_order id) db.bookings ≤ 1

book-OneBookingEach :
    (event : Event) (locked : Order) (row : Payment) (now : ℕ) (code : List ℕ) (db : Db)
    → find_one (is_for_order locked.id) db.bookings ≡ none
    → OneBookingEach db
    → OneBookingEach (book event locked row now code db).1
unfolding book mark_refund_pending
book-OneBookingEach event locked row now code db missing one =
    let reason = cancel_reason_of event locked now db in
    let b = new_booking locked row now code db.next_id reason in
    record {
      single = λ id. elim (Bool-cases (locked.id == id)) [
        | inl e ↦ ground (
          arith,
          sum_by-insert (one_if (is_for_order id)) db.bookings b,
          count-find_none (is_for_order locked.id) db.bookings missing,
          e,
        )
        | inr e ↦
            ground (arith, e, sum_by-insert (one_if (is_for_order id)) db.bookings b, one.single id)
      ];
    }

settle_with-OneBookingEach :
    (existing : Option Booking) (event : Event) (locked : Order) (row : Payment) (matches : Bool)
    (now : ℕ) (code : List ℕ) (db : Db)
    → find_one (is_for_order locked.id) db.bookings ≡ existing
    → OneBookingEach db
    → OneBookingEach (settle_with existing event locked row matches now code db).1
unfolding settle_with mark_refund_pending
settle_with-OneBookingEach (some b) event locked row matches now code db found one = record {
  single = λ id. ground (arith, one.single id);
}
settle_with-OneBookingEach none event locked row true now code db found one =
    book-OneBookingEach event locked row now code db found one
settle_with-OneBookingEach none event locked row false now code db found one = record {
  single = λ id. ground (arith, one.single id);
}

finalize_locked-OneBookingEach :
    (event : Option Event) (found : Option Order) (remote : RazorpayPayment) (matches : Bool)
    (now : ℕ) (code : List ℕ) (db : Db)
    → OneBookingEach db
    → OneBookingEach (finalize_locked event found remote matches now code db).1
unfolding finalize_locked settle
finalize_locked-OneBookingEach (some event) (some locked) remote matches now code db one =
    let (row, db') = record_payment locked remote now db in
    let same = SameSeats-record_payment locked remote now db in
    let one' : OneBookingEach db' = record { single = λ id. rw same.bookings (one.single id) } in
    elim (Bool-cases (is_captured row.status)) [
      | inl e ↦ rw e (settle_with-OneBookingEach _ event locked row matches now code db' refl one')
      | inr e ↦ rw e one'
    ]
finalize_locked-OneBookingEach (some event) none remote matches now code db one = one
finalize_locked-OneBookingEach none found remote matches now code db one = one

-- The transaction of `finalize` books an order at most once, however often it runs and for however
-- many payments.
pub finalize_tx-OneBookingEach :
    (order : Order) (remote : RazorpayPayment) (matches : Bool) (now : ℕ) (code : List ℕ) (db : Db)
    → OneBookingEach db
    → OneBookingEach (finalize_tx order remote matches now code db).1
unfolding finalize_tx
finalize_tx-OneBookingEach order remote matches now code db one =
    finalize_locked-OneBookingEach _ _ remote matches now code db one
