-- ===== src/Payments/Refunds/Once.antt =====
-- The transaction of `refundBooking` run again for the same booking
-- (apps/api/src/modules/payments/payments.service.ts).
use garba_partner.Prelude.{
  ℕ, String, ◌≡◌, refl, Option, none, some, ◌==◌, ==_refl, Bool-cases, Option-cases, inl, inr, ◌||◌,
}
use garba_partner.Table.{find_one, touch, update_where, find_one-update}
use garba_partner.Api.{ok, err, conflict}
use garba_partner.Payments.Model.{Booking, Payment, Db, is_captured, is_pending, is_processed}
use garba_partner.Payments.Refunds.{
  RefundTarget, cancelled_by_admin, refund_payment_of, refund_booking_of, refund_booking_tx,
}

cancelling_keeps_id :
    (id other now : ℕ) (b : Booking)
    → (touch (λ c. c.id == other) (cancelled_by_admin now) b).id == id ≡ (b.id == id)
cancelling_keeps_id id other now b = elim (Bool-cases (b.id == other)) [
  | inl e ↦ rw e
  | inr e ↦ rw e
]

find-cancelled :
    (id now : ℕ) (db : Db) (b : Booking)
    → find_one (λ c. c.id == id) db.bookings ≡ some b
    → find_one
        (λ c. c.id == id)
        (update_where (λ c. c.id == b.id) (cancelled_by_admin now) db.bookings)
      ≡ some (cancelled_by_admin now b)
find-cancelled id now db b found = rw (
  find_one-update (λ c. c.id == id) (λ c. c.id == b.id) (cancelled_by_admin now) db.bookings
      (cancelling_keeps_id id b.id now),
  found,
  ==_refl b.id,
)

-- The booking that a started refund leaves behind has its refund pending.
refund_payment_of-pending :
    (found : Option Payment) (b : Booking) (admin_id : ℕ) (reason : String) (now : ℕ) (db : Db)
    (target : RefundTarget)
    → (refund_payment_of found b admin_id reason now db).0 ≡ ok target
    → (refund_payment_of found b admin_id reason now db).1.bookings
      ≡ update_where (λ c. c.id == b.id) (cancelled_by_admin now) db.bookings
unfolding refund_payment_of
refund_payment_of-pending none b admin_id reason now db target h = absurd (cc)
refund_payment_of-pending (some p) b admin_id reason now db target h =
    elim (Bool-cases (is_captured p.status)) [
      | inl e ↦ rw e
      | inr e ↦ absurd (let h' = rw e at h in cc)
    ]

refund_booking_of-pending :
    (b : Booking) (admin_id : ℕ) (reason : String) (now : ℕ) (db : Db) (target : RefundTarget)
    → (refund_booking_of (some b) admin_id reason now db).0 ≡ ok target
    → (refund_booking_of (some b) admin_id reason now db).1.bookings
      ≡ update_where (λ c. c.id == b.id) (cancelled_by_admin now) db.bookings
unfolding refund_booking_of
refund_booking_of-pending b admin_id reason now db target h =
    elim (Bool-cases (is_pending b.refund_status || is_processed b.refund_status)) [
      | inl e ↦ absurd (let h' = rw e at h in cc)
      | inr e ↦ rw e (refund_payment_of-pending _ b admin_id reason now db target (rw e at h))
    ]

-- On the database that the transaction of `refundBooking` leaves where it starts a refund, running
-- it again for the same booking, for any admin, reason and time, is refused with a conflict and
-- changes nothing.
pub refund_booking_tx-once :
    (admin_id other_id booking_id : ℕ) (reason other : String) (now later : ℕ) (db : Db)
    (target : RefundTarget)
    → (refund_booking_tx admin_id booking_id reason now db).0 ≡ ok target
    → let db' = (refund_booking_tx admin_id booking_id reason now db).1 in
      refund_booking_tx other_id booking_id other later db' ≡ (err conflict, db')
unfolding refund_booking_tx
refund_booking_tx-once admin_id other_id booking_id reason other now later db target h =
    elim (Option-cases (find_one (λ b. b.id == booking_id) db.bookings)) [
      | inl missing ↦ absurd (let h' = rw missing at h in unfold refund_booking_of in cc)
      | inr (b, found) ↦
          let h' : (refund_booking_of (some b) admin_id reason now db).0 ≡ ok target =
            rw found at h in
          rw
            (
              found,
              refund_booking_of-pending b admin_id reason now db target h',
              find-cancelled booking_id now db b found,
            )
            (unfold refund_booking_of in refl)
    ]
