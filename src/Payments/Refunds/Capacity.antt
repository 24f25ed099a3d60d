-- ===== src/Payments/Refunds/Capacity.antt =====
-- Refunds and the passes sold and held
-- (apps/api/src/modules/payments/payments.service.ts).
use garba_partner.Prelude.{
  ℕ, ◌≤◌, ◌≡◌, refl, String, Option, none, some, List, inl, inr, arith, ◌==◌, Bool-cases, ◌||◌,
}
use garba_partner.Table.{find_one, touch}
use garba_partner.Payments.Model.{
  Payment, RefundStatus, Booking, Db, is_captured, is_pending, is_processed,
}
use garba_partner.Payments.Seats.{sold_weight}
use garba_partner.Payments.Refunds.{
  Refund, with_refund_status, booking_refund, apply_refund, cancelled_by_admin, refund_payment_of,
  refund_booking_of, refund_booking_tx,
}
use garba_partner.Payments.Capacity.{
  WithinCapacity, FewerSeats, FewerSeats-bookings, WithinCapacity-fewer,
}
use garba_partner.Payments.Keys.{HasOrderKeys}

refunding_le :
    (status : RefundStatus) (id k : ℕ) (b : Booking)
    → sold_weight k (touch (λ c. c.id == id) (with_refund_status status) b) ≤ sold_weight k b
refunding_le status id k b = ground arith

cancelling_le :
    (now id k : ℕ) (b : Booking)
    → sold_weight k (touch (λ c. c.id == id) (cancelled_by_admin now) b) ≤ sold_weight k b
cancelling_le now id k b = ground arith

-- The orders, their supply of keys, and the seats, after an operation on payments and bookings.
pub record OrdersKept (now : ℕ) (db db' : Db) : Type 0 where
  pub seats : FewerSeats now db db'
  pub orders : db'.orders ≡ db.orders
  pub next_id : db'.next_id ≡ db.next_id

pub OrdersKept-same :
    (now : ℕ) (db db' : Db)
    → db'.events ≡ db.events
    → db'.orders ≡ db.orders
    → db'.bookings ≡ db.bookings
    → db'.next_id ≡ db.next_id
    → OrdersKept now db db'
OrdersKept-same now db db' events orders bookings next_id = record {
  seats = record {
    events = events;
    sold = λ k. rw bookings (omega arith);
    held = λ k. rw orders (omega arith);
  };
  orders = orders;
  next_id = next_id;
}

pub OrdersKept-refl : (now : ℕ) (db : Db) → OrdersKept now db db
OrdersKept-refl now db = OrdersKept-same now db db refl refl refl refl

booking_refund-OrdersKept :
    (found : Option Booking) (status : RefundStatus) (now : ℕ) (ps : List Payment) (db : Db)
    → OrdersKept now db (booking_refund found status (record db { payments = ps })).1
unfolding booking_refund
booking_refund-OrdersKept none status now ps db = OrdersKept-same now db _ refl refl refl refl
booking_refund-OrdersKept (some b) status now ps db = record {
  seats =
      FewerSeats-bookings now (λ c. c.id == b.id) (with_refund_status status) db _ refl refl refl
        (λ k c. refunding_le status b.id k c);
  orders = refl;
  next_id = refl;
}

pub apply_refund-OrdersKept :
    (payment : Payment) (refund : Refund) (now : ℕ) (db : Db)
    → OrdersKept now db (apply_refund payment refund now db).1
unfolding apply_refund
apply_refund-OrdersKept payment refund now db = booking_refund-OrdersKept _ refund.status now _ db

refund_payment_of-OrdersKept :
    (found : Option Payment) (b : Booking) (admin_id : ℕ) (reason : String) (now : ℕ) (db : Db)
    → OrdersKept now db (refund_payment_of found b admin_id reason now db).1
unfolding refund_payment_of
refund_payment_of-OrdersKept none b admin_id reason now db = OrdersKept-refl now db
refund_payment_of-OrdersKept (some payment) b admin_id reason now db =
    elim (Bool-cases (is_captured payment.status)) [
      | inl e ↦ rw e (record {
        seats =
            FewerSeats-bookings now (λ c. c.id == b.id) (cancelled_by_admin now) db _ refl refl refl
              (λ k c. cancelling_le now b.id k c);
        orders = refl;
        next_id = refl;
      })
      | inr e ↦ rw e (OrdersKept-refl now db)
    ]

pub refund_booking_tx-OrdersKept :
    (admin_id booking_id : ℕ) (reason : String) (now : ℕ) (db : Db)
    → OrdersKept now db (refund_booking_tx admin_id booking_id reason now db).1
unfolding refund_booking_tx
refund_booking_tx-OrdersKept admin_id booking_id reason now db =
    of_found (find_one (λ b. b.id == booking_id) db.bookings)
  where
    of_found :
        (found : Option Booking)
        → OrdersKept now db (refund_booking_of found admin_id reason now db).1
    of_found none = unfold refund_booking_of in OrdersKept-refl now db
    of_found (some b) =
        unfold refund_booking_of in
        elim (Bool-cases (is_pending b.refund_status || is_processed b.refund_status)) [
          | inl e ↦ rw e (OrdersKept-refl now db)
          | inr e ↦ rw e (refund_payment_of-OrdersKept _ b admin_id reason now db)
        ]

-- What keeps the orders keeps their keys and the capacity of every event.
pub OrdersKept-WithinCapacity :
    (now : ℕ) (db db' : Db) → OrdersKept now db db' → WithinCapacity now db → WithinCapacity now db'
OrdersKept-WithinCapacity now db db' kept w = WithinCapacity-fewer now db db' kept.seats w

pub OrdersKept-HasOrderKeys :
    (now : ℕ) (db db' : Db) → OrdersKept now db db' → HasOrderKeys db → HasOrderKeys db'
OrdersKept-HasOrderKeys now db db' kept k = rw (kept.orders, kept.next_id) k
