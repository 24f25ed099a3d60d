-- ===== src/Payments/Steps/Sound.antt =====
-- The capacity of events over the steps of the payments module
-- (apps/api/src/modules/payments/payments.service.ts).
use garba_partner.Prelude.{ℕ, ◌+◌, ◌≤◌, ◌≡◌, refl, Bool, none, some, inl, inr, arith, ◌==◌}
use garba_partner.Table.{find_one, touch, update_where}
use garba_partner.Table.Keyed.{IsKeyed-update}
use garba_partner.Payments.Model.{Event, Order, Gateway, Db}
use garba_partner.Payments.Seats.{held_weight, seat_counts}
use garba_partner.Payments.Checkout.{
  attach_razorpay_order, has_order_id, failed_order, with_razorpay_order,
}
use garba_partner.Payments.Checkout.Attach.{attach_orders}
use garba_partner.Payments.Checkout.Capacity.{create_order_tx-WithinCapacity}
use garba_partner.Payments.Checkout.Keys.{create_order_tx-HasOrderKeys}
use garba_partner.Payments.Finalize.Capacity.{finalize_tx-WithinCapacity}
use garba_partner.Payments.Finalize.Keys.{finalize_tx-HasOrderKeys}
use garba_partner.Payments.Refunds.{notify_booking}
use garba_partner.Payments.Refunds.Capacity.{
  OrdersKept, OrdersKept-same, apply_refund-OrdersKept, refund_booking_tx-OrdersKept,
  OrdersKept-WithinCapacity, OrdersKept-HasOrderKeys,
}
use garba_partner.Payments.Expiry.{expire_order}
use garba_partner.Payments.Capacity.{WithinCapacity-fewer, WithinCapacity-later, FewerSeats-orders}
use garba_partner.Payments.Keys.{order_id}
use garba_partner.Payments.Steps.{
  Step, place, attach, finalize, refund, refund_booking, expire, notify, deliver, Run, here, wait,
  next, IsSound,
}

-- An update of the orders that keeps the key and gives no order a new hold.
IsSound-orders :
    (now : ℕ) (t : Order → Bool) (f : Order → Order) (db : Db)
    → ((o : Order) → order_id (f o) ≡ order_id o)
    → ((k : ℕ) (o : Order) → held_weight k now none (touch t f o) ≤ held_weight k now none o)
    → IsSound now db
    → IsSound now (record db { orders = update_where t f db.orders })
IsSound-orders now t f db keeps le s = record {
  capacity = WithinCapacity-fewer now db _ (FewerSeats-orders now t f db le) s.capacity;
  keys = IsKeyed-update order_id db.next_id t f db.orders keeps s.keys;
}

IsSound-kept : (now : ℕ) (db db' : Db) → OrdersKept now db db' → IsSound now db → IsSound now db'
IsSound-kept now db db' kept s = record {
  capacity = OrdersKept-WithinCapacity now db db' kept s.capacity;
  keys = OrdersKept-HasOrderKeys now db db' kept s.keys;
}

attach-IsSound :
    (now : ℕ) (g : Gateway) (order : Order) (db : Db)
    → IsSound now db
    → IsSound now (attach_razorpay_order g order db).1
attach-IsSound now g order db s = elim (attach_orders g order db) [
  | inl e ↦ rw e (IsSound-orders now (has_order_id order.id) failed_order db (λ o. refl) failing s)
  | inr (id, e) ↦ rw e (
      IsSound-orders now (has_order_id order.id) (with_razorpay_order id) db (λ o. refl)
        (attaching id) s)
]
  where
    failing :
        (k : ℕ) (o : Order)
        → held_weight k now none (touch (has_order_id order.id) failed_order o)
          ≤ held_weight k now none o
    failing k o = ground arith

    attaching :
        (id k : ℕ) (o : Order)
        → held_weight k now none (touch (has_order_id order.id) (with_razorpay_order id) o)
          ≤ held_weight k now none o
    attaching id k o = ground arith

expire-IsSound : (now id : ℕ) (db : Db) → IsSound now db → IsSound now (expire_order id db)
unfolding expire_order
expire-IsSound now id db s = IsSound-orders now _ _ db (λ o. refl) (λ k o. ground arith) s

-- One step, whatever the database and whoever takes it, keeps a sound database sound.
pub Step-IsSound : {now : ℕ} {db db' : Db} → Step now db db' → IsSound now db → IsSound now db'
Step-IsSound {now} {db} (place user_id input key) s = record {
  capacity = create_order_tx-WithinCapacity user_id input key now db s.capacity;
  keys = create_order_tx-HasOrderKeys user_id input key now db s.keys;
}
Step-IsSound {now} {db} (attach g order) s = attach-IsSound now g order db s
Step-IsSound {now} {db} (finalize order remote matches code snap) s = record {
  capacity = finalize_tx-WithinCapacity order remote matches now code db snap.same_event s.capacity;
  keys = finalize_tx-HasOrderKeys order remote matches now code db s.keys;
}
Step-IsSound {now} {db} (refund payment answer) s =
    IsSound-kept now db _ (apply_refund-OrdersKept payment answer now db) s
Step-IsSound {now} {db} (refund_booking admin_id booking_id reason) s =
    IsSound-kept now db _ (refund_booking_tx-OrdersKept admin_id booking_id reason now db) s
Step-IsSound {now} {db} (expire id) s = expire-IsSound now id db s
Step-IsSound {now} {db} (notify b kind) s =
    IsSound-kept now db _
      (unfold notify_booking in
        OrdersKept-same now db (notify_booking b kind db) refl refl refl refl)
      s
Step-IsSound {now} {db} (deliver ws) s =
    IsSound-kept now db _ (OrdersKept-same now db _ refl refl refl refl) s

pub Run-IsSound :
    {start : ℕ} {db : Db} {now : ℕ} {db' : Db}
    → IsSound start db
    → Run start db now db'
    → IsSound now db'
Run-IsSound s here = s
Run-IsSound s (wait {now = now} {later = later} {db' = db'} r h) =
    let s' = Run-IsSound s r in
    record { capacity = WithinCapacity-later now later db' h s'.capacity; keys = s'.keys }
Run-IsSound s (next r step) = Step-IsSound step (Run-IsSound s r)

-- From a database in which every event is within its capacity, the orders are keyed by their ids
-- and the ids from `next_id` on are free, after any transactions of any requests in any order, with
-- time passing between them: the passes sold for an event with a capacity and the passes that unpaid
-- orders hold at that moment do not exceed the capacity.
pub never_oversold :
    {start : ℕ} {db : Db} {now : ℕ} {db' : Db} (k cap : ℕ) (event : Event)
    → IsSound start db
    → Run start db now db'
    → find_one (λ e. e.id == k) db'.events ≡ some event
    → event.pass_capacity ≡ some cap
    → (seat_counts k now none db').sold + (seat_counts k now none db').reserved ≤ cap
never_oversold k cap event s r found limit = (Run-IsSound s r).capacity.fits k cap event found limit
