-- ===== src/Payments/Steps.antt =====
-- The payments module as a system of transactions: each step is one transaction or one statement
-- that a handler commits, whatever the other handlers have committed before it.
pub mod Sound
use garba_partner.Prelude.{ℕ, ◌≤◌, ◌≡◌, String, Bool, some, List, ◌==◌}
use garba_partner.Table.{find_one}
use garba_partner.Payments.Model.{
  Order, Payment, Booking, BookingKind, RazorpayPayment, WebhookEvent, Gateway, Db,
}
use garba_partner.Payments.Checkout.{OrderInput, create_order_tx, attach_razorpay_order}
use garba_partner.Payments.Finalize.{finalize_tx}
use garba_partner.Payments.Refunds.{Refund, apply_refund, notify_booking, refund_booking_tx}
use garba_partner.Payments.Expiry.{expire_order}
use garba_partner.Payments.Capacity.{WithinCapacity}
use garba_partner.Payments.Keys.{HasOrderKeys}

-- An order that a handler has read before belongs to the event that its row belongs to now.
pub record IsSnapshot (order : Order) (db : Db) : Type 0 where
  pub same_event :
      (locked : Order)
      → find_one (λ o. o.id == order.id) db.orders ≡ some locked
      → locked.event_id ≡ order.event_id

pub data Step (now : ℕ) (db : Db) : Db → Type 0 where
  place :
      (user_id : ℕ) (input : OrderInput) (key : ℕ)
      → Step now db (create_order_tx user_id input key now db).1
  attach : (g : Gateway) (order : Order) → Step now db (attach_razorpay_order g order db).1
  finalize :
      (order : Order) (remote : RazorpayPayment) (matches : Bool) (code : List ℕ)
      → IsSnapshot order db
      → Step now db (finalize_tx order remote matches now code db).1
  refund :
      (payment : Payment) (answer : Refund) → Step now db (apply_refund payment answer now db).1
  refund_booking :
      (admin_id booking_id : ℕ) (reason : String)
      → Step now db (refund_booking_tx admin_id booking_id reason now db).1
  expire : (id : ℕ) → Step now db (expire_order id db)
  notify : (b : Booking) (kind : BookingKind) → Step now db (notify_booking b kind db)
  deliver : (ws : List WebhookEvent) → Step now db (record db { webhook_events = ws })

-- Steps one after another, with time passing between them.
pub data Run (start : ℕ) (db : Db) : ℕ → Db → Type 0 where
  here : Run start db start db
  wait : {now later : ℕ} {db' : Db} → Run start db now db' → now ≤ later → Run start db later db'
  next :
      {now : ℕ} {db' db'' : Db} → Run start db now db' → Step now db' db'' → Run start db now db''

-- Every event is within its capacity, and the orders have a primary key.
pub record IsSound (now : ℕ) (db : Db) : Type 0 where
  pub capacity : WithinCapacity now db
  pub keys : HasOrderKeys db
