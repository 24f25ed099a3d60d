-- ===== src/Payments/Checkout.antt =====
-- Checkout, `createOrder` (apps/api/src/modules/payments/payments.service.ts).
pub mod Runs
pub mod Capacity
pub mod Keys
pub mod Attach
use garba_partner.Prelude.{
  ℕ, ◌+◌, ◌*◌, Bool, true, false, not, ◌&&◌, Option, none, some, [], ◌∷◌, ◌++◌, ltb, ◌==◌,
  if◌then◌else◌, is_some,
}
use text.Mathlib.Text.{◌==◌ as str_eq}
use garba_partner.Table.{find_one, update_where}
use garba_partner.Api.{
  Result, ok, err, Handler, and_then, transaction, not_found, passes_not_on_sale, sold_out,
  order_expired, idempotency_conflict, payments_unavailable, payment_provider_error,
}
use garba_partner.Payments.Model.{
  Event, Order, OrderStatus, RazorpayOrder, Gateway, Db, is_published, is_created,
}
use garba_partner.Payments.Seats.{SeatRow, seat_counts, passes_on_sale}

abbrev pub minute_ms : ℕ
minute_ms = 60 * 1000

abbrev pub order_expiry_minutes : ℕ
order_expiry_minutes = 15

pub record OrderInput : Type 0 where
  pub event_id : ℕ
  pub quantity : ℕ

abbrev pub has_key : ℕ → ℕ → Order → Bool
has_key user_id key o = o.user_id == user_id && o.idempotency_key == key

abbrev pub is_open_order : ℕ → ℕ → Order → Bool
is_open_order user_id event_id o =
    o.user_id == user_id && o.event_id == event_id && is_created o.status

abbrev pub expired_order : Order → Order
expired_order o = record o { status = OrderStatus.expired }

-- A new checkout releases the member's previous hold on the event.
abbrev pub release_holds : ℕ → ℕ → Db → Db
release_holds user_id event_id db = record db {
  orders = update_where (is_open_order user_id event_id) expired_order db.orders;
}

is_full : Option ℕ → SeatRow → ℕ → Bool
is_full none seats quantity = false
is_full (some capacity) seats quantity = ltb capacity (seats.sold + seats.reserved + quantity)

-- The price always comes from the event, never from the client.
abbrev pub new_order : ℕ → ℕ → ℕ → ℕ → ℕ → ℕ → ℕ → Order
new_order id user_id event_id key quantity price now = record {
  id = id;
  user_id = user_id;
  event_id = event_id;
  idempotency_key = key;
  quantity = quantity;
  unit_price_paise = price;
  amount_paise = price * quantity;
  status = OrderStatus.created;
  expires_at = now + order_expiry_minutes * minute_ms;
  razorpay_order_id = none;
  paid_at = none;
}

-- `raced`: the insert met the unique key of an order placed meanwhile.
pub data Placed : Type 0 where
  placed : Order → Event → Placed
  raced : Placed

place_for : Event → Option ℕ → ℕ → OrderInput → ℕ → ℕ → Db → Result Placed × Db
unfolding is_full seat_counts
place_for event none user_id input key now db = (err passes_not_on_sale, db)
place_for event (some price) user_id input key now db =
    let released = release_holds user_id event.id db in
    let row = new_order db.next_id user_id event.id key input.quantity price now in
    if is_full event.pass_capacity (seat_counts event.id now none released) input.quantity
    then (err sold_out, released)
    else if is_some (find_one (has_key user_id key) released.orders)
    then (ok raced, db)
    else (
      ok (placed row event),
      record released { orders = released.orders ++ row ∷ []; next_id = db.next_id + 1 },
    )

place_in : Option Event → ℕ → OrderInput → ℕ → ℕ → Db → Result Placed × Db
unfolding place_for
place_in none user_id input key now db = (err not_found, db)
place_in (some event) user_id input key now db =
    if not (is_published event.status)
    then (err not_found, db)
    else if not (passes_on_sale event now)
    then (err passes_not_on_sale, db)
    else place_for event event.pass_price_paise user_id input key now db

-- The transaction of `createOrder`.
unfoldable pub create_order_tx : ℕ → OrderInput → ℕ → ℕ → Handler Db Placed
unfolding place_in passes_on_sale
create_order_tx user_id input key now =
    transaction
      (λ db. place_in (find_one (λ e. e.id == input.event_id) db.events) user_id input key now db)

abbrev pub has_order_id : ℕ → Order → Bool
has_order_id id o = o.id == id

abbrev pub failed_order : Order → Order
failed_order o = record o { status = OrderStatus.failed }

abbrev pub with_razorpay_order : ℕ → Order → Order
with_razorpay_order id o = record o { razorpay_order_id = some id }

attach_answer : Result RazorpayOrder → Order → Handler Db Order
attach_answer (err e) order db =
    (err e, record db { orders = update_where (has_order_id order.id) failed_order db.orders })
attach_answer (ok remote) order db =
    if not (remote.amount == order.amount_paise && str_eq remote.currency "INR")
    then (
      err payment_provider_error,
      record db { orders = update_where (has_order_id order.id) failed_order db.orders },
    )
    else (
      ok (with_razorpay_order remote.id order),
      record db {
        orders = update_where (has_order_id order.id) (with_razorpay_order remote.id) db.orders;
      },
    )

-- Attaches the provider's order to ours, or marks ours failed.
unfoldable pub attach_razorpay_order : Gateway → Order → Handler Db Order
unfolding attach_answer
attach_razorpay_order g order db =
    attach_answer (g.create_order order.amount_paise order.id) order db

pub record CreatedOrder : Type 0 where
  pub is_new : Bool
  pub order : Order
  pub razorpay_order_id : ℕ
  pub amount_paise : ℕ

checkout_ids : Bool → Order → Option ℕ → Result CreatedOrder
checkout_ids is_new order none = err order_expired
checkout_ids is_new order (some id) = ok (record {
  is_new = is_new;
  order = order;
  razorpay_order_id = id;
  amount_paise = order.amount_paise;
})

checkout_ready : Bool → Order → Handler Db CreatedOrder
unfolding checkout_ids
checkout_ready is_new order db = elim order.status [
  | OrderStatus.failed ↦ (err payment_provider_error, db)
  | _ ↦ (checkout_ids is_new order order.razorpay_order_id, db)
]

checkout : Gateway → Bool → Order → Handler Db CreatedOrder
unfolding attach_razorpay_order checkout_ready
checkout g is_new order db =
    if is_created order.status && not (is_some order.razorpay_order_id)
    then and_then (attach_razorpay_order g order db) (checkout_ready is_new)
    else checkout_ready is_new order db

-- An order that was there before this call: its event must still be there.
checkout_existing : Gateway → Option Order → Handler Db CreatedOrder
unfolding checkout
checkout_existing g none db = (err not_found, db)
checkout_existing g (some order) db =
    if is_some (find_one (λ e. e.id == order.event_id) db.events)
    then checkout g false order db
    else (err not_found, db)

checkout_placed : Gateway → ℕ → ℕ → Placed → Handler Db CreatedOrder
unfolding checkout checkout_existing
checkout_placed g user_id key (placed order event) db = checkout g true order db
checkout_placed g user_id key raced db =
    checkout_existing g (find_one (has_key user_id key) db.orders) db

order_with : Gateway → Option Order → ℕ → OrderInput → ℕ → ℕ → Handler Db CreatedOrder
unfolding checkout_existing checkout_placed create_order_tx
order_with g none user_id input key now db =
    and_then (create_order_tx user_id input key now db) (checkout_placed g user_id key)
order_with g (some existing) user_id input key now db =
    if not (existing.event_id == input.event_id && existing.quantity == input.quantity)
    then (err idempotency_conflict, db)
    else checkout_existing g (some existing) db

create_with : Option Gateway → ℕ → OrderInput → ℕ → ℕ → Handler Db CreatedOrder
unfolding order_with
create_with none user_id input key now db = (err payments_unavailable, db)
create_with (some g) user_id input key now db =
    order_with g (find_one (has_key user_id key) db.orders) user_id input key now db

unfoldable pub create_order : Option Gateway → ℕ → OrderInput → ℕ → ℕ → Handler Db CreatedOrder
unfolding create_with
create_order gateway user_id input key now db = create_with gateway user_id input key now db
