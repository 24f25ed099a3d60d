-- ===== src/Payments/Checkout/Runs.antt =====
-- `createOrder` as steps of the payments module
-- (apps/api/src/modules/payments/payments.service.ts).
use garba_partner.Prelude.{
  ℕ, ◌&&◌, not, Bool, true, false, Option, none, some, inl, inr, ◌==◌, Bool-cases, is_some,
}
use garba_partner.Table.{find_one}
use garba_partner.Api.{Result, ok, err, and_then}
use garba_partner.Payments.Model.{Order, OrderStatus, Gateway, Db, is_created}
use garba_partner.Payments.Checkout.{
  OrderInput, Placed, placed, raced, create_order_tx, attach_razorpay_order, checkout_ready,
  checkout, checkout_existing, checkout_placed, order_with, create_with, create_order,
}
use garba_partner.Payments.Steps.{Run, next, place, attach}

module _ {start : ℕ} {origin : Db} {now : ℕ} where
  ready-Run :
      (is_new : Bool) (order : Order) (status : OrderStatus) {db : Db}
      → Run start origin now db
      → Run start origin now (checkout_ready is_new (record order { status = status }) db).1
  unfolding checkout_ready
  ready-Run is_new order OrderStatus.failed r = r
  ready-Run is_new order _ r = r

  attached-Run :
      (is_new : Bool) (result : Result Order × Db)
      → Run start origin now result.1
      → Run start origin now (and_then result (checkout_ready is_new)).1
  attached-Run is_new (ok order, db) r = ready-Run is_new order order.status r
  attached-Run is_new (err e, db) r = r

  checkout-Run :
      (g : Gateway) (is_new : Bool) (order : Order) {db : Db}
      → Run start origin now db
      → Run start origin now (checkout g is_new order db).1
  unfolding checkout
  checkout-Run g is_new order {db} r =
      elim (Bool-cases (is_created order.status && not (is_some order.razorpay_order_id))) [
        | inl e ↦
            rw e (attached-Run is_new (attach_razorpay_order g order db) (next r (attach g order)))
        | inr e ↦ rw e (ready-Run is_new order order.status r)
      ]

  checkout_existing-Run :
      (g : Gateway) (found : Option Order) {db : Db}
      → Run start origin now db
      → Run start origin now (checkout_existing g found db).1
  unfolding checkout_existing
  checkout_existing-Run g none r = r
  checkout_existing-Run g (some order) {db} r =
      elim (Bool-cases (is_some (find_one (λ e. e.id == order.event_id) db.events))) [
        | inl e ↦ rw e (checkout-Run g false order r)
        | inr e ↦ rw e r
      ]

  placed-Run :
      (g : Gateway) (user_id key : ℕ) (result : Result Placed × Db)
      → Run start origin now result.1
      → Run start origin now (and_then result (checkout_placed g user_id key)).1
  unfolding checkout_placed
  placed-Run g user_id key (ok (placed order event), db) r = checkout-Run g true order r
  placed-Run g user_id key (ok raced, db) r = checkout_existing-Run g _ r
  placed-Run g user_id key (err e, db) r = r

  order_with-Run :
      (g : Gateway) (existing : Option Order) (user_id : ℕ) (input : OrderInput) (key : ℕ) {db : Db}
      → Run start origin now db
      → Run start origin now (order_with g existing user_id input key now db).1
  unfolding order_with
  order_with-Run g none user_id input key {db} r =
      placed-Run g user_id key (create_order_tx user_id input key now db)
        (next r (place user_id input key))
  order_with-Run g (some existing) user_id input key r =
      elim (Bool-cases
        (existing.event_id == input.event_id && existing.quantity == input.quantity)) [
          | inl e ↦ rw e (checkout_existing-Run g (some existing) r)
          | inr e ↦ rw e r
        ]

  create_with-Run :
      (gateway : Option Gateway) (user_id : ℕ) (input : OrderInput) (key : ℕ) {db : Db}
      → Run start origin now db
      → Run start origin now (create_with gateway user_id input key now db).1
  unfolding create_with
  create_with-Run none user_id input key r = r
  create_with-Run (some g) user_id input key r = order_with-Run g _ user_id input key r

  pub create_order-Run :
      (gateway : Option Gateway) (user_id : ℕ) (input : OrderInput) (key : ℕ) {db : Db}
      → Run start origin now db
      → Run start origin now (create_order gateway user_id input key now db).1
  unfolding create_order
  create_order-Run gateway user_id input key r = create_with-Run gateway user_id input key r
