-- ===== src/Payments/Checkout/Keys.antt =====
-- The transaction of `createOrder` and the primary key of the orders
-- (apps/api/src/modules/payments/payments.service.ts).
use garba_partner.Prelude.{ℕ, refl, Option, none, some, inl, inr, Bool-cases, is_some}
use garba_partner.Table.{find_one}
use garba_partner.Table.Keyed.{IsKeyed-update, IsKeyed-insert}
use garba_partner.Api.{rollback}
use garba_partner.Payments.Model.{Event, Db, is_published}
use garba_partner.Payments.Seats.{seat_counts, passes_on_sale}
use garba_partner.Payments.Checkout.{
  OrderInput, is_open_order, expired_order, release_holds, is_full, new_order, place_for, place_in,
  create_order_tx, has_key,
}
use garba_partner.Payments.Keys.{HasOrderKeys, order_id}

place_for-HasOrderKeys :
    (event : Event) (price : Option ℕ) (user_id : ℕ) (input : OrderInput) (key now : ℕ) (db : Db)
    → HasOrderKeys db
    → HasOrderKeys (rollback db (place_for event price user_id input key now db)).1
unfolding place_for
place_for-HasOrderKeys event none user_id input key now db k = k
place_for-HasOrderKeys event (some price) user_id input key now db k =
    let released = release_holds user_id event.id db in
    let full =
      is_full event.pass_capacity (seat_counts event.id now none released) input.quantity in
    let row = new_order db.next_id user_id event.id key input.quantity price now in
    let k' =
      IsKeyed-update order_id db.next_id (is_open_order user_id event.id) expired_order db.orders
        (λ o. refl) k in
    elim (Bool-cases full) [
      | inl e ↦ rw e k
      | inr e ↦ elim (Bool-cases (is_some (find_one (has_key user_id key) released.orders))) [
        | inl r ↦ rw (e, r) k
        | inr r ↦ rw (e, r) (IsKeyed-insert order_id db.next_id released.orders row refl k')
      ]
    ]

place_in-HasOrderKeys :
    (found : Option Event) (user_id : ℕ) (input : OrderInput) (key now : ℕ) (db : Db)
    → HasOrderKeys db
    → HasOrderKeys (rollback db (place_in found user_id input key now db)).1
unfolding place_in
place_in-HasOrderKeys none user_id input key now db k = k
place_in-HasOrderKeys (some event) user_id input key now db k =
    elim (Bool-cases (is_published event.status)) [
      | inl p ↦ elim (Bool-cases (passes_on_sale event now)) [
        | inl s ↦
            rw (p, s)
              (place_for-HasOrderKeys event event.pass_price_paise user_id input key now db k)
        | inr s ↦ rw (p, s) k
      ]
      | inr p ↦ rw p k
    ]

pub create_order_tx-HasOrderKeys :
    (user_id : ℕ) (input : OrderInput) (key now : ℕ) (db : Db)
    → HasOrderKeys db
    → HasOrderKeys (create_order_tx user_id input key now db).1
unfolding create_order_tx
create_order_tx-HasOrderKeys user_id input key now db k =
    place_in-HasOrderKeys _ user_id input key now db k
