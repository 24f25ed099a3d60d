-- ===== src/Payments/Checkout/Capacity.antt =====
-- The transaction of `createOrder` and the capacity of events
-- (apps/api/src/modules/payments/payments.service.ts).
use garba_partner.Prelude.{
  ℕ, ◌+◌, ◌≤◌, ◌≡◌, refl, sym, ◌∙◌, false, Option, none, some, List, [], ◌∷◌, ◌++◌, inl, inr, arith,
  ◌==◌, Bool-cases, is_some, ==_iff,
}
use garba_partner.Table.{
  find_one, update_where, touch, sum_by-insert, sum_by-update_le, find_one-holds,
}
use garba_partner.Api.{rollback}
use garba_partner.Payments.Model.{Event, Order, Db, is_published}
use garba_partner.Payments.Seats.{held_weight, seat_counts, passes_on_sale}
use garba_partner.Payments.Checkout.{
  OrderInput, is_open_order, expired_order, release_holds, is_full, new_order, place_for, place_in,
  create_order_tx, has_key,
}
use garba_partner.Payments.Capacity.{sold_in, held_in, WithinCapacity, find_event_unique}

held_in-release :
    (k now user_id event_id : ℕ) (os : List Order)
    → held_in k now (update_where (is_open_order user_id event_id) expired_order os)
      ≤ held_in k now os
held_in-release k now user_id event_id os = sum_by-update_le _ _ _ _ os expiring_le
  where
    expiring_le :
        (o : Order)
        → held_weight k now none (touch (is_open_order user_id event_id) expired_order o)
          ≤ held_weight k now none o
    expiring_le o = ground arith

-- The seats of event `k` after an order of `event` that was found to fit.
placed_fits :
    (event : Event) (user_id quantity key price now k cap : ℕ) (db : Db)
    → (event.id ≡ k
        → is_full
            (some cap)
            (seat_counts event.id now none (release_holds user_id event.id db))
            quantity
          ≡ false)
    → sold_in k db.bookings + held_in k now db.orders ≤ cap
    → sold_in k db.bookings
        + held_in k now (
            (release_holds user_id event.id db).orders
            ++ new_order db.next_id user_id event.id key quantity price now ∷ [])
      ≤ cap
unfolding is_full seat_counts
placed_fits event user_id quantity key price now k cap db room fits =
    let row = new_order db.next_id user_id event.id key quantity price now in
    let added = λ (j : ℕ).
      sum_by-insert (held_weight j now none) (release_holds user_id event.id db).orders row in
    elim (Bool-cases (event.id == k)) [
      | inl e ↦
          let at_k : event.id ≡ k = (==_iff _ _).0 e in
          let free = room at_k in rw (← at_k) (ground (arith, added event.id, free))
      | inr e ↦ ground (arith, added k, e, held_in-release k now user_id event.id db.orders)
    ]

place_for-WithinCapacity :
    (event : Event) (price : Option ℕ) (user_id : ℕ) (input : OrderInput) (key now : ℕ) (db : Db)
    → find_one (λ e. e.id == input.event_id) db.events ≡ some event
    → WithinCapacity now db
    → WithinCapacity now (rollback db (place_for event price user_id input key now db)).1
unfolding place_for
place_for-WithinCapacity event none user_id input key now db found_event w = w
place_for-WithinCapacity event (some price) user_id input key now db found_event w =
    let released = release_holds user_id event.id db in
    let full =
      is_full event.pass_capacity (seat_counts event.id now none released) input.quantity in
    elim (Bool-cases full) [
      | inl e ↦ rw e w
      | inr e ↦ elim (Bool-cases (is_some (find_one (has_key user_id key) released.orders))) [
        | inl r ↦ rw (e, r) w
        | inr r ↦
            rw (e, r)
              (record {
                fits = λ k cap event' found' limit.
                    unfold seat_counts in
                    placed_fits event user_id input.quantity key price now k cap db
                      (λ at_k.
                        let own : event.id ≡ input.event_id =
                          (==_iff _ _).0 (find_one-holds _ db.events found_event) in
                        let same_event =
                          find_event_unique input.event_id k db.events event event' (sym own ∙ at_k)
                            found_event found' in
                        let limit' : event.pass_capacity ≡ some cap = cc (same_event, limit) in
                        rw limit' at e)
                      (w.fits k cap event' found' limit);
              })
      ]
    ]

place_in-WithinCapacity :
    (found : Option Event) (user_id : ℕ) (input : OrderInput) (key now : ℕ) (db : Db)
    → find_one (λ e. e.id == input.event_id) db.events ≡ found
    → WithinCapacity now db
    → WithinCapacity now (rollback db (place_in found user_id input key now db)).1
unfolding place_in
place_in-WithinCapacity none user_id input key now db found_event w = w
place_in-WithinCapacity (some event) user_id input key now db found_event w =
    elim (Bool-cases (is_published event.status)) [
      | inl p ↦ elim (Bool-cases (passes_on_sale event now)) [
        | inl s ↦
            rw (p, s)
              (place_for-WithinCapacity event event.pass_price_paise user_id input key now db
                found_event w)
        | inr s ↦ rw (p, s) w
      ]
      | inr p ↦ rw p w
    ]

-- The transaction of `createOrder`, run at `now`, keeps every event within its capacity, whether
-- it places the order or throws.
pub create_order_tx-WithinCapacity :
    (user_id : ℕ) (input : OrderInput) (key now : ℕ) (db : Db)
    → WithinCapacity now db
    → WithinCapacity now (create_order_tx user_id input key now db).1
unfolding create_order_tx
create_order_tx-WithinCapacity user_id input key now db w =
    place_in-WithinCapacity _ user_id input key now db refl w
