-- ===== src/Payments/Capacity.antt =====
-- The passes sold and held of an event against its capacity
-- (apps/api/src/modules/payments/pass-availability.ts).
use garba_partner.Prelude.{ℕ, ◌+◌, ◌≤◌, ◌≡◌, refl, Bool, none, some, List, arith, ◌==◌}
use garba_partner.Table.{find_one, touch, update_where, sum_by, sum_by-le, sum_by-update_le}
use garba_partner.Payments.Model.{Event, Order, Booking, Db}
use garba_partner.Payments.Seats.{sold_weight, held_weight, seat_counts}

abbrev pub sold_in : ℕ → List Booking → ℕ
sold_in k = sum_by (sold_weight k)

abbrev pub held_in : ℕ → ℕ → List Order → ℕ
held_in k now = sum_by (held_weight k now none)

-- Of every event with a capacity, the passes sold and the passes held at `now` fit into it.
pub record WithinCapacity (now : ℕ) (db : Db) : Type 0 where
  pub fits :
      (k cap : ℕ) (event : Event)
      → find_one (λ e. e.id == k) db.events ≡ some event
      → event.pass_capacity ≡ some cap
      → (seat_counts k now none db).sold + (seat_counts k now none db).reserved ≤ cap

pub held_in-later :
    (k now later : ℕ) (os : List Order) → now ≤ later → held_in k later os ≤ held_in k now os
held_in-later k now later os h =
    sum_by-le (held_weight k later none) (held_weight k now none) os (λ o. held-later o)
  where
    held-later : (o : Order) → held_weight k later none o ≤ held_weight k now none o
    held-later o = ground arith

-- As time passes holds lapse, so what fits goes on fitting.
pub WithinCapacity-later :
    (now later : ℕ) (db : Db) → now ≤ later → WithinCapacity now db → WithinCapacity later db
unfolding seat_counts
WithinCapacity-later now later db h w = record {
  fits = λ k cap event found limit.
      omega (arith, w.fits k cap event found limit, held_in-later k now later db.orders h);
}

-- What the seats of `db'` and of `db` share: an operation on payments alone.
pub record SameSeats (db db' : Db) : Type 0 where
  pub events : db'.events ≡ db.events
  pub orders : db'.orders ≡ db.orders
  pub bookings : db'.bookings ≡ db.bookings

pub WithinCapacity-same :
    (now : ℕ) (db db' : Db) → SameSeats db db' → WithinCapacity now db → WithinCapacity now db'
unfolding seat_counts
WithinCapacity-same now db db' same w = record {
  fits = λ k cap event found limit.
      rw (same.bookings, same.orders) (w.fits k cap event (rw same.events at found) limit);
}

pub find_event_unique :
    (a b : ℕ) (es : List Event) (x y : Event)
    → a ≡ b
    → find_one (λ e. e.id == a) es ≡ some x
    → find_one (λ e. e.id == b) es ≡ some y
    → y ≡ x
find_event_unique a b es x y p h h' = let h'' = rw p at h in cc (h'', h')

-- `db'` has the events of `db`, and no event has more passes sold or held.
pub record FewerSeats (now : ℕ) (db db' : Db) : Type 0 where
  pub events : db'.events ≡ db.events
  pub sold : (k : ℕ) → sold_in k db'.bookings ≤ sold_in k db.bookings
  pub held : (k : ℕ) → held_in k now db'.orders ≤ held_in k now db.orders

pub WithinCapacity-fewer :
    (now : ℕ) (db db' : Db) → FewerSeats now db db' → WithinCapacity now db → WithinCapacity now db'
unfolding seat_counts
WithinCapacity-fewer now db db' less w = record {
  fits = λ k cap event found limit.
      omega (arith, w.fits k cap event (rw less.events at found) limit, less.sold k, less.held k);
}

-- An update of the orders that gives none of them a new hold.
pub FewerSeats-orders :
    (now : ℕ) (t : Order → Bool) (f : Order → Order) (db : Db)
    → ((k : ℕ) (o : Order) → held_weight k now none (touch t f o) ≤ held_weight k now none o)
    → FewerSeats now db (record db { orders = update_where t f db.orders })
FewerSeats-orders now t f db le = record {
  events = refl;
  sold = λ k. omega arith;
  held = λ k. sum_by-update_le _ _ _ _ db.orders (le k);
}

-- An update of the bookings that confirms none of them.
pub FewerSeats-bookings :
    (now : ℕ) (t : Booking → Bool) (f : Booking → Booking) (db db' : Db)
    → db'.events ≡ db.events
    → db'.orders ≡ db.orders
    → db'.bookings ≡ update_where t f db.bookings
    → ((k : ℕ) (b : Booking) → sold_weight k (touch t f b) ≤ sold_weight k b)
    → FewerSeats now db db'
FewerSeats-bookings now t f db db' events orders bookings le = record {
  events = events;
  sold = λ k. rw bookings (sum_by-update_le _ _ _ _ db.bookings (le k));
  held = λ k. rw orders (omega arith);
}
