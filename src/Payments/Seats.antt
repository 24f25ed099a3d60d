-- ===== src/Payments/Seats.antt =====
-- Passes sold and held (apps/api/src/modules/payments/pass-availability.ts).
use garba_partner.Prelude.{
  ℕ, ◌-◌, Bool, false, not, ◌&&◌, Option, none, some, ltb, ◌==◌, if◌then◌else◌, is_some,
}
use garba_partner.Table.{sum_by}
use garba_partner.Payments.Model.{Event, Order, Booking, Db, is_published, is_created, is_confirmed}

pub record SeatRow : Type 0 where
  pub sold : ℕ
  pub reserved : ℕ

-- what a booking adds to the passes sold for an event
abbrev pub sold_weight : ℕ → Booking → ℕ
sold_weight event_id b = if b.event_id == event_id && is_confirmed b.status then b.quantity else 0

-- `id <> :excludeOrderId`; with no order excluded the source compares with a UUID that no row has
abbrev pub is_excluded : Option ℕ → ℕ → Bool
is_excluded none id = false
is_excluded (some x) id = id == x

-- what an unpaid order holds at a moment
abbrev pub held_weight : ℕ → ℕ → Option ℕ → Order → ℕ
held_weight event_id now exclude o =
    if o.event_id == event_id
      && is_created o.status
      && ltb now o.expires_at
      && not (is_excluded exclude o.id)
    then o.quantity
    else 0

unfoldable pub seat_counts : ℕ → ℕ → Option ℕ → Db → SeatRow
seat_counts event_id now exclude db = record {
  sold = sum_by (sold_weight event_id) db.bookings;
  reserved = sum_by (held_weight event_id now exclude) db.orders;
}

unfoldable pub passes_on_sale : Event → ℕ → Bool
passes_on_sale event now =
    is_some event.pass_price_paise && is_published event.status && ltb now event.starts_at

pub record EventPass : Type 0 where
  pub price_paise : ℕ
  pub max_per_order : ℕ
  pub on_sale : Bool
  pub remaining : Option ℕ
  pub is_sold_out : Bool

abbrev pub pass_max_per_order : ℕ
pass_max_per_order = 6

remaining_of : Option ℕ → SeatRow → Option ℕ
remaining_of none seats = none
remaining_of (some capacity) seats = some (capacity - seats.sold - seats.reserved)

is_zero : Option ℕ → Bool
is_zero none = false
is_zero (some n) = n == 0

pass_view : Option ℕ → Event → ℕ → Db → Option EventPass
unfolding remaining_of is_zero passes_on_sale seat_counts
pass_view none event now db = none
pass_view (some price) event now db =
    let remaining = remaining_of event.pass_capacity (seat_counts event.id now none db) in
    some (record {
      price_paise = price;
      max_per_order = pass_max_per_order;
      on_sale = passes_on_sale event now;
      remaining = remaining;
      is_sold_out = is_zero remaining;
    })

unfoldable pub load_event_pass : Event → ℕ → Db → Option EventPass
unfolding pass_view
load_event_pass event now db = pass_view event.pass_price_paise event now db
