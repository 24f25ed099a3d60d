-- ===== src/Payments/Tests.antt =====
-- Concrete runs of the payments module: an event with two passes, its orders and their payments.
use garba_partner.Table.Keyed.{IsKeyed-insert}
use garba_partner.Payments.Keys.{HasOrderKeys, order_id}
use garba_partner.Prelude.{
  ◌++◌, Bool, ◌==◌, ℕ, ◌+◌, ◌≤◌, ◌≡◌, refl, true, false, Option, none, some, List, [], ◌∷◌, arith,
  length,
}
use garba_partner.Text.{codes}
use garba_partner.Table.{find_one, update_where, sum_by}
use garba_partner.Api.{Result, ok, err, conflict}
use garba_partner.Payments.Model.{
  Event, EventStatus, Order, OrderStatus, Payment, captured, unrefunded, Booking, BookingStatus,
  RazorpayPayment, Gateway, Db, pending,
}
use garba_partner.Payments.Seats.{seat_counts}
use garba_partner.Payments.Checkout
use garba_partner.Payments.Service
use garba_partner.Payments.Expiry
use garba_partner.Payments.Checkout.{OrderInput, create_order_tx}
use garba_partner.Payments.Finalize.{refund_pending, booked, finalize_tx}
use garba_partner.Payments.Refunds.{refund_booking_tx}
use garba_partner.Payments.Service.{VerifyInput}
use garba_partner.Payments.Webhook.Once.{handle_webhook-once}
use garba_partner.Payments.Webhook.{WebhookHeaders, handle_webhook, WebhookBody}
use garba_partner.Payments.Requests.{Request, Timed, create_order, verify, expire_orders, serve_all}
use garba_partner.Payments.Requests.{serve_all-never_oversold}
use garba_partner.Payments.Steps.{here, wait, next, place, finalize, IsSnapshot}
use garba_partner.Payments.Steps.Sound.{never_oversold}
use garba_partner.Payments.Finalize.{FinalizeOutcome}
use garba_partner.Payments.Finalize.Capacity.{finalize_tx-WithinCapacity}
use garba_partner.Payments.Service.Booked.{PaidFor, finalize-PaidFor}
use garba_partner.Payments.Finalize.Replay.{Replayed, finalize_tx-Replayed}
use garba_partner.Payments.Finalize.Single.{OneBookingEach, finalize_tx-OneBookingEach}
use garba_partner.Payments.Checkout.Capacity.{create_order_tx-WithinCapacity}
use garba_partner.Payments.Refunds.{RefundTarget, cancelled_by_admin}
use garba_partner.Payments.Refunds.Once.{refund_booking_tx-once}
use garba_partner.Payments.Capacity.{WithinCapacity, WithinCapacity-later}
use garba_partner.Payments.Steps.{IsSound}

abbrev pub navratri : Event
navratri = record {
  id = 1;
  status = EventStatus.published;
  starts_at = 5000000;
  ends_at = 6000000;
  pass_price_paise = some 50000;
  pass_capacity = some 2;
}

abbrev pub opening : Db
opening = record {
  events = navratri ∷ [];
  orders = [];
  payments = [];
  bookings = [];
  webhook_events = [];
  outbox = [];
  audit = [];
  next_id = 10;
}

-- two passes of the event, paid as a whole
abbrev paid_in_full : ℕ → RazorpayPayment
paid_in_full id = record {
  id = id;
  order_id = some 900;
  amount = 100000;
  currency = "INR";
  status = captured;
  method = some (codes "upi");
  error_code = none;
  error_description = none;
}

abbrev willing : Gateway
willing = record {
  create_order = λ amount receipt. ok (record { id = 900; amount = amount; currency = "INR" });
  fetch_payment = λ id. ok (paid_in_full id);
  fetch_order_payments = λ id. ok [];
  capture_payment = λ id amount. ok (paid_in_full id);
  refund_payment =
      λ id amount. ok (record { id = 700; payment_id = id; amount = amount; status = pending });
  verify_payment_signature = λ order payment signature. true;
  verify_webhook_signature = λ raw signature. true;
}

abbrev two_passes : OrderInput
two_passes = record { event_id = 1; quantity = 2 }

abbrev checkout_answer : VerifyInput
checkout_answer = record {
  razorpay_order_id = 900;
  razorpay_payment_id = 40;
  razorpay_signature = 5;
}

abbrev at : ℕ → Request → Timed
at delay request = record { delay = delay; gateway = some willing; request = request }

-- one member pays, a second finds the event sold out
abbrev evening : List Timed
evening =
    at 100 (create_order 7 two_passes 1)
    ∷ at 100 (verify 7 10 checkout_answer (codes "GP-AAAA"))
    ∷ at 100 (create_order 8 two_passes 2)
    ∷ at 100 (expire_orders (λ n. codes "GP-BBBB"))
    ∷ []

abbrev no_json : List ℕ → Option WebhookBody
no_json raw = none

abbrev same_bytes : List ℕ → List ℕ
same_bytes raw = raw

evening_books : length (serve_all no_json same_bytes 0 evening opening).1.bookings ≡ 1
unfolding serve_all find_one update_where sum_by Checkout.create_order Service.verify
    Expiry.expire_orders
evening_books = refl

evening_sells :
    seat_counts 1 400 none (serve_all no_json same_bytes 0 evening opening).1
    ≡ record { sold = 2; reserved = 0 }
unfolding serve_all find_one update_where sum_by seat_counts Checkout.create_order Service.verify
    Expiry.expire_orders
evening_sells = refl

opening-IsSound : IsSound 0 opening
unfolding seat_counts sum_by find_one
opening-IsSound = record {
  capacity = record { fits = λ k cap event found limit. omega arith };
  keys = record { by_key = λ p x h. absurd (cc); free = λ n h. refl };
}

serve_all-never_oversold_example :
    let later = (serve_all no_json same_bytes 0 evening opening).0 in
    let seats = seat_counts 1 later none (serve_all no_json same_bytes 0 evening opening).1 in
    seats.sold + seats.reserved ≤ 2
unfolding serve_all find_one update_where sum_by Checkout.create_order Service.verify
    Expiry.expire_orders
serve_all-never_oversold_example =
    serve_all-never_oversold no_json same_bytes 0 evening opening 1 2 navratri opening-IsSound refl
      refl

-- The same, transaction by transaction: the order is placed and the payment finalized later.
abbrev ordered : Db
ordered = (create_order_tx 7 two_passes 1 100 opening).1

abbrev first_order : Order
first_order = record {
  id = 10;
  user_id = 7;
  event_id = 1;
  idempotency_key = 1;
  quantity = 2;
  unit_price_paise = 50000;
  amount_paise = 100000;
  status = OrderStatus.created;
  expires_at = 900100;
  razorpay_order_id = none;
  paid_at = none;
}

ordered_first : find_one (λ o. o.id == 10) ordered.orders ≡ some first_order
unfolding create_order_tx find_one update_where sum_by
ordered_first = refl

first_order-IsSnapshot : IsSnapshot first_order ordered
first_order-IsSnapshot = record {
  same_event = λ locked found. let same = ordered_first in ground (arith, same, found);
}

abbrev finalized : FinalizeOutcome × Db
finalized = finalize_tx first_order (paid_in_full 40) true 200 (codes "GP-AAAA") ordered

never_oversold_example :
    (seat_counts 1 200 none finalized.1).sold + (seat_counts 1 200 none finalized.1).reserved ≤ 2
unfolding create_order_tx finalize_tx find_one update_where sum_by
never_oversold_example =
    never_oversold 1 2 navratri opening-IsSound
      (next
        (wait {later = 200} {db' = ordered}
          (next (wait {later = 100} {db' = opening} here (omega arith)) (place 7 two_passes 1))
          (omega arith))
        (finalize first_order (paid_in_full 40) true (codes "GP-AAAA") first_order-IsSnapshot))
      refl refl

ordered-WithinCapacity : WithinCapacity 100 ordered
ordered-WithinCapacity =
    create_order_tx-WithinCapacity 7 two_passes 1 100 opening
      (WithinCapacity-later 0 100 opening (omega arith) opening-IsSound.capacity)

create_order_tx-WithinCapacity_example :
    WithinCapacity 200 (create_order_tx 8 two_passes 2 200 ordered).1
create_order_tx-WithinCapacity_example =
    create_order_tx-WithinCapacity 8 two_passes 2 200 ordered
      (WithinCapacity-later 100 200 ordered (omega arith) ordered-WithinCapacity)

finalize_tx-WithinCapacity_example : WithinCapacity 200 finalized.1
finalize_tx-WithinCapacity_example =
    finalize_tx-WithinCapacity first_order (paid_in_full 40) true 200 (codes "GP-AAAA") ordered
      first_order-IsSnapshot.same_event
      (WithinCapacity-later 100 200 ordered (omega arith) ordered-WithinCapacity)

-- what the payment booked
abbrev first_booking : Booking
first_booking = record {
  id = 12;
  code = codes "GP-AAAA";
  order_id = 10;
  payment_id = 11;
  user_id = 7;
  event_id = 1;
  quantity = 2;
  amount_paise = 100000;
  status = BookingStatus.confirmed;
  refund_status = unrefunded;
  cancel_reason = none;
  cancelled_at = none;
}

abbrev first_payment : Payment
first_payment = record {
  id = 11;
  order_id = 10;
  razorpay_payment_id = 40;
  status = captured;
  amount_paise = 100000;
  currency = "INR";
  method = some (codes "upi");
  error_code = none;
  error_reason = none;
  captured_at = some 200;
  amount_refunded_paise = 0;
  refund_status = unrefunded;
  razorpay_refund_id = none;
  refunded_at = none;
}

finalized_books : finalized.0 ≡ booked first_booking first_payment false
unfolding create_order_tx finalize_tx find_one update_where sum_by
finalized_books = refl

-- The order with its order at the provider, and its payment reported.
abbrev awaiting : Db
awaiting = record opening {
  orders = [] ++ record first_order { razorpay_order_id = some 900 } ∷ [];
  next_id = 11;
}

awaiting-HasOrderKeys : HasOrderKeys awaiting
awaiting-HasOrderKeys =
    IsKeyed-insert order_id 10 [] (record first_order { razorpay_order_id = some 900 }) refl
      opening-IsSound.keys

awaiting_books :
    (Service.finalize (some willing) 200 (codes "GP-AAAA") (paid_in_full 40) awaiting).0
    ≡ ok (booked first_booking first_payment false)
unfolding Service.finalize find_one update_where sum_by
awaiting_books = refl

finalize-PaidFor_example : PaidFor (paid_in_full 40) awaiting first_booking first_payment false
finalize-PaidFor_example =
    finalize-PaidFor (some willing) 200 (codes "GP-AAAA") (paid_in_full 40) awaiting first_booking
      first_payment false awaiting-HasOrderKeys awaiting_books

finalize_tx-Replayed_example :
    Replayed first_booking finalized.1
      (finalize_tx first_order (paid_in_full 40) true 90000000 (codes "GP-CCCC") finalized.1)
finalize_tx-Replayed_example =
    finalize_tx-Replayed first_order (paid_in_full 40) true true 200 90000000 (codes "GP-AAAA")
      (codes "GP-CCCC") ordered first_booking first_payment false refl finalized_books

ordered-OneBookingEach : OneBookingEach ordered
unfolding create_order_tx find_one update_where sum_by
ordered-OneBookingEach = record { single = λ id. omega arith }

finalize_tx-OneBookingEach_example : OneBookingEach finalized.1
finalize_tx-OneBookingEach_example =
    finalize_tx-OneBookingEach first_order (paid_in_full 40) true 200 (codes "GP-AAAA") ordered
      ordered-OneBookingEach

-- An admin refunds the booking.
abbrev refunding : RefundTarget
refunding = record {
  booking = cancelled_by_admin 300 first_booking;
  payment = refund_pending first_payment;
  retry = false;
}

refund_starts : (refund_booking_tx 3 12 "storm" 300 finalized.1).0 ≡ ok refunding
unfolding create_order_tx finalize_tx find_one update_where sum_by refund_booking_tx
refund_starts = refl

refund_booking_tx-once_example :
    refund_booking_tx 4 12 "again" 400 (refund_booking_tx 3 12 "storm" 300 finalized.1).1
    ≡ (err conflict, (refund_booking_tx 3 12 "storm" 300 finalized.1).1)
refund_booking_tx-once_example =
    refund_booking_tx-once 3 4 12 "storm" "again" 300 400 finalized.1 refunding refund_starts

-- The provider tells of the payment of an order that is open, twice.
abbrev checked_out : Db
checked_out = (Checkout.create_order (some willing) 7 two_passes 1 100 opening).1

abbrev captured_event : List ℕ → Option WebhookBody
captured_event raw = some (record {
  event = some (codes "payment.captured");
  payment = some (paid_in_full 40);
  refund = none;
})

abbrev signed_headers : WebhookHeaders
signed_headers = record { signature = some (codes "sig"); event_id = some (codes "evt_1") }

abbrev told : Result Bool × Db
told =
    handle_webhook captured_event same_bytes (some willing) 200 (codes "GP-AAAA") (codes "raw")
      signed_headers checked_out

told_once : told.0 ≡ ok false
unfolding handle_webhook Checkout.create_order find_one update_where sum_by
told_once = refl

told_books : length told.1.bookings ≡ 1
unfolding handle_webhook Checkout.create_order find_one update_where sum_by
told_books = refl

handle_webhook-once_example :
    handle_webhook captured_event same_bytes
      (some willing)
      500
      (codes "GP-BBBB")
      (codes "raw")
      signed_headers
      told.1
    ≡ (ok true, told.1)
handle_webhook-once_example =
    handle_webhook-once captured_event same_bytes willing willing 200 500 (codes "GP-AAAA")
      (codes "GP-BBBB") (codes "raw") signed_headers checked_out false told_once refl
