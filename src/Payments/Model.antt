-- ===== src/Payments/Model.antt =====
-- The rows that the payments module reads and writes (apps/api/src/models: event, order, payment,
-- event-booking, payment-webhook-event), the types of the payment provider
-- (apps/api/src/providers/payments/razorpay.gateway.ts), and the database that holds them.
--
-- A UUID is a number, and `next_id` is the supply from which the database names a new row. A date
-- is its milliseconds. Text that is cut to a length is the list of its code units.
use garba_partner.Prelude.{ℕ, String, Bool, true, false, Option, List}
use garba_partner.Api.{Result}

pub data EventStatus : Type 0 where
  draft published archived : EventStatus

pub data OrderStatus : Type 0 where
  created paid expired failed : OrderStatus

pub data PaymentStatus : Type 0 where
  created authorized captured failed refunded : PaymentStatus

pub data BookingStatus : Type 0 where
  confirmed cancelled : BookingStatus

-- `unrefunded` is the source's 'none'.
pub data RefundStatus : Type 0 where
  unrefunded pending processed failed : RefundStatus

pub data CancelReason : Type 0 where
  admin_refund sold_out event_unavailable : CancelReason

pub data BookingKind : Type 0 where
  confirmed cancelled refund_processed refund_failed : BookingKind

pub record Event : Type 0 where
  pub id : ℕ
  pub status : EventStatus
  pub starts_at : ℕ
  pub ends_at : ℕ
  pub pass_price_paise : Option ℕ
  pub pass_capacity : Option ℕ

pub record Order : Type 0 where
  pub id : ℕ
  pub user_id : ℕ
  pub event_id : ℕ
  pub idempotency_key : ℕ
  pub quantity : ℕ
  pub unit_price_paise : ℕ
  pub amount_paise : ℕ
  pub status : OrderStatus
  pub expires_at : ℕ
  pub razorpay_order_id : Option ℕ
  pub paid_at : Option ℕ

pub record Payment : Type 0 where
  pub id : ℕ
  pub order_id : ℕ
  pub razorpay_payment_id : ℕ
  pub status : PaymentStatus
  pub amount_paise : ℕ
  pub currency : String
  pub method : Option (List ℕ)
  pub error_code : Option (List ℕ)
  pub error_reason : Option (List ℕ)
  pub captured_at : Option ℕ
  pub amount_refunded_paise : ℕ
  pub refund_status : RefundStatus
  pub razorpay_refund_id : Option ℕ
  pub refunded_at : Option ℕ

pub record Booking : Type 0 where
  pub id : ℕ
  pub code : List ℕ
  pub order_id : ℕ
  pub payment_id : ℕ
  pub user_id : ℕ
  pub event_id : ℕ
  pub quantity : ℕ
  pub amount_paise : ℕ
  pub status : BookingStatus
  pub refund_status : RefundStatus
  pub cancel_reason : Option CancelReason
  pub cancelled_at : Option ℕ

pub record WebhookEvent : Type 0 where
  pub event_id : List ℕ
  pub event : List ℕ
  pub razorpay_payment_id : Option ℕ
  pub razorpay_order_id : Option ℕ
  pub processed_at : Option ℕ

-- What the provider returns.
pub record RazorpayOrder : Type 0 where
  pub id : ℕ
  pub amount : ℕ
  pub currency : String

pub record RazorpayPayment : Type 0 where
  pub id : ℕ
  pub order_id : Option ℕ
  pub amount : ℕ
  pub currency : String
  pub status : PaymentStatus
  pub method : Option (List ℕ)
  pub error_code : Option (List ℕ)
  pub error_description : Option (List ℕ)

-- Of a refund's status the provider has 'pending', 'processed' and 'failed'.
pub record RazorpayRefund : Type 0 where
  pub id : ℕ
  pub payment_id : ℕ
  pub amount : ℕ
  pub status : RefundStatus

-- The payment provider is not part of the program: any functions at all may stand here. `err` is
-- a call that throws.
pub record Gateway : Type 0 where
  pub create_order : ℕ → ℕ → Result RazorpayOrder
  pub fetch_payment : ℕ → Result RazorpayPayment
  pub fetch_order_payments : ℕ → Result (List RazorpayPayment)
  pub capture_payment : ℕ → ℕ → Result RazorpayPayment
  pub refund_payment : ℕ → ℕ → Result RazorpayRefund
  pub verify_payment_signature : ℕ → ℕ → ℕ → Bool
  pub verify_webhook_signature : List ℕ → Option (List ℕ) → Bool

-- A notification of kind `kind` about booking `booking_id` to `user_id`.
pub record Notice : Type 0 where
  pub user_id : ℕ
  pub booking_id : ℕ
  pub event_id : ℕ
  pub kind : BookingKind

-- An entry of the admin audit log about a refund.
pub record RefundAudit : Type 0 where
  pub admin_id : ℕ
  pub retry : Bool
  pub booking_id : ℕ
  pub reason : String
  pub amount_paise : ℕ

pub record Db : Type 0 where
  pub events : List Event
  pub orders : List Order
  pub payments : List Payment
  pub bookings : List Booking
  pub webhook_events : List WebhookEvent
  pub outbox : List Notice
  pub audit : List RefundAudit
  pub next_id : ℕ

-- Tests of a status against one literal.
abbrev pub is_published : EventStatus → Bool
is_published published = true
is_published _ = false

abbrev pub is_created : OrderStatus → Bool
is_created OrderStatus.created = true
is_created _ = false

abbrev pub is_captured : PaymentStatus → Bool
is_captured captured = true
is_captured _ = false

abbrev pub is_authorized : PaymentStatus → Bool
is_authorized authorized = true
is_authorized _ = false

abbrev pub is_failed : PaymentStatus → Bool
is_failed PaymentStatus.failed = true
is_failed _ = false

abbrev pub is_confirmed : BookingStatus → Bool
is_confirmed BookingStatus.confirmed = true
is_confirmed _ = false

abbrev pub is_unrefunded : RefundStatus → Bool
is_unrefunded unrefunded = true
is_unrefunded _ = false

abbrev pub is_pending : RefundStatus → Bool
is_pending pending = true
is_pending _ = false

abbrev pub is_processed : RefundStatus → Bool
is_processed processed = true
is_processed _ = false

abbrev pub is_refund_failed : RefundStatus → Bool
is_refund_failed RefundStatus.failed = true
is_refund_failed _ = false
