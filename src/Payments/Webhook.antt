-- ===== src/Payments/Webhook.antt =====
-- The provider's webhook, `handleWebhook`
-- (apps/api/src/modules/payments/payments.service.ts): the signature, the body, one record for each
-- delivery, and the dispatch on the event's name.
pub mod Runs
pub mod Once
use garba_partner.Prelude.{
  ℕ, Bool, true, false, not, ◌&&◌, Option, none, some, List, [], ◌∷◌, ◌++◌, if◌then◌else◌, or_else,
  is_some, take, any,
}
use garba_partner.Text.{codes, same_text}
use garba_partner.Table.{find_one, update_where}
use garba_partner.Api.{
  ok, err, Handler, and_then, unauthenticated, validation_error, payments_unavailable,
}
use garba_partner.Payments.Model.{RazorpayPayment, RazorpayRefund, Gateway, WebhookEvent, Db}
use garba_partner.Payments.Service.{finalize}
use garba_partner.Payments.Refunds.{on_refund_webhook}

-- What the webhook reads of the body.
pub record WebhookBody : Type 0 where
  pub event : Option (List ℕ)
  pub payment : Option RazorpayPayment
  pub refund : Option RazorpayRefund

unfoldable pub webhook_payment_events : List (List ℕ)
webhook_payment_events =
    codes "payment.authorized"
    ∷ codes "payment.captured"
    ∷ codes "payment.failed"
    ∷ codes "order.paid"
    ∷ []

unfoldable pub webhook_refund_events : List (List ℕ)
webhook_refund_events =
    codes "refund.created" ∷ codes "refund.processed" ∷ codes "refund.failed" ∷ []

run_payment_event : Option Gateway → ℕ → List ℕ → Option RazorpayPayment → Handler Db (Unit {0})
unfolding finalize
run_payment_event gateway now code none db = (ok tt, db)
run_payment_event gateway now code (some remote) db =
    and_then (finalize gateway now code remote db) (λ outcome db'. (ok tt, db'))

run_refund_event : ℕ → Option RazorpayRefund → Db → Db
unfolding on_refund_webhook
run_refund_event now none db = db
run_refund_event now (some refund) db = on_refund_webhook refund now db

-- An event of the payment kind that carries no payment falls through to the refund test.
run_event : Option Gateway → ℕ → List ℕ → List ℕ → WebhookBody → Handler Db (Unit {0})
unfolding run_payment_event run_refund_event webhook_payment_events webhook_refund_events
run_event gateway now code event body db =
    if any (same_text event) webhook_payment_events && is_some body.payment
    then run_payment_event gateway now code body.payment db
    else if any (same_text event) webhook_refund_events
    then (ok tt, run_refund_event now body.refund db)
    else (ok tt, db)

abbrev pub is_event_id : List ℕ → WebhookEvent → Bool
is_event_id id w = same_text w.event_id id

abbrev processed_at : ℕ → WebhookEvent → WebhookEvent
processed_at now w = record w { processed_at = some now }

abbrev set_processed : List ℕ → ℕ → Db → Db
set_processed id now db = record db {
  webhook_events = update_where (is_event_id id) (processed_at now) db.webhook_events;
}

new_webhook_event : List ℕ → List ℕ → WebhookBody → WebhookEvent
new_webhook_event id event body = record {
  event_id = id;
  event = event;
  razorpay_payment_id = elim body.payment [
    | none ↦ elim body.refund [ none ↦ none | some r ↦ some r.payment_id ]
    | some p ↦ some p.id
  ];
  razorpay_order_id = elim body.payment [ none ↦ none | some p ↦ p.order_id ];
  processed_at = none;
}

-- The record of the delivery is there; `true` is `{ duplicate: true }`.
deliver_found :
    WebhookEvent → Option Gateway → ℕ → List ℕ → List ℕ → List ℕ → WebhookBody → Handler Db Bool
unfolding run_event
deliver_found found gateway now code id event body db =
    if is_some found.processed_at
    then (ok true, db)
    else and_then (run_event gateway now code event body db)
        (λ done db'. (ok false, set_processed id now db'))

-- `findOrCreate`
deliver :
    Option WebhookEvent
    → Option Gateway
    → ℕ
    → List ℕ
    → List ℕ
    → List ℕ
    → WebhookBody
    → Handler Db Bool
unfolding deliver_found new_webhook_event
deliver (some found) gateway now code id event body db =
    deliver_found found gateway now code id event body db
deliver none gateway now code id event body db =
    let fresh = new_webhook_event id event body in
    deliver_found fresh gateway now code id event body
      (record db { webhook_events = db.webhook_events ++ fresh ∷ [] })

pub record WebhookHeaders : Type 0 where
  pub signature : Option (List ℕ)
  pub event_id : Option (List ℕ)

-- the provider's id of the delivery, or a hash of the signed body
abbrev pub delivery_id : (List ℕ → List ℕ) → List ℕ → WebhookHeaders → List ℕ
delivery_id sha256 raw headers = take 64 (or_else headers.event_id (sha256 raw))

abbrev pub event_name : WebhookBody → List ℕ
event_name body = elim body.event [ none ↦ codes "unknown" | some e ↦ take 60 e ]

-- `JSON.parse` (`none` where it throws) and SHA-256 are parameters.
module _ (parse : List ℕ → Option WebhookBody) (sha256 : List ℕ → List ℕ) where
  handle_body :
      Option WebhookBody → Option Gateway → ℕ → List ℕ → List ℕ → WebhookHeaders → Handler Db Bool
  unfolding deliver
  handle_body none gateway now code raw headers db = (err validation_error, db)
  handle_body (some body) gateway now code raw headers db =
      let id = delivery_id sha256 raw headers in
      deliver (find_one (is_event_id id) db.webhook_events) gateway now code id (event_name body)
        body db

  handle_with : Option Gateway → ℕ → List ℕ → List ℕ → WebhookHeaders → Handler Db Bool
  unfolding handle_body
  handle_with none now code raw headers db = (err payments_unavailable, db)
  handle_with (some g) now code raw headers db =
      if not (g.verify_webhook_signature raw headers.signature)
      then (err unauthenticated, db)
      else handle_body (parse raw) (some g) now code raw headers db

  unfoldable pub handle_webhook :
      Option Gateway → ℕ → List ℕ → List ℕ → WebhookHeaders → Handler Db Bool
  unfolding handle_with
  handle_webhook gateway now code raw headers db = handle_with gateway now code raw headers db
