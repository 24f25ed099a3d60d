-- ===== src/Payments/Webhook/Once.antt =====
-- A delivery of the webhook handled again
-- (apps/api/src/modules/payments/payments.service.ts).
use garba_partner.Prelude.{
  ℕ, ◌≡◌, refl, ◌∙◌, Bool, true, false, ◌&&◌, Option, none, some, List, any, is_some, Bool-cases,
  inl, inr,
}
use garba_partner.Text.{same_text_refl, same_text}
use garba_partner.Table.{find_one, touch, find_one-update, find_one-append, find_one-holds}
use garba_partner.Api.{Result, ok, err, and_then}
use garba_partner.Payments.Model.{RazorpayPayment, RazorpayRefund, Gateway, WebhookEvent, Db}
use garba_partner.Payments.Service.{finalize}
use garba_partner.Payments.Service.Deliveries.{finalize-SameDeliveries}
use garba_partner.Payments.Refunds.Deliveries.{SameDeliveries, on_refund_webhook-SameDeliveries}
use garba_partner.Payments.Webhook.{
  WebhookBody, WebhookHeaders, webhook_payment_events, webhook_refund_events, run_payment_event,
  run_refund_event, run_event, is_event_id, processed_at, set_processed, new_webhook_event,
  deliver_found, deliver, delivery_id, event_name, handle_body, handle_with, handle_webhook,
}

run_payment_event-SameDeliveries :
    (gateway : Option Gateway) (now : ℕ) (code : List ℕ) (found : Option RazorpayPayment) (db : Db)
    → SameDeliveries db (run_payment_event gateway now code found db).1
unfolding run_payment_event
run_payment_event-SameDeliveries gateway now code none db = refl
run_payment_event-SameDeliveries gateway now code (some remote) db =
    and_then-forgets (finalize gateway now code remote db)
    ∙ finalize-SameDeliveries gateway now code remote db
  where
    and_then-forgets :
        {A : Type 0} (r : Result A × Db)
        → (and_then r (λ outcome db'. (ok tt, db'))).1.webhook_events ≡ r.1.webhook_events
    and_then-forgets (ok a, db') = refl
    and_then-forgets (err e, db') = refl

run_refund_event-SameDeliveries :
    (now : ℕ) (found : Option RazorpayRefund) (db : Db)
    → SameDeliveries db (run_refund_event now found db)
unfolding run_refund_event
run_refund_event-SameDeliveries now none db = refl
run_refund_event-SameDeliveries now (some refund) db =
    on_refund_webhook-SameDeliveries refund now db

run_event-SameDeliveries :
    (gateway : Option Gateway) (now : ℕ) (code event : List ℕ) (body : WebhookBody) (db : Db)
    → SameDeliveries db (run_event gateway now code event body db).1
unfolding run_event
run_event-SameDeliveries gateway now code event body db =
    elim (Bool-cases (any (same_text event) webhook_payment_events && is_some body.payment)) [
      | inl p ↦ rw p (run_payment_event-SameDeliveries gateway now code body.payment db)
      | inr p ↦ elim (Bool-cases (any (same_text event) webhook_refund_events)) [
        | inl r ↦ rw (p, r) (run_refund_event-SameDeliveries now body.refund db)
        | inr r ↦ rw (p, r) refl
      ]
    ]

-- The record of the delivery is there and marked.
pub record IsDelivered (id : List ℕ) (db : Db) : Type 0 where
  pub entry : WebhookEvent
  pub found : find_one (is_event_id id) db.webhook_events ≡ some entry
  pub done : is_some entry.processed_at ≡ true

marking_keeps_id :
    (id : List ℕ) (now : ℕ) (w : WebhookEvent)
    → is_event_id id (touch (is_event_id id) (processed_at now) w) ≡ is_event_id id w
marking_keeps_id id now w = elim (Bool-cases (is_event_id id w)) [
  | inl e ↦ rw (e, e)
  | inr e ↦ rw (e, e)
]

set_processed-IsDelivered :
    (id : List ℕ) (now : ℕ) (w : WebhookEvent) (db : Db)
    → find_one (is_event_id id) db.webhook_events ≡ some w
    → IsDelivered id (set_processed id now db)
set_processed-IsDelivered id now w db hit = record {
  entry = processed_at now w;
  found =
      rw
        (
          find_one-update (is_event_id id) (is_event_id id) (processed_at now) db.webhook_events
              (marking_keeps_id id now),
          hit,
          find_one-holds (is_event_id id) db.webhook_events hit,
        )
        refl;
  done = refl;
}

deliver_found-IsDelivered :
    (w : WebhookEvent) (gateway : Option Gateway) (now : ℕ) (code id event : List ℕ)
    (body : WebhookBody) (db : Db) (first : Bool)
    → find_one (is_event_id id) db.webhook_events ≡ some w
    → (deliver_found w gateway now code id event body db).0 ≡ ok first
    → IsDelivered id (deliver_found w gateway now code id event body db).1
unfolding deliver_found
deliver_found-IsDelivered w gateway now code id event body db first hit h =
    elim (Bool-cases (is_some w.processed_at)) [
      | inl e ↦ rw e (record { entry = w; found = hit; done = e })
      | inr e ↦
          let same = run_event-SameDeliveries gateway now code event body db in
          let h' = rw e at h in
          rw e (marked (run_event gateway now code event body db) (rw same hit) h')
    ]
  where
    marked :
        (r : Result (Unit {0}) × Db)
        → find_one (is_event_id id) r.1.webhook_events ≡ some w
        → (and_then r (λ done db'. (ok false, set_processed id now db'))).0 ≡ ok first
        → IsDelivered id (and_then r (λ done db'. (ok false, set_processed id now db'))).1
    marked (ok done, db') hit' h' = set_processed-IsDelivered id now w db' hit'
    marked (err e, db') hit' h' = absurd (cc)

deliver-IsDelivered :
    (found : Option WebhookEvent) (gateway : Option Gateway) (now : ℕ) (code id event : List ℕ)
    (body : WebhookBody) (db : Db) (first : Bool)
    → find_one (is_event_id id) db.webhook_events ≡ found
    → (deliver found gateway now code id event body db).0 ≡ ok first
    → IsDelivered id (deliver found gateway now code id event body db).1
unfolding deliver
deliver-IsDelivered (some w) gateway now code id event body db first hit h =
    deliver_found-IsDelivered w gateway now code id event body db first hit h
deliver-IsDelivered none gateway now code id event body db first miss h =
    deliver_found-IsDelivered (new_webhook_event id event body) gateway now code id event body _
      first
      (find_one-append (is_event_id id) db.webhook_events _ miss
        (unfold new_webhook_event in same_text_refl id))
      h

deliver-again :
    (gateway : Option Gateway) (now : ℕ) (code id event : List ℕ) (body : WebhookBody) (db : Db)
    (d : IsDelivered id db)
    → deliver (find_one (is_event_id id) db.webhook_events) gateway now code id event body db
      ≡ (ok true, db)
unfolding deliver deliver_found
deliver-again gateway now code id event body db d = rw (d.found, d.done)

module _ (parse : List ℕ → Option WebhookBody) (sha256 : List ℕ → List ℕ) where
  -- What a handled delivery says: a body that parses, and its record.
  handle_body-IsDelivered :
      (found : Option WebhookBody) (gateway : Option Gateway) (now : ℕ) (code raw : List ℕ)
      (headers : WebhookHeaders) (db : Db) (first : Bool)
      → (handle_body parse sha256 found gateway now code raw headers db).0 ≡ ok first
      → (is_some found ≡ true)
        × IsDelivered
            (delivery_id sha256 raw headers)
            (handle_body parse sha256 found gateway now code raw headers db).1
  unfolding handle_body
  handle_body-IsDelivered none gateway now code raw headers db first h = absurd (cc)
  handle_body-IsDelivered (some body) gateway now code raw headers db first h =
      let id = delivery_id sha256 raw headers in
      (
        refl,
        deliver-IsDelivered (find_one (is_event_id id) db.webhook_events) gateway now code id
            (event_name body) body db first refl h,
      )

  handle_body-again :
      (found : Option WebhookBody) (gateway : Option Gateway) (now : ℕ) (code raw : List ℕ)
      (headers : WebhookHeaders) (db : Db)
      → is_some found ≡ true
      → IsDelivered (delivery_id sha256 raw headers) db
      → handle_body parse sha256 found gateway now code raw headers db ≡ (ok true, db)
  unfolding handle_body
  handle_body-again none gateway now code raw headers db parsed d = absurd (cc)
  handle_body-again (some body) gateway now code raw headers db parsed d =
      deliver-again gateway now code (delivery_id sha256 raw headers) (event_name body) body db d

  -- Once a delivery of the webhook has been handled, the same delivery, with a signature that the
  -- provider accepts, is answered as a duplicate on the database that the first left, at any time,
  -- and changes nothing.
  pub handle_webhook-once :
      (g g' : Gateway) (now later : ℕ) (code code' raw : List ℕ) (headers : WebhookHeaders)
      (db : Db) (first : Bool)
      → (handle_webhook parse sha256 (some g) now code raw headers db).0 ≡ ok first
      → g'.verify_webhook_signature raw headers.signature ≡ true
      → let db' = (handle_webhook parse sha256 (some g) now code raw headers db).1 in
        handle_webhook parse sha256 (some g') later code' raw headers db' ≡ (ok true, db')
  unfolding handle_webhook handle_with
  handle_webhook-once g g' now later code code' raw headers db first h signed =
      elim (Bool-cases (g.verify_webhook_signature raw headers.signature)) [
        | inl e ↦
            let h' : (handle_body parse sha256 (parse raw) (some g) now code raw headers db).0
                ≡ ok first =
              rw e at h in
            let (parsed, delivered) =
              handle_body-IsDelivered (parse raw) (some g) now code raw headers db first h' in
            rw (e, signed)
              (handle_body-again (parse raw) (some g') later code' raw headers _ parsed delivered)
        | inr e ↦ absurd (let h' = rw e at h in cc)
      ]
