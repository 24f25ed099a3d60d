-- ===== src/Payments/Webhook/Runs.antt =====
-- `handleWebhook` as steps of the payments module
-- (apps/api/src/modules/payments/payments.service.ts).
use garba_partner.Prelude.{
  ℕ, false, ◌&&◌, Option, none, some, List, [], ◌∷◌, ◌++◌, inl, inr, is_some, any, Bool-cases,
}
use garba_partner.Text.{same_text}
use garba_partner.Table.{find_one}
use garba_partner.Api.{Result, ok, err, and_then}
use garba_partner.Payments.Model.{RazorpayPayment, RazorpayRefund, Gateway, WebhookEvent, Db}
use garba_partner.Payments.Finalize.{FinalizeOutcome}
use garba_partner.Payments.Service.{finalize}
use garba_partner.Payments.Service.Runs.{finalize-Run}
use garba_partner.Payments.Refunds.Runs.{on_refund_webhook-Run}
use garba_partner.Payments.Webhook
use garba_partner.Payments.Webhook.{
  WebhookBody, webhook_payment_events, webhook_refund_events, run_payment_event, run_refund_event,
  run_event, is_event_id, set_processed, new_webhook_event, deliver_found, handle_body, handle_with,
  WebhookHeaders, handle_webhook, delivery_id, event_name,
}
use garba_partner.Payments.Steps.{Run, next, deliver, IsSound}

module _ {start : ℕ} {origin : Db} (sound : IsSound start origin) {now : ℕ} where
  -- what a bind goes on with, where it keeps the database or delivers once more
  then_done-Run :
      (result : Result FinalizeOutcome × Db)
      → Run start origin now result.1
      → Run start origin now (and_then {B = Unit {0}} result (λ outcome db'. (ok tt, db'))).1
  then_done-Run (ok outcome, db) r = r
  then_done-Run (err e, db) r = r

  run_payment_event-Run :
      (gateway : Option Gateway) (code : List ℕ) (found : Option RazorpayPayment) {db : Db}
      → Run start origin now db
      → Run start origin now (run_payment_event gateway now code found db).1
  unfolding run_payment_event
  run_payment_event-Run gateway code none r = r
  run_payment_event-Run gateway code (some remote) {db} r =
      then_done-Run (finalize gateway now code remote db) (finalize-Run sound gateway code remote r)

  run_refund_event-Run :
      (found : Option RazorpayRefund) {db : Db}
      → Run start origin now db
      → Run start origin now (run_refund_event now found db)
  unfolding run_refund_event
  run_refund_event-Run none r = r
  run_refund_event-Run (some answer) r = on_refund_webhook-Run answer r

  run_event-Run :
      (gateway : Option Gateway) (code event : List ℕ) (body : WebhookBody) {db : Db}
      → Run start origin now db
      → Run start origin now (run_event gateway now code event body db).1
  unfolding run_event
  run_event-Run gateway code event body r =
      elim (Bool-cases (any (same_text event) webhook_payment_events && is_some body.payment)) [
        | inl e ↦ rw e (run_payment_event-Run gateway code body.payment r)
        | inr e ↦ elim (Bool-cases (any (same_text event) webhook_refund_events)) [
          | inl f ↦ rw (e, f) (run_refund_event-Run body.refund r)
          | inr f ↦ rw (e, f) r
        ]
      ]

  deliver_found-Run :
      (found : WebhookEvent) (gateway : Option Gateway) (code id event : List ℕ)
      (body : WebhookBody) {db : Db}
      → Run start origin now db
      → Run start origin now (deliver_found found gateway now code id event body db).1
  unfolding deliver_found
  deliver_found-Run found gateway code id event body {db} r =
      elim (Bool-cases (is_some found.processed_at)) [
        | inl e ↦ rw e r
        | inr e ↦ rw e (
            then_processed (run_event gateway now code event body db)
              (run_event-Run gateway code event body r))
      ]
    where
      then_processed :
          (result : Result (Unit {0}) × Db)
          → Run start origin now result.1
          → Run start origin now
              (and_then result (λ done db'. (ok false, set_processed id now db'))).1
      then_processed (ok done, db') r' = next r' (deliver _)
      then_processed (err e, db') r' = r'

  deliver-Run :
      (found : Option WebhookEvent) (gateway : Option Gateway) (code id event : List ℕ)
      (body : WebhookBody) {db : Db}
      → Run start origin now db
      → Run start origin now (Webhook.deliver found gateway now code id event body db).1
  unfolding Webhook.deliver
  deliver-Run (some found) gateway code id event body r =
      deliver_found-Run found gateway code id event body r
  deliver-Run none gateway code id event body {db} r =
      let fresh = new_webhook_event id event body in
      deliver_found-Run fresh gateway code id event body
        (next r (deliver (db.webhook_events ++ fresh ∷ [])))

  module _ (parse : List ℕ → Option WebhookBody) (sha256 : List ℕ → List ℕ) where
    handle_body-Run :
        (body : Option WebhookBody) (gateway : Option Gateway) (code raw : List ℕ)
        (headers : WebhookHeaders) {db : Db}
        → Run start origin now db
        → Run start origin now (handle_body parse sha256 body gateway now code raw headers db).1
    unfolding handle_body
    handle_body-Run none gateway code raw headers r = r
    handle_body-Run (some body) gateway code raw headers {db} r =
        let id = delivery_id sha256 raw headers in
        deliver-Run (find_one (is_event_id id) db.webhook_events) gateway code id (event_name body)
          body r

    handle_with-Run :
        (gateway : Option Gateway) (code raw : List ℕ) (headers : WebhookHeaders) {db : Db}
        → Run start origin now db
        → Run start origin now (handle_with parse sha256 gateway now code raw headers db).1
    unfolding handle_with
    handle_with-Run none code raw headers r = r
    handle_with-Run (some g) code raw headers r =
        elim (Bool-cases (g.verify_webhook_signature raw headers.signature)) [
          | inl e ↦ rw e (handle_body-Run (parse raw) (some g) code raw headers r)
          | inr e ↦ rw e r
        ]

    pub handle_webhook-Run :
        (gateway : Option Gateway) (code raw : List ℕ) (headers : WebhookHeaders) {db : Db}
        → Run start origin now db
        → Run start origin now (handle_webhook parse sha256 gateway now code raw headers db).1
    unfolding handle_webhook
    handle_webhook-Run gateway code raw headers r = handle_with-Run gateway code raw headers r
