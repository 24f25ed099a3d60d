-- ===== src/Payments/Requests.antt =====
-- Every request and job of the payments module, one after another
-- (apps/api/src/modules/payments/payments.service.ts).
use garba_partner.Prelude.{ℕ, ◌+◌, ◌≤◌, ◌≡◌, String, Option, none, some, List, [], ◌∷◌, ◌==◌}
use native.Mathlib.Nat.{le-add_right}
use garba_partner.Table.{find_one}
use garba_partner.Payments.Model.{Event, Gateway, Db}
use garba_partner.Payments.Seats.{seat_counts}
use garba_partner.Payments.Checkout
use garba_partner.Payments.Checkout.{OrderInput}
use garba_partner.Payments.Checkout.Runs.{create_order-Run}
use garba_partner.Payments.Service
use garba_partner.Payments.Service.{VerifyInput}
use garba_partner.Payments.Service.Runs.{verify-Run}
use garba_partner.Payments.Webhook.{WebhookBody, WebhookHeaders, handle_webhook}
use garba_partner.Payments.Webhook.Runs.{handle_webhook-Run}
use garba_partner.Payments.Refunds
use garba_partner.Payments.Refunds.Runs.{refund_booking-Run}
use garba_partner.Payments.Expiry
use garba_partner.Payments.Expiry.Runs.{expire_orders-Run}
use garba_partner.Payments.Steps.{Run, here, wait, IsSound}
use garba_partner.Payments.Steps.Sound.{never_oversold}

pub data Request : Type 0 where
  create_order : (user_id : ℕ) → OrderInput → (key : ℕ) → Request
  verify : (user_id order_id : ℕ) → VerifyInput → (code : List ℕ) → Request
  webhook : (raw : List ℕ) → WebhookHeaders → (code : List ℕ) → Request
  refund_booking : (admin_id booking_id : ℕ) → (reason : String) → Request
  expire_orders : (code : ℕ → List ℕ) → Request

-- A request, the provider that it meets, and the time that passes before it.
pub record Timed : Type 0 where
  pub delay : ℕ
  pub gateway : Option Gateway
  pub request : Request

module _ (parse : List ℕ → Option WebhookBody) (sha256 : List ℕ → List ℕ) where
  -- The database after a request at `now`; each request meets a provider of its own.
  unfoldable pub serve : ℕ → Option Gateway → Request → Db → Db
  serve now g (create_order user_id input key) db =
      (Checkout.create_order g user_id input key now db).1
  serve now g (verify user_id order_id input code) db =
      (Service.verify g now code user_id order_id input db).1
  serve now g (webhook raw headers code) db =
      (handle_webhook parse sha256 g now code raw headers db).1
  serve now g (refund_booking admin_id booking_id reason) db =
      (Refunds.refund_booking g admin_id booking_id reason now db).1
  serve now g (expire_orders code) db = (Expiry.expire_orders g now now code db).1

  unfoldable pub serve_all : ℕ → List Timed → Db → ℕ × Db
  unfolding serve
  serve_all now [] db = (now, db)
  serve_all now (t ∷ ts) db =
      serve_all (now + t.delay) ts (serve (now + t.delay) t.gateway t.request db)

  serve-Run :
      {start : ℕ} {origin : Db} (sound : IsSound start origin) {now : ℕ} (g : Option Gateway)
      (request : Request) {db : Db}
      → Run start origin now db
      → Run start origin now (serve now g request db)
  unfolding serve
  serve-Run sound g (create_order user_id input key) r = create_order-Run g user_id input key r
  serve-Run sound g (verify user_id order_id input code) r =
      verify-Run sound g code user_id order_id input r
  serve-Run sound g (webhook raw headers code) r =
      handle_webhook-Run sound parse sha256 g code raw headers r
  serve-Run sound g (refund_booking admin_id booking_id reason) r =
      refund_booking-Run g admin_id booking_id reason r
  serve-Run sound {now} g (expire_orders code) r = expire_orders-Run sound g now code r

  serve_all-Run :
      {start : ℕ} {origin : Db} (sound : IsSound start origin) (now : ℕ) (ts : List Timed) {db : Db}
      → Run start origin now db
      → Run start origin (serve_all now ts db).0 (serve_all now ts db).1
  unfolding serve_all
  serve_all-Run sound now [] r = r
  serve_all-Run sound now (t ∷ ts) r =
      serve_all-Run sound (now + t.delay) ts
        (serve-Run sound t.gateway t.request (wait r (le-add_right now t.delay)))

  -- From a database in which every event is within its capacity, the orders are keyed by their ids
  -- and the ids from `next_id` on are free, after any list of requests, each with any answers of the
  -- provider: the passes sold for an event with a capacity and the passes that unpaid orders hold at
  -- the last moment do not exceed the capacity.
  pub serve_all-never_oversold :
      (now : ℕ) (ts : List Timed) (db : Db) (k cap : ℕ) (event : Event)
      → IsSound now db
      → find_one (λ e. e.id == k) (serve_all now ts db).1.events ≡ some event
      → event.pass_capacity ≡ some cap
      → let later = (serve_all now ts db).0 in
        let seats = seat_counts k later none (serve_all now ts db).1 in
        seats.sold + seats.reserved ≤ cap
  serve_all-never_oversold now ts db k cap event sound found limit =
      never_oversold k cap event sound (serve_all-Run sound now ts here) found limit
