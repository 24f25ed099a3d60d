-- ===== src/Payments/Expiry.antt =====
-- The job `expireOrders` (apps/api/src/modules/payments/payments.service.ts).
pub mod Runs
use garba_partner.Prelude.{
  ℕ, ◌+◌, Bool, true, false, ◌&&◌, Option, some, List, [], ◌∷◌, leb, ◌==◌, if◌then◌else◌, take,
  filter, any,
}
use garba_partner.Table.{update_where, count_where}
use garba_partner.Api.{Result, ok, err}
use garba_partner.Payments.Model.{Order, OrderStatus, RazorpayPayment, Gateway, Db, is_created}
use garba_partner.Payments.Finalize.{FinalizeOutcome, booked}
use garba_partner.Payments.Service.{finalize}

-- The job: finalize what the provider reports of lapsed orders, then release their seats.
insert_by_expiry : Order → List Order → List Order
insert_by_expiry o [] = o ∷ []
insert_by_expiry o (p ∷ ps) =
    if leb o.expires_at p.expires_at then o ∷ p ∷ ps else p ∷ insert_by_expiry o ps

sort_by_expiry : List Order → List Order
unfolding insert_by_expiry
sort_by_expiry [] = []
sort_by_expiry (o ∷ os) = insert_by_expiry o (sort_by_expiry os)

unfoldable pub due_orders : ℕ → Db → List Order
unfolding sort_by_expiry
due_orders now db =
    take 100 (sort_by_expiry (filter (λ o. is_created o.status && leb o.expires_at now) db.orders))

-- `UPDATE orders SET status = 'expired' WHERE id = ... AND status = 'created'`
unfoldable pub expire_order : ℕ → Db → Db
expire_order id db = record db {
  orders =
      update_where (λ o. o.id == id && is_created o.status)
        (λ o. record o { status = OrderStatus.expired }) db.orders;
}

abbrev is_booked : FinalizeOutcome → ℕ
is_booked (booked b p r) = 1
is_booked _ = 0

-- The loop over an order's payments: whether it ended without a throw, and `reconciled`, which a
-- throw leaves as it is. `code` is the random booking code that the next row's number draws.
reconcile_all : List RazorpayPayment → Option Gateway → ℕ → (ℕ → List ℕ) → ℕ → Db → (Bool × ℕ) × Db
unfolding finalize
reconcile_all [] gateway clock code count db = ((true, count), db)
reconcile_all (p ∷ ps) gateway clock code count db =
    let next = finalize gateway clock (code db.next_id) p db in
    elim next.0 [
      | ok outcome ↦ reconcile_all ps gateway clock code (count + is_booked outcome) next.1
      | err e ↦ ((false, count), next.1)
    ]

reconcile_fetched :
    Result (List RazorpayPayment) → Option Gateway → ℕ → (ℕ → List ℕ) → ℕ → Db → (Bool × ℕ) × Db
unfolding reconcile_all
reconcile_fetched (err e) gateway clock code count db = ((false, count), db)
reconcile_fetched (ok ps) gateway clock code count db = reconcile_all ps gateway clock code count db

reconcile : Option ℕ → Option Gateway → ℕ → (ℕ → List ℕ) → ℕ → Db → (Bool × ℕ) × Db
unfolding reconcile_fetched
reconcile (some order_id) (some g) clock code count db =
    reconcile_fetched (g.fetch_order_payments order_id) (some g) clock code count db
reconcile _ _ clock code count db = ((true, count), db)

-- The loop over the due orders: an order whose reconciliation throws keeps its seats until the
-- next run.
expire_due : List Order → Option Gateway → ℕ → (ℕ → List ℕ) → ℕ → Db → ℕ × Db
unfolding reconcile expire_order
expire_due [] gateway clock code count db = (count, db)
expire_due (o ∷ os) gateway clock code count db =
    let ((done, count'), db') = reconcile o.razorpay_order_id gateway clock code count db in
    expire_due os gateway clock code count' (if done then expire_order o.id db' else db')

pub record Expired : Type 0 where
  pub expired : ℕ
  pub reconciled : ℕ

abbrev is_expired : OrderStatus → Bool
is_expired OrderStatus.expired = true
is_expired _ = false

-- `now` is the job's, `clock` the clock that `finalize` reads.
unfoldable pub expire_orders : Option Gateway → ℕ → ℕ → (ℕ → List ℕ) → Db → Expired × Db
unfolding expire_due due_orders
expire_orders gateway now clock code db =
    let due = due_orders now db in
    let (reconciled, db') = expire_due due gateway clock code 0 db in
    let counted : Expired = record {
      expired = count_where (λ o. any (λ d. d.id == o.id) due && is_expired o.status) db'.orders;
      reconciled = reconciled;
    } in
    (counted, db')
