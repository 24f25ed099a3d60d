-- ===== src/Payments/Expiry/Runs.antt =====
-- `expireOrders` as steps of the payments module
-- (apps/api/src/modules/payments/payments.service.ts).
use garba_partner.Prelude.{
  ℕ, ◌+◌, Bool, true, false, Option, some, List, [], ◌∷◌, inl, inr, if◌then◌else◌,
}
use garba_partner.Api.{Result, ok, err, Result-cases}
use garba_partner.Payments.Model.{Order, RazorpayPayment, Gateway, Db}
use garba_partner.Payments.Service.{finalize}
use garba_partner.Payments.Service.Runs.{finalize-Run}
use garba_partner.Payments.Expiry.{
  is_booked, reconcile_all, reconcile_fetched, reconcile, expire_order, expire_due, due_orders,
  expire_orders,
}
use garba_partner.Payments.Steps.{Run, next, expire, IsSound}

module _ {start : ℕ} {origin : Db} (sound : IsSound start origin) {clock : ℕ} where
  reconcile_all-Run :
      (ps : List RazorpayPayment) (gateway : Option Gateway) (code : ℕ → List ℕ) (count : ℕ)
      {db : Db}
      → Run start origin clock db
      → Run start origin clock (reconcile_all ps gateway clock code count db).1
  unfolding reconcile_all
  reconcile_all-Run [] gateway code count r = r
  reconcile_all-Run (p ∷ ps) gateway code count {db} r =
      elim (Result-cases (finalize gateway clock (code db.next_id) p db).0) [
        | inl (outcome, e) ↦
            rw (e, reconcile_all)
              (reconcile_all-Run ps gateway code (count + is_booked outcome)
                (finalize-Run sound gateway (code db.next_id) p r))
        | inr (error, e) ↦ rw (e, reconcile_all) (finalize-Run sound gateway (code db.next_id) p r)
      ]

  reconcile_fetched-Run :
      (answer : Result (List RazorpayPayment)) (gateway : Option Gateway) (code : ℕ → List ℕ)
      (count : ℕ) {db : Db}
      → Run start origin clock db
      → Run start origin clock (reconcile_fetched answer gateway clock code count db).1
  unfolding reconcile_fetched
  reconcile_fetched-Run (ok ps) gateway code count r = reconcile_all-Run ps gateway code count r
  reconcile_fetched-Run (err e) gateway code count r = r

  reconcile-Run :
      (id : Option ℕ) (gateway : Option Gateway) (code : ℕ → List ℕ) (count : ℕ) {db : Db}
      → Run start origin clock db
      → Run start origin clock (reconcile id gateway clock code count db).1
  unfolding reconcile
  reconcile-Run (some id) (some g) code count r =
      reconcile_fetched-Run (g.fetch_order_payments id) (some g) code count r
  reconcile-Run _ _ code count r = r

  expire_due-Run :
      (due : List Order) (gateway : Option Gateway) (code : ℕ → List ℕ) (count : ℕ) {db : Db}
      → Run start origin clock db
      → Run start origin clock (expire_due due gateway clock code count db).1
  unfolding expire_due
  expire_due-Run [] gateway code count r = r
  expire_due-Run (o ∷ os) gateway code count {db} r =
      let result = reconcile o.razorpay_order_id gateway clock code count db in
      let r' = reconcile-Run o.razorpay_order_id gateway code count r in
      expire_due-Run os gateway code result.0.1 (marked result.0.0 o.id r')
    where
      marked :
          (done : Bool) (id : ℕ) {db' : Db}
          → Run start origin clock db'
          → Run start origin clock (if done then expire_order id db' else db')
      marked true id r' = next r' (expire id)
      marked false id r' = r'

  pub expire_orders-Run :
      (gateway : Option Gateway) (now : ℕ) (code : ℕ → List ℕ) {db : Db}
      → Run start origin clock db
      → Run start origin clock (expire_orders gateway now clock code db).1
  unfolding expire_orders
  expire_orders-Run gateway now code {db} r = expire_due-Run (due_orders now db) gateway code 0 r
