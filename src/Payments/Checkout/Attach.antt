-- ===== src/Payments/Checkout/Attach.antt =====
-- `attachRazorpayOrder` and the table of orders
-- (apps/api/src/modules/payments/payments.service.ts).
use garba_partner.Prelude.{ℕ, ◌≡◌, refl, ◌⊎◌, inl, inr, Bool-cases, ◌==◌, ◌&&◌}
use text.Mathlib.Text.{◌==◌ as str_eq}
use garba_partner.Table.{update_where}
use garba_partner.Api.{Result, ok, err}
use garba_partner.Payments.Model.{Order, RazorpayOrder, Gateway, Db}
use garba_partner.Payments.Checkout.{
  attach_answer, attach_razorpay_order, has_order_id, failed_order, with_razorpay_order,
}

abbrev orders_updated : Order → (Order → Order) → Db → Db
orders_updated order f db = record db { orders = update_where (has_order_id order.id) f db.orders }

attach_answer_orders :
    (answer : Result RazorpayOrder) (order : Order) (db : Db)
    → ((attach_answer answer order db).1 ≡ orders_updated order failed_order db)
      ⊎ ((id : ℕ) × ((attach_answer answer order db).1
            ≡ orders_updated order (with_razorpay_order id) db))
unfolding attach_answer
attach_answer_orders (err e) order db = inl refl
attach_answer_orders (ok remote) order db =
    elim (Bool-cases (remote.amount == order.amount_paise && str_eq remote.currency "INR")) [
      | inl e ↦ inr (remote.id, rw e)
      | inr e ↦ inl (rw e)
    ]

pub attach_orders :
    (g : Gateway) (order : Order) (db : Db)
    → ((attach_razorpay_order g order db).1
        ≡ record db { orders = update_where (has_order_id order.id) failed_order db.orders })
      ⊎ ((id : ℕ) × ((attach_razorpay_order g order db).1 ≡ record db {
        orders = update_where (has_order_id order.id) (with_razorpay_order id) db.orders;
      }))
unfolding attach_razorpay_order
attach_orders g order db = attach_answer_orders _ order db
