-- ===== src/Payments/Keys.antt =====
-- Orders have a primary key: what that says of the payments database.
use garba_partner.Prelude.{ℕ}
use garba_partner.Table.Keyed.{IsKeyed}
use garba_partner.Payments.Model.{Order, Db}

abbrev pub order_id : Order → ℕ
order_id o = o.id

abbrev pub HasOrderKeys : Db → Type 0
HasOrderKeys db = IsKeyed order_id db.next_id db.orders
