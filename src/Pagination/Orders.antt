-- ===== src/Pagination/Orders.antt =====
-- The orders of the lists: newest first, oldest first, and the queue of reports
-- (apps/api/src/lib/pagination.ts, apps/api/src/modules/admin/reports/admin-reports.service.ts).
use garba_partner.Pagination.{KeysetOrder}
use garba_partner.Prelude.{ℕ, ◌≡◌, Bool, true, false, ◌&&◌, ◌||◌, ltb, ◌==◌, arith}

-- A moment and an id.
pub record Cursor : Type 0 where
  pub at : ℕ
  pub id : ℕ

-- Priority, moment and id.
pub record QueueCursor : Type 0 where
  pub priority : ℕ
  pub at : ℕ
  pub id : ℕ

pub Cursor-eq : (a b : Cursor) → a.at ≡ b.at → a.id ≡ b.id → a ≡ b
Cursor-eq a b at id = λ i. record { at = at i; id = id i }

pub QueueCursor-eq :
    (a b : QueueCursor) → a.priority ≡ b.priority → a.at ≡ b.at → a.id ≡ b.id → a ≡ b
QueueCursor-eq a b priority at id = λ i. record { priority = priority i; at = at i; id = id i }

-- `{ createdAt: { [Op.lt]: at } } or { createdAt: at, id: { [Op.lt]: id } }`
abbrev pub is_older : Cursor → Cursor → Bool
is_older c k = ltb k.at c.at || k.at == c.at && ltb k.id c.id

abbrev pub is_newer : Cursor → Cursor → Bool
is_newer c k = is_older k c

abbrev pub is_later_in_queue : QueueCursor → QueueCursor → Bool
is_later_in_queue c k =
    ltb c.priority k.priority
    || k.priority == c.priority && ltb c.at k.at
    || k.priority == c.priority && k.at == c.at && ltb c.id k.id

pub is_older_self : (k : Cursor) → is_older k k ≡ false
is_older_self k = ground arith

pub is_older_trans :
    (a b c : Cursor) → is_older a b ≡ true → is_older b c ≡ true → is_older a c ≡ true
is_older_trans a b c h k = ground (arith, h, k)

pub is_older_total : (a b : Cursor) → is_older a b ≡ false → is_older b a ≡ false → a ≡ b
is_older_total a b h k = Cursor-eq a b (ground (arith, h, k)) (ground (arith, h, k))

pub is_later_in_queue_self : (k : QueueCursor) → is_later_in_queue k k ≡ false
is_later_in_queue_self k = ground arith

pub is_later_in_queue_trans :
    (a b c : QueueCursor)
    → is_later_in_queue a b ≡ true
    → is_later_in_queue b c ≡ true
    → is_later_in_queue a c ≡ true
is_later_in_queue_trans a b c h k = ground (arith, h, k)

pub is_later_in_queue_total :
    (a b : QueueCursor) → is_later_in_queue a b ≡ false → is_later_in_queue b a ≡ false → a ≡ b
is_later_in_queue_total a b h k =
    QueueCursor-eq a b (ground (arith, h, k)) (ground (arith, h, k)) (ground (arith, h, k))

-- `order: [[attribute, 'DESC'], ['id', 'DESC']]`
abbrev pub newest_first : KeysetOrder Cursor
newest_first = record {
  after = is_older;
  after_self = is_older_self;
  after_trans = is_older_trans;
  after_total = is_older_total;
}

abbrev pub oldest_first : KeysetOrder Cursor
oldest_first = record {
  after = is_newer;
  after_self = is_older_self;
  after_trans = λ a b c h k. is_older_trans c b a k h;
  after_total = λ a b h k. is_older_total a b k h;
}

-- The direction of a named sort, and its order where the attribute is a date.
pub data Direction : Type 0 where
  asc desc : Direction

abbrev pub keyset_condition : Direction → Cursor → Cursor → Bool
keyset_condition asc c k = is_newer c k
keyset_condition desc c k = is_older c k

abbrev pub keyset_order_by : Direction → KeysetOrder Cursor
keyset_order_by asc = oldest_first
keyset_order_by desc = newest_first

-- `order: [['priority', 'ASC'], ['createdAt', 'ASC'], ['id', 'ASC']]`
abbrev pub queue_order : KeysetOrder QueueCursor
queue_order = record {
  after = is_later_in_queue;
  after_self = is_later_in_queue_self;
  after_trans = is_later_in_queue_trans;
  after_total = is_later_in_queue_total;
}
