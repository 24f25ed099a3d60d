-- ===== src/Connections/Blocks/Apart.antt =====
-- What `block` leaves between two members (apps/api/src/modules/safety/blocks.service.ts).
use garba_partner.Connections.Pairs.{emit_match_ended}
use garba_partner.Prelude.{
  none, some, false, Bool, Option, ◌==◌, ℕ, ◌≤◌, ◌≡◌, refl, true, is_some, Bool-cases, inl, inr,
  arith, Option-cases, List,
}
use garba_partner.Table.{
  find_one, count_where, one_if, find_one-holds, sum_by-find_le, sum_by-insert,
}
use garba_partner.Connections.Model.{Signal, block_created, Db, Block}
use garba_partner.Connections.Pairs.Endings.{
  end_connections-blocks, Unconnected, end_connections-Unconnected, end_connections-OnePerPair,
}
use garba_partner.Connections.Single.{OnePerPair}
use garba_partner.Connections.Blocks.{
  log_if, block, is_block, is_block_between, is_blocked_either_way, with_block, block_tx, by_block,
}

block-counts : (x : Block) (a b : ℕ) → is_block a b x ≡ true → one_if (is_block_between a b) x ≡ 1
block-counts x a b h = ground (arith, h)

block-counts_back :
    (x : Block) (a b : ℕ) → is_block a b x ≡ true → one_if (is_block_between b a) x ≡ 1
block-counts_back x a b h = ground (arith, h)

-- Each sees the other as blocked.
pub record Blocked (a b : ℕ) (blocks : List Block) : Type 0 where
  pub forth : 1 ≤ count_where (is_block_between a b) blocks
  pub back : 1 ≤ count_where (is_block_between b a) blocks

with_block-Blocked : (a b : ℕ) (db : Db) → Blocked a b (with_block a b db).1.blocks
unfolding with_block
with_block-Blocked a b db = elim (Option-cases (find_one (is_block a b) db.blocks)) [
  | inl miss ↦ rw miss (record {
    forth = omega (
      arith,
      sum_by-insert (one_if (is_block_between a b)) db.blocks new,
      block-counts new a b new_is_block,
    );
    back = omega (
      arith,
      sum_by-insert (one_if (is_block_between b a)) db.blocks new,
      block-counts_back new a b new_is_block,
    );
  })
  | inr (x, hit) ↦
      let is = find_one-holds (is_block a b) db.blocks hit in
      rw hit (record {
        forth = omega (
          arith,
          sum_by-find_le (one_if (is_block_between a b)) (is_block a b) db.blocks x hit,
          block-counts x a b is,
        );
        back = omega (
          arith,
          sum_by-find_le (one_if (is_block_between b a)) (is_block a b) db.blocks x hit,
          block-counts_back x a b is,
        );
      })
]
  where
    new : Block
    new = record { blocker_id = a; blocked_id = b }

    new_is_block : is_block a b new ≡ true
    new_is_block = ground arith

pub with_block-OnePerPair : (a b : ℕ) (db : Db) → OnePerPair db → OnePerPair (with_block a b db).1
unfolding with_block
with_block-OnePerPair a b db one = elim (Bool-cases (is_some (find_one (is_block a b) db.blocks))) [
  | inl e ↦ rw e one
  | inr e ↦ rw e (record { one_pending = one.one_pending; one_active = one.one_active })
]

-- Nothing runs between the two members, and each sees the other as blocked.
pub record Apart (a b : ℕ) (db : Db) : Type 0 where
  pub unconnected : Unconnected a b db
  pub blocked : is_blocked_either_way a b db ≡ true
  pub blocked_back : is_blocked_either_way b a db ≡ true

-- Where every pair of members has at most one pending interest and one active match, blocking a
-- member leaves no pending interest between the two, in either direction, and no active match of
-- theirs, and each of them then sees the other as blocked.
pub block_tx-Apart :
    (blocker target now : ℕ) (db : Db)
    → OnePerPair db
    → Apart blocker target (block_tx blocker target now db).1
unfolding block_tx is_blocked_either_way
block_tx-Apart blocker target now db one =
    let db' = (with_block blocker target db).1 in
    let blocked = with_block-Blocked blocker target db in
    let same = end_connections-blocks blocker target (by_block blocker) now db' in
    record {
      unconnected =
          end_connections-Unconnected blocker target (by_block blocker) now db' refl
            (with_block-OnePerPair blocker target db one);
      blocked = rw same (ground (arith, blocked.forth));
      blocked_back = rw same (ground (arith, blocked.back));
    }

pub block_tx-OnePerPair :
    (blocker target now : ℕ) (db : Db)
    → OnePerPair db
    → OnePerPair (block_tx blocker target now db).1
unfolding block_tx
block_tx-OnePerPair blocker target now db one =
    end_connections-OnePerPair blocker target (by_block blocker) now
      (with_block blocker target db).1 refl (with_block-OnePerPair blocker target db one)

told-OnePerPair :
    (ended : Option ℕ) (is_new : Bool) (a b : ℕ) (s : Signal) (db : Db)
    → OnePerPair db
    → OnePerPair (log_if is_new s (emit_match_ended ended a b db))
unfolding log_if emit_match_ended
told-OnePerPair none true a b s db one = record {
  one_pending = one.one_pending;
  one_active = one.one_active;
}
told-OnePerPair none false a b s db one = one
told-OnePerPair (some id) true a b s db one = record {
  one_pending = one.one_pending;
  one_active = one.one_active;
}
told-OnePerPair (some id) false a b s db one = record {
  one_pending = one.one_pending;
  one_active = one.one_active;
}

pub block-OnePerPair :
    (blocker target now : ℕ) (db : Db) → OnePerPair db → OnePerPair (block blocker target now db).1
unfolding block
block-OnePerPair blocker target now db one = elim (Bool-cases (blocker == target)) [
  | inl e ↦ rw e one
  | inr e ↦ elim (Bool-cases (is_some (find_one (λ u. u.id == target) db.users))) [
    | inr u ↦ rw (e, u) one
    | inl u ↦
        rw (e, u)
          (told-OnePerPair (block_tx blocker target now db).0.1 (block_tx blocker target now db).0.0
            blocker target (block_created blocker target) (block_tx blocker target now db).1
            (block_tx-OnePerPair blocker target now db one))
  ]
]
