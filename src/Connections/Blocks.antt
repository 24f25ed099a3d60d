-- ===== src/Connections/Blocks.antt =====
-- `block` and `unblock` (apps/api/src/modules/safety/blocks.service.ts). Removing old notifications
-- and the suspicious-activity signal after a block are not part of this model's database.
pub mod Apart
use garba_partner.Prelude.{
  ℕ, Bool, true, false, not, ◌&&◌, ◌||◌, Option, none, some, [], ◌∷◌, ◌++◌, ◌==◌, if◌then◌else◌,
  is_some, filter, ltb,
}
use garba_partner.Table.{find_one, count_where}
use garba_partner.Api.{ok, err, Handler, validation_error, not_found}
use garba_partner.Connections.Model.{Block, MatchStatus, Signal, block_created, block_removed, Db}
use garba_partner.Connections.Pairs.{Ending, end_connections, emit_match_ended}

abbrev pub is_block : ℕ → ℕ → Block → Bool
is_block blocker_id blocked_id b = b.blocker_id == blocker_id && b.blocked_id == blocked_id

abbrev pub is_block_between : ℕ → ℕ → Block → Bool
is_block_between a b x =
    (x.blocker_id == a || x.blocker_id == b) && (x.blocked_id == a || x.blocked_id == b)

-- `isBlockedEitherWay` (apps/api/src/modules/safety/sanctions.ts)
unfoldable pub is_blocked_either_way : ℕ → ℕ → Db → Bool
is_blocked_either_way a b db = ltb 0 (count_where (is_block_between a b) db.blocks)

-- `Block.findOrCreate`
unfoldable pub with_block : ℕ → ℕ → Db → Bool × Db
with_block blocker target db =
    if is_some (find_one (is_block blocker target) db.blocks) then (false, db) else (
      true,
      record db { blocks = db.blocks ++ record { blocker_id = blocker; blocked_id = target } ∷ [] },
    )

abbrev pub by_block : ℕ → Ending
by_block blocker = record { status = MatchStatus.blocked; user_id = some blocker; admin_id = none }

-- The transaction of `block`: whether the block is new, and the match that it ended.
unfoldable pub block_tx : ℕ → ℕ → ℕ → Db → (Bool × Option ℕ) × Db
unfolding with_block end_connections
block_tx blocker target now db =
    let (is_new, db') = with_block blocker target db in
    let (ended, db'') = end_connections blocker target (by_block blocker) now db' in
    ((is_new, ended), db'')

log_if : Bool → Signal → Db → Db
log_if true s db = record db { signals = db.signals ++ s ∷ [] }
log_if false s db = db

unfoldable pub block : ℕ → ℕ → ℕ → Handler Db Bool
unfolding block_tx emit_match_ended log_if
block blocker target now db =
    if blocker == target
    then (err validation_error, db)
    else if not (is_some (find_one (λ u. u.id == target) db.users))
    then (err not_found, db)
    else let ((is_new, ended), db') = block_tx blocker target now db in
      (
        ok is_new,
        log_if is_new (block_created blocker target) (emit_match_ended ended blocker target db'),
      )

unfoldable pub unblock : ℕ → ℕ → Handler Db Bool
unfolding log_if
unblock blocker target db =
    let removed = not (count_where (is_block blocker target) db.blocks == 0) in
    (
      ok removed,
      log_if removed (block_removed blocker target)
          (record db { blocks = filter (λ b. not (is_block blocker target b)) db.blocks }),
    )
