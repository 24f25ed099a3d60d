-- ===== src/Connections/Pairs/Endings.antt =====
-- What `endConnections` leaves between two members
-- (apps/api/src/modules/interests/connections.ts).
use garba_partner.Prelude.{
  ◌==◌, ℕ, ◌≡◌, refl, false, Option, none, some, Bool-cases, inl, inr, arith, ==_refl,
}
use garba_partner.Table.{find_one, touch, count_where, count-find_none}
use garba_partner.Table.Counts.{count-release, count-cleared}
use garba_partner.Connections.Model.{Db, Match, Interest, is_active, cancelled}
use garba_partner.Connections.Pairs.{
  Ending, Pair, pending_between, is_active_pair, canonical_pair, answered, ended, end_found,
  end_connections, cancel_between,
}
use garba_partner.Connections.Single.{OnePerPair, OnePending-answer, OneActive-end}

-- The pair of two members does not depend on their order.
pub canonical_pair-sym : (a b : ℕ) → canonical_pair a b ≡ canonical_pair b a
unfolding canonical_pair
canonical_pair-sym a b = ground arith

-- Neither a pending interest, in either direction, nor an active match.
pub record Unconnected (a b : ℕ) (db : Db) : Type 0 where
  pub no_interest : count_where (pending_between a b) db.interests ≡ 0
  pub no_match : count_where (is_active_pair (canonical_pair a b)) db.matches ≡ 0

cancelled_between :
    (a b now : ℕ) (x : Interest)
    → pending_between a b (touch (pending_between a b) (answered cancelled now) x) ≡ false
cancelled_between a b now x = elim (Bool-cases (pending_between a b x)) [
  | inl e ↦ rw e
  | inr e ↦ rw (e, e)
]

no_longer_active :
    (p : Pair) (ending : Ending) (now : ℕ) (x : Match)
    → is_active ending.status ≡ false
    → is_active_pair p (ended ending now x) ≡ false
no_longer_active p ending now x final = ground (arith, final)

pub end_connections-Unconnected :
    (a b : ℕ) (ending : Ending) (now : ℕ) (db : Db)
    → is_active ending.status ≡ false
    → OnePerPair db
    → Unconnected a b (end_connections a b ending now db).1
unfolding end_connections end_found
end_connections-Unconnected a b ending now db final one =
    found_case (find_one (is_active_pair (canonical_pair a b)) db.matches) refl
  where
    cancels : count_where (pending_between a b) (cancel_between a b now db).interests ≡ 0
    cancels =
        count-cleared (pending_between a b) (pending_between a b) (answered cancelled now)
          db.interests (cancelled_between a b now)

    found_case :
        (found : Option Match)
        → find_one (is_active_pair (canonical_pair a b)) db.matches ≡ found
        → Unconnected a b (end_found found ending now (cancel_between a b now db)).1
    found_case none miss = record {
      no_interest = cancels;
      no_match = count-find_none _ db.matches miss;
    }
    found_case (some m) hit = record {
      no_interest = cancels;
      no_match = omega (
        arith,
        one.one_active (canonical_pair a b),
        count-release (is_active_pair (canonical_pair a b)) (λ x. x.id == m.id) (ended ending now)
            db.matches (λ x _. no_longer_active (canonical_pair a b) ending now x final) hit
            (==_refl m.id),
      );
    }

pub end_connections-OnePerPair :
    (a b : ℕ) (ending : Ending) (now : ℕ) (db : Db)
    → is_active ending.status ≡ false
    → OnePerPair db
    → OnePerPair (end_connections a b ending now db).1
unfolding end_connections end_found
end_connections-OnePerPair a b ending now db final one =
    found_case (find_one (is_active_pair (canonical_pair a b)) db.matches)
  where
    found_case :
        (found : Option Match)
        → OnePerPair (end_found found ending now (cancel_between a b now db)).1
    found_case none = record {
      one_pending = OnePending-answer cancelled now _ db.interests refl one.one_pending;
      one_active = one.one_active;
    }
    found_case (some m) = record {
      one_pending = OnePending-answer cancelled now _ db.interests refl one.one_pending;
      one_active = OneActive-end _ _ db.matches (λ x. final) one.one_active;
    }

pub end_connections-blocks :
    (a b : ℕ) (ending : Ending) (now : ℕ) (db : Db)
    → (end_connections a b ending now db).1.blocks ≡ db.blocks
unfolding end_connections end_found
end_connections-blocks a b ending now db =
    found_case (find_one (is_active_pair (canonical_pair a b)) db.matches)
  where
    found_case :
        (found : Option Match)
        → (end_found found ending now (cancel_between a b now db)).1.blocks ≡ db.blocks
    found_case none = refl
    found_case (some m) = refl
