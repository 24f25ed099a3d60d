-- ===== src/Members/Lifting/Single.antt =====
-- Lifting and expiry and the sanctions in force (apps/api/src/modules/safety/sanctions.ts).
use garba_partner.Prelude.{
  ℕ, String, ◌≡◌, refl, Bool, Option, none, some, List, [], ◌∷◌, Bool-cases, inl, inr, arith,
}
use garba_partner.Table.{find_one}
use garba_partner.Api.{transaction, transaction-keeps}
use garba_partner.Members.Model.{Account, Sanction, Db, is_account}
use garba_partner.Members.Sanctions.{
  set_account_status, shows, revoke_sanctions, SanctionInput, apply_sanction,
}
use garba_partner.Members.Sanctions.Single.{OneInForce, OneInForce-end, apply_sanction-OneInForce}
use garba_partner.Members.Lifting.{
  LiftableSanction, chat_restriction, suspension, ban, type_of, restored, lift_of, lift_sanction,
  expire_sanction, expire_each, due_sanctions, expire_sanctions,
}

restored-sanctions :
    (type : LiftableSanction) (user_id now : ℕ) (db : Db)
    → (restored type user_id now db).sanctions ≡ db.sanctions
unfolding restored set_account_status
restored-sanctions chat_restriction user_id now db = refl
restored-sanctions suspension user_id now db = refl
restored-sanctions ban user_id now db = refl

lift_of-OneInForce :
    (found : Option Account) (admin_id user_id : ℕ) (type : LiftableSanction) (reason : String)
    (now : ℕ) (db : Db)
    → OneInForce db.sanctions
    → OneInForce (lift_of found admin_id user_id type reason now db).1.sanctions
unfolding lift_of revoke_sanctions
lift_of-OneInForce none admin_id user_id type reason now db one = one
lift_of-OneInForce (some user) admin_id user_id type reason now db one =
    elim (Bool-cases (shows (type_of type) user)) [
      | inl e ↦
          rw (e, restored-sanctions type user_id now db)
            (OneInForce-end _ _ db.sanctions (λ x. refl) one)
      | inr e ↦ rw e one
    ]

pub lift_sanction-OneInForce :
    (admin_id user_id : ℕ) (type : LiftableSanction) (reason : String) (now : ℕ) (db : Db)
    → OneInForce db.sanctions
    → OneInForce (lift_sanction admin_id user_id type reason now db).1.sanctions
unfolding lift_sanction
lift_sanction-OneInForce admin_id user_id type reason now db one =
    lift_of-OneInForce (find_one (is_account user_id) db.accounts) admin_id user_id type reason now
      db one

expire_each-OneInForce :
    (now : ℕ) (due : List Sanction) (db : Db)
    → OneInForce db.sanctions
    → OneInForce (expire_each now due db).sanctions
unfolding expire_each expire_sanction
expire_each-OneInForce now [] db one = one
expire_each-OneInForce now (s ∷ due) db one =
    expire_each-OneInForce now due _ (OneInForce-end _ _ db.sanctions (λ x. ground arith) one)

pub expire_sanctions-OneInForce :
    (now : ℕ) (held : ℕ → Bool) (db : Db)
    → OneInForce db.sanctions
    → OneInForce (expire_sanctions now held db).1.sanctions
unfolding expire_sanctions
expire_sanctions-OneInForce now held db one =
    expire_each-OneInForce now (due_sanctions now held db) db one

-- Moderators and the expiry job, in any order.
pub data Request : Type 0 where
  apply : (admin_id : ℕ) → SanctionInput → Request
  lift : (admin_id user_id : ℕ) → LiftableSanction → (reason : String) → Request
  expire : (held : ℕ → Bool) → Request

pub record Timed : Type 0 where
  pub now : ℕ
  pub request : Request

unfoldable pub serve : ℕ → Request → Db → Db
serve now (apply admin_id input) db = (transaction (apply_sanction admin_id input now) db).1
serve now (lift admin_id user_id type reason) db =
    (transaction (lift_sanction admin_id user_id type reason now) db).1
serve now (expire held) db = (expire_sanctions now held db).1

unfoldable pub serve_all : List Timed → Db → Db
unfolding serve
serve_all [] db = db
serve_all (t ∷ ts) db = serve_all ts (serve t.now t.request db)

serve-OneInForce :
    (now : ℕ) (request : Request) (db : Db)
    → OneInForce db.sanctions
    → OneInForce (serve now request db).sanctions
unfolding serve
serve-OneInForce now (apply admin_id input) db one =
    transaction-keeps (λ d. OneInForce d.sanctions) (apply_sanction admin_id input now) db one
      (apply_sanction-OneInForce admin_id input now db one)
serve-OneInForce now (lift admin_id user_id type reason) db one =
    transaction-keeps (λ d. OneInForce d.sanctions) (lift_sanction admin_id user_id type reason now)
      db one (lift_sanction-OneInForce admin_id user_id type reason now db one)
serve-OneInForce now (expire held) db one = expire_sanctions-OneInForce now held db one

-- After any list of sanctions applied, sanctions lifted and runs of the expiry job, at any times and
-- each transaction committed or rolled back, at most one chat restriction, one suspension and one
-- ban is in force for each member, where that held before.
pub serve_all-OneInForce :
    (ts : List Timed) (db : Db) → OneInForce db.sanctions → OneInForce (serve_all ts db).sanctions
unfolding serve_all
serve_all-OneInForce [] db one = one
serve_all-OneInForce (t ∷ ts) db one =
    serve_all-OneInForce ts (serve t.now t.request db) (serve-OneInForce t.now t.request db one)
