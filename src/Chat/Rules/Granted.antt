-- ===== src/Chat/Rules/Granted.antt =====
-- What a member who may use a chat has (apps/api/src/modules/chat/chat.service.ts).
use garba_partner.Connections.Model.{is_active}
use garba_partner.Table.{find_one}
use garba_partner.Api.{ok}
use garba_partner.Chat.Model.{is_chat_of, Db}
use garba_partner.Chat.Rules.{partner_of, can_talk, authorize_match, authorize, Chat}
use garba_partner.Prelude.{
  sym, ap, ◌∙◌, ℕ, ◌≡◌, true, not, ◌||◌, some, ◌==◌, Bool-cases, Option-cases, inl, inr, arith,
}

pub record Granted (user_id match_id : ℕ) (chat : Chat) (db : Db) : Type 0 where
  pub found : find_one (is_chat_of user_id match_id) db.members.connections.matches ≡ some chat.chat
  pub active : is_active chat.chat.status ≡ true
  pub partner : chat.partner_id ≡ partner_of user_id chat.chat
  pub side : chat.is_user_a ≡ (chat.chat.user_a_id == user_id)
  pub talk : can_talk user_id chat.partner_id db ≡ true

pub authorize-Granted :
    (user_id match_id : ℕ) (chat : Chat) (db : Db)
    → authorize user_id match_id db ≡ ok chat
    → Granted user_id match_id chat db
unfolding authorize authorize_match
authorize-Granted user_id match_id chat db h =
    elim (Option-cases (find_one (is_chat_of user_id match_id) db.members.connections.matches)) [
      | inl e ↦ absurd (let h' = rw e at h in cc)
      | inr (m, e) ↦
          elim (Bool-cases
            (not (is_active m.status) || not (can_talk user_id (partner_of user_id m) db))) [
              | inl d ↦ absurd (let h' = rw (e, d) at h in cc)
              | inr d ↦
                  let same : ok (record {
                    chat = m;
                    partner_id = partner_of user_id m;
                    is_user_a = m.user_a_id == user_id;
                  })
                      ≡ ok chat =
                    rw (e, d) at h in
                  let row : m ≡ chat.chat = cc in
                  let partner : partner_of user_id m ≡ chat.partner_id = cc in
                  let side : (m.user_a_id == user_id) ≡ chat.is_user_a = cc in
                  record {
                    found = e ∙ ap some row;
                    active = let up : is_active m.status ≡ true = ground (arith, d) in rw row at up;
                    partner = sym partner ∙ ap (partner_of user_id) row;
                    side = sym side ∙ ap (λ n. n.user_a_id == user_id) row;
                    talk =
                        let up : can_talk user_id (partner_of user_id m) db ≡ true =
                          ground (arith, d) in
                        rw partner at up;
                  }
            ]
    ]
