-- ===== src/Moderation/Requests/Change.antt =====
-- What a request can do to the table of reports (apps/api/src/models/report.model.ts).
use garba_partner.Moderation.Resolve.{is_report}
use garba_partner.Moderation.Create.{is_open_between}
use garba_partner.Table.Keyed.{IsKeyed-update, IsKeyed-insert, IsKeyed}
use garba_partner.Table.{
  sum_by-update_le, count-find_none, sum_by-insert, find_one-update, find_one-append_of_some, touch,
  find_one-holds, one_if, count_where, find_one, update_where,
}
use garba_partner.Moderation.Model.{is_undecided, Report, Db}
use garba_partner.Prelude.{
  ℕ, ◌≡◌, ◌≤◌, ◌+◌, refl, sym, ap, ◌∙◌, Bool, true, false, not, ◌&&◌, none, some, List, [], ◌∷◌,
  ◌++◌, Bool-cases, Option-cases, inl, inr, arith,
}

pub record Reports : Type 0 where
  pub rows : List Report
  pub next_id : ℕ

abbrev pub reports_of : Db → Reports
reports_of db = record { rows = db.reports; next_id = db.next_id }

-- A change leaves the reports as they are, files one of a member who has none open about the other, or
-- touches some that are undecided, which does not open any.
pub data Change : Reports → Reports → Type 0 where
  same : (s : Reports) → Change s s
  filed :
      (s : Reports) (a b : ℕ) (r : Report)
      → r.id ≡ s.next_id
      → ((c d : ℕ) → is_open_between c d r ≡ true → find_one (is_open_between c d) s.rows ≡ none)
      → Change s (record { rows = s.rows ++ r ∷ []; next_id = s.next_id + 1 })
  touched :
      (s : Reports) (t : Report → Bool) (f : Report → Report)
      → ((x : Report) → t x ≡ true → is_undecided x.status ≡ true)
      → ((x : Report) → (f x).id ≡ x.id)
      → ((x : Report) (a b : ℕ)
          → t x ≡ true
          → is_open_between a b (f x) ≡ true
          → is_open_between a b x ≡ true)
      → Change s (record { rows = update_where t f s.rows; next_id = s.next_id })

-- Reports have keys, and a member has at most one undecided report about another.
pub record Sound (s : Reports) : Type 0 where
  pub keyed : IsKeyed (λ r. r.id) s.next_id s.rows
  pub one_open : (a b : ℕ) → count_where (is_open_between a b) s.rows ≤ 1

touched-le :
    (t : Report → Bool) (f : Report → Report) (a b : ℕ) (x : Report)
    → (t x ≡ true → is_open_between a b (f x) ≡ true → is_open_between a b x ≡ true)
    → one_if (is_open_between a b) (touch t f x) ≤ one_if (is_open_between a b) x
touched-le t f a b x opens = elim (Bool-cases (t x)) [
  | inr e ↦ rw e (omega arith)
  | inl e ↦ elim (Bool-cases (is_open_between a b (f x))) [
    | inr n ↦ rw (e, n) (omega arith)
    | inl y ↦ rw (e, y, opens e y) (omega arith)
  ]
]

pub Change-Sound : {s s' : Reports} → Change s s' → Sound s → Sound s'
Change-Sound (same s) sound = sound
Change-Sound (filed s a b r key fresh) sound = record {
  keyed = IsKeyed-insert (λ x. x.id) s.next_id s.rows r key sound.keyed;
  one_open = λ c d.
      let appended = sum_by-insert (one_if (is_open_between c d)) s.rows r in
      let before = sound.one_open c d in
      elim (Bool-cases (is_open_between c d r)) [
        | inl e ↦
            let zero = count-find_none (is_open_between c d) s.rows (fresh c d e) in
            let after = rw e at appended in omega (arith, after, zero)
        | inr e ↦ let after = rw e at appended in omega (arith, after, before)
      ];
}
Change-Sound (touched s t f undecided keeps opens) sound = record {
  keyed = IsKeyed-update (λ x. x.id) s.next_id t f s.rows keeps sound.keyed;
  one_open = λ a b.
      let before = sound.one_open a b in
      let le =
        sum_by-update_le (one_if (is_open_between a b)) (one_if (is_open_between a b)) t f s.rows
          (λ x. touched-le t f a b x (opens x a b)) in
      omega (arith, before, le);
}

-- A decided report is found as it is after any change.
pub Change-decided :
    {s s' : Reports}
    → Change s s'
    → (id : ℕ) (r : Report) → find_one (is_report id) s.rows ≡ some r
    → is_undecided r.status ≡ false
    → find_one (is_report id) s'.rows ≡ some r
Change-decided (same s) id r found decided = found
Change-decided (filed s a b new key fresh) id r found decided =
    find_one-append_of_some (is_report id) s.rows (new ∷ []) found
Change-decided (touched s t f undecided keeps opens) id r found decided =
    let untouched : t r ≡ false = elim (Bool-cases (t r)) [
      | inr e ↦ e
      | inl e ↦ let u = undecided r e in absurd (cc)
    ] in
    rw (find_one-update (is_report id) t f s.rows (λ x. keeps_id x), found, untouched) refl
  where
    keeps_id : (x : Report) → is_report id (touch t f x) ≡ is_report id x
    keeps_id x = elim (Bool-cases (t x)) [ inl e ↦ rw (e, keeps x) refl | inr e ↦ rw e refl ]

-- One change after the other.
pub data Changes : Reports → Reports → Type 0 where
  one_change : {s s' : Reports} → Change s s' → Changes s s'
  then_change : {s s' s'' : Reports} → Change s s' → Changes s' s'' → Changes s s''

pub Changes-Sound : {s s' : Reports} → Changes s s' → Sound s → Sound s'
Changes-Sound (one_change step) sound = Change-Sound step sound
Changes-Sound (then_change step steps) sound = Changes-Sound steps (Change-Sound step sound)

pub Changes-decided :
    {s s' : Reports}
    → Changes s s'
    → (id : ℕ) (r : Report) → find_one (is_report id) s.rows ≡ some r
    → is_undecided r.status ≡ false
    → find_one (is_report id) s'.rows ≡ some r
Changes-decided (one_change step) id r found decided = Change-decided step id r found decided
Changes-decided (then_change step steps) id r found decided =
    Changes-decided steps id r (Change-decided step id r found decided) decided

-- The undecided reports with a key.
abbrev pub is_undecided_report : ℕ → Report → Bool
is_undecided_report id x = is_report id x && is_undecided x.status

update_narrowed :
    (id : ℕ) (f : Report → Report) (rows : List Report)
    → find_one (λ x. is_report id x && not (is_undecided x.status)) rows ≡ none
    → update_where (is_report id) f rows ≡ update_where (is_undecided_report id) f rows
unfolding update_where find_one
update_narrowed id f [] h = refl
update_narrowed id f (x ∷ rows) h =
    elim (Bool-cases (is_report id x && not (is_undecided x.status))) [
      | inl e ↦ absurd (let h' = rw e at h in cc)
      | inr e ↦
          let rest = update_narrowed id f rows (rw e at h) in
          elim (Bool-cases (is_report id x)) [
            | inr k ↦ rw (k, rest) refl
            | inl k ↦
                let up : is_undecided x.status ≡ true = ground (arith, e, k) in
                rw (k, up, rest) refl
          ]
    ]

-- Where the key names an undecided report, an update by the key touches no decided one.
pub update-undecided :
    (id next_id : ℕ) (f : Report → Report) (rows : List Report) (r : Report)
    → IsKeyed (λ x. x.id) next_id rows
    → find_one (is_report id) rows ≡ some r
    → is_undecided r.status ≡ true
    → update_where (is_report id) f rows ≡ update_where (is_undecided_report id) f rows
update-undecided id next_id f rows r keyed found undecided =
    update_narrowed id f rows
      (elim (Option-cases (find_one (λ x. is_report id x && not (is_undecided x.status)) rows)) [
        | inl none_found ↦ none_found
        | inr (x, hit) ↦
            let own =
              find_one-holds (λ y. is_report id y && not (is_undecided y.status)) rows hit in
            let key : x.id ≡ id = ground (arith, own) in
            let decided : is_undecided x.status ≡ false = ground (arith, own) in
            let again = keyed.by_key (λ y. is_report id y && not (is_undecided y.status)) x hit in
            let here : find_one (is_report id) rows ≡ some x =
              ap (λ k. find_one (is_report k) rows) (sym key) ∙ again in
            let both : some r ≡ some x = sym found ∙ here in
            let row : r ≡ x = cc in
            let up : is_undecided x.status ≡ true = rw row at undecided in absurd (cc)
      ])

-- An update by the key of an undecided report.
pub keyed_touch :
    (s : Reports) (id : ℕ) (f : Report → Report) (r : Report)
    → Sound s
    → find_one (is_report id) s.rows ≡ some r
    → is_undecided r.status ≡ true
    → ((x : Report) → (f x).id ≡ x.id)
    → ((x : Report) (a b : ℕ)
        → is_undecided_report id x ≡ true
        → is_open_between a b (f x) ≡ true
        → is_open_between a b x ≡ true)
    → Change s (record { rows = update_where (is_report id) f s.rows; next_id = s.next_id })
keyed_touch s id f r sound found undecided keeps opens =
    rw (update-undecided id s.next_id f s.rows r sound.keyed found undecided)
      (touched s (is_undecided_report id) f (λ x h. ground (arith, h)) keeps opens)
