-- ===== src/Api.antt =====
-- Error codes and the shape of a request handler (packages/shared/src/errors/error-codes.ts and
-- apps/api/src/lib/app-error.ts): a handler reads and writes the database and may throw.
use garba_partner.Prelude.{ℕ, ◌≡◌, refl, ◌⊎◌, inl, inr}

pub data ErrorCode : Type 0 where
  validation_error unauthenticated forbidden not_found conflict payload_too_large : ErrorCode
  rate_limited internal_error service_unavailable : ErrorCode
  phone_verification_failed refresh_invalid invalid_credentials account_locked : ErrorCode
  account_suspended account_banned account_pending_deletion : ErrorCode
  underage onboarding_required profile_not_started verification_unavailable : ErrorCode
  invalid_image event_not_open partner_toggle_required user_unavailable : ErrorCode
  discovery_disabled interactions_restricted interest_limit_reached : ErrorCode
  interest_not_pending already_matched match_not_active chat_restricted : ErrorCode
  payments_unavailable passes_not_on_sale sold_out order_expired idempotency_conflict : ErrorCode
  payment_verification_failed payment_provider_error : ErrorCode

pub data Result {ℓ} (A : Type ℓ) : Type ℓ where
  ok : A → Result A
  err : ErrorCode → Result A

abbrev pub map_result : {A B : Type 0} → (A → B) → Result A → Result B
map_result f (ok a) = ok (f a)
map_result f (err e) = err e

-- What was written before a throw stays written, so the state comes back beside the error too.
abbrev pub Handler : Type 0 → Type 0 → Type 0
Handler S A = S → Result A × S

module _ {S A B : Type 0} where
  abbrev pub and_then : Result A × S → (A → Handler S B) → Result B × S
  and_then (ok a, s) f = f a s
  and_then (err e, s) f = (err e, s)

module _ {S A : Type 0} where
  -- The database as it was stays where the body throws: `sequelize.transaction(...)`.
  abbrev pub rollback : S → Result A × S → Result A × S
  rollback old (ok a, s) = (ok a, s)
  rollback old (err e, s) = (err e, old)

  abbrev pub transaction : Handler S A → Handler S A
  transaction m s = rollback s (m s)

pub Result-cases :
    {A : Type 0} (r : Result A) → ((a : A) × (r ≡ ok a)) ⊎ ((e : ErrorCode) × (r ≡ err e))
Result-cases (ok a) = inl (a, refl)
Result-cases (err e) = inr (e, refl)

-- The HTTP status of each code.
unfoldable pub http_status : ErrorCode → ℕ
http_status validation_error = 400
http_status unauthenticated = 401
http_status forbidden = 403
http_status not_found = 404
http_status conflict = 409
http_status payload_too_large = 413
http_status rate_limited = 429
http_status internal_error = 500
http_status service_unavailable = 503
http_status phone_verification_failed = 401
http_status refresh_invalid = 401
http_status invalid_credentials = 401
http_status account_locked = 423
http_status account_suspended = 403
http_status account_banned = 403
http_status account_pending_deletion = 403
http_status underage = 403
http_status onboarding_required = 403
http_status profile_not_started = 409
http_status verification_unavailable = 503
http_status invalid_image = 400
http_status event_not_open = 409
http_status partner_toggle_required = 409
http_status user_unavailable = 404
http_status discovery_disabled = 403
http_status interactions_restricted = 403
http_status interest_limit_reached = 429
http_status interest_not_pending = 409
http_status already_matched = 409
http_status match_not_active = 409
http_status chat_restricted = 403
http_status payments_unavailable = 503
http_status passes_not_on_sale = 409
http_status sold_out = 409
http_status order_expired = 409
http_status idempotency_conflict = 409
http_status payment_verification_failed = 400
http_status payment_provider_error = 502

-- What holds before a transaction and after its body holds after it, committed or rolled back.
pub transaction-keeps :
    {S A : Type 0} (P : S → Type 0) (m : Handler S A) (s : S)
    → P s
    → P (m s).1
    → P (transaction m s).1
transaction-keeps P m s before after = rollback-keeps P s (m s) before after
  where
    rollback-keeps :
        {S A : Type 0} (P : S → Type 0) (s : S) (r : Result A × S)
        → P s
        → P r.1
        → P (rollback s r).1
    rollback-keeps P s (ok a, s') before after = after
    rollback-keeps P s (err e, s') before after = before

-- What a result's database has and each continuation keeps, the chained handler's has.
pub and_then-keeps :
    {S A B : Type 0} (P : S → Type 0) (r : Result A × S) (f : A → Handler S B)
    → P r.1
    → ((a : A) (s : S) → P s → P (f a s).1)
    → P (and_then r f).1
and_then-keeps P (ok a, s) f before keeps = keeps a s before
and_then-keeps P (err e, s) f before keeps = before

-- A chained handler that answers came through its first part.
pub record Continued {S A B : Type 0} (r : Result A × S) (f : A → Handler S B) : Type 0 where
  pub value : A
  pub first : r.0 ≡ ok value
  pub same : and_then r f ≡ f value r.1

pub and_then-Continued :
    {S A B : Type 0} (r : Result A × S) (f : A → Handler S B) (b : B)
    → (and_then r f).0 ≡ ok b
    → Continued r f
and_then-Continued (ok a, s) f b h = record { value = a; first = refl; same = refl }
and_then-Continued (err e, s) f b h = absurd (cc)

-- A transaction that answers was committed.
pub transaction-committed :
    {S A : Type 0} (m : Handler S A) (s : S) (a : A)
    → (transaction m s).0 ≡ ok a
    → transaction m s ≡ m s
transaction-committed m s a h = committed s (m s) a h
  where
    committed :
        {S A : Type 0} (s : S) (r : Result A × S) (a : A)
        → (rollback s r).0 ≡ ok a
        → rollback s r ≡ r
    committed s (ok b, s') a h = refl
    committed s (err e, s') a h = absurd (cc)

-- One that fails leaves the database as it was.
pub transaction-undone :
    {S A : Type 0} (m : Handler S A) (s : S) (e : ErrorCode)
    → (transaction m s).0 ≡ err e
    → (transaction m s).1 ≡ s
transaction-undone m s e h = undone s (m s) e h
  where
    undone :
        {S A : Type 0} (s : S) (r : Result A × S) (e : ErrorCode)
        → (rollback s r).0 ≡ err e
        → (rollback s r).1 ≡ s
    undone s (ok b, s') e h = absurd (cc)
    undone s (err d, s') e h = refl
