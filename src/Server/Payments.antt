-- ===== src/Server/Payments.antt =====
-- When the server records a payment: the limit of the notes in backend/app/api/v1/payments/schemas.py and the checks of
-- `record` of backend/app/services/payment_service.py. Dates are
-- numbers of days; whether a member and a subscription belong to the tenant is asked of the database and left out.
use dopacrm.Base.{
  Bool, not, ◌&&◌, ◌||◌, ◌+◌, String, Option, none, some, ℕ, ltb, is_some, ◌==◌, if◌then◌else◌,
}
use dopacrm.Base.Scan.{fits}
use dopacrm.Base.Integers.{ℤ, pos, leb_ℤ}
use dopacrm.Auth.Types.{owner, sales, staff, super_admin, role_eq, User}

-- `DEFAULT_BACKDATE_LIMIT_DAYS`
abbrev pub backdate_limit : ℕ
backdate_limit = 30

pub data RecordError : Type 0 where
  notes_too_long not_permitted amount_not_positive paid_in_future paid_long_ago : RecordError

-- `_require_writer_in_tenant`
unfoldable pub is_writer : User → Bool
unfolding role_eq
is_writer caller =
    (caller.role == staff
      || caller.role == sales
      || caller.role == owner
      || caller.role == super_admin)
    && is_some caller.tenant_id

-- The error that the schema, or `record`, raises for a day of payment and for notes, if there is one.
unfoldable pub record_error : User → ℕ → ℤ → ℕ → Bool → Option String → Option RecordError
record_error caller today amount paid_at backdate notes =
    if not (fits 2000 notes)
    then some notes_too_long
    else if not (is_writer caller)
    then some not_permitted
    else if leb_ℤ amount (pos 0)
    then some amount_not_positive
    else if ltb today paid_at
    then some paid_in_future
    else if ltb (paid_at + backdate_limit) today && not backdate
    then some paid_long_ago
    else none
