-- ===== src/Errors.antt =====
-- The error values that the handlers return, and results. A Go `(T, error)` pair with the error
-- set is `err`; `errors.Wrap` and `errors.Wrapf` around an error are the constructor `wrap`, whose
-- text is left out, and `errors.Cause` (which unwraps) is `cause`. A test `err == X` sees `wrap`,
-- a test `errors.Cause(err) == X` does not.
use golangci_api.Base.{Bool, true, false, String, ◌≡◌, refl, if◌then◌else◌}

pub data Error : Type 0 where
  record_not_found : Error  -- gorm.ErrRecordNotFound
  db_failure : Error  -- any other error of the database
  permanent : Error  -- consumers.ErrPermanent
  race_condition : Error  -- apierrors.NewRaceConditionError
  queue_failure : Error  -- the queue did not accept a message
  gateway_failure : Error  -- any other error of the payment gateway
  invalid_card_token : Error  -- paymentprovider.ErrInvalidCardToken
  not_org_admin : Error  -- policy.ErrNotOrgAdmin
  not_org_member : Error  -- policy.ErrNotOrgMember
  no_active_subscription : Error  -- policy.ErrNoActiveSubscription
  no_seat_in_subscription : Error  -- policy.ErrNoSeatInSubscription
  provider_not_found : Error  -- provider.ErrNotFound
  provider_unauthorized : Error  -- provider.ErrUnauthorized
  repo_was_archived : Error  -- provider.ErrRepoWasArchived
  no_free_org_seats : Error  -- provider.ErrNoFreeOrgSeats
  provider_failure : Error  -- any other error of the VCS provider
  bad_message : Error  -- consumers.ErrBadMessage
  lock_failure : Error  -- the distributed lock was not acquired
  decode_failure : Error  -- a text that encoding/json does not read
  queue_api_failure : Error  -- an error of the SQS client
  not_found : Error  -- apierrors.ErrNotFound
  not_authorized : Error  -- apierrors.ErrNotAuthorized
  session_failure : Error  -- an error of the session store
  forbidden : String → Error  -- apierrors.NewForbiddenError
  not_acceptable : String → Error  -- apierrors.NewNotAcceptableError, and its WithMessage
  continue_to : String → Error  -- apierrors.NewContinueError
  bad_request : Error  -- apierrors.ErrBadRequest
  skip_webhook : Error  -- errSkipWehbook
  no_provider_repo_or_access : Error  -- policy.ErrNoProviderRepoOrAccess
  message : String → Error  -- fmt.Errorf, errors.New
  wrap : Error → Error

abbrev pub cause : Error → Error
cause (wrap e) = cause e
cause e = e

abbrev pub is_record_not_found : Error → Bool
is_record_not_found record_not_found = true
is_record_not_found _ = false

abbrev pub is_permanent : Error → Bool
is_permanent permanent = true
is_permanent _ = false

pub data Result {ℓ} (T : Type ℓ) : Type ℓ where
  err : Error → Result T
  ok : T → Result T

-- `if err != nil { return errors.Wrap(err, …) }`
abbrev pub wrapped {ℓ} : {T : Type ℓ} → Result T → Result T
wrapped (err e) = err (wrap e)
wrapped (ok t) = ok t

-- `if !condition { return e }`
abbrev pub guard : Bool → Error → Result (Unit {0})
guard condition e = if condition then ok tt else err e

-- The rest of a function, reached if the call before it has succeeded.
infixl 5 ◌>>=◌
abbrev pub ◌>>=◌ {ℓ₁ ℓ₂} : {T : Type ℓ₁} {U : Type ℓ₂} → Result T → (T → Result U) → Result U
err e >>= rest = err e
ok t >>= rest = rest t

infixl 5 ◌>>◌
abbrev pub ◌>>◌ {ℓ} : {U : Type ℓ} → Result (Unit {0}) → Result U → Result U
first >> rest = first >>= λ done. rest

-- What a success of the whole says of its parts.
pub wrapped-eq-ok {ℓ} : {T : Type ℓ} (r : Result T) {t : T} → wrapped r ≡ ok t → r ≡ ok t
wrapped-eq-ok (err e) h = cc
wrapped-eq-ok (ok t) h = h

pub >>=-eq-ok {ℓ₁ ℓ₂} :
    {T : Type ℓ₁} {U : Type ℓ₂} (r : Result T) (rest : T → Result U) {u : U}
    → (r >>= rest) ≡ ok u
    → (t : T) × (r ≡ ok t) × (rest t ≡ ok u)
>>=-eq-ok (err e) rest h = cc
>>=-eq-ok (ok t) rest h = (t, refl, h)

pub guard-eq-ok :
    (condition : Bool) (e : Error) {u : Unit {0}} → guard condition e ≡ ok u → condition ≡ true
guard-eq-ok false e h = cc
guard-eq-ok true e h = refl

pub ok-injective {ℓ} : {T : Type ℓ} {s t : T} → ok s ≡ ok t → s ≡ t
ok-injective h = cc
