-- ===== src/ReceiptPages.antt =====
-- cmd/server/receipts.go: receiptsLookupHandler, receiptsVerifyHandler, receiptsConfirmHandler and
-- loadReceiptSession. A request comes as the plant that Tenant found and the form where it could be
-- read; the SMS comes as its phone number and code, and a failed Send is only logged.
pub mod Admitted
use gatstogo.Base.{
  ℕ, Bool, true, false, Option, none, some, List, Text, codes, byte_len, trim_space, is_empty, ◌==◌,
  if◌then◌else◌,
}
use gatstogo.Error.{Error, Result, ok, err}
use gatstogo.Db.Statement.{M, pure, ◌>>◌, attempt_then}
use gatstogo.Tenant.{with_tenant, log}
use gatstogo.Redis.{Redis}
use gatstogo.Tickets.Phone.{normalize_phone}
use gatstogo.Tickets.Receipts.{confirm}
use gatstogo.ReceiptCodes.{request_code, verify_code}
use gatstogo.Session.{Data, Codec, role_customer, receipt_session_ttl, create, load, touch}
use gatstogo.Session.Guards.{Actor, is_customer_of}
use gatstogo.SignIn.{empty_session}

-- The page that follows; with a new code, its message.
pub data LookupReply : Type 0 where
  plant_missing unreadable invalid_phone cooling failed : LookupReply
  sent : Text → Text → LookupReply

pub data VerifyReply : Type 0 where
  plant_missing unreadable no_phone too_many failed incorrect : VerifyReply
  signed_in : Text → VerifyReply

pub data ConfirmReply : Type 0 where
  not_found refused confirmed : ConfirmReply

abbrev lookup_reply : Text → Result Text → LookupReply
lookup_reply phone (ok code) = LookupReply.sent phone code
lookup_reply phone (err Error.cooldown) = LookupReply.cooling
lookup_reply phone (err e) = LookupReply.failed

abbrev verify_reply : Result Text → VerifyReply
verify_reply (ok token) = VerifyReply.signed_in token
verify_reply (err e) = VerifyReply.failed

abbrev confirm_reply : Result (Unit {0}) → ConfirmReply
confirm_reply (ok u) = ConfirmReply.confirmed
confirm_reply (err e) = ConfirmReply.refused

module _ {ℓ} {R : Type ℓ} (redis : Redis R) (json : Codec) (uuid_text : ℕ → Text) where
  lookup_phone : ℕ → Text → Result ℕ → R → LookupReply × R
  unfolding request_code normalize_phone byte_len
  lookup_phone plant phone random r =
      if byte_len (normalize_phone phone) == 10
      then (let (answer, r') =
            request_code redis (uuid_text plant) (normalize_phone phone) random r in
          (lookup_reply phone answer, r'))
      else (LookupReply.invalid_phone, r)

  unfoldable receipts_lookup : Option ℕ → Option Text → Result ℕ → R → LookupReply × R
  unfolding lookup_phone trim_space
  receipts_lookup none form random r = (LookupReply.plant_missing, r)
  receipts_lookup (some plant) none random r = (LookupReply.unreadable, r)
  receipts_lookup (some plant) (some phone) random r =
      lookup_phone plant (trim_space phone) random r

  abbrev pub customer_session : ℕ → Text → Data
  customer_session plant phone = record empty_session {
    role = role_customer;
    plant_id = uuid_text plant;
    phone = phone;
  }

  after_code : ℕ → Text → Result (List ℕ) → ℕ → Result Bool → R → VerifyReply × R
  unfolding create
  after_code plant phone bytes now (err Error.locked) r = (VerifyReply.too_many, r)
  after_code plant phone bytes now (err e) r = (VerifyReply.failed, r)
  after_code plant phone bytes now (ok false) r = (VerifyReply.incorrect, r)
  after_code plant phone bytes now (ok true) r =
      let (answer, r') =
        create redis json (customer_session plant phone) receipt_session_ttl bytes now r in
      (verify_reply answer, r')

  verify_phone : ℕ → Text → Text → Result (List ℕ) → ℕ → R → VerifyReply × R
  unfolding verify_code normalize_phone after_code
  verify_phone plant phone code bytes now r =
      if is_empty phone
      then (VerifyReply.no_phone, r)
      else (let (answer, r') = verify_code redis (uuid_text plant) (normalize_phone phone) code r in
          after_code plant (normalize_phone phone) bytes now answer r')

  -- The form has the phone and the code.
  unfoldable pub receipts_verify :
      Option ℕ → Option (Text × Text) → Result (List ℕ) → ℕ → R → VerifyReply × R
  unfolding verify_phone trim_space
  receipts_verify none form bytes now r = (VerifyReply.plant_missing, r)
  receipts_verify (some plant) none bytes now r = (VerifyReply.unreadable, r)
  receipts_verify (some plant) (some (phone, code)) bytes now r =
      verify_phone plant (trim_space phone) (trim_space code) bytes now r

  receipt_loaded : ℕ → Text → Result Data → R → Option (Text × Text) × R
  unfolding touch
  receipt_loaded plant token (err e) r = (none, r)
  receipt_loaded plant token (ok d) r =
      if is_customer_of redis json uuid_text (λ t. none) plant d
      then (some (d.phone, token), (touch redis json token receipt_session_ttl r).1)
      else (none, r)

  -- The phone and the token of a session that the receipts page goes on with.
  unfoldable load_receipt_session : ℕ → Option Text → R → Option (Text × Text) × R
  unfolding load receipt_loaded
  load_receipt_session plant none r = (none, r)
  load_receipt_session plant (some token) r =
      let (d, r') = load redis json token r in receipt_loaded plant token d r'

-- The function that WithTenant runs.
unfoldable confirm_in_tenant : ℕ → Text → Text → M (Unit {0})
unfolding confirm log
confirm_in_tenant plant reference phone =
    confirm plant reference phone >> log (some plant) none (codes "ticket.confirmed") reference

unfoldable pub receipts_confirm : Option (ℕ × Actor) → Text → M ConfirmReply
unfolding confirm_in_tenant with_tenant pure attempt_then
receipts_confirm none reference = pure ConfirmReply.not_found
receipts_confirm (some (plant, actor)) reference =
    attempt_then (with_tenant plant (confirm_in_tenant plant reference actor.phone))
      (λ r. pure (confirm_reply r))
