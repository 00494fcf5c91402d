-- ===== src/Server/Errors.antt =====
-- pkg/types/api/error.go: from an error to the body and the status of the reply. The errors are told
-- apart as `WrapError` does; what the errors library makes of a canceled context and of a deadline
-- is given, and the original error that a body keeps for the log is left out.
use framingo.Prelude.{ℕ, List, [], ◌∷◌, ◌==◌, if◌then◌else◌}
use framingo.Server.{Text}

pub record ErrorBody : Type 0 where
  pub source : Text
  pub status : ℕ
  pub code : Text
  pub kind : Text
  pub message : Text
  pub details : List (Text × Text)

-- A category of the errors library.
pub record Category : Type 0 where
  pub status_code : ℕ
  pub name : Text

pub data Failure : Type 0 where
  canceled deadline_exceeded : Failure
  body : ErrorBody → Failure
  http_error : ℕ → Text → Failure
  -- With its category, its code and details, and its latest message.
  coded : Category → Text → List (Text × Text) → Text → Failure
  category : Category → Failure
  plain : Text → Failure

-- http.StatusOK, StatusNotFound, StatusMethodNotAllowed and StatusInternalServerError.
abbrev pub status_ok : ℕ
status_ok = 200

abbrev pub status_not_found : ℕ
status_not_found = 404

abbrev pub status_not_allowed : ℕ
status_not_allowed = 405

abbrev pub status_internal : ℕ
status_internal = 500

-- "context canceled" and "context deadline exceeded".
abbrev canceled_message : Text
canceled_message =
    b'c' ∷ b'o' ∷ b'n' ∷ b't' ∷ b'e' ∷ b'x' ∷ b't' ∷ 32 ∷ b'c' ∷ b'a' ∷ b'n' ∷ b'c' ∷ b'e' ∷ b'l'
    ∷ b'e' ∷ b'd' ∷ []

abbrev deadline_message : Text
deadline_message =
    b'c' ∷ b'o' ∷ b'n' ∷ b't' ∷ b'e' ∷ b'x' ∷ b't' ∷ 32 ∷ b'd' ∷ b'e' ∷ b'a' ∷ b'd' ∷ b'l' ∷ b'i'
    ∷ b'n' ∷ b'e' ∷ 32 ∷ b'e' ∷ b'x' ∷ b'c' ∷ b'e' ∷ b'e' ∷ b'd' ∷ b'e' ∷ b'd' ∷ []

abbrev plain_body : ℕ → Text → ErrorBody
plain_body status message = record {
  source = [];
  status = status;
  code = [];
  kind = [];
  message = message;
  details = [];
}

-- The second `switch` of `WrapError`; `missing` is the message for a method that is not allowed.
unfoldable pub body_of : Text → Failure → ErrorBody
body_of missing (body b) = b
body_of missing (http_error code message) =
    if code == status_not_allowed
    then plain_body status_not_found missing
    else plain_body code message
body_of missing (coded c code details message) = record {
  source = [];
  status = c.status_code;
  code = code;
  kind = c.name;
  message = message;
  details = details;
}
body_of missing (category c) = record {
  source = [];
  status = c.status_code;
  code = [];
  kind = c.name;
  message = [];
  details = [];
}
body_of missing (plain message) = plain_body status_internal message
body_of missing canceled = plain_body status_internal canceled_message
body_of missing deadline_exceeded = plain_body status_internal deadline_message

-- The first `switch` of `WrapError`.
unfoldable pub categorize : (Failure → Failure) → (Failure → Failure) → Failure → Failure
categorize wrap_canceled wrap_deadline canceled = wrap_canceled canceled
categorize wrap_canceled wrap_deadline deadline_exceeded = wrap_deadline deadline_exceeded
categorize wrap_canceled wrap_deadline e = e

unfoldable pub wrap_error : (Failure → Failure) → (Failure → Failure) → Text → Failure → ErrorBody
wrap_error wrap_canceled wrap_deadline missing e =
    body_of missing (categorize wrap_canceled wrap_deadline e)

-- `StatusCode` of an error that is not nil.
unfoldable pub status_code : Failure → ℕ
status_code (body b) = b.status
status_code (http_error code message) = code
status_code (coded c code details message) = c.status_code
status_code (category c) = c.status_code
status_code _ = status_internal
