-- ===== src/Errors.antt =====
-- internal/platform/errors/errors.go: the kinds of error, the search of a chain of errors for the
-- platform's own, and the one mapping to HTTP. Messages, details and the text of foreign errors
-- are not modelled: no decision of the program reads them.
pub mod Laws
use specforge.Prelude.{ℕ, String, Bool, true, false, Option, none, some, ◌==◌, if◌then◌else◌}

pub data Kind : Type 0 where
  invalid unauthorized forbidden not_found conflict precondition exhausted internal unavailable
        timeout tampered unprocessable :
      Kind

-- An `error` value as `errors.As` walks it: a platform `*Error`, an error with none in its chain,
-- and `fmt.Errorf` with `%w`. What a platform error wraps is never looked at.
pub data Error : Type 0 where
  platform : (kind : Kind) (code op : String) → Error
  foreign : Error
  wrapped : Error → Error

pub record PlatformError : Type 0 where
  pub kind : Kind
  pub code : String
  pub op : String

-- `var e *Error; errors.As(err, &e)`
abbrev pub as_platform : Error → Option PlatformError
as_platform (platform k c o) = some (record { kind = k; code = c; op = o })
as_platform foreign = none
as_platform (wrapped e) = as_platform e

abbrev pub as_platform_of : Option Error → Option PlatformError
as_platform_of none = none
as_platform_of (some e) = as_platform e

-- The empty kind, of a nil error, is `none`.
unfoldable pub kind_of : Option Error → Option Kind
kind_of none = none
kind_of (some e) = elim (as_platform e) [ some p ↦ some p.kind | none ↦ some internal ]

unfoldable pub code_of : Option Error → String
code_of e = elim (as_platform_of e) [
  | some p ↦ if p.code == "" then "internal.error" else p.code
  | none ↦ "internal.error"
]

abbrev status_of_kind : Option Kind → ℕ
status_of_kind (some invalid) = 400
status_of_kind (some unauthorized) = 401
status_of_kind (some forbidden) = 403
status_of_kind (some not_found) = 404
status_of_kind (some conflict) = 409
status_of_kind (some precondition) = 412
status_of_kind (some unprocessable) = 422
status_of_kind (some exhausted) = 429
status_of_kind (some unavailable) = 503
status_of_kind (some timeout) = 504
status_of_kind (some tampered) = 500
status_of_kind _ = 500

unfoldable pub http_status : Option Error → ℕ
unfolding kind_of
http_status e = status_of_kind (kind_of e)

abbrev retryable_kind : Option Kind → Bool
retryable_kind (some unavailable) = true
retryable_kind (some timeout) = true
retryable_kind (some exhausted) = true
retryable_kind _ = false

unfoldable pub retryable : Option Error → Bool
unfolding kind_of
retryable e = retryable_kind (kind_of e)
