-- ===== src/Errors/Laws.antt =====
-- What the transport mapping of internal/platform/errors/errors.go promises.
use specforge.Prelude.{◌≡◌, ◌↔◌, ◌⊎◌, ◌≤◌, ◌<◌, true, Option, arith}
use specforge.Errors.{Error, http_status, retryable}

-- Whatever kind of error a request ends with, retrying is offered exactly when the status is 429,
-- 503 or 504, and the status is always a client or server error.
pub retryable-http_status :
    (e : Option Error)
    → ((retryable e ≡ true)
        ↔ ((http_status e ≡ 429) ⊎ (http_status e ≡ 503) ⊎ (http_status e ≡ 504)))
      × (400 ≤ http_status e)
      × (http_status e < 600)
unfolding retryable http_status
retryable-http_status e = ground arith
