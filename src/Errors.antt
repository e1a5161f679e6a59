-- ===== src/Errors.antt =====
-- The error values of the program: sentinels, typed errors, and `fmt.Errorf` with `%w`.
-- Sources: internal/pplx/sse.go, internal/pplx/auth.go, internal/pplx/token.go,
-- internal/transport/plain.go, internal/mcp/server.go (their `errors.New` variables and types).
use perplexity_proxy_go.Prelude.{
  ℕ, zero, suc, ◌/◌, ◌%◌, Bool, true, false, Option, none, some, List, String, join, ◌⧺◌, eqb,
  if◌then◌else◌,
}
use perplexity_proxy_go.Prelude.{◌==◌}

-- strconv's decimal digits
abbrev digit : ℕ → String
digit zero = "0"
digit (suc zero) = "1"
digit (suc (suc zero)) = "2"
digit (suc (suc (suc zero))) = "3"
digit (suc (suc (suc (suc zero)))) = "4"
digit (suc (suc (suc (suc (suc zero))))) = "5"
digit (suc (suc (suc (suc (suc (suc zero)))))) = "6"
digit (suc (suc (suc (suc (suc (suc (suc zero))))))) = "7"
digit (suc (suc (suc (suc (suc (suc (suc (suc zero)))))))) = "8"
digit _ = "9"

decimal_from : ℕ → ℕ → String → String
decimal_from zero n acc = acc
decimal_from (suc fuel) n acc =
    let rest = decimal_from fuel (n / 10) (digit (n % 10) ⧺ acc) in
    if eqb (n / 10) 0 then digit (n % 10) ⧺ acc else rest

-- `%d` of a natural number; the fuel exceeds the number of digits
unfoldable pub decimal : ℕ → String
unfolding decimal_from
decimal n = decimal_from (suc n) n ""

pub data Sentinel : Type 0 where
  rate_limited authwalled stop_scanning totp_required no_csrf no_token token_expired
        invalid_params :
      Sentinel

pub data Failure : Type 0 where
  -- `errors.New`, `fmt.Errorf` with no `%w`, and the errors of other packages
  plain : String → Failure
  -- `fmt.Errorf` with text before and after its `%w`
  wrapped : String → Failure → String → Failure
  sentinel : Sentinel → Failure
  -- `ClarifyingQuestionsError`
  clarifying : List String → Failure
  -- `StatusError`
  status : (code : ℕ) → (url body : String) → Failure

abbrev pub sentinel_text : Sentinel → String
sentinel_text rate_limited = "Perplexity rate limit reached (FREE_TIER_RATE_LIMITED)"
sentinel_text authwalled = "perplexity authwall: request was treated as logged out"
sentinel_text stop_scanning = "stop scanning SSE stream"
sentinel_text totp_required = "TOTP verification required: provide a 6-digit code"
sentinel_text no_csrf = "failed to obtain CSRF token"
sentinel_text no_token = "no Perplexity token found (run 'pplx login')"
sentinel_text token_expired = "Perplexity token expired (run 'pplx login')"
sentinel_text invalid_params = "invalid params"

-- `StatusError.Error`
unfoldable pub status_text : ℕ → String → String → String
status_text code url body =
    if body == ""
    then "HTTP " ⧺ decimal code ⧺ " at " ⧺ url
    else "HTTP " ⧺ decimal code ⧺ " at " ⧺ url ⧺ ": " ⧺ body

-- `err.Error()`
unfoldable pub message : Failure → String
message (plain s) = s
message (wrapped before e after) = before ⧺ message e ⧺ after
message (sentinel s) = sentinel_text s
message (clarifying qs) = "Perplexity returned clarifying questions: " ⧺ join " | " qs
message (status code url body) = status_text code url body

abbrev pub same : Sentinel → Sentinel → Bool
same rate_limited rate_limited = true
same authwalled authwalled = true
same stop_scanning stop_scanning = true
same totp_required totp_required = true
same no_csrf no_csrf = true
same no_token no_token = true
same token_expired token_expired = true
same invalid_params invalid_params = true
same _ _ = false

-- `errors.Is(err, s)`
abbrev pub is : Sentinel → Failure → Bool
is s (wrapped _ e _) = is s e
is s (sentinel t) = same t s
is s _ = false

-- `errors.As(err, &clarifying)`
abbrev pub as_clarifying : Failure → Option (List String)
as_clarifying (wrapped _ e _) = as_clarifying e
as_clarifying (clarifying qs) = some qs
as_clarifying _ = none

-- `errors.As(err, &statusError)`
abbrev pub as_status : Failure → Option (ℕ × String × String)
as_status (wrapped _ e _) = as_status e
as_status (status code url body) = some (code, url, body)
as_status _ = none

pub data Result {ℓ} (A : Type ℓ) : Type ℓ where
  ok : A → Result A
  err : Failure → Result A

infixl 5 ◌>>=◌
abbrev pub ◌>>=◌ {ℓ κ} : {X : Type ℓ} {Y : Type κ} → Result X → (X → Result Y) → Result Y
err failure >>= step = err failure
ok value >>= step = step value
