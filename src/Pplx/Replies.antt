-- ===== src/Pplx/Replies.antt =====
-- internal/pplx/auth.go: what the sign-in reads in redirects and in the replies of the service.
use Prim.Native.String.{len}
use perplexity_proxy_go.Prelude.{
  ℕ, Bool, ◌||◌, ◌&&◌, not, Option, some, String, ◌==◌, starts_with, ◌⧺◌, is_int, eqb,
  if◌then◌else◌,
}
use perplexity_proxy_go.Errors.{Failure, plain, wrapped, decimal, Result, ok, err}
use perplexity_proxy_go.Json.{Value, obj, Fields, at, to_str, to_struct}

-- `isRedirect`
abbrev pub is_redirect : ℕ → Bool
is_redirect status =
    eqb status 301 || eqb status 302 || eqb status 303 || eqb status 307 || eqb status 308

abbrev pub is_link : String → Bool
is_link s = starts_with s "http://" || starts_with s "https://"

-- `relativeOrAbsolute`
unfoldable pub relative_or_absolute : String → String
relative_or_absolute location =
    if is_link location
    then location
    else if not (starts_with location "/")
    then "/" ⧺ location
    else location

abbrev pub before : String → Failure → Failure
before text e = wrapped text e ""

abbrev member_of : String → Result Fields → Result String
member_of k (err e) = err e
member_of k (ok fs) = to_str (at k fs)

-- one member of a reply that is a struct of strings
abbrev pub text_member : String → Value → Result String
text_member k v = member_of k (to_struct (some v))

-- `strings.HasPrefix(out.Redirect, "/")` decides between two equal branches
abbrev pub redirect_or_error : String → Result String
redirect_or_error redirect =
    if redirect == "" then err (plain "no redirect URL received for code") else ok redirect

-- `totpTokenFromLocation`, on what `url.Parse` and `Query().Get("token")` make of the location
unfoldable pub totp_token : Result String → Result String
totp_token (err e) = err (before "parse TOTP challenge location: " e)
totp_token (ok token) =
    if token == "" then err (plain "TOTP challenge token not found in redirect") else ok token

abbrev pub is_totp_code : String → Bool
is_totp_code code = eqb (len code) 6 && is_int code

-- the struct `out` of `verifyTOTP`; a body that is no such object is tolerated
abbrev pub reply_member : String → Option Value → String
reply_member k (some (obj fs)) = elim (to_str (at k fs)) [ ok s ↦ s | err e ↦ "" ]
reply_member k _ = ""

abbrev pub detail_or : String → ℕ → String
detail_or detail status = if detail == "" then "HTTP " ⧺ decimal status else detail

abbrev pub first_of : String → String → String
first_of a b = if a == "" then b else a
