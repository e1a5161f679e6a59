-- ===== src/Pplx/Auth.antt =====
-- internal/pplx/auth.go: the sign-in by an emailed code, with a TOTP challenge.
pub mod Challenge
pub mod Outcome
use Prim.Native.String.{len}
use perplexity_proxy_go.Prelude.{
  ℕ, Bool, true, false, ◌||◌, ◌&&◌, not, List, [], ◌∷◌, Option, none, some, String, ◌==◌,
  starts_with, contains, ◌⧺◌, is_int, eqb, leb, if◌then◌else◌,
}
use perplexity_proxy_go.Errors.{
  Failure, plain, wrapped, sentinel, totp_required, no_csrf, decimal, Result, ok, err,
}
use perplexity_proxy_go.Act.{Act, ◌>>=◌, ◌>>◌, lift, pure, fail, on_error, wrap_result}
use perplexity_proxy_go.Json.{Value, str, obj, Fields, end, field, at, to_str, to_struct}
use perplexity_proxy_go.Spec.Decode.{Spec}
use perplexity_proxy_go.Transport.Client.{Client, Host}
use perplexity_proxy_go.Pplx.Replies.{
  is_redirect, is_link, relative_or_absolute, before, text_member, redirect_or_error, totp_token,
  is_totp_code, reply_member, detail_or, first_of,
}

-- the fields of `Auth` that change, and the world
pub record Auth (W : Type 0) : Type 0 where
  pub csrf : String
  pub pending_totp : String
  pub world : W

-- `NewAuth`
abbrev pub new_auth : {W : Type 0} → W → Auth W
new_auth w = record { csrf = ""; pending_totp = ""; world = w }

abbrev behind : {W A : Type 0} → Auth W → Result A × W → Result A × Auth W
behind a (r, w) = (r, record a { world = w })

-- a call of the transport
abbrev pub via : {W A : Type 0} → Act W A → Act (Auth W) A
via m a = behind a (m a.world)

abbrev set_csrf : {W : Type 0} → String → Act (Auth W) (Unit {0})
set_csrf csrf a = (ok tt, record a { csrf = csrf })

abbrev pub set_pending : {W : Type 0} → String → Act (Auth W) (Unit {0})
set_pending token a = (ok tt, record a { pending_totp = token })

module _ {W : Type 0} (host : Host) (client : Client W) (parse_token : String → Result String)
    (sp : Spec) where
  abbrev csrf_or_error : String → Result String
  csrf_or_error token = if token == "" then err (sentinel no_csrf) else ok token

  -- `fetchCSRF`
  unfoldable pub fetch_csrf : Act (Auth W) String
  fetch_csrf =
      via (
        on_error (before "fetch CSRF: ")
          (client.get_json sp.endpoints.auth_csrf >>= λ v. lift (text_member "csrfToken" v)))
      >>= λ token. lift (csrf_or_error token)

  abbrev versioned : String → String
  versioned path = path ⧺ "?version=" ⧺ host.query_escape sp.api_version ⧺ "&source=default"

  abbrev landing : String
  landing = sp.base_url ⧺ "/?login-source=floatingSignup"

  abbrev code_request : String → String → Value
  code_request email csrf = obj (
      field "email" (str email) (
        field "csrfToken" (str csrf) (
          field "useNumericOtp" (str "true")
            (field "json" (str "true") (field "callbackUrl" (str landing) end)))))

  abbrev no_error : String → Result (Unit {0})
  no_error problem =
      if problem == "" then ok tt else err (plain ("request verification code: " ⧺ problem))

  -- `RequestCode`
  unfoldable pub request_code : String → Act (Auth W) (Unit {0})
  request_code email =
      via (on_error (before ("warm up " ⧺ sp.base_url ⧺ ": ")) (client.get "/"))
      >> fetch_csrf
      >>= λ csrf.
          set_csrf csrf
          >> via (
              on_error (before "request verification code: ") (
                client.post_json (versioned sp.endpoints.auth_signin_email)
                  (code_request email csrf)
                >>= λ v. lift (text_member "error" v)))
          >>= λ problem. lift (no_error problem)

  abbrev otp_request : String → String → Value
  otp_request email code = obj (
      field "email" (str email) (
        field "otp" (str code)
          (field "redirectUrl" (str landing) (field "emailLoginMethod" (str "web-otp") end))))

  -- `resolveCode`
  unfoldable pub resolve_code : String → String → Act (Auth W) String
  resolve_code email code_or_link =
      if is_link code_or_link
      then pure code_or_link
      else via (
          on_error (before "verify code: ") (
            client.post_json sp.endpoints.auth_otp_redirect (otp_request email code_or_link)
            >>= λ v. lift (text_member "redirect" v)))
        >>= λ redirect. lift (redirect_or_error redirect)

  abbrev follow : String → Act (Auth W) (Unit {0})
  follow redirect =
      if redirect == "" then pure tt else via (client.get (relative_or_absolute redirect))

  -- `verifyTOTP` after its request
  abbrev verified : ℕ × String × Option Value → Act (Auth W) (Unit {0})
  verified (status, location, reply) =
      if leb 400 status || not (reply_member "error" reply == "")
      then fail
          (plain ("TOTP verification failed: " ⧺ detail_or (reply_member "error" reply) status))
      else follow (first_of location (reply_member "redirect" reply))

  abbrev totp_request : String → String → Value
  totp_request token code = obj (field "token" (str token) (field "code" (str code) end))

  -- `verifyTOTP`
  unfoldable pub verify_totp : String → String → Act (Auth W) (Unit {0})
  verify_totp token code =
      if is_totp_code code
      then via (
          on_error (before "TOTP verify: ") (
            client.post_json_no_redirect (versioned sp.endpoints.auth_totp_verify)
              (totp_request token code)))
        >>= verified
      else fail (plain "TOTP code must be a 6-digit number")

  -- the challenge branch of `followCallback`
  abbrev pub challenge : String → Result String → Act (Auth W) (Unit {0})
  challenge code (err e) = fail e
  challenge code (ok token) =
      if code == ""
      then set_pending token >> fail (sentinel totp_required)
      else set_pending "" >> verify_totp token code

  abbrev pub walk : String → ℕ × String → Act (Auth W) (Unit {0})
  walk code (status, location) =
      if not (is_redirect status)
      then pure tt
      else if location == ""
      then fail (plain "auth callback did not provide a redirect location")
      else if contains location "error="
      then fail (plain "verification failed: the code may be invalid or expired")
      else if contains location "/auth/totp-challenge"
      then challenge code (totp_token (parse_token location))
      else via (client.get (relative_or_absolute location))

  -- `followCallback`
  unfoldable pub follow_callback : String → String → Act (Auth W) (Unit {0})
  follow_callback url code =
      via (on_error (before "auth callback: ") (client.get_no_redirect url)) >>= walk code

  -- `if a.csrf == "" { … }`
  abbrev pub ensure_csrf : Act (Auth W) (Unit {0})
  ensure_csrf a = if a.csrf == "" then (fetch_csrf >>= set_csrf) a else pure tt a

  -- the two ways of `CompleteLogin`: a code is exchanged, or a pending challenge resumed
  abbrev pub sign_in : String → String → String → Act (Auth W) (Unit {0})
  sign_in email code_or_link totp_code a =
      if a.pending_totp == ""
      then (resolve_code email code_or_link >>= λ url. follow_callback url totp_code) a
      else verify_totp a.pending_totp totp_code a

  abbrev pub read_token : Act (Auth W) String
  read_token a =
      let token = client.cookie sp.session_cookie_name a.world in
      if token == ""
      then fail (plain "authentication completed but no session token cookie was returned") a
      else pure token a

  -- `CompleteLogin`
  unfoldable pub complete_login : String → String → String → Act (Auth W) String
  complete_login email code_or_link totp_code =
      ensure_csrf >> sign_in email code_or_link totp_code >> read_token
