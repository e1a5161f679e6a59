-- ===== src/Pplx/Auth/Challenge.antt =====
-- A login that a TOTP challenge interrupts.
use mathlib.Core.Bool.{false≢true}
use text.Mathlib.TextPositions.{starts_with-append}
use perplexity_proxy_go.Prelude.{
  ℕ, true, false, ◌≡◌, ◌≢◌, refl, ap, sym, ◌∙◌, String, ◌==◌, eq_iff, contains, starts_with, arith,
  ◌⧺◌, ◌⊎◌, Bool-cases, inl, inr,
}
use perplexity_proxy_go.Errors.{Failure, sentinel, totp_required, Result, ok, err}
use perplexity_proxy_go.Act.{next}
use perplexity_proxy_go.Spec.Decode.{Spec}
use perplexity_proxy_go.Transport.Client.{Client, Host}
use perplexity_proxy_go.Transport.Shared.{resolve}
use perplexity_proxy_go.Transport.Http.{Http, Shared}
use perplexity_proxy_go.Pplx.Auth.{
  Auth, resolve_code, follow_callback, verify_totp, read_token, complete_login,
}
use perplexity_proxy_go.Pplx.Replies.{is_redirect, is_link, relative_or_absolute, totp_token}

-- Both of the ways of `resolve` that succeed.
resolve-ok :
    {W : Type 0} (h : Http W) (c : Shared) (path : String)
    → (is_link path ≡ true) ⊎ (starts_with path "/" ≡ true)
    → (url : String) × (resolve h c path ≡ ok url)
unfolding resolve
resolve-ok h c path (inl link) = (path, rw link refl)
resolve-ok h c path (inr rooted) = elim (Bool-cases (is_link path)) [
  | inl link ↦ (path, rw link refl)
  | inr other ↦ (c.base.text ⧺ path, rw (other, rooted) refl)
]

relative_or_absolute-cases :
    (location : String)
    → (is_link (relative_or_absolute location) ≡ true)
      ⊎ (starts_with (relative_or_absolute location) "/" ≡ true)
unfolding relative_or_absolute
relative_or_absolute-cases location = elim (Bool-cases (is_link location)) [
  | inl link ↦ inl (rw link link)
  | inr other ↦ elim (Bool-cases (starts_with location "/")) [
    | inl rooted ↦ inr (rw (other, rooted) rooted)
    | inr bare ↦ inr (rw (other, bare) (starts_with-append "/" location))
  ]
]

-- The transport never refuses the path that `relativeOrAbsolute` makes of a location.
pub resolve-relative_or_absolute :
    {W : Type 0} (h : Http W) (c : Shared) (location : String)
    → (url : String) × (resolve h c (relative_or_absolute location) ≡ ok url)
resolve-relative_or_absolute h c location =
    resolve-ok h c (relative_or_absolute location) (relative_or_absolute-cases location)

given : (s : String) → s ≢ "" → (s == "") ≡ false
given s h = ground (arith, eq_iff s "")

challenged_present :
    (location : String) → contains location "/auth/totp-challenge" ≡ true → (location == "") ≡ false
unfolding contains
challenged_present location h =
    given location (λ e. false≢true (ap (λ l. contains l "/auth/totp-challenge") (sym e) ∙ h))

module _ {W : Type 0} (host : Host) (client : Client W) (parse_token : String → Result String)
    (sp : Spec) where
  -- A login without a TOTP code whose callback redirects to a challenge fails with ErrTOTPRequired
  -- and keeps the challenge's token, where the location has one and tells no error.
  follow_callback-challenged :
      (url location token : String) (status : ℕ) (w : W) (a : Auth W)
      → client.get_no_redirect url a.world ≡ (ok (status, location), w)
      → is_redirect status ≡ true
      → contains location "error=" ≡ false
      → contains location "/auth/totp-challenge" ≡ true
      → parse_token location ≡ ok token
      → token ≢ ""
      → follow_callback host client parse_token sp url "" a
        ≡ (err (sentinel totp_required), record a { pending_totp = token; world = w })
  unfolding follow_callback totp_token
  follow_callback-challenged url location token status w a got redirects fine challenged parsed
        present =
      rw
        (
          got,
          redirects,
          challenged_present location challenged,
          fine,
          challenged,
          parsed,
          given token present,
        )
        refl

  resumed :
      (email code_or_link totp : String) (a : Auth W)
      → a.csrf ≢ ""
      → a.pending_totp ≢ ""
      → complete_login host client parse_token sp email code_or_link totp a
        ≡ next
            (verify_totp host client parse_token sp a.pending_totp totp a)
            (λ _. read_token host client parse_token sp)
  unfolding complete_login
  resumed email code_or_link totp a csrf pending =
      rw (given (a.csrf) csrf, given (a.pending_totp) pending) refl

  challenged :
      (email code url : String) (a a' a'' : Auth W) (e : Failure)
      → a.csrf ≢ ""
      → a.pending_totp ≡ ""
      → resolve_code host client parse_token sp email code a ≡ (ok url, a')
      → follow_callback host client parse_token sp url "" a' ≡ (err e, a'')
      → complete_login host client parse_token sp email code "" a ≡ (err e, a'')
  unfolding complete_login
  challenged email code url a a' a'' e csrf idle resolved followed =
      rw (given (a.csrf) csrf, (eq_iff a.pending_totp "").1 idle, resolved, followed) refl

  -- A login with a TOTP challenge, in two calls of `CompleteLogin`. A CSRF token is at hand and no
  -- challenge pending; the emailed code is exchanged for a callback, which redirects to a challenge with
  -- a token; and the challenge accepts the TOTP code, after which there is a session cookie. Then the
  -- first call, without a TOTP code, ends in ErrTOTPRequired. The second, whatever email and emailed code
  -- it gets, exchanges no code, but verifies the TOTP code for the token of the first call's redirect, and
  -- returns the cookie. The challenge stays pending after that: a third call verifies its TOTP code for
  -- the same token, and exchanges no code either.
  pub complete_login-resumed :
      (email code email' code' email'' code'' totp totp' : String) (url location token : String)
      (status : ℕ) (w1 w2 w3 : W) (a : Auth W)
      → a.csrf ≢ ""
      → a.pending_totp ≡ ""
      → resolve_code host client parse_token sp email code a ≡ (ok url, record a { world = w1 })
      → client.get_no_redirect url w1 ≡ (ok (status, location), w2)
      → is_redirect status ≡ true
      → contains location "error=" ≡ false
      → contains location "/auth/totp-challenge" ≡ true
      → parse_token location ≡ ok token
      → token ≢ ""
      → verify_totp host client parse_token sp token totp
          (record a { pending_totp = token; world = w2 })
        ≡ (ok tt, record a { pending_totp = token; world = w3 })
      → client.cookie sp.session_cookie_name w3 ≢ ""
      → (complete_login host client parse_token sp email code "" a
          ≡ (err (sentinel totp_required), record a { pending_totp = token; world = w2 }))
        × (complete_login host client parse_token sp email' code' totp
              (record a { pending_totp = token; world = w2 })
            ≡ (
              ok (client.cookie sp.session_cookie_name w3),
              record a { pending_totp = token; world = w3 },
            ))
        × (complete_login host client parse_token sp email'' code'' totp'
              (record a { pending_totp = token; world = w3 })
            ≡ next
                (verify_totp host client parse_token sp token totp'
                  (record a { pending_totp = token; world = w3 }))
                (λ _. read_token host client parse_token sp))
  complete_login-resumed email code email' code' email'' code'' totp totp' url location token status
        w1 w2 w3 a csrf idle resolved got redirects fine challenges parsed present verified cookie =
      (
        challenged email code url a (record a { world = w1 })
            (record a { pending_totp = token; world = w2 }) _ csrf idle resolved
            (follow_callback-challenged url location token status w2 (record a { world = w1 }) got
              redirects fine challenges parsed present),
        resumed email' code' totp (record a { pending_totp = token; world = w2 }) csrf present
            ∙ rw (verified, given (client.cookie sp.session_cookie_name w3) cookie) refl,
        resumed email'' code'' totp' (record a { pending_totp = token; world = w3 }) csrf present,
      )
