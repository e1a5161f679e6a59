-- ===== src/Pplx/Auth/Outcome.antt =====
-- What a login that succeeds returns, and what a malformed TOTP code does.
use mathlib.Core.Bool.{false≢true}
use perplexity_proxy_go.Prelude.{◌≡◌, ◌≢◌, ap, sym, ◌∙◌, String, ◌==◌, eq_iff, Bool-cases, inl, inr}
use perplexity_proxy_go.Errors.{Failure, Result, ok, err}
use perplexity_proxy_go.Act.{Act, next}
use perplexity_proxy_go.Spec.Decode.{Spec}
use perplexity_proxy_go.Transport.Client.{Client, Host}
use perplexity_proxy_go.Pplx.Auth.{Auth, read_token, sign_in, ensure_csrf, complete_login}

next-ok :
    {S A B : Type 0} (r : Result A × S) (f : A → Act S B) {b : B} {s' : S}
    → next r f ≡ (ok b, s')
    → (a : A) × (f a r.1 ≡ (ok b, s'))
next-ok (ok a, s) f h = (a, h)
next-ok (err e, s) f h = cc

ok-injective : {A : Type 0} {a b : A} → ok a ≡ ok b → a ≡ b
ok-injective h = cc

wrong_branch :
    {S A : Type 0} {e : Failure} {b : A} {s s' : S}
    → ◌≡◌ {A = Result A × S} (err e, s) (ok b, s')
    → ⊥
wrong_branch h = cc

module _ {W : Type 0} (host : Host) (client : Client W) (parse_token : String → Result String)
    (sp : Spec) where
  read_token-ok :
      (a a' : Auth W) (token : String)
      → read_token host client parse_token sp a ≡ (ok token, a')
      → (token ≢ "") × (token ≡ client.cookie sp.session_cookie_name a'.world)
  read_token-ok a a' token h =
      elim (Bool-cases (client.cookie sp.session_cookie_name a.world == "")) [
        | inl absent ↦ let h' = rw absent at h in absurd (wrong_branch h')
        | inr present ↦
            let h' = rw present at h in
            let value : client.cookie sp.session_cookie_name a.world ≡ token =
              ok-injective (ap (λ r. r.0) h') in
            let same : a ≡ a' = ap (λ r. r.1) h' in
            (
              λ empty. false≢true (sym present ∙ (eq_iff _ "").1 (value ∙ empty)),
              sym value ∙ ap (λ x. client.cookie sp.session_cookie_name x.world) same,
            )
      ]

  -- A login that succeeds returns a token that is not empty and that is the session cookie of the
  -- transport at that moment.
  pub complete_login-ok :
      (email code_or_link totp token : String) (a a' : Auth W)
      → complete_login host client parse_token sp email code_or_link totp a ≡ (ok token, a')
      → (token ≢ "") × (token ≡ client.cookie sp.session_cookie_name a'.world)
  unfolding complete_login
  complete_login-ok email code_or_link totp token a a' h =
      let (_, e) =
        next-ok
          (next (ensure_csrf host client parse_token sp a)
            (λ _. sign_in host client parse_token sp email code_or_link totp))
          (λ _. read_token host client parse_token sp) h in
      read_token-ok _ a' token e
