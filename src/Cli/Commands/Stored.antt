-- ===== src/Cli/Commands/Stored.antt =====
-- A run of `cmdLogin` of cmd/pplx/commands.go from start to end.
use perplexity_proxy_go.Prelude.{
  ℕ, ◌+◌, ◌≡◌, ◌≢◌, refl, ◌∙◌, ap, sym, List, Option, none, some, String, ◌==◌, ltb, if◌then◌else◌,
  Bool-cases, inl, inr,
}
use perplexity_proxy_go.Errors.{
  Failure, sentinel, totp_required, is, token_expired, wrapped, Result, ok, err,
}
use perplexity_proxy_go.Spec.Decode.{Spec}
use perplexity_proxy_go.Pplx.Auth.{Auth, complete_login}
use perplexity_proxy_go.Pplx.Auth.Outcome.{complete_login-ok}
use perplexity_proxy_go.Pplx.Token.{
  Token, Disk, default_token_ttl, default_token_path, save, new_token, token_json, written, made,
}
use perplexity_proxy_go.Pplx.Token.Storage.{IsReliable}
use perplexity_proxy_go.Cli.Shell.{Shell, Done, Flags, load_spec, load_token, prompt}
use perplexity_proxy_go.Cli.Commands.{
  answered, saved, finish, completed, with_totp, with_code, requested, with_email, with_client,
  with_spec, login_with, cmd_login,
}
use perplexity_proxy_go.Cli.Commands.Guard.{err-ne_ok}
use perplexity_proxy_go.Cli.Commands.Login.{finish-load_token}

module _ {W : Type 0} (disk : Disk W) (path : String) where
  written-none :
      (t t' : Token) (d : Option Failure × W) → (written disk path t d).0 ≡ ok t' → d.0 ≡ none
  written-none t t' (none, w) h = refl
  written-none t t' (some e, w) h = absurd cc

  made-none :
      (t t' : Token) (m : Option Failure × W)
      → (made disk path t m).0 ≡ ok t'
      → (m.0 ≡ none) × ((disk.write path (disk.print (token_json disk path t)) m.1).0 ≡ none)
  made-none t t' (none, w) h = (refl, written-none t t' _ h)
  made-none t t' (some e, w) h = absurd cc

  save-none :
      (value : String) (ttl : ℕ) (w : W) (t' : Token)
      → (save disk path value ttl w).0 ≡ ok t'
      → ((disk.make_parent path w).0 ≡ none)
        × ((disk.write path
              (disk.print (token_json disk path (new_token disk path value ttl w)))
              (disk.make_parent path w).1).0
            ≡ none)
  unfolding save
  save-none value ttl w t' h = elim (Bool-cases (value == "")) [
    | inl empty ↦ let refusal = rw empty at h in absurd (err-ne_ok _ t' refusal)
    | inr given ↦ made-none _ t' (disk.make_parent path w) (rw given at h)
  ]

module _ {W : Type 0} (sh : Shell W) (flags : Flags) where
  answered-ok :
      (problem : String) (next : String → W → Done W) (r : Result String × W) (w' : W)
      → answered sh flags problem next r ≡ (ok tt, w')
      → (text : String) × (w : W) × (next text w ≡ (ok tt, w'))
  answered-ok problem next (err e, w) w' h = absurd cc
  answered-ok problem next (ok text, w) w' h = elim (Bool-cases (text == "")) [
    | inl empty ↦ let refusal = rw empty at h in absurd (err-ne_ok _ tt (ap (λ d. d.0) refusal))
    | inr given ↦ (text, w, rw given at h)
  ]

  saved-ok :
      (r : Result Token × W) (w' : W) → saved sh flags r ≡ (ok tt, w') → (t : Token) × (r.0 ≡ ok t)
  saved-ok (ok t, w) w' h = (t, refl)
  saved-ok (err e, w) w' h = absurd cc

  -- The token of a successful `CompleteLogin` of a transport, which is its session cookie, is loaded
  -- in the world, if 30 days are not over.
  abbrev pub IsStored : Spec → W → Type 0
  IsStored sp v =
      (t : ℕ) × (email code totp token : String) × (a a' : Auth W) × (complete_login sh.host
          (sh.clients t) sh.parse_token sp email code totp a
        ≡ (ok token, a'))
      × (token ≡ (sh.clients t).cookie sp.session_cookie_name a'.world)
      × (token ≢ "")
      × (load_token sh v ≡ (
          if ltb (sh.disk.clock v) (sh.disk.clock a'.world + default_token_ttl)
          then ok token
          else err (wrapped "" (sentinel token_expired) "")))

  module _ (path : String) (w' v : W) (at_path : default_token_path sh.host ≡ some path)
      (quiet : (text : String) (v : W) → sh.disk.read path (sh.say text v) ≡ sh.disk.read path v)
      (reliable : (t : ℕ) (name : String) (v v' : W)
        → IsReliable sh.disk path
            (new_token sh.disk path ((sh.clients t).cookie name v) default_token_ttl v'))
      (kept : sh.disk.read path v ≡ sh.disk.read path w') where
    module _ (t : ℕ) (sp : Spec) (email : String) where
      finish-IsStored :
          (code totp : String) (a : Auth W) (r : Result String × Auth W)
          → complete_login sh.host (sh.clients t) sh.parse_token sp email code totp a ≡ r
          → finish sh flags r ≡ (ok tt, w')
          → IsStored sp v
      finish-IsStored code totp a (err e, a') made h = absurd (err-ne_ok _ tt (ap (λ d. d.0) h))
      finish-IsStored code totp a (ok token, a') made h =
          let (present, cookie) =
            complete_login-ok sh.host (sh.clients t) sh.parse_token sp email code totp token a a'
              made in
          let stored =
            saved-ok (save sh.disk path token default_token_ttl a'.world) w' (rw at_path at h) in
          let (parent, wrote) =
            save-none sh.disk path token default_token_ttl a'.world stored.0 stored.1 in
          let trusted : IsReliable sh.disk path
              (new_token sh.disk path token default_token_ttl a'.world) =
            rw cookie (reliable t sp.session_cookie_name a'.world a'.world) in
          let ended = ap (λ d. sh.disk.read path d.1) (ap (finish sh flags) made ∙ h) in
          let (_, loaded) =
            finish-load_token sh flags (sh.clients t) sp email code totp token path a a' quiet
              at_path made trusted parent wrote v (kept ∙ sym ended) in
          (t, email, code, totp, token, a, a', made, cookie, present, loaded)

      completed-IsStored :
          (code : String) (a : Auth W) (r : Result String × Auth W)
          → complete_login sh.host (sh.clients t) sh.parse_token sp email code "" a ≡ r
          → completed sh flags (sh.clients t) sp email code r ≡ (ok tt, w')
          → IsStored sp v
      completed-IsStored code a (ok token, a') made h =
          finish-IsStored code "" a (ok token, a') made h
      completed-IsStored code a (err e, a') made h = elim (Bool-cases (is totp_required e)) [
        | inr other ↦ finish-IsStored code "" a (err e, a') made (rw other at h)
        | inl asks ↦
            let (totp, v, ran) =
              answered-ok "TOTP code is required"
                (with_totp sh flags (sh.clients t) sp email code a')
                (prompt sh "Authenticator code (6 digits): " a'.world) w' (rw asks at h) in
            finish-IsStored code totp (record a' { world = v }) _ refl ran
      ]

      requested-IsStored :
          (r : Result (Unit {0}) × Auth W)
          → requested sh flags (sh.clients t) sp email r ≡ (ok tt, w')
          → IsStored sp v
      requested-IsStored (err e, a) h = absurd (err-ne_ok _ tt (ap (λ d. d.0) h))
      requested-IsStored (ok _, a) h =
          let (code, v, ran) =
            answered-ok "verification code is required"
              (with_code sh flags (sh.clients t) sp email a)
              (prompt sh "Verification code (or magic link): " a.world) w' h in
          completed-IsStored code (record a { world = v }) _ refl ran

    with_client-IsStored :
        (sp : Spec) (email : String) (r : Result ℕ × W)
        → with_client sh flags sp email r ≡ (ok tt, w')
        → IsStored sp v
    with_client-IsStored sp email (err e, w) h = absurd (err-ne_ok _ tt (ap (λ d. d.0) h))
    with_client-IsStored sp email (ok t, w) h = elim (Bool-cases (email == "")) [
      | inr given ↦ requested-IsStored t sp email _ (rw given at h)
      | inl asks ↦
          let (typed, v, ran) =
            answered-ok "email is required" (λ typed. with_email sh flags (sh.clients t) sp typed)
              (prompt sh "Email: " w) w' (rw asks at h) in
          requested-IsStored t sp typed _ ran
    ]

    -- a spec was loaded, and a token is stored
    abbrev IsDone : Result Spec → Type 0
    IsDone r = (sp : Spec) × (r ≡ ok sp) × IsStored sp v

    with_spec-IsStored :
        (email : String) (r : Result Spec) (w : W)
        → with_spec sh flags email r w ≡ (ok tt, w')
        → IsDone r
    with_spec-IsStored email (err e) w h = absurd (err-ne_ok _ tt (ap (λ d. d.0) h))
    with_spec-IsStored email (ok sp) w h =
        (sp, refl, with_client-IsStored sp email (sh.new_transport sp w) h)

    login_with-IsStored :
        (args : List String) (r : Result String) (w : W)
        → login_with sh flags args r w ≡ (ok tt, w')
        → IsDone (load_spec sh w)
    login_with-IsStored args (err e) w h = absurd (err-ne_ok _ tt (ap (λ d. d.0) h))
    login_with-IsStored args (ok email) w h = with_spec-IsStored email (load_spec sh w) w h

    -- A `pplx login` that ends without an error, by whatever prompts and codes, has loaded a spec, and
    -- a `CompleteLogin` of a transport has returned a token: that transport's cookie of the spec's
    -- session cookie name, not empty, which is stored. In every later world whose token file is the one
    -- that the command left, loading gives that token until 30 days after the login, and then the error
    -- that it has expired. There is a path for the token, printing does not change the token file, and
    -- a session cookie of a transport is read from the store as it was written.
    pub cmd_login-IsStored :
        (args : List String) (w : W)
        → cmd_login sh flags args w ≡ (ok tt, w')
        → (sp : Spec) × (load_spec sh w ≡ ok sp) × IsStored sp v
    unfolding cmd_login
    cmd_login-IsStored args w h = login_with-IsStored args (flags.login args) w h
