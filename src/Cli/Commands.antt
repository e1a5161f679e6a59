-- ===== src/Cli/Commands.antt =====
-- `cmdLogin`, `cmdAsk` and `cmdUsage` of cmd/pplx/commands.go.
pub mod Login
pub mod Guard
pub mod Stored
use perplexity_proxy_go.Prelude.{
  ℕ, Bool, true, false, not, ◌||◌, List, [], ◌∷◌, Option, none, some, String, ◌==◌, ◌⧺◌, join,
  if◌then◌else◌,
}
use perplexity_proxy_go.Errors.{Failure, plain, wrapped, is, totp_required, Result, ok, err}
use perplexity_proxy_go.Act.{Act}
use perplexity_proxy_go.Spec.Decode.{Spec}
use perplexity_proxy_go.Transport.Client.{Client}
use perplexity_proxy_go.Pplx.Auth.{Auth, new_auth, request_code, complete_login}
use perplexity_proxy_go.Pplx.Token.{Token, default_token_ttl, default_token_path, save}
use perplexity_proxy_go.Pplx.Conversation.{AskOptions, Answer, Conversation, new_conversation}
use perplexity_proxy_go.Pplx.Ask.{ask}
use perplexity_proxy_go.Pplx.Usage.{RateLimits, usage}
use perplexity_proxy_go.Cli.Print.{print_answer, print_usage, friendly_err}
use perplexity_proxy_go.Cli.Shell.{Shell, Done, AskFlags, Flags, prompt, load_spec, session}

module _ {W : Type 0} (sh : Shell W) (flags : Flags) where
  -- a prompt whose error or empty answer ends the command
  abbrev pub answered : String → (String → W → Done W) → Result String × W → Done W
  answered problem next (err e, w) = (err (plain problem), w)
  answered problem next (ok text, w) =
      let rest = next text w in if text == "" then (err (plain problem), w) else rest

  abbrev pub saved : Result Token × W → Done W
  saved (err e, w) = (err (wrapped "save token: " e ""), w)
  saved (ok t, w) =
      (ok tt, sh.say ("Logged in. Session valid until " ⧺ sh.date t.expires_at ⧺ ".\n") w)

  abbrev pub store : Option String → String → W → Done W
  store none token w = (err sh.home_error, w)
  store (some path) token w = saved (save sh.disk path token default_token_ttl w)

  -- the end of `cmdLogin`
  abbrev pub finish : Result String × Auth W → Done W
  finish (err e, a) = (err (friendly_err e), a.world)
  finish (ok token, a) = store (default_token_path sh.host) token a.world

  module _ (client : Client W) (sp : Spec) (email : String) where
    abbrev pub complete : String → String → Auth W → Result String × Auth W
    complete code totp a = complete_login sh.host client sh.parse_token sp email code totp a

    abbrev pub with_totp : String → Auth W → String → W → Done W
    with_totp code a totp w = finish (complete code totp (record a { world = w }))

    -- after the first `CompleteLogin`
    abbrev pub completed : String → Result String × Auth W → Done W
    completed code (ok token, a) = finish (ok token, a)
    completed code (err e, a) =
        let retried =
          answered "TOTP code is required" (with_totp code a)
            (prompt sh "Authenticator code (6 digits): " a.world) in
        if is totp_required e then retried else finish (err e, a)

    abbrev pub with_code : Auth W → String → W → Done W
    with_code a code w = completed code (complete code "" (record a { world = w }))

    abbrev pub requested : Result (Unit {0}) × Auth W → Done W
    requested (err e, a) = (err (friendly_err e), a.world)
    requested (ok _, a) =
        answered "verification code is required" (with_code a)
          (prompt sh "Verification code (or magic link): " a.world)

    abbrev pub with_email : W → Done W
    with_email w = requested (
        request_code sh.host client sh.parse_token sp email
          (new_auth (sh.warn ("Sending verification code to " ⧺ email ⧺ "...\n") w)))

  abbrev pub with_client : Spec → String → Result ℕ × W → Done W
  with_client sp email (err e, w) = (err e, w)
  with_client sp email (ok t, w) =
      let prompted =
        answered "email is required" (λ typed. with_email (sh.clients t) sp typed)
          (prompt sh "Email: " w) in
      if email == "" then prompted else with_email (sh.clients t) sp email w

  abbrev pub with_spec : String → Result Spec → W → Done W
  with_spec email (err e) w = (err e, w)
  with_spec email (ok sp) w = with_client sp email (sh.new_transport sp w)

  -- what package flag writes to stderr
  abbrev pub told : String → W → W
  told text w = if text == "" then w else sh.warn text w

  abbrev pub login_with : List String → Result String → W → Done W
  login_with args (err e) w = (err e, told (flags.complaint "login" args) w)
  login_with args (ok email) w = with_spec email (load_spec sh w) w

  -- `cmdLogin`
  unfoldable pub cmd_login : List String → W → Done W
  unfolding default_token_path save complete_login request_code prompt load_spec friendly_err
  cmd_login args w = login_with args (flags.login args) w

  abbrev pub no_flags : AskFlags
  no_flags = record { model = ""; source = ""; no_citations = false }

  -- the second pass over the arguments, and the query; its error is dropped once it is written out
  abbrev pub second_pass : AskFlags → List String → W → (AskFlags × String) × W
  second_pass f [] w = ((f, ""), w)
  second_pass f (query ∷ []) w = ((f, query), w)
  second_pass f (query ∷ arg ∷ args) w =
      (((flags.ask f (arg ∷ args)).0, query), told (flags.complaint "ask" (arg ∷ args)) w)

  abbrev printed : Bool → Result Answer × Conversation × W → Done W
  printed citations (err e, conv, w) = (err (friendly_err e), w)
  printed citations (ok ans, conv, w) = (ok tt, sh.say (print_answer ans citations) w)

  abbrev pub ask_with : String → AskFlags → Result (ℕ × Spec) × W → Done W
  ask_with query f (err e, w) = (err e, w)
  ask_with query f (ok (t, sp), w) = printed (not f.no_citations) (
      ask sh.host (sh.clients t) sh.bridge query
        (record { model = f.model; source_focus = f.source }) (new_conversation sp) w)

  abbrev pub asked : (AskFlags × String) × W → Done W
  asked ((f, query), w) =
      let answer = ask_with query f (session sh w) in
      if query == ""
      then (err (plain "usage: pplx ask \"query\" [-m model] [-s source]"), w)
      else answer

  abbrev pub parsed : List String → AskFlags × List String × Option Failure → W → Done W
  parsed args (f, rest, some e) w = (err e, told (flags.complaint "ask" args) w)
  parsed args (f, rest, none) w = asked (second_pass f rest w)

  -- `cmdAsk`
  unfoldable pub cmd_ask : List String → W → Done W
  unfolding session ask print_answer friendly_err
  cmd_ask args w = parsed args (flags.ask no_flags args) w

  abbrev reported : Result RateLimits × W → Done W
  reported (err e, w) = (err (friendly_err e), w)
  reported (ok rl, w) = (ok tt, sh.say (print_usage rl) w)

  abbrev pub usage_with : Result (ℕ × Spec) × W → Done W
  usage_with (err e, w) = (err e, w)
  usage_with (ok (t, sp), w) = reported (usage sh.order (sh.clients t) sp w)

  -- `cmdUsage`
  unfoldable pub cmd_usage : List String → W → Done W
  unfolding session usage print_usage friendly_err
  cmd_usage [] w = usage_with (session sh w)
  cmd_usage (arg ∷ args) w = (err (plain "usage: pplx usage"), w)
