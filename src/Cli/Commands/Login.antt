-- ===== src/Cli/Commands/Login.antt =====
-- The token that `cmdLogin` of cmd/pplx/commands.go stores.
use perplexity_proxy_go.Prelude.{
  ◌+◌, Bool, true, false, ◌≡◌, refl, ap, ◌∙◌, none, some, String, ltb, if◌then◌else◌,
}
use perplexity_proxy_go.Errors.{sentinel, token_expired, wrapped, Result, ok, err}
use perplexity_proxy_go.Spec.Decode.{Spec}
use perplexity_proxy_go.Transport.Client.{Client}
use perplexity_proxy_go.Pplx.Auth.{Auth, complete_login}
use perplexity_proxy_go.Pplx.Auth.Outcome.{complete_login-ok}
use perplexity_proxy_go.Pplx.Token.{
  Token, default_token_ttl, default_token_path, save, load, new_token, token_json,
}
use perplexity_proxy_go.Pplx.Token.Storage.{IsReliable, load-save}
use perplexity_proxy_go.Cli.Shell.{Shell, Flags, load_token, value_or_error}
use perplexity_proxy_go.Cli.Commands.{finish, saved}

module _ {W : Type 0} (sh : Shell W) (flags : Flags) where
  saved-load_token :
      (r : Result Token × W) (t : Token) (path : String)
      → ((text : String) (w : W) → sh.disk.read path (sh.say text w) ≡ sh.disk.read path w)
      → r.0 ≡ ok t
      → ((saved sh flags r).0 ≡ ok tt)
        × (sh.disk.read path (saved sh flags r).1 ≡ sh.disk.read path r.1)
  saved-load_token (ok t', w) t path quiet h = (refl, quiet _ w)
  saved-load_token (err e, w) t path quiet h = absurd cc

  value_or_error-if :
      (live : Bool) (t : Token)
      → value_or_error sh (if live then ok t else err (sentinel token_expired))
        ≡ (if live then ok t.value else err (wrapped "" (sentinel token_expired) ""))
  value_or_error-if true t = refl
  value_or_error-if false t = refl

  load_token-load :
      (path : String) (w : W)
      → default_token_path sh.host ≡ some path
      → load_token sh w ≡ value_or_error sh (load sh.disk path w)
  unfolding load_token
  load_token-load path w h = rw h refl

  pub finish-load_token :
      (client : Client W) (sp : Spec) (email code totp token path : String) (a a' : Auth W)
      → ((text : String) (w : W) → sh.disk.read path (sh.say text w) ≡ sh.disk.read path w)
      → default_token_path sh.host ≡ some path
      → complete_login sh.host client sh.parse_token sp email code totp a ≡ (ok token, a')
      → IsReliable sh.disk path (new_token sh.disk path token default_token_ttl a'.world)
      → (sh.disk.make_parent path a'.world).0 ≡ none
      → (sh.disk.write path
          (sh.disk.print
            (token_json sh.disk path (new_token sh.disk path token default_token_ttl a'.world)))
          (sh.disk.make_parent path a'.world).1).0
        ≡ none
      → (v : W)
      → sh.disk.read path v
        ≡ sh.disk.read path
            (finish sh flags (complete_login sh.host client sh.parse_token sp email code totp a)).1
      → ((finish sh flags (complete_login sh.host client sh.parse_token sp email code totp a)).0
          ≡ ok tt)
        × (load_token sh v ≡ (
            if ltb (sh.disk.clock v) (sh.disk.clock a'.world + default_token_ttl)
            then ok token
            else err (wrapped "" (sentinel token_expired) "")))
  finish-load_token client sp email code totp token path a a' quiet at_path done reliable parent
        wrote v kept =
      let (present, _) =
        complete_login-ok sh.host client sh.parse_token sp email code totp token a a' done in
      let (written, _) =
        load-save sh.disk path token default_token_ttl a'.world reliable present parent wrote
          (save sh.disk path token default_token_ttl a'.world).1 refl in
      let (done_ok, same) =
        saved-load_token (save sh.disk path token default_token_ttl a'.world) _ path quiet
          written in
      let there = rw (done, at_path) at kept in
      let (_, loaded) =
        load-save sh.disk path token default_token_ttl a'.world reliable present parent wrote v
          (there ∙ same) in
      rw (done, at_path)
        (
          done_ok,
          load_token-load path v at_path
              ∙ ap (value_or_error sh) loaded
              ∙ value_or_error-if
                  (ltb (sh.disk.clock v) (sh.disk.clock a'.world + default_token_ttl)) _,
        )
