-- ===== src/Api/Server/Guard.antt =====
-- Requests that the server refuses.
use perplexity_proxy_go.Prelude.{ℕ, Bool, ◌≡◌, ◌≢◌, refl, String, Bool-cases, inl, inr}
use perplexity_proxy_go.Errors.{Result}
use perplexity_proxy_go.Spec.Decode.{Spec}
use perplexity_proxy_go.Transport.Client.{Client, Host}
use perplexity_proxy_go.Pplx.Bridge.{Bridge}
use perplexity_proxy_go.Api.Request.{HttpRequest, is_authorized, read_request}
use perplexity_proxy_go.Api.Request.Turns.{Presents, is_authorized_iff}
use perplexity_proxy_go.Api.Events.{write_error}
use perplexity_proxy_go.Api.Server.{Server, handle_messages}

module _ {W : Type 0} (host : Host) (clients : ℕ → Client W) (bridge : Bridge W)
    (factory : W → Result (ℕ × Spec) × W) (api_key : String) where
  -- A POST that does not present the server's key, where it has one, is answered with a 401 and
  -- changes nothing: no conversation is made, and neither the factory nor a transport is called.
  pub handle_messages-unauthorized :
      (flushes : Bool) (r : HttpRequest) (s : Server W)
      → api_key ≢ ""
      → ¬ Presents api_key r
      → r.method ≡ "POST"
      → handle_messages host clients bridge factory api_key flushes r s
        ≡ (write_error 401 "authentication_error" "missing or invalid API key", s)
  unfolding handle_messages read_request
  handle_messages-unauthorized flushes r s keyed stranger post =
      elim (Bool-cases (is_authorized api_key r)) [
        | inl known ↦ absurd (stranger ((is_authorized_iff api_key r keyed).0 known))
        | inr unknown ↦ rw (unknown, post) refl
      ]
