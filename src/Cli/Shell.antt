-- ===== src/Cli/Shell.antt =====
-- What the commands of cmd/pplx share: the platform, the seams `newTransport`, `stdin` and `stdout`,
-- `prompt`, `loadSpec`, `loadToken`, and the session that ask, usage and both servers open.
use perplexity_proxy_go.Prelude.{
  ℕ, Bool, List, [], ◌∷◌, Option, none, some, String, Bytes, ◌==◌, if◌then◌else◌,
}
use perplexity_proxy_go.Errors.{Failure, wrapped, is, no_token, token_expired, Result, ok, err}
use perplexity_proxy_go.Act.{Act, wrap_result}
use perplexity_proxy_go.Json.{Value}
use perplexity_proxy_go.Spec.Decode.{Spec}
use perplexity_proxy_go.Spec.Load
use perplexity_proxy_go.Transport.Client.{Client, Host}
use perplexity_proxy_go.Pplx.Token.{Token, Disk, default_token_path}
use perplexity_proxy_go.Pplx.Token
use perplexity_proxy_go.Pplx.Bridge.{Bridge}
use perplexity_proxy_go.Pplx.Usage.{SourceLimit}
use perplexity_proxy_go.Mcp.Server.{RpcResponse}
use perplexity_proxy_go.Cli.Space.{trim_text}

pub record Shell (W : Type 0) : Type 1 where
  pub host : Host
  pub disk : Disk W
  pub bridge : Bridge W
  -- the order in which a map of limits is met
  pub order : List SourceLimit → List SourceLimit
  -- the embedded spec
  pub embedded : Bytes
  -- the variable `newTransport`, and the transports that it makes, by number
  pub new_transport : Spec → Act W ℕ
  pub clients : ℕ → Client W
  -- `url.Parse` and `Query().Get("token")`
  pub parse_token : String → Result String
  -- standard output and standard error
  pub say : String → W → W
  pub warn : String → W → W
  -- the scanner's lines on standard input and the error that ends them
  pub stdin_lines : W → List Bytes × Option Failure
  -- the encoder on standard output
  pub encode : RpcResponse → W → Option Failure × W
  -- `exec.LookPath`
  pub look_path : String → Option String
  -- `runCmd`: the combined output, and the error
  pub run_cmd : String → List String → W → (String × Option Failure) × W
  -- `filepath.Dir`
  pub dir_of : String → String
  -- whether `runtime.GOOS` is windows
  pub is_windows : Bool
  -- `os.Create`
  pub create : String → Act W (Unit {0})
  -- the writes to that file, whose errors `cmdDump` ignores
  pub append_to : String → Bytes → W → W
  -- the text of the time that a dump took and of its error
  pub elapsed : W → W → Option Failure → Bytes
  -- `ListenAndServe` on an address up to its error, or an interrupt before it, which is `none`
  pub listen : String → String → W → Option Failure × W
  -- whether the error is `http.ErrServerClosed`
  pub is_closed : Failure → Bool
  -- `Shutdown`
  pub shutdown : W → Option Failure × W
  -- `ReadString('\n')` on standard input
  pub read_line : W → (String × Option Failure) × W
  -- `Format("Jan 2, 2006")`
  pub date : ℕ → String
  -- `os.MkdirAll`
  pub make_dir : String → W → Option Failure × W
  -- `string` of bytes
  pub text : Bytes → String
  -- `json.MarshalIndent`
  pub print_indented : Value → Bytes
  -- an HTTP GET: its status, and what reading at most so many bytes of its body gives as a text
  pub http_get : String → Act W (ℕ × (ℕ → Result String))
  -- `strings.EqualFold`
  pub equal_fold : String → String → Bool
  -- the error of `os.UserHomeDir`
  pub home_error : Failure

-- how a command ends: its error or none, and the world that it leaves
abbrev pub Done : Type 0 → Type 0
Done W = Result (Unit {0}) × W

-- the flags of `cmdAsk`
pub record AskFlags : Type 0 where
  pub model : String
  pub source : String
  pub no_citations : Bool

-- Package flag: what `Parse` of each command's flag set gives.
pub record Flags : Type 0 where
  -- the email
  pub login : List String → Result String
  -- the flags as they are before and after, the arguments that are left, the error
  pub ask : AskFlags → List String → AskFlags × List String × Option Failure
  -- what `Parse` of the flag set of `ask` or `login` writes to stderr, nothing if it succeeds
  pub complaint : String → List String → String
  -- yes
  pub sync : List String → Result Bool
  -- live
  pub check : List String → Result Bool
  -- the address and the key
  pub serve : List String → Result (String × String)

-- `homeDir`
abbrev home_dir : Option String → String
home_dir none = "."
home_dir (some home) = if home == "" then "." else home

-- `OverridesFile`
unfoldable pub overrides_file : Host → String
overrides_file host = host.join_path (home_dir host.home ∷ ".pplx" ∷ "spec-overrides.json" ∷ [])

module _ {W : Type 0} (sh : Shell W) where
  abbrev pub trimmed : (String × Option Failure) × W → Result String × W
  trimmed ((line, none), w) = (ok (trim_text line), w)
  trimmed ((line, some e), w) = if line == "" then (err e, w) else (ok (trim_text line), w)

  -- `prompt`
  unfoldable pub prompt : String → Act W String
  unfolding trim_text
  prompt label w = trimmed (sh.read_line (sh.say label w))

  -- `spec.Load`
  unfoldable pub spec_load : W → Result Spec
  unfolding overrides_file Load.load
  spec_load w =
      Load.load sh.host.codec sh.embedded (overrides_file sh.host)
        (sh.disk.read (overrides_file sh.host) w) sh.host.env

  -- `loadSpec`
  unfoldable pub load_spec : W → Result Spec
  unfolding spec_load
  load_spec w = wrap_result (spec_load w) (λ e. wrapped "load spec: " e "")

  abbrev pub value_or_error : Result Token → Result String
  value_or_error (ok t) = ok t.value
  value_or_error (err e) =
      if is no_token e
      then err (wrapped "" e "")
      else if is token_expired e
      then err (wrapped "" e "")
      else err e

  abbrev pub from_store : Option String → W → Result String
  from_store none w = err sh.home_error
  from_store (some path) w = value_or_error (Token.load sh.disk path w)

  -- `loadToken`
  unfoldable pub load_token : W → Result String
  unfolding default_token_path Token.load
  load_token w = from_store (default_token_path sh.host) w

  abbrev signed_in : Spec → String → Result ℕ × W → Result (ℕ × Spec) × W
  signed_in sp token (err e, w) = (err e, w)
  signed_in sp token (ok t, w) =
      (ok (t, sp), (sh.clients t).set_cookie sp.session_cookie_name token w)

  abbrev with_token : Spec → Result String → W → Result (ℕ × Spec) × W
  with_token sp (err e) w = (err e, w)
  with_token sp (ok token) w = signed_in sp token (sh.new_transport sp w)

  abbrev pub with_spec : Result Spec → W → Result (ℕ × Spec) × W
  with_spec (err e) w = (err e, w)
  with_spec (ok sp) w = with_token sp (load_token w) w

  -- the spec, the token, a transport, and the cookie
  unfoldable pub session : Act W (ℕ × Spec)
  unfolding load_spec load_token
  session w = with_spec (load_spec w) w
