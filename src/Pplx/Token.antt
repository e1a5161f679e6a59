-- ===== src/Pplx/Token.antt =====
-- internal/pplx/token.go: the stored session token. Times are counts of nanoseconds, which the
-- parameter `Disk` prints and reads the way package time does.
pub mod Storage
use perplexity_proxy_go.Prelude.{
  ℕ, ◌+◌, Bool, true, false, ◌&&◌, not, List, [], ◌∷◌, Option, none, some, String, Bytes, ◌==◌, ◌⧺◌,
  ltb, if◌then◌else◌,
}
use perplexity_proxy_go.Errors.{
  Failure, plain, wrapped, sentinel, no_token, token_expired, Result, ok, err, ◌>>=◌,
}
use perplexity_proxy_go.Json.{
  Value, null, str, obj, Codec, Fields, end, field, at, bad_json, to_str, to_document,
}
use perplexity_proxy_go.Transport.Client.{Host}
use perplexity_proxy_go.Spec.Load.{FileRead, content, missing, unreadable}

pub record Token : Type 0 where
  pub value : String
  pub obtained_at : ℕ
  pub expires_at : ℕ

-- `DefaultTokenTTL`, in nanoseconds
abbrev pub default_token_ttl : ℕ
default_token_ttl = 2592000000000000

-- `Token.Fresh`, of a token that is not nil
unfoldable pub fresh : Token → ℕ → Bool
fresh t now = not (t.value == "") && ltb now t.expires_at

-- os, package time and `json.MarshalIndent`
pub record Disk (W : Type 0) : Type 0 where
  pub clock : W → ℕ
  pub make_parent : String → W → Option Failure × W
  pub write : String → Bytes → W → Option Failure × W
  pub read : String → W → FileRead
  pub parse : Bytes → Option Value
  pub print : Value → Bytes
  pub print_time : ℕ → String
  pub parse_time : String → Option ℕ
  -- the zero time
  pub no_time : ℕ

-- `DefaultTokenPath`: the error of `os.UserHomeDir` is `none`
unfoldable pub default_token_path : Host → Option String
default_token_path host =
    if not (host.env "PPLX_TOKEN_PATH" == "")
    then some (host.env "PPLX_TOKEN_PATH")
    else elim host.home [
      | none ↦ none
      | some home ↦ some (host.join_path (home ∷ ".pplx" ∷ "token.json" ∷ []))
    ]

module _ {W : Type 0} (disk : Disk W) (path : String) where
  abbrev pub token_json : Token → Value
  token_json t = obj (
      field "token" (str t.value) (
        field "obtained_at" (str (disk.print_time t.obtained_at))
          (field "expires_at" (str (disk.print_time t.expires_at)) end)))

  abbrev pub written : Token → Option Failure × W → Result Token × W
  written t (some e, w) = (err (wrapped "write token: " e ""), w)
  written t (none, w) = (ok t, w)

  abbrev pub made : Token → Option Failure × W → Result Token × W
  made t (some e, w) = (err (wrapped "create token dir: " e ""), w)
  made t (none, w) = written t (disk.write path (disk.print (token_json t)) w)

  abbrev pub new_token : String → ℕ → W → Token
  new_token value ttl w = record {
    value = value;
    obtained_at = disk.clock w;
    expires_at = disk.clock w + ttl;
  }

  -- `Save`
  unfoldable pub save : String → ℕ → W → Result Token × W
  save value ttl w =
      if value == ""
      then (err (plain "refusing to save empty token"), w)
      else made (new_token value ttl w) (disk.make_parent path w)

  abbrev time_or_error : Option ℕ → Result ℕ
  time_or_error none = err bad_json
  time_or_error (some t) = ok t

  abbrev to_time : Option Value → Result ℕ
  to_time none = ok disk.no_time
  to_time (some null) = ok disk.no_time
  to_time (some (str s)) = time_or_error (disk.parse_time s)
  to_time (some _) = err bad_json

  unfoldable pub decode_token : Option Value → Result Token
  decode_token doc = do
    fs ← to_document doc
    value ← to_str (at "token" fs)
    obtained ← to_time (at "obtained_at" fs)
    expires ← to_time (at "expires_at" fs)
    ok (record { value = value; obtained_at = obtained; expires_at = expires })

  abbrev pub checked : ℕ → Result Token → Result Token
  checked now (err e) = err (wrapped ("parse token " ⧺ path ⧺ ": ") e "")
  checked now (ok t) =
      if t.value == ""
      then err (sentinel no_token)
      else if not (fresh t now)
      then err (sentinel token_expired)
      else ok t

  abbrev pub read_back : ℕ → FileRead → Result Token
  read_back now missing = err (sentinel no_token)
  read_back now (unreadable e) = err (wrapped "read token: " e "")
  read_back now (content bs) = checked now (decode_token (disk.parse bs))

  -- `Load`
  unfoldable pub load : W → Result Token
  load w = read_back (disk.clock w) (disk.read path w)
