-- ===== src/Cli/Sync/Upstream.antt =====
-- `parseUpstream` of cmd/pplx/commands_spec.go, with its three regular expressions written as
-- parsers of characters.
pub mod Class
pub mod Regex
pub mod Mode
pub mod Models
pub mod Expressions
use Prim.Native.String
use perplexity_proxy_go.Prelude.{
  Char, code, Bool, true, false, not, ◌&&◌, ◌||◌, List, [], ◌∷◌, ◌++◌, Option, none, some, String,
  ◌⧺◌, ◌==◌, leb, eqb, if◌then◌else◌, starts_with, drop_prefix, lookup, insert,
}
use perplexity_proxy_go.Cli.Space.{trim_text}

infixl 5 ◌>>=◌
unfoldable pub ◌>>=◌ : {A B : Type 0} → Option A → (A → Option B) → Option B
none >>= f = none
some a >>= f = f a

-- `[A-Z_]`
abbrev pub is_upper : Char → Bool
is_upper c = (leb 65 (code c) && leb (code c) 90) || eqb (code c) 95

-- `\s`
abbrev pub is_blank : Char → Bool
is_blank c =
    eqb (code c) 32 || eqb (code c) 9 || eqb (code c) 10 || eqb (code c) 12 || eqb (code c) 13

-- `\w`
abbrev pub is_word : Char → Bool
is_word c =
    is_upper c || (leb 97 (code c) && leb (code c) 122) || (leb 48 (code c) && leb (code c) 57)

-- `[^"]`
abbrev pub is_plain : Char → Bool
is_plain c = not (eqb (code c) 34)

-- the longest prefix whose characters are all of the class, and the rest
unfoldable pub span : (Char → Bool) → String → String × String
span p String.[] = (String.[], String.[])
span p (String.◌∷◌ c s) =
    let later = span p s in
    if p c then (String.◌∷◌ c later.0, later.1) else (String.[], String.◌∷◌ c s)

-- a literal
abbrev pub expect : String → String → Option String
expect literal s = if starts_with s literal then some (drop_prefix s literal) else none

-- `class+`
abbrev pub some_of : (Char → Bool) → String → Option (String × String)
some_of p s = if (span p s).0 == "" then none else some (span p s)

-- `:\s*Final\[str\]\s*=\s*"([^"]*)"`
unfoldable pub value_after_name : String → Option String
unfolding ◌>>=◌ span
value_after_name s = expect ":" s >>= λ s1. expect "Final[str]" (span is_blank s1).1 >>= λ s2.
    expect "=" (span is_blank s2).1 >>= λ s3. expect "\"" (span is_blank s3).1 >>= λ s4.
    expect "\"" (span is_plain s4).1 >>= λ s5. some (span is_plain s4).0

-- `reFinalStr`: the name and the value
unfoldable pub final_str : String → Option (String × String)
unfolding ◌>>=◌ span value_after_name
final_str line =
    some_of is_upper line >>= λ (name, s). value_after_name s >>= λ value. some (name, value)

-- `reEndpointID`
unfoldable pub endpoint_id : String → Option (String × String)
unfolding ◌>>=◌ final_str
endpoint_id line = expect "ENDPOINT_" line >>= final_str

-- `,\s*mode="([^"]+)"`: the text after it
unfoldable after_mode : String → Option String
unfolding ◌>>=◌ span
after_mode s = expect "," s >>= λ s1. expect "mode=\"" (span is_blank s1).1 >>= λ s2.
    some_of is_plain s2 >>= λ (mode, s3). expect "\"" s3

abbrev or_all : Option String → String → String
or_all none s = s
or_all (some rest) s = rest

-- `(?:,\s*mode="([^"]+)")?`
unfoldable mode_or_nothing : String → String
unfolding after_mode
mode_or_nothing s = or_all (after_mode s) s

-- `reModel`: the identifier
unfoldable pub model_identifier : String → Option String
unfolding ◌>>=◌ span mode_or_nothing
model_identifier line = some_of is_word (span is_blank line).1 >>= λ (name, s1).
    expect "=" (span is_blank s1).1 >>= λ s2.
    expect "Model(identifier=\"" (span is_blank s2).1 >>= λ s3.
    some_of is_plain s3 >>= λ (identifier, s4).
    expect "\"" s4 >>= λ s5. expect ")" (mode_or_nothing s5) >>= λ s6. some identifier

-- `endpointKeyMap`
abbrev endpoint_key_map : List (String × String)
endpoint_key_map =
    ("ASK", "ask")
    ∷ ("SEARCH_INIT", "search_init")
    ∷ ("UPLOAD", "upload")
    ∷ ("RATE_LIMITS", "rate_limits")
    ∷ ("USER_SETTINGS", "user_settings")
    ∷ ("LIST_THREADS", "list_threads")
    ∷ ("THREAD_DETAIL", "thread_detail")
    ∷ ("CREDITS", "credits")
    ∷ []

-- `upstreamPatch`, whose map of endpoints lists each key once
pub record UpstreamPatch : Type 0 where
  pub api_version : String
  pub base_url : String
  pub session_cookie_name : String
  pub endpoints : List (String × String)
  pub model_identifiers : List String

-- `strings.Split(s, "\n")`
cut : String → String × List String
cut String.[] = (String.[], [])
cut (String.◌∷◌ c s) =
    let later = cut s in
    if eqb (code c) 10 then (String.[], later.0 ∷ later.1) else (String.◌∷◌ c later.0, later.1)

unfoldable pub split_lines : String → List String
unfolding cut
split_lines s = (cut s).0 ∷ (cut s).1

abbrev set_endpoint : Option String → String → UpstreamPatch → UpstreamPatch
set_endpoint none path p = p
set_endpoint (some key) path p = record p { endpoints = insert key path p.endpoints }

-- the switch on the name
abbrev set_constant : String → String → UpstreamPatch → UpstreamPatch
set_constant name value p =
    if name == "API_VERSION"
    then record p { api_version = value }
    else if name == "API_BASE_URL"
    then record p { base_url = value }
    else if name == "SESSION_COOKIE_NAME"
    then record p { session_cookie_name = value }
    else p

-- the body of the first loop, on a trimmed line
unfoldable pub read_constant : String → UpstreamPatch → UpstreamPatch
unfolding final_str endpoint_id lookup insert
read_constant line p = elim (endpoint_id line) [
  | some (name, path) ↦ set_endpoint (lookup name endpoint_key_map) path p
  | none ↦ elim (final_str line) [ none ↦ p | some (name, value) ↦ set_constant name value p ]
]

read_constants : List String → UpstreamPatch → UpstreamPatch
read_constants [] p = p
read_constants (line ∷ lines) p = read_constants lines (read_constant (trim_text line) p)

read_models : List String → List String
read_models [] = []
read_models (line ∷ lines) = elim (model_identifier line) [
  | none ↦ read_models lines
  | some identifier ↦ identifier ∷ read_models lines
]

abbrev no_patch : UpstreamPatch
no_patch = record {
  api_version = "";
  base_url = "";
  session_cookie_name = "";
  endpoints = [];
  model_identifiers = [];
}

-- `parseUpstream`
unfoldable pub parse_upstream : String → String → UpstreamPatch
unfolding split_lines read_constants read_models read_constant model_identifier
parse_upstream constants_py models_py =
    record (read_constants (split_lines constants_py) no_patch) {
      model_identifiers = read_models (split_lines models_py);
    }
