-- ===== src/Api/Request.antt =====
-- Request parsing of internal/api/server.go: `messagesRequest`, `flattenContent`, and the checks of
-- `handleMessages` up to the query.
pub mod Turns
pub mod Refusals
use perplexity_proxy_go.Prelude.{
  ℕ, suc, Bool, true, false, not, ◌&&◌, ◌||◌, List, [], ◌∷◌, Option, none, some, String, Bytes,
  ◌==◌, starts_with, drop_prefix, join, ◌⧺◌, ◌⊎◌, inl, inr, if◌then◌else◌,
}
use perplexity_proxy_go.Errors.{Failure, message, decimal, Result, ok, err, ◌>>=◌}
use perplexity_proxy_go.Json.{
  Value, null, num, str, arr, Fields, elems, at, bad_json, to_str, to_int, to_bool, to_struct,
  to_slice, to_document,
}
use perplexity_proxy_go.Transport.Client.{Host}

-- one of `messages`: a role, and the raw content, `none` where the member is absent
pub record Turn : Type 0 where
  pub role : String
  pub content : Option Value

pub record MessagesRequest : Type 0 where
  pub model : String
  pub system : String
  pub messages : List Turn
  pub stream : Bool

unfoldable pub decode_turns : List Value → Result (List Turn)
decode_turns [] = ok []
decode_turns (v ∷ vs) = do
  fs ← to_struct (some v)
  role ← to_str (at "role" fs)
  ts ← decode_turns vs
  ok (record { role = role; content = at "content" fs } ∷ ts)

unfoldable pub decode_request : Option Value → Result MessagesRequest
unfolding decode_turns
decode_request doc = do
  fs ← to_document doc
  model ← to_str (at "model" fs)
  _ ← to_int (at "max_tokens" fs)
  system ← to_str (at "system" fs)
  vs ← to_slice (at "messages" fs)
  messages ← decode_turns vs
  stream ← to_bool (at "stream" fs)
  ok (record { model = model; system = system; messages = messages; stream = stream })

-- A step that passes, or answers with `writeError`.
pub data Checked {ℓ} (A : Type ℓ) : Type ℓ where
  passed : A → Checked A
  refused : (status : ℕ) → (type msg : String) → Checked A

abbrev decode_block : Value → Result (String × String)
decode_block v = to_struct (some v) >>= λ fs.
    to_str (at "type" fs) >>= λ type. to_str (at "text" fs) >>= λ text. ok (type, text)

unfoldable pub decode_blocks : List Value → Result (List (String × String))
decode_blocks [] = ok []
decode_blocks (v ∷ vs) = decode_block v >>= λ b. decode_blocks vs >>= λ bs. ok (b ∷ bs)

-- the loop of `flattenContent`; the error is the type that is not supported
unfoldable pub text_parts : List (String × String) → String ⊎ List String
text_parts [] = inr []
text_parts ((type, text) ∷ bs) =
    let rest = text_parts bs in
    if type == "text" then elim rest [ inl bad ↦ inl bad | inr ts ↦ inr (text ∷ ts) ] else inl type

abbrev join_parts : Host → String ⊎ List String → String ⊎ String
join_parts host (inl type) =
    inl ("unsupported content block type " ⧺ host.quote type ⧺ " (only text is supported)")
join_parts host (inr parts) = inr (join "\n" parts)

abbrev join_blocks : Host → Result (List (String × String)) → String ⊎ String
join_blocks host (err e) = inl "content must be a string or a list of text blocks"
join_blocks host (ok bs) = join_parts host (text_parts bs)

-- `flattenContent`: an error text or the content's text
unfoldable pub flatten_content : Host → Option Value → String ⊎ String
flatten_content host none = inr ""
flatten_content host (some null) = inr ""
flatten_content host (some (str s)) = inr s
flatten_content host (some (arr vs)) = join_blocks host (decode_blocks (elems vs))
flatten_content host (some _) = inl "content must be a string or a list of text blocks"

abbrev is_role : String → Bool
is_role role = role == "user" || role == "assistant"

abbrev pub at_index : ℕ → String → String
at_index i msg = "messages[" ⧺ decimal i ⧺ "]: " ⧺ msg

abbrev read_turn : Host → ℕ → String → String ⊎ String → Checked String
read_turn host i role (inl problem) = refused 400 "invalid_request_error" (at_index i problem)
read_turn host i role (inr text) =
    if is_role role
    then passed (role ⧺ ": " ⧺ text)
    else refused 400 "invalid_request_error"
        (at_index i ("role must be user or assistant, got " ⧺ host.quote role))

abbrev add_turn : Checked String → Checked (List String) → Checked (List String)
add_turn (refused status type msg) rest = refused status type msg
add_turn (passed t) (refused status type msg) = refused status type msg
add_turn (passed t) (passed ts) = passed (t ∷ ts)

-- the loop over `req.Messages`, from index `i`
unfoldable pub read_turns : Host → ℕ → List Turn → Checked (List String)
unfolding flatten_content
read_turns host i [] = passed []
read_turns host i (m ∷ ms) =
    add_turn (read_turn host i m.role (flatten_content host m.content)) (read_turns host (suc i) ms)

-- `query`, with the system prompt before it
abbrev pub with_system : String → List String → String
with_system system turns =
    if system == "" then join "\n" turns else "system: " ⧺ system ⧺ "\n" ⧺ join "\n" turns

pub record HttpRequest : Type 0 where
  pub method : String
  -- `r.Header.Get`
  pub header : String → String
  -- the JSON document in the body
  pub body : Option Value

-- the key that a request presents
unfoldable pub presented_key : HttpRequest → String
presented_key r =
    let key = r.header "x-api-key" in
    let auth = r.header "Authorization" in
    if key == ""
    then (if starts_with auth "Bearer " then drop_prefix auth "Bearer " else key)
    else key

unfoldable pub is_authorized : String → HttpRequest → Bool
is_authorized api_key r = api_key == "" || presented_key r == api_key

abbrev is_empty : List Turn → Bool
is_empty [] = true
is_empty (m ∷ ms) = false

abbrev queried : MessagesRequest → Checked (List String) → Checked (MessagesRequest × String)
queried req (refused status type msg) = refused status type msg
queried req (passed turns) = passed (req, with_system req.system turns)

abbrev read_body : Host → Result MessagesRequest → Checked (MessagesRequest × String)
read_body host (err e) = refused 400 "invalid_request_error" ("invalid JSON body: " ⧺ message e)
read_body host (ok req) =
    if is_empty req.messages
    then refused 400 "invalid_request_error" "messages must contain at least one message"
    else if req.model == ""
    then refused 400 "invalid_request_error" "model is required"
    else queried req (read_turns host 0 req.messages)

-- `handleMessages` up to the call of the factory: the request and its query
unfoldable pub read_request : Host → String → HttpRequest → Checked (MessagesRequest × String)
read_request host api_key r =
    if not (r.method == "POST")
    then refused 405 "invalid_request_error" "POST only"
    else if not (is_authorized api_key r)
    then refused 401 "authentication_error" "missing or invalid API key"
    else read_body host (decode_request r.body)
