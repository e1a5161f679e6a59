-- ===== src/Mcp/Server.antt =====
-- `Run`, `handleLine` and `dispatch` of internal/mcp/server.go. The input is the lines that the
-- scanner gives and the error that ends them.
pub mod Replies
use perplexity_proxy_go.Prelude.{
  ℕ, ℤ, negsuc, Bool, true, false, List, [], ◌∷◌, ◌++◌, Option, none, some, String, Bytes, ◌==◌,
  ◌⧺◌, ◌⊎◌, inl, inr, if◌then◌else◌,
}
use perplexity_proxy_go.Errors.{
  Failure, wrapped, is, invalid_params, message, Result, ok, err, ◌>>=◌,
}
use perplexity_proxy_go.Json.{
  Value, null, num, str, arr, obj, array, Codec, Fields, end, field, at, to_str, to_document,
}
use perplexity_proxy_go.Spec.Decode.{Spec}
use perplexity_proxy_go.Transport.Client.{Client, Host}
use perplexity_proxy_go.Pplx.Bridge.{Bridge}
use perplexity_proxy_go.Pplx.Usage.{SourceLimit}
use perplexity_proxy_go.Mcp.Render.{int_text}
use perplexity_proxy_go.Mcp.Tools.{tools_list, call_tool}

-- `rpcMessage`; an absent raw member is `none`
pub record RpcMessage : Type 0 where
  pub id : Option Value
  pub method : String
  pub params : Option Value

unfoldable pub decode_message : Option Value → Result RpcMessage
decode_message doc = do
  fs ← to_document doc
  _ ← to_str (at "jsonrpc" fs)
  method ← to_str (at "method" fs)
  ok (record { id = at "id" fs; method = method; params = at "params" fs })

-- `rpcError`, whose Data nothing sets
pub record RpcError : Type 0 where
  pub code : ℤ
  pub text : String

-- `rpcResponse`: a result or an error
pub record RpcResponse : Type 0 where
  pub id : Value
  pub outcome : Value ⊎ RpcError

-- the codes -32700, -32601, -32602 and -32603
abbrev pub parse_error : ℤ
parse_error = negsuc 32699

abbrev pub method_not_found : ℤ
method_not_found = negsuc 32600

abbrev pub bad_params : ℤ
bad_params = negsuc 32601

abbrev pub internal_error : ℤ
internal_error = negsuc 32602

abbrev rpc_error : ℤ → String → Value ⊎ RpcError
rpc_error code text = inr (record { code = code; text = text })

-- the JSON of a response
abbrev outcome_fields : Value ⊎ RpcError → Fields
outcome_fields (inl result) = field "result" result end
outcome_fields (inr e) =
    field "error" (obj (field "code" (num (int_text e.code)) (field "message" (str e.text) end)))
      end

unfoldable pub response_value : RpcResponse → Value
response_value r = obj (field "jsonrpc" (str "2.0") (field "id" r.id (outcome_fields r.outcome)))

abbrev text_content : String → Value
text_content text = obj (
    field "content"
      (arr (array (obj (field "type" (str "text") (field "text" (str text) end)) ∷ []))) end)

abbrev tool_outcome : Result String → Value ⊎ RpcError
tool_outcome (ok text) = inl (text_content text)
tool_outcome (err e) =
    if is invalid_params e
    then rpc_error bad_params (message e)
    else rpc_error internal_error (message e)

-- the struct `p` of a tools/call
unfoldable pub call_parameters : Option Value → Result (String × Option Value)
call_parameters doc = do
  fs ← to_document doc
  name ← to_str (at "name" fs)
  ok (name, at "arguments" fs)

-- `SetVersion`, on the version that `initialize` tells
abbrev pub set_version : String → String → String
set_version v version = if v == "" then version else v

abbrev server_info : String → Value
server_info version = obj (
    field "protocolVersion" (str "2024-11-05") (
      field "capabilities" (obj (field "tools" (obj end) end)) (
        field "serverInfo" (obj (field "name" (str "pplx") (field "version" (str version) end)))
          end)))

-- `len(msg.ID) == 0 || string(msg.ID) == "null"` leaves no id
abbrev pub request_id : Option Value → Option Value
request_id none = none
request_id (some null) = none
request_id (some v) = some v

module _ {W : Type 0} (host : Host) (order : List SourceLimit → List SourceLimit)
    (clients : ℕ → Client W) (bridge : Bridge W) (factory : W → Result (ℕ × Spec) × W)
    (version : String) where
  abbrev tool_called : Result String × W → (Value ⊎ RpcError) × W
  tool_called (r, w) = (tool_outcome r, w)

  abbrev call : Result (String × Option Value) → W → (Value ⊎ RpcError) × W
  call (err e) w = (rpc_error bad_params "tools/call requires {name, arguments}", w)
  call (ok (name, args)) w =
      if name == ""
      then (rpc_error bad_params "tools/call requires {name, arguments}", w)
      else tool_called (call_tool host order clients bridge factory name args w)

  -- `dispatch`
  unfoldable pub dispatch : String → Option Value → W → (Value ⊎ RpcError) × W
  dispatch method params w =
      if method == "initialize"
      then (inl (server_info version), w)
      else if method == "ping"
      then (inl (obj end), w)
      else if method == "tools/list"
      then (inl tools_list, w)
      else if method == "tools/call"
      then call (call_parameters params) w
      else (rpc_error method_not_found ("method " ⧺ host.quote method ⧺ " not found"), w)

  abbrev replied : Value → (Value ⊎ RpcError) × W → Option RpcResponse × W
  replied id (o, w) = (some (record { id = id; outcome = o }), w)

  abbrev pub answer_request : Option Value → RpcMessage → W → Option RpcResponse × W
  answer_request none m w = (none, w)
  answer_request (some id) m w = replied id (dispatch m.method m.params w)

  abbrev pub handle_message : Result RpcMessage → W → Option RpcResponse × W
  handle_message (err e) w =
      (some (record { id = null; outcome = rpc_error parse_error "parse error" }), w)
  handle_message (ok m) w = answer_request (request_id m.id) m w

  -- `handleLine`
  unfoldable pub handle_line : Bytes → W → Option RpcResponse × W
  handle_line line w = handle_message (decode_message (host.codec.parse line)) w

  -- One round of `Run`: an empty line is skipped.
  unfoldable pub reply_to : Bytes → W → Option RpcResponse × W
  reply_to [] w = (none, w)
  reply_to (b ∷ line) w = handle_line (b ∷ line) w

  module _ (encode : RpcResponse → W → Option Failure × W) where
    -- the rest of the loop, after a response that was encoded
    abbrev pub written :
        RpcResponse
        → Option Failure × W
        → (W → List RpcResponse × Option Failure × W)
        → List RpcResponse × Option Failure × W
    written r (some e, w) k = ([], some (wrapped "write response: " e ""), w)
    written r (none, w) k = let (rs, e, w') = k w in (r ∷ rs, e, w')

    abbrev pub replied_to :
        Option RpcResponse × W
        → (W → List RpcResponse × Option Failure × W)
        → List RpcResponse × Option Failure × W
    replied_to (none, w) k = k w
    replied_to (some r, w) k = written r (encode r w) k

    -- `Run`: the responses that were written, the error, and the world
    unfoldable pub run : List Bytes → Option Failure → W → List RpcResponse × Option Failure × W
    run [] ending w = ([], ending, w)
    run (line ∷ lines) ending w = replied_to (reply_to line w) (run lines ending)
