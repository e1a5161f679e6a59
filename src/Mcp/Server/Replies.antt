-- ===== src/Mcp/Server/Replies.antt =====
-- Which lines are answered.
use mathlib.Core.List.{map}
use perplexity_proxy_go.Prelude.{ℕ, List, [], ◌∷◌, Option, none, some, String, Bytes, ◌≡◌, refl, ap}
use perplexity_proxy_go.Errors.{Failure, Result, ok, err}
use perplexity_proxy_go.Json.{Value, null}
use perplexity_proxy_go.Spec.Decode.{Spec}
use perplexity_proxy_go.Transport.Client.{Client, Host}
use perplexity_proxy_go.Pplx.Bridge.{Bridge}
use perplexity_proxy_go.Pplx.Usage.{SourceLimit}
use perplexity_proxy_go.Mcp.Server.{
  RpcMessage, RpcResponse, decode_message, request_id, handle_message, answer_request, handle_line,
  reply_to, run, replied_to, written,
}

-- The id that a line's response carries: null for a line that is no message, the request's for a
-- request, and none for a notification and an empty line.
abbrev message_id : Result RpcMessage → Option Value
message_id (err e) = some null
message_id (ok m) = request_id m.id

abbrev pub expected_id : Host → Bytes → Option Value
expected_id host [] = none
expected_id host (b ∷ line) = message_id (decode_message (host.codec.parse (b ∷ line)))

abbrev add : Option Value → List Value → List Value
add none ids = ids
add (some id) ids = id ∷ ids

abbrev pub expected_ids : Host → List Bytes → List Value
expected_ids host [] = []
expected_ids host (line ∷ lines) = add (expected_id host line) (expected_ids host lines)

abbrev id_of : Option RpcResponse → Option Value
id_of none = none
id_of (some r) = some r.id

abbrev ids : List RpcResponse → List Value
ids rs = map (λ r. r.id) rs

-- Every message is answered, and the end of the input is the end of the loop.
abbrev pub IsComplete :
    {W : Type 0} → List Value → Option Failure → List RpcResponse × Option Failure × W → Type 0
IsComplete expected ending (rs, e, w) = (ids rs ≡ expected) × (e ≡ ending)

module _ {W : Type 0} (host : Host) (order : List SourceLimit → List SourceLimit)
    (clients : ℕ → Client W) (bridge : Bridge W) (factory : W → Result (ℕ × Spec) × W)
    (version : String) where
  answer_request-id :
      (id : Option Value) (m : RpcMessage) (w : W)
      → id_of (answer_request host order clients bridge factory version id m w).0 ≡ id
  answer_request-id none m w = refl
  answer_request-id (some id) m w = refl

  message-id :
      (m : Result RpcMessage) (w : W)
      → id_of (handle_message host order clients bridge factory version m w).0 ≡ message_id m
  message-id (err e) w = refl
  message-id (ok m) w = answer_request-id (request_id m.id) m w

  reply_to-id :
      (line : Bytes) (w : W)
      → id_of (reply_to host order clients bridge factory version line w).0 ≡ expected_id host line
  unfolding reply_to handle_line
  reply_to-id [] w = refl
  reply_to-id (b ∷ line) w = message-id (decode_message (host.codec.parse (b ∷ line))) w

  module _ (encode : RpcResponse → W → Option Failure × W)
      (writes : (r : RpcResponse) (w : W) → (encode r w).0 ≡ none) where
    written-IsComplete :
        (r : RpcResponse) (done : Option Failure × W)
        (k : W → List RpcResponse × Option Failure × W) {expected : List Value}
        {ending : Option Failure}
        → done.0 ≡ none
        → ((w : W) → IsComplete expected ending (k w))
        → IsComplete
            (r.id ∷ expected)
            ending
            (written host order clients bridge factory version encode r done k)
    written-IsComplete r (some e, w) k fine h = cc
    written-IsComplete r (none, w) k fine h = (ap (λ ids. r.id ∷ ids) (h w).0, (h w).1)

    replied_to-IsComplete :
        (o : Option RpcResponse × W) (k : W → List RpcResponse × Option Failure × W)
        {expected : List Value} {ending : Option Failure}
        → ((w : W) → IsComplete expected ending (k w))
        → IsComplete
            (add (id_of o.0) expected)
            ending
            (replied_to host order clients bridge factory version encode o k)
    replied_to-IsComplete (none, w) k h = h w
    replied_to-IsComplete (some r, w) k h = written-IsComplete r (encode r w) k (writes r w) h

    -- Where the output can be written, each request is answered with its id, in the order of the
    -- input; a line that is no message is answered with a null id, and a notification is not
    -- answered. The loop ends with the input's error, where it has one.
    pub run-IsComplete :
        (lines : List Bytes) (ending : Option Failure) (w : W)
        → IsComplete
            (expected_ids host lines)
            ending
            (run host order clients bridge factory version encode lines ending w)
    unfolding run
    run-IsComplete [] ending w = (refl, refl)
    run-IsComplete (line ∷ lines) ending w = rw⁻¹ (reply_to-id line w) (
        replied_to-IsComplete (reply_to host order clients bridge factory version line w)
          (run host order clients bridge factory version encode lines ending)
          (run-IsComplete lines ending))
