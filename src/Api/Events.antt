-- ===== src/Api/Events.antt =====
-- The replies of internal/api/server.go: error bodies, messages, and server-sent events.
pub mod Grammar
pub mod Tokens
use Prim.Native.String.{len}
use perplexity_proxy_go.Prelude.{
  ℕ, ◌/◌, Bool, not, ◌&&◌, List, [], ◌∷◌, ◌++◌, map, String, ◌==◌, eqb, ◌⧺◌, if◌then◌else◌,
}
use perplexity_proxy_go.Errors.{Failure, message, decimal, Result, ok, err}
use perplexity_proxy_go.Json.{
  Value, null, num, str, arr, obj, Values, nil, cons, Fields, end, field,
}
use perplexity_proxy_go.Pplx.Conversation.{Answer, or_else}

-- an HTTP status and a JSON body, or a stream of events: a name and its data
pub data Reply : Type 0 where
  json : (status : ℕ) → Value → Reply
  events : List (String × Value) → Reply

abbrev error_body : String → String → Value
error_body type msg = obj (
    field "type" (str "error")
      (field "error" (obj (field "type" (str type) (field "message" (str msg) end))) end))

-- `writeError`
unfoldable pub write_error : ℕ → String → String → Reply
write_error status type msg = json status (error_body type msg)

-- `estimateTokens`; `len` counts bytes
unfoldable pub estimate_tokens : String → ℕ
estimate_tokens s = if eqb (len s / 4) 0 && not (s == "") then 1 else len s / 4

abbrev number : ℕ → Value
number n = num (decimal n)

abbrev pub text_of : Answer → String
text_of a = or_else a.text "(no answer returned)"

abbrev text_block : String → Value
text_block text = obj (field "type" (str "text") (field "text" (str text) end))

-- the `message` that `serveJSON` encodes
unfoldable pub message_body : String → String → Answer → Value
message_body query model a = obj (
    field "id" (str ("msg_" ⧺ a.uuid)) (
      field "type" (str "message") (
        field "role" (str "assistant") (
          field "model" (str model) (
            field "content" (arr (cons (text_block (text_of a)) nil)) (
              field "stop_reason" (str "end_turn") (
                field "stop_sequence" null (
                  field "usage"
                    (obj (
                      field "input_tokens" (number (estimate_tokens query))
                        (field "output_tokens" (number (estimate_tokens (text_of a))) end)))
                    end))))))))

-- `serveJSON`, once the ask has returned
unfoldable pub json_reply : String → String → Result Answer → Reply
json_reply query model (err e) = write_error 502 "api_error" (message e)
json_reply query model (ok a) = json 200 (message_body query model a)

abbrev event : String → Fields → String × Value
event name fs = (name, obj (field "type" (str name) fs))

abbrev message_start : String → String → String × Value
message_start query model = event "message_start" (
    field "message"
      (obj (
        field "id" (str "msg_pending") (
          field "type" (str "message") (
            field "role" (str "assistant") (
              field "model" (str model) (
                field "content" (arr nil) (
                  field "stop_reason" null (
                    field "stop_sequence" null (
                      field "usage"
                        (obj (
                          field "input_tokens" (number (estimate_tokens query))
                            (field "output_tokens" (number 0) end)))
                        end)))))))))
      end)

abbrev content_block_start : String × Value
content_block_start = event "content_block_start" (
    field "index" (number 0)
      (field "content_block" (obj (field "type" (str "text") (field "text" (str "") end))) end))

abbrev pub content_block_delta : String → String × Value
content_block_delta chunk = event "content_block_delta" (
    field "index" (number 0)
      (field "delta" (obj (field "type" (str "text_delta") (field "text" (str chunk) end))) end))

-- what follows the ask in `serveStream`
abbrev closing : Result Answer → List (String × Value)
closing (err e) =
    event "error" (
      field "error" (obj (field "type" (str "api_error") (field "message" (str (message e)) end)))
        end)
    ∷ []
closing (ok a) =
    event "content_block_stop" (field "index" (number 0) end)
    ∷ event "message_delta" (
        field "delta" (obj (field "stop_reason" (str "end_turn") (field "stop_sequence" null end)))
          (field "usage" (obj (field "output_tokens" (number (estimate_tokens (text_of a))) end))
            end))
    ∷ event "message_stop" end
    ∷ []

-- `serveStream`'s events, for the deltas that the callback got and what AskStream returned
unfoldable pub stream_events : String → String → List String → Result Answer → List (String × Value)
stream_events query model deltas r =
    message_start query model ∷ content_block_start ∷ map content_block_delta deltas ++ closing r
