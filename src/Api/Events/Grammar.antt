-- ===== src/Api/Events/Grammar.antt =====
-- The order of the server-sent events of one reply.
use perplexity_proxy_go.Prelude.{
  ◌≡◌, refl, ◌∙◌, List, [], ◌∷◌, ◌++◌, map, String, ◌==◌, if◌then◌else◌,
}
use perplexity_proxy_go.Errors.{Result, ok, err}
use perplexity_proxy_go.Json.{Value}
use perplexity_proxy_go.Pplx.Conversation.{Answer}
use perplexity_proxy_go.Api.Events.{content_block_delta, closing, stream_events}

-- Where a client of the Anthropic protocol stands; `broken` after an event out of order.
pub data Phase : Type 0 where
  idle started in_block block_done stopping complete failed broken : Phase

unfoldable pub step : Phase → String → Phase
step idle name = if name == "message_start" then started else broken
step started name = if name == "content_block_start" then in_block else broken
step in_block name =
    if name == "content_block_delta"
    then in_block
    else if name == "content_block_stop"
    then block_done
    else if name == "error"
    then failed
    else broken
step block_done name = if name == "message_delta" then stopping else broken
step stopping name = if name == "message_stop" then complete else broken
step _ name = broken

unfoldable pub read : Phase → List (String × Value) → Phase
unfolding step
read p [] = p
read p ((name, body) ∷ es) = read (step p name) es

abbrev pub phase_of : Result Answer → Phase
phase_of (ok a) = complete
phase_of (err e) = failed

read-deltas :
    (deltas : List String) (rest : List (String × Value))
    → read in_block (map content_block_delta deltas ++ rest) ≡ read in_block rest
unfolding read
read-deltas [] rest = refl
read-deltas (d ∷ deltas) rest = read-deltas deltas rest

read-closing : (r : Result Answer) → read in_block (closing r) ≡ phase_of r
unfolding read
read-closing (ok a) = refl
read-closing (err e) = refl

-- A streamed reply follows the protocol from its first event to its last: it is complete when the
-- ask succeeds, and ends in one error event when it fails, after any number of deltas.
pub read-stream_events :
    (query model : String) (deltas : List String) (r : Result Answer)
    → read idle (stream_events query model deltas r) ≡ phase_of r
unfolding read stream_events
read-stream_events query model deltas r = read-deltas deltas (closing r) ∙ read-closing r
