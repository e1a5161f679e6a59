-- ===== src/Witnesses/Pplx.antt =====
-- Asking: frames, streams, errors and follow-ups.
use perplexity_proxy_go.Prelude.{
  true, false, ◌≡◌, refl, List, [], ◌∷◌, none, some, ◌==◌, get_elem?, if◌then◌else◌,
}
use perplexity_proxy_go.Errors.{Failure, wrapped, sentinel, rate_limited, ok, err}
use perplexity_proxy_go.Json.{Value, obj, str, at, null, end, field}
use perplexity_proxy_go.Pplx.Sse.{
  State, start, cite, process_data, absorb_blocks, absorb_answer_data, emit_chunk_deltas, identify,
  on_line,
}
use perplexity_proxy_go.Pplx.Frame.{sse_data}
use perplexity_proxy_go.Pplx.Sse.Answer.{cited, source, cited-cite}
use perplexity_proxy_go.Pplx.Sse.Frames.{erase, erase_result, process_data-erase}
use perplexity_proxy_go.Pplx.Sse.Stream.{Sent, process_all, frames_of, process_all-frames_of}
use perplexity_proxy_go.Pplx.Conversation.{Answer, Conversation, params}
use perplexity_proxy_go.Pplx.Ask.{run_ask, ask, ask_direct, ask_stream, finish_stream}
use perplexity_proxy_go.Pplx.Bridge.{ask_via_bridge, bridge_enabled, bridge_auto}
use perplexity_proxy_go.Pplx.Ask.Fallback.{ask_direct-err, ask-bridges}
use perplexity_proxy_go.Pplx.Ask.Followup.{unless_empty, newer, stream_state, ask_direct-followup}
use perplexity_proxy_go.Pplx.Ask.Streaming.{ask_stream-eq-ask_direct}
use perplexity_proxy_go.Transport.Sse.{run_lines}
use perplexity_proxy_go.Witnesses.Samples.{
  codec, host, client, contract, limited, bridge, opt, conversation, frame,
}

abbrev results : List Value
results = null ∷ obj (field "name" (str "n") (field "url" (str "u") end)) ∷ []

cited-cite_example : cited 2 (cite 0 results) ≡ source 2 (get_elem? results 1)
cited-cite_example = cited-cite 1 results

process_data-erase_example :
    process_data codec frame (erase (start true))
    ≡ erase_result (process_data codec frame (start true))
process_data-erase_example = process_data-erase codec frame (start true)

-- two frames in progress, and the last one, which repeats their chunks
abbrev sent : List Sent
sent =
    record { progress = "IN_PROGRESS"; chunks = "4" ∷ "2" ∷ []; answer = none }
    ∷ record { progress = "IN_PROGRESS"; chunks = "!" ∷ []; answer = none }
    ∷ record { progress = "DONE"; chunks = "4" ∷ "2" ∷ "!" ∷ []; answer = some "42!" }
    ∷ []

process_all-frames_of_example :
    (t : State) × (process_all codec (frames_of sent) (start true) ≡ (t, none))
    × (t.emitted ≡ "4" ∷ "2" ∷ "!" ∷ [])
    × (t.answer ≡ "42!")
process_all-frames_of_example = process_all-frames_of codec sent

abbrev failure : Failure
failure = wrapped "init search: " (sentinel rate_limited) ""

limited_lem : ask_direct host limited "q" opt conversation 0 ≡ (err failure, conversation, 1)
unfolding ask_direct run_ask
limited_lem = refl

limited_state_lem :
    ask_direct host limited "q" opt conversation 0
    ≡ (err failure, (ask_direct host limited "q" opt conversation 0).1, 1)
unfolding ask_direct run_ask
limited_state_lem = refl

ask_direct-err_example : (ask_direct host limited "q" opt conversation 0).1 ≡ conversation
ask_direct-err_example =
    ask_direct-err host limited "q" opt conversation
      (ask_direct host limited "q" opt conversation 0).1 0 1 failure limited_state_lem

standby_lem : (bridge_enabled host ≡ false) × (bridge_auto host ≡ true)
unfolding bridge_enabled bridge_auto
standby_lem = (refl, refl)

ask-bridges_example :
    ask host limited bridge "q" opt conversation 0
    ≡ ask_via_bridge host bridge "q" opt conversation 1
ask-bridges_example =
    ask-bridges host limited bridge "q" opt conversation conversation 0 1 failure standby_lem.0
      standby_lem.1 limited_lem refl

abbrev answer : Answer
answer = record { text = "42"; citations = []; thread_title = ""; uuid = "u1" }

abbrev answered : Conversation
answered = record conversation { backend_uuid = "u1" }

answered_lem : ask_direct host client "q" opt conversation 0 ≡ (ok answer, answered, 2)
unfolding ask_direct run_ask finish_stream run_lines on_line process_data sse_data absorb_blocks
    absorb_answer_data emit_chunk_deltas identify
answered_lem = refl

ask_direct-followup_example :
    (at "last_backend_uuid" (params host opt answered)
      ≡ unless_empty (
          newer
            (stream_state host client "q" opt conversation 0).backend_uuid
            conversation.backend_uuid))
    × (at "read_write_token" (params host opt answered) ≡ (
        if newer
            (stream_state host client "q" opt conversation 0).backend_uuid
            conversation.backend_uuid
          == ""
        then none
        else unless_empty (
            newer
              (stream_state host client "q" opt conversation 0).read_write_token
              conversation.read_write_token)))
ask_direct-followup_example =
    ask_direct-followup host client "q" opt opt conversation answered 0 2 answer answered_lem

ask_stream-eq-ask_direct_example :
    (let (ds, a, c, w) = ask_stream host client true "q" opt conversation 0 in (a, c, w))
    ≡ ask_direct host client "q" opt conversation 0
ask_stream-eq-ask_direct_example =
    ask_stream-eq-ask_direct host client contract true "q" opt conversation 0
