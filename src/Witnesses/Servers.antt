-- ===== src/Witnesses/Servers.antt =====
-- The HTTP server, the MCP server and the command line.
use mathlib.Core.Bool.{false≢true}
use Prim.Native.String.{len}
use perplexity_proxy_go.Prelude.{
  ◌⊎◌, pos, ℕ, suc, ◌+◌, ◌*◌, ◌≤◌, ◌<◌, true, false, ◌≡◌, ◌≢◌, inl, inr, refl, sym, ◌∙◌, eq_iff,
  List, [], ◌∷◌, none, some, String, Bytes, ◌==◌, ◌⧺◌, lookup,
}
use perplexity_proxy_go.Errors.{Result, ok}
use perplexity_proxy_go.Json.{Value, str}
use perplexity_proxy_go.Spec.Decode.{Spec}
use perplexity_proxy_go.Pplx.Conversation.{Answer}
use perplexity_proxy_go.Transport.Client.{Client}
use perplexity_proxy_go.Api.Request.{HttpRequest, passed, read_turns}
use perplexity_proxy_go.Api.Request.Turns.{
  Presents, user, assistant, plain_text, text_blocks, turns_of, read_turns-turns_of,
}
use perplexity_proxy_go.Api.Events.{estimate_tokens, stream_events, write_error}
use perplexity_proxy_go.Api.Events.Grammar.{read, idle, phase_of, read-stream_events}
use perplexity_proxy_go.Api.Events.Tokens.{estimate_tokens_bounds}
use perplexity_proxy_go.Api.Server.{Server, Live, handle_messages}
use perplexity_proxy_go.Api.Server.Guard.{handle_messages-unauthorized}
use perplexity_proxy_go.Api.Server.Threads.{
  thread, handle_messages-others, handle_messages-same_transport,
}
use perplexity_proxy_go.Mcp.Server.{run}
use perplexity_proxy_go.Mcp.Server.Replies.{IsComplete, expected_ids, run-IsComplete}
use perplexity_proxy_go.Cli.Print.{print_answer}
use perplexity_proxy_go.Cli.Print.Agreement.{final_newline, print_answer-format_answer}
use perplexity_proxy_go.Mcp.Render.{format_answer}
use perplexity_proxy_go.Witnesses.Samples.{host, client, bridge, spec, conversation, env}

apart : (s t : String) → (s == t) ≡ false → s ≢ t
apart s t h e = false≢true (sym h ∙ (eq_iff s t).1 e)

not_empty : (s : String) → (s == "") ≡ false → s ≢ ""
not_empty s h = apart s "" h

abbrev clients : ℕ → Client ℕ
clients t = client

abbrev factory : ℕ → Result (ℕ × Spec) × ℕ
factory w = (ok (w, spec), suc w)

abbrev bearer : HttpRequest
bearer = record { method = "POST"; header = env (("Authorization", "Bearer k") ∷ []); body = none }

abbrev stranger : HttpRequest
stranger = record { method = "POST"; header = env []; body = none }

stranger_lem : ¬ Presents "k" stranger
unfolding lookup
stranger_lem (inl e) = not_empty "k" refl (sym e)
stranger_lem (inr (a, e)) = not_empty "Bearer k" refl (sym e)

abbrev server : Server ℕ
server = record { convs = ("a", record { t = 3; conv = conversation }) ∷ []; world = 0 }

handle_messages-unauthorized_example :
    handle_messages host clients bridge factory "k" true stranger server
    ≡ (write_error 401 "authentication_error" "missing or invalid API key", server)
handle_messages-unauthorized_example =
    handle_messages-unauthorized host clients bridge factory "k" true stranger server
      (not_empty "k" refl) stranger_lem refl

abbrev asked : Value
asked = str "?"

abbrev in_thread_b : HttpRequest
in_thread_b = record {
  method = "POST";
  header = env (("x-pplx-conversation", "b") ∷ []);
  body = some asked;
}

abbrev in_thread_a : HttpRequest
in_thread_a = record in_thread_b { header = env (("x-pplx-conversation", "a") ∷ []) }

thread_b_lem : thread in_thread_b ≡ "b"
unfolding lookup
thread_b_lem = refl

other_thread : ◌≢◌ {A = String} "a" (thread in_thread_b)
other_thread e = false≢true ((eq_iff "a" "b").1 (e ∙ thread_b_lem))

handle_messages-others_example :
    lookup "a" (handle_messages host clients bridge factory "" true in_thread_b server).1.convs
    ≡ lookup "a" server.convs
handle_messages-others_example =
    handle_messages-others host clients bridge factory "" true in_thread_b server "a" other_thread

there_lem : lookup (thread in_thread_a) server.convs ≡ some (record { t = 3; conv = conversation })
unfolding lookup
there_lem = refl

handle_messages-same_transport_example :
    (l : Live) × (lookup
        (thread in_thread_a)
        (handle_messages host clients bridge factory "" true in_thread_a server).1.convs
      ≡ some l)
    × (l.t ≡ 3)
handle_messages-same_transport_example =
    handle_messages-same_transport host clients bridge factory "" true in_thread_a server
      (record { t = 3; conv = conversation }) there_lem

read_turns-turns_of_example :
    read_turns host 0
      (turns_of ((user, plain_text "hi") ∷ (assistant, text_blocks ("a" ∷ "b" ∷ [])) ∷ []))
    ≡ passed ("user: hi" ∷ "assistant: a\nb" ∷ [])
read_turns-turns_of_example =
    read_turns-turns_of host 0
      ((user, plain_text "hi") ∷ (assistant, text_blocks ("a" ∷ "b" ∷ [])) ∷ [])

abbrev answer : Answer
answer = record {
  text = "42 [1]";
  citations = record { index = pos 1; title = "t"; url = "u" } ∷ [];
  thread_title = "";
  uuid = "";
}

read-stream_events_example :
    read idle (stream_events "q" "m" ("4" ∷ "2" ∷ []) (ok answer)) ≡ phase_of (ok answer)
read-stream_events_example = read-stream_events "q" "m" ("4" ∷ "2" ∷ []) (ok answer)

estimate_tokens_bounds_example :
    ((◌≡◌ {A = String} "hello" "") × (estimate_tokens "hello" ≡ 0))
    ⊎ ((1 ≤ len "hello") × (len "hello" < 4) × (estimate_tokens "hello" ≡ 1))
    ⊎ ((4 ≤ len "hello")
        × (4 * estimate_tokens "hello" ≤ len "hello")
        × (len "hello" < 4 * estimate_tokens "hello" + 4))
estimate_tokens_bounds_example = estimate_tokens_bounds "hello"

abbrev input : List Bytes
input = (b'4' ∷ []) ∷ [] ∷ (b'5' ∷ []) ∷ (b'x' ∷ []) ∷ []

run-IsComplete_example :
    IsComplete
      (expected_ids host input)
      none
      (run host (λ ls. ls) clients bridge factory "0.1.0" (λ r w. (none, w)) input none 0)
run-IsComplete_example =
    run-IsComplete host (λ ls. ls) clients bridge factory "0.1.0" (λ r w. (none, w)) (λ r w. refl)
      input none 0

print_answer-format_answer_example :
    print_answer answer true ≡ format_answer answer ⧺ final_newline answer.citations
print_answer-format_answer_example = print_answer-format_answer answer (not_empty "42 [1]" refl)
