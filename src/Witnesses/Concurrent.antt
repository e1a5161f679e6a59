-- ===== src/Witnesses/Concurrent.antt =====
-- Requests at the same time.
use perplexity_proxy_go.Prelude.{
  ℕ, zero, suc, ◌<◌, Bool, true, false, ◌≡◌, ◌≢◌, ◌↔◌, refl, [], ◌∷◌, some, String, lookup, insert,
  eqb, eq_iff, if◌then◌else◌, arith,
}
use mathlib.Core.Bool.{false≢true}
use perplexity_proxy_go.Errors.{ok}
use perplexity_proxy_go.Json.{Value, str, arr, obj, nil, cons, Fields, end, field, at}
use perplexity_proxy_go.Pplx.Conversation.{new_conversation, build_payload, search_path}
use perplexity_proxy_go.Api.Request.{
  HttpRequest, read_request, is_authorized, decode_request, read_turns,
}
use perplexity_proxy_go.Pplx.Ask.{finish_stream}
use perplexity_proxy_go.Pplx.Bridge.{bridge_enabled}
use perplexity_proxy_go.Pplx.Sse.{
  on_line, process_data, absorb_blocks, absorb_answer_data, emit_chunk_deltas, identify,
}
use perplexity_proxy_go.Pplx.Frame.{sse_data}
use perplexity_proxy_go.Transport.Sse.{run_lines}
use perplexity_proxy_go.Api.Server.{Live, Server}
use perplexity_proxy_go.Api.Server.Threads.{thread}
use perplexity_proxy_go.Api.Concurrent.{Setup, is_done, asking, sending, replied, arrived, Job}
use perplexity_proxy_go.Api.Concurrent.Runs.{System, Run, stay, later, pick, advance, init}
use perplexity_proxy_go.Api.Concurrent.Sharing.{Run-same_conversation}
use perplexity_proxy_go.Api.Concurrent.Followups.{advance-others, Run-followup}
use perplexity_proxy_go.Api.Concurrent.Models.{Models}
use perplexity_proxy_go.Api.Concurrent.Alone.{handled, Run-eq-handle_messages}
use perplexity_proxy_go.Witnesses.Samples.{host, client, bridge, spec, env}

abbrev setup : Setup ℕ
setup = record {
  host = host;
  clients = λ t. client;
  bridge = bridge;
  factory = λ w. (ok (w, spec), suc w);
  api_key = "";
  flushes = true;
}

abbrev question : Value
question = obj (
    field "model" (str "best") (
      field "messages"
        (arr (cons (obj (field "role" (str "user") (field "content" (str "hi") end))) nil)) end))

-- two requests of the default thread, and one of the thread "b"
abbrev requests : ℕ → HttpRequest
requests i = record {
  method = "POST";
  header = if eqb i 1 then env (("x-pplx-conversation", "b") ∷ []) else env [];
  body = some question;
}

abbrev objects : ℕ → Live
objects a = record { t = 0; conv = new_conversation spec }

abbrev Progress : System ℕ → Type 0
Progress s = (u : System ℕ) × Run setup requests 3 s u

turn_if :
    (s : System ℕ) (p : Progress s) (i : ℕ)
    → i < 3
    → (b : Bool) → is_done (p.0.pc i) ≡ b
    → Progress s
turn_if s p i lt true h = p
turn_if s p i lt false h = (advance setup requests i p.0, later p.1 (pick i lt h))

-- the goroutine of a request takes so many steps
turns : (s : System ℕ) → Progress s → (i : ℕ) → i < 3 → ℕ → Progress s
unfolding turn_if advance read_request is_authorized decode_request read_turns bridge_enabled lookup
    insert build_payload search_path on_line finish_stream sse_data process_data run_lines
    absorb_blocks absorb_answer_data emit_chunk_deltas identify
turns s p i lt zero = p
turns s p i lt (suc k) = let q = turns s p i lt k in turn_if s q i lt (is_done (q.0.pc i)) refl

-- the first request has its answer, and the third one has just found the conversation
answered : Progress (init objects 0)
unfolding turns
answered = turns (init objects 0) (init objects 0, stay) 0 (omega arith) 7

followed : Progress answered.0
unfolding answered turns
followed = turns answered.0 (answered.0, stay) 2 (omega arith) 3

played : Progress (init objects 0)
unfolding turns
played =
    turns (init objects 0) (turns (init objects 0) (init objects 0, stay) 0 (omega arith) 3) 2
      (omega arith) 3

Run-same_conversation_example : (thread (requests 0) ≡ thread (requests 2)) ↔ (◌≡◌ {A = ℕ} 0 0)
unfolding played
Run-same_conversation_example =
    Run-same_conversation requests setup objects 0 played.0 played.1 0 2 0 0 refl refl

elsewhere : ◌≢◌ {A = String} "default" (thread (requests 1))
unfolding lookup
elsewhere e = false≢true ((eq_iff "default" "b").1 e)

there : lookup "default" answered.0.store.convs ≡ some 0
unfolding answered
there = refl

advance-others_example :
    (lookup "default" (advance setup requests 1 answered.0).store.convs ≡ some 0)
    × ((advance setup requests 1 answered.0).store.objects 0 ≡ answered.0.store.objects 0)
advance-others_example =
    advance-others setup requests objects 0 answered.0 answered.1 1 "default" 0 elsewhere there

has_thread : (answered.0.store.objects 0).conv.backend_uuid ≢ ""
unfolding answered
has_thread e = false≢true ((eq_iff "u1" "").1 e)

abbrev third : Job
third = record {
  stream = false;
  query = "user: hi";
  model = "best";
  opt = record { model = "best"; source_focus = "" };
  address = 0;
}

asks : followed.0.pc 2 ≡ asking third
unfolding followed
asks = refl

there_third : lookup (thread (requests 2)) answered.0.store.convs ≡ some 0
unfolding answered
there_third = refl

Run-followup_example :
    (uuid : String) × (fs : Fields) × (uuid ≢ "")
    × (uuid ≡ (followed.0.store.objects 0).conv.backend_uuid)
    × (at "last_backend_uuid" fs ≡ some (str uuid))
    × ((advance setup requests 2 followed.0).pc 2
        ≡ sending third (obj (field "params" (obj fs) (field "query_str" (str "user: hi") end))))
Run-followup_example =
    Run-followup setup requests objects 0 answered.0 followed.0 2 0 third answered.1 there_third
      has_thread followed.1 asks

abbrev server : Server ℕ
server = record { convs = []; world = 0 }

models : Models (init objects 0).store server
unfolding lookup
models = record { world = refl; convs = λ id. refl }

Run-eq-handle_messages_example :
    (u : System ℕ) × Run setup requests 3 (init objects 0) u
    × (u.pc 0 ≡ replied (handled setup (requests 0) server).0)
    × Models u.store (handled setup (requests 0) server).1
    × ((j : ℕ) → j ≢ 0 → u.pc j ≡ arrived)
Run-eq-handle_messages_example =
    Run-eq-handle_messages setup requests {n = 3} 0 (omega arith) (init objects 0) objects 0 server
      stay refl models
