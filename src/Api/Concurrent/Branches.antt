-- ===== src/Api/Concurrent/Branches.antt =====
-- The branches of a goroutine, and those of `serve`.
use perplexity_proxy_go.Prelude.{
  ℕ, Bool, true, false, ◌&&◌, ◌≡◌, refl, String, lookup, insert, arith,
}
use perplexity_proxy_go.Errors.{Failure, Result, ok, err}
use perplexity_proxy_go.Spec.Decode.{Spec}
use perplexity_proxy_go.Pplx.Sse.{State}
use perplexity_proxy_go.Pplx.Conversation.{Answer, AskOptions, new_conversation}
use perplexity_proxy_go.Pplx.Ask.{ask, ask_stream, bridge_worthy}
use perplexity_proxy_go.Pplx.Bridge.{bridge_enabled, bridge_auto}
use perplexity_proxy_go.Api.Request.{MessagesRequest, HttpRequest}
use perplexity_proxy_go.Api.Events.{Reply, events, write_error, json_reply, stream_events}
use perplexity_proxy_go.Api.Server.{
  Live, Server, found_or, conversation, put_back, serve, serve_json, serve_stream,
}
use perplexity_proxy_go.Api.Server.Threads.{thread}
use perplexity_proxy_go.Api.Concurrent.{asking, bridging, replied, Job, Setup, after_ask, begin}

module _ {W : Type 0} (v : Setup W) (job : Job) where
  pub begin_bridged : job.stream ≡ false → bridge_enabled v.host ≡ true → begin v job ≡ bridging job
  begin_bridged h k = ground arith

  pub begin_native : job.stream ≡ false → bridge_enabled v.host ≡ false → begin v job ≡ asking job
  begin_native h k = ground arith

  pub begin_stream : job.stream ≡ true → v.flushes ≡ true → begin v job ≡ asking job
  begin_stream h k = ground arith

  pub begin_unable :
      job.stream ≡ true
      → v.flushes ≡ false
      → begin v job ≡ replied (write_error 500 "api_error" "streaming unsupported")
  begin_unable h k = ground arith

  pub after_ask_worthy :
      (st : State) (e : Failure)
      → job.stream ≡ false
      → (bridge_auto v.host && bridge_worthy e) ≡ true
      → after_ask v job st (err e) ≡ bridging job
  after_ask_worthy st e h k = ground arith

  pub after_ask_hopeless :
      (st : State) (e : Failure)
      → job.stream ≡ false
      → (bridge_auto v.host && bridge_worthy e) ≡ false
      → after_ask v job st (err e) ≡ replied (json_reply job.query job.model (err e))
  after_ask_hopeless st e h k = ground arith

  pub after_ask_json :
      (st : State) (a : Answer)
      → job.stream ≡ false
      → after_ask v job st (ok a) ≡ replied (json_reply job.query job.model (ok a))
  after_ask_json st a h = ground arith

  pub after_ask_stream :
      (st : State) (a : Result Answer)
      → job.stream ≡ true
      → after_ask v job st a ≡ replied (events (stream_events job.query job.model st.emitted a))
  after_ask_stream st a h = ground arith

-- the branches of `serve`
module _ {W : Type 0} (v : Setup W) (id : String) (l : Live) (query name : String)
    (opt : AskOptions) (m : Server W) (w : W) where
  abbrev pub answered : Reply × Server W
  answered =
      let (a, c, w') = ask v.host (v.clients l.t) v.bridge query opt l.conv w in
      (json_reply query name a, put_back id l c w' m)

  abbrev pub streamed : Reply × Server W
  streamed =
      let (ds, a, c, w') = ask_stream v.host (v.clients l.t) true query opt l.conv w in
      (events (stream_events query name ds a), put_back id l c w' m)

module _ {W : Type 0} (v : Setup W) (r : HttpRequest) (req : MessagesRequest) (query : String)
    (t : ℕ) (sp : Spec) (m : Server W) where
  abbrev pub live : Live
  live = found_or (lookup (thread r) m.convs) (record { t = t; conv = new_conversation sp })

  abbrev pub with_live : Server W
  with_live = record m { convs = insert (thread r) live m.convs }

  abbrev pub options : AskOptions
  options = record { model = req.model; source_focus = "" }

  pub serve_json_lem :
      (flushes : Bool)
      → req.stream ≡ false
      → serve v.host v.clients v.bridge flushes r req query t sp m
        ≡ answered v (thread r) live query req.model options with_live m.world
  unfolding serve serve_json conversation
  serve_json_lem flushes h = rw h refl

  pub serve_stream_lem :
      (flushes : Bool)
      → req.stream ≡ true
      → flushes ≡ true
      → serve v.host v.clients v.bridge flushes r req query t sp m
        ≡ streamed v (thread r) live query req.model options with_live m.world
  unfolding serve serve_stream conversation
  serve_stream_lem flushes h k = rw (h, k) refl

  pub serve_unable :
      (flushes : Bool)
      → req.stream ≡ true
      → flushes ≡ false
      → serve v.host v.clients v.bridge flushes r req query t sp m
        ≡ (write_error 500 "api_error" "streaming unsupported", with_live)
  unfolding serve serve_stream conversation
  serve_unable flushes h k = rw (h, k) refl
