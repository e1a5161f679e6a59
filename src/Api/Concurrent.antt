-- ===== src/Api/Concurrent.antt =====
-- Requests that the server of internal/api/server.go handles at the same time. Each has a goroutine
-- of its own; they share the map of conversations, under the lock, and the conversations that it
-- points to, which have none. A step is what a goroutine does between two calls of the outside (the
-- factory, the network, the bridge process); what a method of the conversation reads or writes
-- there, it reads or writes in one step.
pub mod Alone
pub mod Branches
pub mod Phases
pub mod Quiet
pub mod Runs
pub mod Effects
pub mod Models
pub mod Finishing
pub mod Followups
pub mod Sharing
use perplexity_proxy_go.Prelude.{
  ℕ, suc, ◌<◌, Bool, true, false, ◌&&◌, ◌≡◌, List, [], Option, none, some, String, Bytes, lookup,
  insert, eqb, if◌then◌else◌,
}
use perplexity_proxy_go.Errors.{Failure, wrapped, message, Result, ok, err}
use perplexity_proxy_go.Json.{Value}
use perplexity_proxy_go.Spec.Decode.{Spec}
use perplexity_proxy_go.Transport.Client.{Client, Host}
use perplexity_proxy_go.Pplx.Sse.{State, start, on_line}
use perplexity_proxy_go.Pplx.Conversation.{
  AskOptions, Answer, Conversation, new_conversation, build_payload, search_path, bridge_request,
  or_else,
}
use perplexity_proxy_go.Pplx.Ask.{bridge_worthy, finish_stream}
use perplexity_proxy_go.Pplx.Bridge.{
  Bridge, bridge_python, bridge_enabled, bridge_auto, finish_bridge,
}
use perplexity_proxy_go.Api.Request.{
  MessagesRequest, HttpRequest, Checked, passed, refused, read_request,
}
use perplexity_proxy_go.Api.Events.{Reply, events, write_error, json_reply, stream_events}
use perplexity_proxy_go.Api.Server.{Live, map_model}
use perplexity_proxy_go.Api.Server.Threads.{thread}

-- What the goroutines share. `convs` gives the addresses of the conversations, `objects` what
-- stands there; from `next` on nothing is allocated.
pub record Store (W : Type 0) : Type 0 where
  pub convs : List (String × ℕ)
  pub objects : ℕ → Live
  pub next : ℕ
  pub world : W

abbrev pub set_object : ℕ → Live → (ℕ → Live) → ℕ → Live
set_object a l objects b = if eqb a b then l else objects b

-- the arguments of `serveJSON` and `serveStream`, with the address of the conversation
pub record Job : Type 0 where
  pub stream : Bool
  pub query : String
  pub model : String
  pub opt : AskOptions
  pub address : ℕ

-- where a goroutine stands, with the local variables that are live there
pub data Pc : Type 0 where
  arrived : Pc
  -- before the call of the factory
  making : MessagesRequest → String → Pc
  -- before the lock
  made : MessagesRequest → String → ℕ → Spec → Pc
  -- before `buildPayload`
  asking : Job → Pc
  -- before `Get` and `PostSSE`, with the payload
  sending : Job → Value → Pc
  streaming : Job → Value → Pc
  -- after `PostSSE`
  finishing : Job → State → Option Failure → Pc
  -- at the head of `askViaBridge`, before the process, and after it
  bridging : Job → Pc
  running : Job → Bytes → Pc
  decoding : Job → String → Option Failure → Pc
  replied : Reply → Pc

abbrev pub is_done : Pc → Bool
is_done (replied _) = true
is_done _ = false

module _ {W : Type 0} where
  abbrev pub conv_at : Job → Store W → Conversation
  conv_at job s = (s.objects job.address).conv

  abbrev pub write_conv : Job → Conversation → Store W → Store W
  write_conv job c s = record s {
    objects = set_object job.address (record (s.objects job.address) { conv = c }) s.objects;
  }

  abbrev pub found_at : Option ℕ → String → Live → Store W → ℕ × Store W
  found_at (some a) id l s = (a, s)
  found_at none id l s = (
    s.next,
    record s {
      convs = insert id s.next s.convs;
      objects = set_object s.next l s.objects;
      next = suc s.next;
    },
  )

  -- `conversation`, which holds the lock
  unfoldable pub conversation_at : String → ℕ → Spec → Store W → ℕ × Store W
  conversation_at id t sp s =
      found_at (lookup id s.convs) id (record { t = t; conv = new_conversation sp }) s

-- the server's fields but for its map, and what it calls: see `Api.Server`
pub record Setup (W : Type 0) : Type 1 where
  pub host : Host
  pub clients : ℕ → Client W
  pub bridge : Bridge W
  pub factory : W → Result (ℕ × Spec) × W
  pub api_key : String
  pub flushes : Bool

module _ {W : Type 0} (v : Setup W) where
  open v use {host, clients, bridge, factory, api_key, flushes}

  abbrev pub move_checked : Checked (MessagesRequest × String) → Pc
  move_checked (refused status type msg) = replied (write_error status type msg)
  move_checked (passed (req, query)) = making req query

  abbrev pub move_made : MessagesRequest → String → Result (ℕ × Spec) × W → Store W → Pc × Store W
  move_made req query (err e, w) s =
      (replied (write_error 500 "api_error" (message e)), record s { world = w })
  move_made req query (ok (t, sp), w) s = (made req query t sp, record s { world = w })

  abbrev pub begin : Job → Pc
  begin job =
      if job.stream
      then if flushes
        then asking job
        else replied (write_error 500 "api_error" "streaming unsupported")
      else if bridge_enabled host
      then bridging job
      else asking job

  abbrev pub job_of : MessagesRequest → String → Spec → ℕ → Job
  job_of req query sp a = record {
    stream = req.stream;
    query = query;
    model = req.model;
    opt = record { model = map_model sp req.model; source_focus = "" };
    address = a;
  }

  abbrev pub after_direct : Job → Result Answer → Pc
  after_direct job (ok a) = replied (json_reply job.query job.model (ok a))
  after_direct job (err e) =
      if bridge_auto host && bridge_worthy e
      then bridging job
      else replied (json_reply job.query job.model (err e))

  -- once the direct ask has its result
  abbrev pub after_ask : Job → State → Result Answer → Pc
  after_ask job st r =
      if job.stream
      then replied (events (stream_events job.query job.model st.emitted r))
      else after_direct job r

  abbrev pub move_sent : Job → Value → Result (Unit {0}) × W → Store W → Pc × Store W
  move_sent job payload (err e, w) s = (
    after_ask job (start job.stream) (err (wrapped "init search: " e "")),
    record s { world = w },
  )
  move_sent job payload (ok _, w) s = (streaming job payload, record s { world = w })

  -- The next step of the goroutine of a request.
  unfoldable pub move : HttpRequest → Pc → Store W → Pc × Store W
  unfolding conversation_at
  move r arrived s = (move_checked (read_request host api_key r), s)
  move r (making req query) s = move_made req query (factory s.world) s
  move r (made req query t sp) s =
      let (a, s') = conversation_at (thread r) t sp s in (begin (job_of req query sp a), s')
  move r (asking job) s = (sending job (build_payload host job.query job.opt (conv_at job s)), s)
  move r (sending job payload) s =
      move_sent job payload
        ((clients (s.objects job.address).t).get (search_path host job.query (conv_at job s))
          s.world)
        s
  move r (streaming job payload) s =
      let (result, w) =
        (clients (s.objects job.address).t).post_sse State (on_line host.codec)
          (conv_at job s).sp.endpoints.ask payload (start job.stream) s.world in
      (finishing job result.0 result.1, record s { world = w })
  move r (finishing job st e) s =
      let (result, c) = finish_stream (st, e) (conv_at job s) in
      (after_ask job st result, write_conv job c s)
  move r (bridging job) s =
      (running job (host.codec.print (bridge_request job.query job.opt (conv_at job s))), s)
  move r (running job input) s =
      let (out, e, w) =
        bridge (bridge_python host)
          (or_else (host.env "PPLX_BRIDGE_SCRIPT") "scripts/bridge_ask.py") input s.world in
      (decoding job out e, record s { world = w })
  move r (decoding job out e) s =
      let (result, c) = finish_bridge host.codec out e (conv_at job s) in
      (replied (json_reply job.query job.model result), write_conv job c s)
  move r (replied reply) s = (replied reply, s)
