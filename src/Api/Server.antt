-- ===== src/Api/Server.antt =====
-- `Server` of internal/api/server.go: `handleMessages`, `conversation`, `serveJSON`, `serveStream`.
-- One request at a time; the transports that the factory makes are numbered.
pub mod Guard
pub mod Threads
use perplexity_proxy_go.Prelude.{
  ℕ, Bool, true, false, List, [], ◌∷◌, Option, none, some, String, lookup, insert, if◌then◌else◌,
}
use perplexity_proxy_go.Errors.{Failure, message, Result, ok, err}
use perplexity_proxy_go.Spec.Decode.{Spec}
use perplexity_proxy_go.Transport.Client.{Client, Host}
use perplexity_proxy_go.Pplx.Conversation.{
  AskOptions, Answer, Conversation, new_conversation, or_else,
}
use perplexity_proxy_go.Pplx.Ask.{ask, ask_stream}
use perplexity_proxy_go.Pplx.Bridge.{Bridge}
use perplexity_proxy_go.Api.Request.{
  MessagesRequest, HttpRequest, Checked, passed, refused, read_request,
}
use perplexity_proxy_go.Api.Events.{Reply, events, write_error, json_reply, stream_events}

-- a live conversation and the transport that it was made with
pub record Live : Type 0 where
  pub t : ℕ
  pub conv : Conversation

pub record Server (W : Type 0) : Type 0 where
  pub convs : List (String × Live)
  pub world : W

-- `mapModel`: both of its branches return the name
abbrev pub map_model : Spec → String → String
map_model sp m = m

abbrev pub found_or : Option Live → Live → Live
found_or (some l) l' = l
found_or none l' = l'

-- `conversation`
unfoldable pub conversation : {W : Type 0} → String → ℕ → Spec → Server W → Live × Server W
conversation id t sp s =
    let l = found_or (lookup id s.convs) (record { t = t; conv = new_conversation sp }) in
    (l, record s { convs = insert id l s.convs })

-- what a call on the conversation leaves in the server
abbrev pub put_back : {W : Type 0} → String → Live → Conversation → W → Server W → Server W
put_back id l c w s = record s { convs = insert id (record l { conv = c }) s.convs; world = w }

module _ {W : Type 0} (host : Host) (clients : ℕ → Client W) (bridge : Bridge W) where
  -- `serveJSON`
  unfoldable pub serve_json :
      String → Live → String → String → AskOptions → Server W → Reply × Server W
  serve_json id l query model opt s =
      let (r, c, w) = ask host (clients l.t) bridge query opt l.conv s.world in
      (json_reply query model r, put_back id l c w s)

  -- `serveStream`; `flushes` says whether the writer is an `http.Flusher`
  unfoldable pub serve_stream :
      Bool → String → Live → String → String → AskOptions → Server W → Reply × Server W
  serve_stream flushes id l query model opt s =
      let (deltas, r, c, w) = ask_stream host (clients l.t) true query opt l.conv s.world in
      if flushes
      then (events (stream_events query model deltas r), put_back id l c w s)
      else (write_error 500 "api_error" "streaming unsupported", s)

  -- `handleMessages` from the factory's transport and spec on
  unfoldable pub serve :
      Bool → HttpRequest → MessagesRequest → String → ℕ → Spec → Server W → Reply × Server W
  serve flushes r req query t sp s =
      let id = or_else (r.header "x-pplx-conversation") "default" in
      let (l, s') = conversation id t sp s in
      let opt : AskOptions = record { model = map_model sp req.model; source_focus = "" } in
      if req.stream
      then serve_stream flushes id l query req.model opt s'
      else serve_json id l query req.model opt s'

  module _ (factory : W → Result (ℕ × Spec) × W) (api_key : String) where
    abbrev pub made :
        Bool
        → HttpRequest
        → MessagesRequest
        → String
        → Result (ℕ × Spec) × W
        → Server W
        → Reply × Server W
    made flushes r req query (err e, w) s =
        (write_error 500 "api_error" (message e), record s { world = w })
    made flushes r req query (ok (t, sp), w) s =
        serve flushes r req query t sp (record s { world = w })

    abbrev pub checked :
        Bool → HttpRequest → Checked (MessagesRequest × String) → Server W → Reply × Server W
    checked flushes r (refused status type msg) s = (write_error status type msg, s)
    checked flushes r (passed (req, query)) s = made flushes r req query (factory s.world) s

    -- `handleMessages`
    unfoldable pub handle_messages : Bool → HttpRequest → Server W → Reply × Server W
    handle_messages flushes r s = checked flushes r (read_request host api_key r) s
