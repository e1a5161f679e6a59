-- ===== src/Pplx/Conversation.antt =====
-- `Conversation`, its options and answers, and its request bodies: internal/pplx/ask.go, and the
-- request of internal/pplx/bridge.go.
use perplexity_proxy_go.Prelude.{
  false, not, List, some, String, ◌==◌, contains, take_runes, ◌⧺◌, if◌then◌else◌,
}
use perplexity_proxy_go.Json.{Value, null, bool, str, arr, obj, nil, cons, Fields, end, field}
use perplexity_proxy_go.Spec.Decode.{Spec}
use perplexity_proxy_go.Spec.Model.{model}
use perplexity_proxy_go.Transport.Client.{Host}
use perplexity_proxy_go.Pplx.Sse.{Citation, keep}

pub record AskOptions : Type 0 where
  pub model : String
  pub source_focus : String

pub record Answer : Type 0 where
  pub text : String
  pub citations : List Citation
  pub thread_title : String
  pub uuid : String

pub record Conversation : Type 0 where
  pub sp : Spec
  pub backend_uuid : String
  pub read_write_token : String

-- `NewConversation`; the transport is an argument of the methods
abbrev pub new_conversation : Spec → Conversation
new_conversation sp = record { sp = sp; backend_uuid = ""; read_write_token = "" }

-- `RestoreSession`
abbrev pub restore_session : String → String → Conversation → Conversation
restore_session uuid token c = record c { backend_uuid = uuid; read_write_token = token }

-- `currentTimezone`
unfoldable pub current_timezone : String → String
current_timezone name = if name == "" then "UTC" else if contains name "/" then name else "UTC"

-- `if v != "" { c.backendUUID = v }` and the same for the token
abbrev pub adopt : String → String → Conversation → Conversation
adopt uuid token c = record c {
  backend_uuid = keep (some uuid) c.backend_uuid;
  read_write_token = keep (some token) c.read_write_token;
}

abbrev pub or_else : String → String → String
or_else s other = if s == "" then other else s

-- the assignments under `if c.backendUUID != ""`
abbrev pub followup : String → String → Fields → Fields
followup uuid token rest =
    if uuid == ""
    then rest
    else field "last_backend_uuid" (str uuid) (
        field "query_source" (str "followup")
          (if token == "" then rest else field "read_write_token" (str token) rest))

-- the map `params`
unfoldable pub params : Host → AskOptions → Conversation → Fields
params host opt c =
    let d = c.sp.defaults in
    let m = model c.sp opt.model in
    followup c.backend_uuid c.read_write_token (
      field "attachments" (arr nil) (
        field "language" (str d.language) (
          field "timezone" (str (current_timezone host.zone)) (
            field "client_coordinates" null (
              field "sources" (arr (cons (str (or_else opt.source_focus d.source_focus)) nil)) (
                field "model_preference" (str m.identifier) (
                  field "mode" (str m.mode) (
                    field "search_focus" (str d.search_focus) (
                      field "search_recency_filter"
                        (if d.search_recency_filter == ""
                          then null
                          else str d.search_recency_filter)
                        (field "is_incognito" (bool (not d.save_to_library)) (
                          field "use_schematized_api" (bool d.use_schematized_api) (
                            field "local_search_enabled" (bool false) (
                              field "prompt_source" (str d.prompt_source) (
                                field "send_back_text_in_streaming_api"
                                  (bool d.send_back_text_in_streaming)
                                  (field "version" (str c.sp.api_version) end)))))))))))))))

-- `buildPayload`
unfoldable pub build_payload : Host → String → AskOptions → Conversation → Value
build_payload host query opt c =
    obj (field "params" (obj (params host opt c)) (field "query_str" (str query) end))

-- the path of the search session, with the first 500 runes of the query
unfoldable pub search_path : Host → String → Conversation → String
search_path host query c =
    c.sp.endpoints.search_init ⧺ "?q=" ⧺ host.query_escape (take_runes 500 query)

-- `req` of `askViaBridge`
unfoldable pub bridge_request : String → AskOptions → Conversation → Value
bridge_request query opt c =
    let m = model c.sp opt.model in
    let thread =
      if c.backend_uuid == ""
      then end
      else field "backend_uuid" (str c.backend_uuid) (
          if c.read_write_token == ""
          then end
          else field "read_write_token" (str c.read_write_token) end) in
    let focus =
      if opt.source_focus == ""
      then thread
      else field "source_focus" (str opt.source_focus) thread in
    obj (
      field "query" (str query)
        (if m.identifier == "" then focus else field "model" (str m.identifier) focus))
