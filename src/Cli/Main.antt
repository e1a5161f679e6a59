-- ===== src/Cli/Main.antt =====
-- `cmdDump`, `cmdMCP`, `cmdServe`, `cmdSpec` and `run` of cmd/pplx.
use perplexity_proxy_go.Prelude.{
  ℕ, true, ◌||◌, List, [], ◌∷◌, ◌++◌, Option, none, some, String, Bytes, ◌==◌, ◌⧺◌, if◌then◌else◌,
}
use perplexity_proxy_go.Errors.{Failure, plain, message, Result, ok, err}
use perplexity_proxy_go.Spec.Decode.{Spec}
use perplexity_proxy_go.Pplx.Conversation.{new_conversation}
use perplexity_proxy_go.Pplx.Ask.{ask_raw}
use perplexity_proxy_go.Api.Concurrent.{Setup}
use perplexity_proxy_go.Mcp.Server.{RpcResponse, run}
use perplexity_proxy_go.Cli.Shell.{Shell, Done, Flags, load_spec, load_token, session}
use perplexity_proxy_go.Cli.Commands.{cmd_login, cmd_ask, cmd_usage}
use perplexity_proxy_go.Cli.Show.{cmd_spec_show}
use perplexity_proxy_go.Cli.Check.{cmd_spec_check}
use perplexity_proxy_go.Cli.Sync.Command.{Ending, finished, panicked, cmd_spec_sync}
use perplexity_proxy_go.Cli.Bridge.{cmd_bridge_setup}

-- `Version`
abbrev version : String
version = "0.1.0"

-- `usageText`
abbrev usage_text : String
usage_text =
    "pplx — Perplexity web API client\n\nUsage:\n"
    ⧺ "  pplx login                              sign in with email + OTP (TOTP supported)\n"
    ⧺ "  pplx ask \"query\" [-m model] [-s source] ask one question, print answer + citations\n"
    ⧺ "      -m model    model name or identifier (see 'pplx spec show')\n"
    ⧺ "      -s source   source focus: web, scholar, social, edgar\n"
    ⧺ "      --no-citations  print answer only\n"
    ⧺ "  pplx usage                              print remaining rate limits\n"
    ⧺ "  pplx spec show|sync|check               inspect or update the protocol spec\n"
    ⧺ "  pplx mcp                                MCP server over stdio (tools: ask, research, usage, check)\n"
    ⧺ "  pplx serve [--addr] [--api-key]         Anthropic-compatible /v1/messages server\n"

abbrev dump_file : String
dump_file = "/tmp/pplx-sse-dump.txt"

abbrev dumped_lines : List Bytes → Bytes
dumped_lines [] = []
dumped_lines (line ∷ lines) = line ++ 10 ∷ dumped_lines lines

abbrev error_or_done : Option Failure → Result (Unit {0})
error_or_done none = ok tt
error_or_done (some e) = err e

module _ {W : Type 0} (sh : Shell W) where
  abbrev dumped : W → (List Bytes × Option Failure) × W → Done W
  dumped start ((lines, e), w) = (
    error_or_done e,
    sh.append_to dump_file (dumped_lines lines ++ sh.elapsed start w e)
        (sh.say "dumped to /tmp/pplx-sse-dump.txt\n" w),
  )

  abbrev dump_to : Spec → ℕ → String → Result (Unit {0}) × W → Done W
  dump_to sp t query (err e, w) = (err e, w)
  dump_to sp t query (ok _, w) = dumped w (
      ask_raw sh.host (sh.clients t) query (record { model = ""; source_focus = "" })
        (new_conversation sp) w)

  abbrev dump_with : Spec → String → Result ℕ × W → Done W
  dump_with sp query (err e, w) = (err e, w)
  dump_with sp query (ok t, w) = dump_to sp t query (sh.create dump_file w)

  abbrev dump_query : List String → String
  dump_query [] = "what is the capital of Vietnam"
  dump_query (query ∷ args) = query

  abbrev dump_checked : List String → Spec → Result String → W → Done W
  dump_checked args sp (err e) w = (err e, w)
  dump_checked args sp (ok token) w = dump_with sp (dump_query args) (sh.new_transport sp w)

  abbrev dump_spec : List String → Result Spec → W → Done W
  dump_spec args (err e) w = (err e, w)
  dump_spec args (ok sp) w = dump_checked args sp (load_token sh w) w

  -- `cmdDump`
  unfoldable pub cmd_dump : List String → W → Done W
  unfolding load_spec load_token ask_raw
  cmd_dump args w = dump_spec args (load_spec sh w) w

  abbrev served : List RpcResponse × Option Failure × W → Done W
  served (rs, e, w) = (error_or_done e, w)

  -- `cmdMCP`, whose factory is `session`
  unfoldable pub cmd_mcp : List String → W → Done W
  unfolding session run
  cmd_mcp [] w =
      let (lines, ending) = sh.stdin_lines w in
      served
        (run sh.host sh.order sh.clients sh.bridge (session sh) version sh.encode lines ending w)
  cmd_mcp (arg ∷ args) w = (err (plain "usage: pplx mcp"), w)

  abbrev stopped : Option Failure × W → Done W
  stopped (e, w) = (error_or_done e, w)

  abbrev listened : Option Failure × W → Done W
  listened (none, w) = stopped (sh.shutdown (sh.warn "shutting down\n" w))
  listened (some e, w) = if sh.is_closed e then (ok tt, w) else (err e, w)

  abbrev serve_with : Result (String × String) → W → Done W
  serve_with (err e) w = (err e, w)
  serve_with (ok (addr, key)) w =
      listened (
        sh.listen addr key
          (sh.warn ("pplx serve listening on http://" ⧺ addr ⧺ "/v1/messages\n") w))

  -- the server that `cmdServe` makes, whose handler runs inside `listen`
  abbrev served_by : String → Setup W
  served_by key = record {
    host = sh.host;
    clients = sh.clients;
    bridge = sh.bridge;
    factory = session sh;
    api_key = key;
    flushes = true;
  }

  -- `cmdServe`
  unfoldable pub cmd_serve : Flags → List String → W → Done W
  cmd_serve flags args w = serve_with (flags.serve args) w

  abbrev plainly : Done W → Ending × W
  plainly (r, w) = (finished r, w)

  abbrev failed : String → W → Ending × W
  failed text w = (finished (err (plain text)), w)

  -- `cmdSpec`
  unfoldable pub cmd_spec : Flags → List String → W → Ending × W
  unfolding cmd_spec_show cmd_spec_sync cmd_spec_check
  cmd_spec flags [] w = failed "usage: pplx spec show|sync|check" w
  cmd_spec flags (sub ∷ rest) w =
      if sub == "show"
      then plainly (cmd_spec_show sh rest w)
      else if sub == "sync"
      then cmd_spec_sync sh flags rest w
      else if sub == "check"
      then plainly (cmd_spec_check sh flags rest w)
      else failed ("unknown spec subcommand " ⧺ sh.host.quote sub ⧺ " (want show, sync, or check)")
          w

  abbrev bridge_with : List String → W → Ending × W
  bridge_with [] w = failed "usage: pplx bridge setup" w
  bridge_with (sub ∷ rest) w =
      if sub == "setup"
      then plainly (cmd_bridge_setup sh rest w)
      else failed "usage: pplx bridge setup" w

  -- `run`
  unfoldable pub run_command : Flags → String → List String → W → Ending × W
  unfolding cmd_login cmd_ask cmd_usage cmd_dump cmd_mcp cmd_serve cmd_spec cmd_bridge_setup
  run_command flags cmd rest w =
      if cmd == "login"
      then plainly (cmd_login sh flags rest w)
      else if cmd == "ask"
      then plainly (cmd_ask sh flags rest w)
      else if cmd == "version" || cmd == "--version" || cmd == "-v"
      then (finished (ok tt), sh.say (version ⧺ "\n") w)
      else if cmd == "bridge"
      then bridge_with rest w
      else if cmd == "dump"
      then plainly (cmd_dump rest w)
      else if cmd == "usage"
      then plainly (cmd_usage sh flags rest w)
      else if cmd == "spec"
      then cmd_spec flags rest w
      else if cmd == "mcp"
      then plainly (cmd_mcp rest w)
      else if cmd == "serve"
      then plainly (cmd_serve flags rest w)
      else if cmd == "help" || cmd == "-h" || cmd == "--help"
      then (finished (ok tt), sh.say usage_text w)
      else failed ("unknown command " ⧺ sh.host.quote cmd ⧺ "\n\n" ⧺ usage_text) w

  -- how the program ends: the exit code, `none` for a panic
  abbrev exit_code : Ending × W → Option ℕ × W
  exit_code (finished (ok _), w) = (some 0, w)
  exit_code (finished (err e), w) = (some 1, sh.warn ("pplx: " ⧺ message e ⧺ "\n") w)
  exit_code (panicked, w) = (none, w)

  -- `main`; the arguments are those after the program's name
  unfoldable pub main_program : Flags → List String → W → Option ℕ × W
  unfolding run_command
  main_program flags [] w = (some 2, sh.warn usage_text w)
  main_program flags (cmd ∷ rest) w = exit_code (run_command flags cmd rest w)
