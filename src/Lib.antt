-- ===== src/Lib.antt =====
-- perplexity-proxy-go: a client of the Perplexity web application, an HTTP server that speaks the
-- Anthropic protocol, an MCP server, and a command line over them.
--
-- The program reads a specification (internal/spec/spec.go) that names the endpoints, headers,
-- defaults and models. internal/transport sends the requests and scans the answers' event streams;
-- internal/pplx signs in, asks, and folds the frames of a stream into an answer; internal/api and
-- internal/mcp serve questions over that, and cmd/pplx is the command line.
--
-- Files, and the code that they model:
--   Prelude       Tests, lists, texts and dictionaries that all files share.
--   Errors        The error values of the program, with errors.Is and errors.As.
--   Act           Code that changes a state and may fail.
--   Json          Values of encoding/json, and decoding into struct fields.
--   Transport/Space, Scan  internal/transport/plain.go: scanLines. Scan/Lines, Split and Chunks
--                 prove what it does, whatever the Reads are.
--   Transport/Jar          internal/transport/jar.go; Jar/Chunks and Jar/Sessions prove it.
--   Transport/Client, Sse  internal/transport/transport.go: the interface, and what PostSSE
--                 promises.
--   Transport/Http         internal/transport/plain.go: its options, requests, responses; what it calls
--   Transport/Shared       internal/transport/plain.go: newShared and the methods of shared.
--                 Shared/Contract proves that PostSSE keeps the promise, Shared/Cookies the jar.
--   Spec/Endpoints, Decode, Model, Load    internal/spec/spec.go.
--   Pplx/Frame    internal/pplx/sse.go: sseData, extractClarifyingQuestions
--   Pplx/Sse      internal/pplx/sse.go: processData and what it calls; its children
--                 prove what frames and streams of frames do.
--   Pplx/Conversation, Ask, Bridge  internal/pplx/ask.go and internal/pplx/bridge.go.
--   Pplx/Usage    internal/pplx/usage.go.
--   Pplx/Replies, Auth     internal/pplx/auth.go: RequestCode, CompleteLogin and what they call.
--   Pplx/Token    internal/pplx/token.go: Save, Load, Fresh.
--   Pplx/Probe    internal/pplx/bridge.go: BridgeProbe, BridgeRaw.
--   Api/Request, Events, Server  internal/api/server.go: handleMessages and what it calls.
--   Api/Concurrent         internal/api/server.go with any number of requests at the same time: the
--                 goroutine of each as a state machine over the shared map and conversations.
--   Mcp/Render, Tools, Server    internal/mcp/server.go: Run, handleLine, dispatch, callTool.
--   Transport/Hello, Dial  internal/transport/chrome_hello.go and utls_client.go: the hello spec and
--                 its cache, the dial with its self-healing. Hello/Hybrid and Dial/Healing prove it.
--   Transport/Probe        internal/transport: the handshakes for probing, cmd/helloprobe2.
--   Cli/Print     cmd/pplx/commands.go: printAnswer, printUsage, friendlyErr.
--   Cli/Shell     What the commands share: newTransport, prompt, loadSpec, loadToken, the session.
--   Cli/Commands  cmd/pplx/commands.go: cmdLogin, cmdAsk, cmdUsage; its children prove them.
--   Cli/Show, Check        cmd/pplx/commands_spec.go: cmdSpecShow, cmdSpecCheck.
--   Cli/Sync      cmd/pplx/commands_spec.go: parseUpstream (Upstream), diffPatch (Drift),
--                 writeOverrides (Overrides, Command), cmdSpecSync (Command).
--   Cli/Bridge, Main       cmd/pplx/bridge.go; the other commands, run and main.
--   Cli/Probes    cmd/bridgeprobe, cmd/frameprobe, cmd/helloprobe, cmd/helloprobe2: main.
--   Witnesses     The theorems at concrete inputs.
--
-- State is passed explicitly: a record for each struct that changes, and a world that the
-- transports, the disk and the bridge process act on. net/http, net/url, encoding/json, the clock,
-- the file system, package flag, utls, the terminal and other processes are parameters (Client,
-- Http, Host, Disk, Bridge, Shell, Flags, Net, Utls); what a theorem relies on of them is a
-- hypothesis of it. Member names of JSON objects match exactly. A regular expression of the source
-- is a parser of characters. A panic is an outcome of its own.
--
-- The only fuel is that of the inner loop of scanLines, which takes a byte off the buffer at least
-- in each round and gets the buffer's length and one more; Scan/Lines proves that it suffices. The
-- limit of 16 MiB for the buffer and the 32 KiB of a Read are the source's.
--
-- Api/Server handles a request at a time. Api/Concurrent interleaves them: a step of a goroutine
-- reaches from one call of the factory, the network or the bridge process to the next, and the
-- lock, which is held for one lookup, makes that lookup one step. The fields of a conversation that
-- a method reads or writes between two such calls are read or written in one step; the program has
-- no lock there, so that on real hardware these accesses race.
--
-- Not modelled: the library utls and the copies of golang.org/x/net (internal/http2x,
-- internal/xnet), and the listener of net/http that calls the handler. The MCP server takes one
-- request at a time, as in the source. Timeouts are left out: a call of the network returns a result,
-- and none hangs, but for the listener of ProbeHandshake. Texts are valid UTF-8. The error of
-- json.Marshal is left out, which no body that the program sends gives. What package flag writes to
-- stderr is modelled for ask and login, not for the other commands. A list of models that is nil is
-- printed as an empty list, where encoding/json prints null.
pub mod Prelude
pub mod Errors
pub mod Act
pub mod Json
pub mod Transport
pub mod Spec
pub mod Pplx
pub mod Api
pub mod Mcp
pub mod Cli
pub mod Witnesses
