-- ===== src/Witnesses/Platform.antt =====
-- A platform for the commands: its world is a map of files, and its texts are told by their first
-- byte.
use perplexity_proxy_go.Prelude.{
  eqb, ◌≡◌, refl, true, false, List, [], ◌∷◌, Option, none, some, String, Bytes, ◌==◌, lookup,
  insert, lookup-insert, if◌then◌else◌,
}
use perplexity_proxy_go.Errors.{plain, ok}
use perplexity_proxy_go.Json.{Value, str, obj, Fields, end, field}
use perplexity_proxy_go.Spec.Load.{FileRead, content, missing}
use perplexity_proxy_go.Transport.Client.{Client, Host}
use perplexity_proxy_go.Transport.Sse.{run_lines, quiet}
use perplexity_proxy_go.Pplx.Token.{Disk}
use perplexity_proxy_go.Cli.Sync.Command.{constants_url}
use perplexity_proxy_go.Cli.Shell.{Shell, Flags}
use perplexity_proxy_go.Witnesses.Samples.{host, embedded, overrides}

abbrev pub Files : Type 0
Files = List (String × Bytes)

abbrev found : Option Bytes → FileRead
found none = missing
found (some bs) = content bs

abbrev pub merged : Fields
merged = field "base_url" (str "https://file") (
    field "endpoints" (obj (field "ask" (str "/a") (field "upload" (str "/up") end)))
      (field "note" (str "mine") (field "api_version" (str "2.19") end)))

abbrev pub stored : Fields
stored =
    field "token" (str "secret")
      (field "obtained_at" (str "t0") (field "expires_at" (str "t1") end))

abbrev parse : Bytes → Option Value
parse [] = none
parse (b ∷ rest) =
    if eqb b b'2'
    then some (obj embedded)
    else if eqb b b'3'
    then some (obj overrides)
    else if eqb b b'6'
    then some (obj merged)
    else if eqb b b'7'
    then some (obj stored)
    else none

abbrev disk : Disk Files
disk = record {
  clock = λ w. 0;
  make_parent = λ path w. (none, w);
  write = λ path bs w. (none, insert path bs w);
  read = λ path w. found (lookup path w);
  parse = parse;
  print = λ v. b'7' ∷ [];
  print_time = λ t. if eqb t 0 then "t0" else "t1";
  parse_time = λ s. if s == "t0" then some 0 else some 2592000000000000;
  no_time = 0;
}

abbrev pub client : Client Files
client = record {
  get = λ path w. (ok tt, w);
  get_json = λ path w. (ok (obj (field "csrfToken" (str "c") end)), w);
  get_no_redirect = λ path w. (ok (302, "/welcome"), w);
  post_json = λ path body w. (ok (obj (field "redirect" (str "https://r") end)), w);
  post_json_no_redirect = λ path body w. (ok (200, "", some (obj end)), w);
  post_sse = λ S f path body s w. (((run_lines f s [] none).0, quiet (run_lines f s [] none).1), w);
  set_cookie = λ name value w. w;
  cookie = λ name w. "secret";
}

abbrev pub platform : Host
platform = record host {
  codec = record { parse = parse; print = λ v. [] };
  env = λ k. if k == "PPLX_TOKEN_PATH" then "/t" else "";
}

abbrev pub constants : String
constants = "API_VERSION: Final[str] = \"2.19\"\nENDPOINT_UPLOAD: Final[str] = \"/up\"\nOTHER = 1"

abbrev pub shell : Shell Files
shell = record {
  host = platform;
  disk = disk;
  bridge = λ python script input w. ("", none, w);
  order = λ ls. ls;
  embedded = b'2' ∷ [];
  new_transport = λ sp w. (ok 0, w);
  clients = λ t. client;
  parse_token = λ s. ok s;
  say = λ text w. w;
  warn = λ text w. w;
  look_path = λ name. none;
  run_cmd = λ name args w. (("", none), w);
  dir_of = λ p. p;
  is_windows = false;
  create = λ p w. (ok tt, w);
  append_to = λ p bs w. w;
  elapsed = λ before after e. [];
  listen = λ addr key w. (none, w);
  is_closed = λ e. false;
  shutdown = λ w. (none, w);
  stdin_lines = λ w. ([], none);
  encode = λ r w. (none, w);
  read_line = λ w. (("y", none), w);
  date = λ t. "";
  text = λ bs. "";
  make_dir = λ p w. (none, w);
  print_indented = λ v. b'6' ∷ [];
  http_get = λ url w.
      if url == constants_url then (ok (200, λ n. ok constants), w) else (ok (200, λ n. ok ""), w);
  equal_fold = λ s t. s == t;
  home_error = plain "no home";
}

abbrev pub flags : Flags
flags = record {
  login = λ args. ok "a@b";
  ask = λ f args. (f, args, none);
  complaint = λ command args. "";
  sync = λ args. ok true;
  check = λ args. ok true;
  serve = λ args. ok ("", "");
}

pub read-write :
    (path : String) (bs : Bytes) (w : Files)
    → (path == path) ≡ true
    → disk.read path (disk.write path bs w).1 ≡ content bs
read-write path bs w same = rw (lookup-insert, same) refl
