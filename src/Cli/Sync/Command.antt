-- ===== src/Cli/Sync/Command.antt =====
-- `fetchUpstream`, `writeOverrides` and `cmdSpecSync` of cmd/pplx/commands_spec.go.
pub mod Declined
pub mod Kept
pub mod Raw
pub mod Reload
pub mod Whole
use Prim.Native.String
use perplexity_proxy_go.Prelude.{
  ℕ, ◌^◌, code, Bool, true, false, not, ◌&&◌, ◌||◌, List, [], ◌∷◌, ◌++◌, Option, none, some, String,
  Bytes, ◌==◌, ◌⧺◌, eqb, if◌then◌else◌, length,
}
use perplexity_proxy_go.Errors.{Failure, plain, wrapped, decimal, Result, ok, err, ◌>>=◌}
use perplexity_proxy_go.Act.{Act, wrap_result}
use perplexity_proxy_go.Json.{null, obj}
use perplexity_proxy_go.Spec.Decode.{Spec, decode_spec}
use perplexity_proxy_go.Cli.Shell.{Shell, Flags, prompt, spec_load, overrides_file}
use perplexity_proxy_go.Cli.Sync.Upstream.{UpstreamPatch, parse_upstream}
use perplexity_proxy_go.Cli.Sync.Drift.{SpecChange, diff_patch, added_models}
use perplexity_proxy_go.Cli.Sync.Overrides.{GoMap, nil_map, entries, existing, merge}

-- the text before the last slash, `none` where there is no slash
abbrev before_slash : String → Option String
before_slash String.[] = none
before_slash (String.◌∷◌ c s) = elim (before_slash s) [
  | some dir ↦ some (String.◌∷◌ c dir)
  | none ↦ if eqb (code c) 47 then some "" else none
]

-- `filepathDir`
unfoldable pub filepath_dir : String → String
filepath_dir p = elim (before_slash p) [ none ↦ "." | some dir ↦ if dir == "" then "." else dir ]

abbrev pub constants_url : String
constants_url =
    "https://raw.githubusercontent.com/jacob-bd/perplexity-web-mcp/main/src/perplexity_web_mcp/constants.py"

abbrev pub models_url : String
models_url =
    "https://raw.githubusercontent.com/jacob-bd/perplexity-web-mcp/main/src/perplexity_web_mcp/models.py"

-- How a command ends: with its error or none, or in a panic.
pub data Ending : Type 0 where
  finished : Result (Unit {0}) → Ending
  panicked : Ending

module _ {W : Type 0} (sh : Shell W) where
  abbrev pub fetched : String → Result (ℕ × (ℕ → Result String)) × W → Result String × W
  fetched url (err e, w) = (err e, w)
  fetched url (ok (status, body), w) =
      if eqb status 200
      then (body (2 ^ 20), w)
      else (err (plain ("fetch " ⧺ url ⧺ ": HTTP " ⧺ decimal status)), w)

  -- `fetchUpstream`
  unfoldable pub fetch_upstream : String → Act W String
  fetch_upstream url w = fetched url (sh.http_get url w)

  abbrev pub ended : Option Failure × W → Ending × W
  ended (some e, w) = (finished (err e), w)
  ended (none, w) = (finished (ok tt), w)

  abbrev pub document : GoMap → Bytes
  document nil_map = sh.print_indented null ++ 10 ∷ []
  document (entries fs) = sh.print_indented (obj fs) ++ 10 ∷ []

  abbrev pub made : Bytes → Option Failure × W → Ending × W
  made bs (some e, w) = (finished (err e), w)
  made bs (none, w) = ended (sh.disk.write (overrides_file sh.host) bs w)

  abbrev write_merged : Option GoMap → W → Ending × W
  write_merged none w = (panicked, w)
  write_merged (some ov) w =
      made (document ov) (sh.make_dir (filepath_dir (overrides_file sh.host)) w)

  -- `writeOverrides`
  unfoldable pub write_overrides : UpstreamPatch → List SpecChange → W → Ending × W
  unfolding merge overrides_file filepath_dir
  write_overrides p changes w =
      write_merged
        (merge p changes (existing sh.host.codec.parse (sh.disk.read (overrides_file sh.host) w))) w

  abbrev change_lines : List SpecChange → String
  change_lines [] = ""
  change_lines (c ∷ cs) =
      "  "
      ⧺ c.key
      ⧺ ": "
      ⧺ sh.host.quote c.from
      ⧺ " -> "
      ⧺ sh.host.quote c.to
      ⧺ "\n"
      ⧺ change_lines cs

  abbrev model_lines : List String → String
  model_lines [] = ""
  model_lines (m ∷ ms) =
      "  + model identifier "
      ⧺ sh.host.quote m
      ⧺ " (informational; models are not persisted by sync)\n"
      ⧺ model_lines ms

  abbrev pub announced : Ending × W → Ending × W
  announced (finished (ok _), w) =
      (finished (ok tt), sh.say ("Wrote overrides to " ⧺ overrides_file sh.host ⧺ "\n") w)
  announced (finished (err e), w) = (finished (err e), w)
  announced (panicked, w) = (panicked, w)

  abbrev pub decided : UpstreamPatch → List SpecChange → Result String × W → Ending × W
  decided p changes (err e, w) = (finished (err e), w)
  decided p changes (ok answer, w) =
      let wrote = announced (write_overrides p changes w) in
      if sh.equal_fold answer "y" || sh.equal_fold answer "yes"
      then wrote
      else (finished (ok tt), sh.say "Declined; nothing written.\n" w)

  abbrev pub report : Spec → UpstreamPatch → List SpecChange → String
  report base p changes =
      "Upstream drift detected ("
      ⧺ decimal (length changes)
      ⧺ " change(s)):\n"
      ⧺ change_lines changes
      ⧺ model_lines (added_models base p)

  abbrev pub drifted : Bool → Spec → UpstreamPatch → List SpecChange → W → Ending × W
  drifted agreed base p [] w = (finished (ok tt), sh.say "Spec is in sync with upstream.\n" w)
  drifted true base p (c ∷ cs) w =
      announced (write_overrides p (c ∷ cs) (sh.say (report base p (c ∷ cs)) w))
  drifted false base p (c ∷ cs) w = decided p (c ∷ cs) (
      prompt sh ("Write these overrides to " ⧺ overrides_file sh.host ⧺ "? [y/N] ")
        (sh.say (report base p (c ∷ cs)) w))

  abbrev pub compared : Bool → String → String → Result Spec → W → Ending × W
  compared agreed constants models (err e) w = (finished (err e), w)
  compared agreed constants models (ok base) w =
      let p = parse_upstream constants models in drifted agreed base p (diff_patch base p) w

  -- the embedded spec, read again from the raw text of the loaded one
  abbrev pub embedded_of : Result Spec → Result Spec
  embedded_of (err e) = err e
  embedded_of (ok sp) =
      wrap_result (decode_spec (sh.host.codec.parse sp.raw) [])
        (λ e. wrapped "parse embedded spec: " e "")

  abbrev pub with_models : Bool → String → Result String × W → Ending × W
  with_models agreed constants (err e, w) = (finished (err e), w)
  with_models agreed constants (ok models, w) =
      compared agreed constants models (embedded_of (spec_load sh w)) w

  abbrev pub with_constants : Bool → Result String × W → Ending × W
  with_constants agreed (err e, w) = (finished (err e), w)
  with_constants agreed (ok constants, w) =
      with_models agreed constants (fetch_upstream models_url w)

  abbrev pub sync_with : Result Bool → W → Ending × W
  sync_with (err e) w = (finished (err e), w)
  sync_with (ok agreed) w = with_constants agreed (fetch_upstream constants_url w)

  -- `cmdSpecSync`
  unfoldable pub cmd_spec_sync : Flags → List String → W → Ending × W
  unfolding fetch_upstream write_overrides spec_load prompt diff_patch parse_upstream added_models
      decode_spec
  cmd_spec_sync flags args w = sync_with (flags.sync args) w
