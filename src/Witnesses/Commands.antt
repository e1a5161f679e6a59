-- ===== src/Witnesses/Commands.antt =====
-- The commands and the sync of the spec.
use perplexity_proxy_go.Prelude.{
  code, ◌≢◌, ◌≡◌, ◌↔◌, refl, sym, ap, ◌∙◌, true, false, ◌==◌, Bool-cases, inl, inr, String, none,
  List, [], ◌∷◌, some, lookup, insert, contains,
}
use perplexity_proxy_go.Errors.{wrapped, sentinel, no_token, ok, err}
use perplexity_proxy_go.Json.{obj, Fields}
use perplexity_proxy_go.Spec.Endpoints.{set, is_known, endpoint_key}
use perplexity_proxy_go.Spec.Decode.{Spec, parse_embedded}
use perplexity_proxy_go.Spec.Load.{
  decode_overrides, apply_file_overrides, apply_env_overrides, set_paths,
}
use perplexity_proxy_go.Pplx.Auth.{fetch_csrf, follow_callback, resolve_code}
use perplexity_proxy_go.Pplx.Token.{default_token_ttl, default_token_path, load, new_token}
use perplexity_proxy_go.Pplx.Token.Storage.{IsReliable}
use perplexity_proxy_go.Cli.Shell.{
  Shell, Flags, prompt, load_spec, spec_load, load_token, overrides_file, session,
}
use perplexity_proxy_go.Cli.Commands.{cmd_login, cmd_ask, cmd_usage}
use perplexity_proxy_go.Cli.Commands.Guard.{IsRefused, IsComplaint, session-IsRefused}
use perplexity_proxy_go.Cli.Commands.Stored.{IsStored, cmd_login-IsStored}
use perplexity_proxy_go.Cli.Sync.Upstream.{
  UpstreamPatch, is_upper, is_word, is_blank, is_plain, final_str, endpoint_id, model_identifier,
  parse_upstream,
}
use perplexity_proxy_go.Cli.Sync.Upstream.Regex.{IsFinal}
use perplexity_proxy_go.Cli.Sync.Upstream.Models.{IsModel}
use perplexity_proxy_go.Cli.Sync.Upstream.Expressions.{
  InUpper, InWord, InBlank, IsEndpoint, parsers-eq-regexes,
}
use perplexity_proxy_go.Cli.Sync.Drift.{SpecChange, diff_patch}
use perplexity_proxy_go.Cli.Sync.Overrides.{entries, existing, merge}
use perplexity_proxy_go.Cli.Sync.Overrides.Kept.{IsMerged}
use perplexity_proxy_go.Cli.Sync.Command.Kept.{write_overrides-IsMerged}
use perplexity_proxy_go.Cli.Sync.Command.{
  finished, fetch_upstream, constants_url, models_url, write_overrides, cmd_spec_sync,
}
use perplexity_proxy_go.Cli.Sync.Command.Declined.{IsKept, IsRefusal, cmd_spec_sync-IsKept}
use perplexity_proxy_go.Cli.Sync.Command.Reload.{IsSynced}
use perplexity_proxy_go.Cli.Sync.Command.Whole.{cmd_spec_sync-reload}
use perplexity_proxy_go.Cli.Space.{trim_text}
use perplexity_proxy_go.Witnesses.Samples.{overrides}
use perplexity_proxy_go.Witnesses.Spec.{file, blank_spec}
use perplexity_proxy_go.Witnesses.Platform.{Files, merged, shell, flags, constants, read-write}

parsers-eq-regexes_example :
    ((final_str "m = Model(identifier=\"a\", mode=\"b\")" ≡ some ("m", "a"))
      ↔ IsFinal "m = Model(identifier=\"a\", mode=\"b\")" "m" "a")
    × ((endpoint_id "m = Model(identifier=\"a\", mode=\"b\")" ≡ some ("m", "a"))
        ↔ IsEndpoint "m = Model(identifier=\"a\", mode=\"b\")" "m" "a")
    × ((model_identifier "m = Model(identifier=\"a\", mode=\"b\")" ≡ some "a")
        ↔ IsModel "m = Model(identifier=\"a\", mode=\"b\")" "a")
    × ((is_upper "_" ≡ true) ↔ InUpper "_")
    × ((is_word "_" ≡ true) ↔ InWord "_")
    × ((is_blank "_" ≡ true) ↔ InBlank "_")
    × ((is_plain "_" ≡ true) ↔ (code "_" ≢ 34))
parsers-eq-regexes_example =
    parsers-eq-regexes "m = Model(identifier=\"a\", mode=\"b\")" "m" "a" "_"

signed_out : load_token shell [] ≡ err (wrapped "" (sentinel no_token) "")
unfolding load_token default_token_path load lookup
signed_out = refl

session-IsRefused_example :
    IsComplaint shell flags [] (cmd_ask shell flags ("why" ∷ []) [])
    × IsRefused [] (cmd_usage shell flags ("why" ∷ []) [])
    × IsRefused [] (session shell [])
session-IsRefused_example =
    session-IsRefused shell flags (λ text w. refl) ("why" ∷ []) [] _ signed_out

reliable : IsReliable shell.disk "/t" (new_token shell.disk "/t" "secret" default_token_ttl [])
reliable = record {
  document = refl;
  obtained = refl;
  expires = refl;
  files = λ bs w e. read-write "/t" bs w refl;
}

token_path : default_token_path shell.host ≡ some "/t"
unfolding default_token_path
token_path = refl

logged_in : cmd_login shell flags [] [] ≡ (ok tt, ("/t", b'7' ∷ []) ∷ [])
unfolding cmd_login parse_embedded apply_file_overrides lookup fetch_csrf resolve_code
    follow_callback contains insert
logged_in = refl

cmd_login-IsStored_example :
    (sp : Spec) × (load_spec shell [] ≡ ok sp)
    × IsStored shell flags sp (("/t", b'7' ∷ []) ∷ ("other", []) ∷ [])
unfolding lookup
cmd_login-IsStored_example =
    cmd_login-IsStored shell flags "/t" (("/t", b'7' ∷ []) ∷ [])
      (("/t", b'7' ∷ []) ∷ ("other", []) ∷ []) token_path (λ text v. refl) (λ t name v v'. reliable)
      refl [] [] logged_in

abbrev upstream : UpstreamPatch
upstream = record {
  api_version = "2.19";
  base_url = "";
  session_cookie_name = "";
  endpoints = ("upload", "/up") ∷ [];
  model_identifiers = [];
}

abbrev files : Files
files = ("", b'3' ∷ []) ∷ []

embedded_lem : parse_embedded shell.host.codec shell.embedded ≡ ok blank_spec
unfolding parse_embedded
embedded_lem = refl

file_lem : decode_overrides (some (obj overrides)) ≡ ok file
unfolding decode_overrides
file_lem = refl

merged_lem :
    merge upstream (diff_patch blank_spec upstream) (entries overrides) ≡ some (entries merged)
unfolding merge diff_patch endpoint_key
merged_lem = refl

entries_injective : {a b : Fields} → some (entries a) ≡ some (entries b) → a ≡ b
entries_injective h = cc

abbrev drift : List SpecChange
drift =
    record { key = "api_version"; from = ""; to = "2.19" }
    ∷ record { key = "endpoints.upload"; from = ""; to = "/up" }
    ∷ []

drift_lem : diff_patch blank_spec upstream ≡ drift
unfolding diff_patch endpoint_key lookup
drift_lem = refl

parsed_lem : upstream ≡ parse_upstream constants ""
unfolding parse_upstream trim_text
parsed_lem = refl

fetched_lem : fetch_upstream shell constants_url files ≡ (ok constants, files)
unfolding fetch_upstream
fetched_lem = refl

fetched_models_lem : fetch_upstream shell models_url files ≡ (ok "", files)
unfolding fetch_upstream
fetched_models_lem = refl

abbrev before_sync : Spec
before_sync = record blank_spec {
  base_url = "https://file";
  endpoints = record blank_spec.endpoints { ask = "/a" };
}

loaded_lem : spec_load shell files ≡ ok before_sync
unfolding spec_load overrides_file lookup endpoint_key parse_embedded apply_file_overrides
    decode_overrides apply_env_overrides set_paths set
loaded_lem = refl

upload_known : is_known "upload" ≡ true
unfolding is_known endpoint_key
upload_known = refl

cmd_spec_sync-reload_example :
    ((cmd_spec_sync shell flags [] files).0 ≡ finished (ok tt))
    × IsSynced shell blank_spec upstream file "upload" (cmd_spec_sync shell flags [] files).1
unfolding lookup overrides_file
cmd_spec_sync-reload_example =
    cmd_spec_sync-reload shell blank_spec upstream
      (record { key = "api_version"; from = ""; to = "2.19" })
      (record { key = "endpoints.upload"; from = ""; to = "/up" } ∷ []) overrides file "upload"
      files embedded_lem drift_lem refl file_lem (tt, tt)
      (λ gs e. ap (λ f. some (obj f)) (entries_injective (sym merged_lem ∙ e)))
      (λ bs v e. read-write "" bs v refl) (λ dir v. refl) (λ bs v. refl) (λ text v. refl)
      upload_known flags [] constants "" files files before_sync parsed_lem refl fetched_lem
      fetched_models_lem loaded_lem

write_overrides-IsMerged_example :
    ((write_overrides shell upstream (diff_patch blank_spec upstream) files).0 ≡ finished (ok tt))
    × ((gs : Fields) × (existing shell.host.codec.parse (
            shell.disk.read
              (overrides_file shell.host)
              (write_overrides shell upstream (diff_patch blank_spec upstream) files).1)
          ≡ entries gs)
        × IsMerged upstream (diff_patch blank_spec upstream) overrides gs)
unfolding lookup overrides_file
write_overrides-IsMerged_example =
    write_overrides-IsMerged shell upstream (diff_patch blank_spec upstream) overrides files refl
      (λ dir v. refl) (λ bs v. refl) (λ bs v e. read-write "" bs v refl)
      (λ gs e. ap (λ f. some (obj f)) (entries_injective (sym merged_lem ∙ e)))

abbrev hesitant : Shell Files
hesitant = record shell { read_line = λ w. (("n", none), w) }

abbrev asking : Flags
asking = record flags { sync = λ args. ok false }

fetches : (url : String) (w : Files) → IsKept hesitant "" w (hesitant.http_get url w).1
fetches url w = elim (Bool-cases (url == constants_url)) [
  | inl first ↦ rw first refl
  | inr second ↦ rw second refl
]

refuses : (label : String) (w : Files) → IsRefusal hesitant "" (prompt hesitant label w).0
unfolding prompt trim_text
refuses label w = refl

cmd_spec_sync-IsKept_example : IsKept hesitant "" files (cmd_spec_sync hesitant asking [] files).1
cmd_spec_sync-IsKept_example =
    cmd_spec_sync-IsKept hesitant "" (λ text w. refl) (λ w. refl) fetches refuses asking [] files
      (λ e. cc)
