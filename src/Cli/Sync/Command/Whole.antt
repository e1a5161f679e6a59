-- ===== src/Cli/Sync/Command/Whole.antt =====
-- A run of `cmdSpecSync` of cmd/pplx/commands_spec.go with --yes, from start to end.
use mathlib.Core.Path.{subst}
use perplexity_proxy_go.Prelude.{
  ◌≡◌, refl, ◌∙◌, ap, sym, List, [], ◌∷◌, none, some, String, Bytes, true,
}
use perplexity_proxy_go.Errors.{ok, err}
use perplexity_proxy_go.Json.{Fields, obj}
use perplexity_proxy_go.Spec.Endpoints.{is_known}
use perplexity_proxy_go.Spec.Decode.{Spec, parse_embedded}
use perplexity_proxy_go.Spec.Load.{Overrides, content, decode_overrides}
use perplexity_proxy_go.Spec.Load.Precedence.{HasDistinctKeys}
use perplexity_proxy_go.Cli.Shell.{Shell, Flags, spec_load, overrides_file}
use perplexity_proxy_go.Cli.Sync.Upstream.{UpstreamPatch, parse_upstream}
use perplexity_proxy_go.Cli.Sync.Drift.{SpecChange, diff_patch}
use perplexity_proxy_go.Cli.Sync.Overrides.{entries, existing, merge}
use perplexity_proxy_go.Cli.Sync.Command.{
  Ending, finished, panicked, document, announced, report, drifted, compared, embedded_of,
  fetch_upstream, constants_url, models_url, write_overrides, cmd_spec_sync,
}
use perplexity_proxy_go.Cli.Sync.Command.Raw.{with_raw, embedded_of-load, diff_patch-raw}
use perplexity_proxy_go.Cli.Sync.Command.Reload.{
  IsSynced, write_overrides-finished, write_overrides-reload,
}

module _ {W : Type 0} (sh : Shell W) where
  announced-ok :
      (d : Ending × W) (w' : W)
      → announced sh d ≡ (finished (ok tt), w')
      → (w : W) × (text : String) × (d ≡ (finished (ok tt), w)) × (sh.say text w ≡ w')
  announced-ok (finished (ok _), w) w' h = (w, _, refl, ap (λ e. e.1) h)
  announced-ok (finished (err e), w) w' h = absurd cc
  announced-ok (panicked, w) w' h = absurd cc

  announced_finished :
      (d : Ending × W) → d.0 ≡ finished (ok tt) → (announced sh d).0 ≡ finished (ok tt)
  announced_finished (finished (ok _), w) h = refl
  announced_finished (finished (err e), w) h = absurd cc
  announced_finished (panicked, w) h = absurd cc

  spec_load_quiet :
      (text : String) (v : W)
      → sh.disk.read (overrides_file sh.host) (sh.say text v)
        ≡ sh.disk.read (overrides_file sh.host) v
      → spec_load sh (sh.say text v) ≡ spec_load sh v
  unfolding spec_load
  spec_load_quiet text v h = rw h refl

  cmd_spec_sync-drifted :
      (flags : Flags) (args : List String) (constants models : String) (w w1 w2 : W) (base : Spec)
      (p : UpstreamPatch) (result : Ending × W)
      → flags.sync args ≡ ok true
      → fetch_upstream sh constants_url w ≡ (ok constants, w1)
      → fetch_upstream sh models_url w1 ≡ (ok models, w2)
      → embedded_of sh (spec_load sh w2) ≡ ok base
      → parse_upstream constants models ≡ p
      → cmd_spec_sync sh flags args w ≡ result
      → drifted sh true base p (diff_patch base p) w2 ≡ result
  unfolding cmd_spec_sync
  cmd_spec_sync-drifted flags args constants models w w1 w2 base p result agreed fetched fetched'
        loaded parsed ran =
      let went : compared sh true constants models (ok base) w2 ≡ result =
        rw (agreed, fetched, fetched', loaded) at ran in
      subst (λ q. drifted sh true base q (diff_patch base q) w2 ≡ result) parsed went

  module _ (base : Spec) (p : UpstreamPatch) (c : SpecChange) (cs : List SpecChange) (fs : Fields)
      (ov : Overrides) (k : String) (w2 : W)
      (embedded : parse_embedded sh.host.codec sh.embedded ≡ ok base)
      (drift : diff_patch base p ≡ c ∷ cs)
      (there : existing sh.host.codec.parse (sh.disk.read (overrides_file sh.host) w2) ≡ entries fs)
      (decoded : decode_overrides (some (obj fs)) ≡ ok ov) (distinct : HasDistinctKeys ov.endpoints)
      (printed : (gs : Fields)
        → merge p (diff_patch base p) (entries fs) ≡ some (entries gs)
        → sh.host.codec.parse (document sh (entries gs)) ≡ some (obj gs))
      (kept : (bs : Bytes) (v : W)
        → (sh.disk.write (overrides_file sh.host) bs v).0 ≡ none
        → sh.disk.read (overrides_file sh.host) (sh.disk.write (overrides_file sh.host) bs v).1
          ≡ content bs)
      (dirs : (dir : String) (v : W) → (sh.make_dir dir v).0 ≡ none)
      (writes : (bs : Bytes) (v : W) → (sh.disk.write (overrides_file sh.host) bs v).0 ≡ none)
      (quiet : (text : String) (v : W)
        → sh.disk.read (overrides_file sh.host) (sh.say text v)
          ≡ sh.disk.read (overrides_file sh.host) v)
      (known : is_known k ≡ true) where
    drifted-reload :
        (w' : W)
        → drifted sh true (with_raw [] base) p (c ∷ cs) w2 ≡ (finished (ok tt), w')
        → IsSynced sh base p ov k w'
    drifted-reload w' ran =
        let (w'', text, wrote, last) = announced-ok _ w' ran in
        let said = quiet (report sh (with_raw [] base) p (c ∷ cs)) w2 in
        let (s, loaded, url, version, cookie, path) =
          write_overrides-reload sh base p fs ov
            (sh.say (report sh (with_raw [] base) p (c ∷ cs)) w2) w'' k embedded
            (ap (existing sh.host.codec.parse) said ∙ there) decoded distinct printed kept known
            (rw drift wrote) in
        rw (← last)
          (s, spec_load_quiet text w'' (quiet text w'') ∙ loaded, url, version, cookie, path)

    drifted-finished : (drifted sh true (with_raw [] base) p (c ∷ cs) w2).0 ≡ finished (ok tt)
    drifted-finished =
        let v = sh.say (report sh (with_raw [] base) p (c ∷ cs)) w2 in
        announced_finished (write_overrides sh p (c ∷ cs) v) (
          rw drift at (
            write_overrides-finished sh base p fs ov v
              (ap (existing sh.host.codec.parse) (quiet _ w2) ∙ there) decoded distinct dirs
              writes))

    -- What `pplx spec sync --yes` does from start to end, where both sources are fetched and upstream
    -- differs from the embedded spec. Suppose that the overrides that are there, an empty object where
    -- the file is missing or cannot be parsed, are an object that the loader reads, with distinct
    -- endpoint keys; that the spec loads; that the new overrides are parsed as they were printed; that
    -- directory and file can be written, and the file is read as it was written; and that printing
    -- changes no file. Then the run ends without an error, and the spec loads after it. Its base URL,
    -- API version, cookie name and each endpoint are upstream's value where upstream has one that is
    -- not the embedded one, and what they were under the old overrides otherwise, with the
    -- environment's values above them.
    pub cmd_spec_sync-reload :
        (flags : Flags) (args : List String) (constants models : String) (w w1 : W) (sp : Spec)
        → p ≡ parse_upstream constants models
        → flags.sync args ≡ ok true
        → fetch_upstream sh constants_url w ≡ (ok constants, w1)
        → fetch_upstream sh models_url w1 ≡ (ok models, w2)
        → spec_load sh w2 ≡ ok sp
        → ((cmd_spec_sync sh flags args w).0 ≡ finished (ok tt))
          × IsSynced sh base p ov k (cmd_spec_sync sh flags args w).1
    cmd_spec_sync-reload flags args constants models w w1 sp parsed agreed fetched fetched' loaded =
        let went =
          cmd_spec_sync-drifted flags args constants models w w1 w2 (with_raw [] base) p
            (cmd_spec_sync sh flags args w) agreed fetched fetched'
            (embedded_of-load sh w2 base sp embedded loaded) (sym parsed) refl in
        let ran = rw (diff_patch-raw base [] p, drift) at went in
        let success = ap (λ d. d.0) (sym ran) ∙ drifted-finished in
        (
          success,
          drifted-reload (cmd_spec_sync sh flags args w).1
              (ran ∙ ap (λ e. (e, (cmd_spec_sync sh flags args w).1)) success),
        )
