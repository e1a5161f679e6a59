-- ===== src/Cli/Sync/Command/Reload.antt =====
-- The spec that is loaded after a sync, of cmd/pplx/commands_spec.go and internal/spec/spec.go.
use perplexity_proxy_go.Prelude.{
  true, ◌≡◌, refl, ◌∙◌, ap, sym, Option, none, some, String, Bytes, ◌==◌, if◌then◌else◌,
}
use perplexity_proxy_go.Errors.{Failure, ok}
use perplexity_proxy_go.Json.{Fields, obj}
use perplexity_proxy_go.Spec.Endpoints.{get, is_known}
use perplexity_proxy_go.Spec.Decode.{Spec, parse_embedded}
use perplexity_proxy_go.Spec.Load.{
  Overrides, content, decode_overrides, patch, env_or, apply_file_overrides, apply_env_overrides,
  load,
}
use perplexity_proxy_go.Spec.Load.Precedence.{HasDistinctKeys, get-env_ask}
use perplexity_proxy_go.Cli.Shell.{Shell, spec_load, overrides_file}
use perplexity_proxy_go.Cli.Sync.Upstream.{UpstreamPatch}
use perplexity_proxy_go.Cli.Sync.Drift.{diff_patch, text_at}
use perplexity_proxy_go.Cli.Sync.Overrides.{entries, existing, merge}
use perplexity_proxy_go.Cli.Sync.Overrides.Effect.{synced, merge-patch}
use perplexity_proxy_go.Cli.Sync.Command.{
  finished, document, filepath_dir, made, ended, write_overrides,
}

module _ {W : Type 0} (sh : Shell W) where
  ended-ok :
      (d : Option Failure × W) (w' : W)
      → ended sh d ≡ (finished (ok tt), w')
      → (d.0 ≡ none) × (d.1 ≡ w')
  ended-ok (none, w) w' h = (refl, ap (λ e. e.1) h)
  ended-ok (some e, w) w' h = absurd cc

  made-ok :
      (bs : Bytes) (d : Option Failure × W) (w' : W)
      → made sh bs d ≡ (finished (ok tt), w')
      → ((sh.disk.write (overrides_file sh.host) bs d.1).0 ≡ none)
        × ((sh.disk.write (overrides_file sh.host) bs d.1).1 ≡ w')
  made-ok bs (none, w) w' h = ended-ok (sh.disk.write (overrides_file sh.host) bs w) w' h
  made-ok bs (some e, w) w' h = absurd cc

  ended-none : (d : Option Failure × W) → d.0 ≡ none → (ended sh d).0 ≡ finished (ok tt)
  ended-none (none, w) h = refl
  ended-none (some e, w) h = absurd cc

  made-none :
      (bs : Bytes) (d : Option Failure × W)
      → d.0 ≡ none
      → ((v : W) → (sh.disk.write (overrides_file sh.host) bs v).0 ≡ none)
      → (made sh bs d).0 ≡ finished (ok tt)
  made-none bs (none, w) h k = ended-none (sh.disk.write (overrides_file sh.host) bs w) (k w)
  made-none bs (some e, w) h k = absurd cc

  -- neither a panic nor an error, where the file can be written
  pub write_overrides-finished :
      (base : Spec) (p : UpstreamPatch) (fs : Fields) (ov : Overrides) (w : W)
      → existing sh.host.codec.parse (sh.disk.read (overrides_file sh.host) w) ≡ entries fs
      → decode_overrides (some (obj fs)) ≡ ok ov
      → HasDistinctKeys ov.endpoints
      → ((dir : String) (v : W) → (sh.make_dir dir v).0 ≡ none)
      → ((bs : Bytes) (v : W) → (sh.disk.write (overrides_file sh.host) bs v).0 ≡ none)
      → (write_overrides sh p (diff_patch base p) w).0 ≡ finished (ok tt)
  unfolding write_overrides
  write_overrides-finished base p fs ov w there decoded distinct dirs writes =
      let (gs, new, merged, _, _, _, _, _, _) = merge-patch base p fs ov decoded distinct in
      rw (there, merged)
        (made-none (document sh (entries gs))
          (sh.make_dir (filepath_dir (overrides_file sh.host)) w) (dirs _ w)
          (writes (document sh (entries gs))))

  spec_load-content :
      (bs : Bytes) (w : W) (base : Spec) (ov : Overrides)
      → sh.disk.read (overrides_file sh.host) w ≡ content bs
      → parse_embedded sh.host.codec sh.embedded ≡ ok base
      → decode_overrides (sh.host.codec.parse bs) ≡ ok ov
      → spec_load sh w ≡ ok (apply_env_overrides sh.host.env (patch ov base))
  unfolding spec_load load apply_file_overrides
  spec_load-content bs w base ov r h k = rw (r, h, k) refl

  -- A spec is loaded in the world, with the values of upstream over the old overrides, and those of
  -- the environment over both; `k` is an endpoint.
  abbrev pub IsSynced : Spec → UpstreamPatch → Overrides → String → W → Type 0
  IsSynced base p ov k w =
      (s : Spec) × (spec_load sh w ≡ ok s)
      × (s.base_url
          ≡ env_or (sh.host.env "PPLX_BASE_URL")
              (synced base.base_url p.base_url (patch ov base).base_url))
      × (s.api_version
          ≡ env_or (sh.host.env "PPLX_API_VERSION")
              (synced base.api_version p.api_version (patch ov base).api_version))
      × (s.session_cookie_name
          ≡ env_or (sh.host.env "PPLX_SESSION_COOKIE_NAME") (
              synced base.session_cookie_name p.session_cookie_name
                (patch ov base).session_cookie_name))
      × (get s.endpoints k ≡ (
          if "ask" == k
          then env_or (sh.host.env "PPLX_ENDPOINT_ASK") (
              synced (get base.endpoints k) (text_at k p.endpoints)
                (get (patch ov base).endpoints k))
          else synced (get base.endpoints k) (text_at k p.endpoints)
              (get (patch ov base).endpoints k)))

  pub write_overrides-reload :
      (base : Spec) (p : UpstreamPatch) (fs : Fields) (ov : Overrides) (w w' : W) (k : String)
      → parse_embedded sh.host.codec sh.embedded ≡ ok base
      → existing sh.host.codec.parse (sh.disk.read (overrides_file sh.host) w) ≡ entries fs
      → decode_overrides (some (obj fs)) ≡ ok ov
      → HasDistinctKeys ov.endpoints
      → ((gs : Fields)
          → merge p (diff_patch base p) (entries fs) ≡ some (entries gs)
          → sh.host.codec.parse (document sh (entries gs)) ≡ some (obj gs))
      → ((bs : Bytes) (v : W)
          → (sh.disk.write (overrides_file sh.host) bs v).0 ≡ none
          → sh.disk.read (overrides_file sh.host) (sh.disk.write (overrides_file sh.host) bs v).1
            ≡ content bs)
      → is_known k ≡ true
      → write_overrides sh p (diff_patch base p) w ≡ (finished (ok tt), w')
      → IsSynced base p ov k w'
  unfolding write_overrides apply_env_overrides
  write_overrides-reload base p fs ov w w' k embedded there decoded distinct printed kept known
        wrote =
      let (gs, new, merged, decoded', distinct', base_url, version, cookie, paths) =
        merge-patch base p fs ov decoded distinct in
      let went : made sh (document sh (entries gs))
            (sh.make_dir (filepath_dir (overrides_file sh.host)) w)
          ≡ (finished (ok tt), w') =
        rw (there, merged) at wrote in
      let (success, end_state) = made-ok _ _ w' went in
      let reread =
        ap (λ v. sh.disk.read (overrides_file sh.host) v) (sym end_state) ∙ kept _ _ success in
      (
        apply_env_overrides sh.host.env (patch new base),
        spec_load-content (document sh (entries gs)) w' base new reread embedded
            (rw (printed gs merged) decoded'),
        ap (λ v. env_or (sh.host.env "PPLX_BASE_URL") v) base_url,
        ap (λ v. env_or (sh.host.env "PPLX_API_VERSION") v) version,
        ap (λ v. env_or (sh.host.env "PPLX_SESSION_COOKIE_NAME") v) cookie,
        get-env_ask (sh.host.env "PPLX_ENDPOINT_ASK") (patch new base).endpoints k
            ∙ rw (paths k known) refl,
      )
