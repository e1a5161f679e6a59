-- ===== src/Cli/Sync/Command/Kept.antt =====
-- What a sync of cmd/pplx/commands_spec.go keeps of the overrides file that is there.
use perplexity_proxy_go.Prelude.{◌≡◌, refl, List, String, Option, none, Bytes, some}
use perplexity_proxy_go.Json.{Fields, obj}
use perplexity_proxy_go.Spec.Load.{content}
use perplexity_proxy_go.Errors.{Failure, ok}
use perplexity_proxy_go.Cli.Shell.{Shell, overrides_file}
use perplexity_proxy_go.Cli.Sync.Upstream.{UpstreamPatch}
use perplexity_proxy_go.Cli.Sync.Drift.{SpecChange}
use perplexity_proxy_go.Cli.Sync.Overrides.{entries, existing, merge}
use perplexity_proxy_go.Cli.Sync.Overrides.Kept.{IsMerged, merge-IsMerged}
use perplexity_proxy_go.Cli.Sync.Command.{
  finished, document, filepath_dir, made, ended, write_overrides,
}

module _ {W : Type 0} (sh : Shell W) where
  ended-written : (d : Option Failure × W) → d.0 ≡ none → ended sh d ≡ (finished (ok tt), d.1)
  ended-written (none, w) h = refl
  ended-written (some e, w) h = absurd cc

  made-written :
      (bs : Bytes) (d : Option Failure × W)
      → d.0 ≡ none
      → ((v : W) → (sh.disk.write (overrides_file sh.host) bs v).0 ≡ none)
      → made sh bs d ≡ (finished (ok tt), (sh.disk.write (overrides_file sh.host) bs d.1).1)
  made-written bs (none, w) h k = ended-written (sh.disk.write (overrides_file sh.host) bs w) (k w)
  made-written bs (some e, w) h k = absurd cc

  -- What `writeOverrides` writes, for any upstream values and changes. Suppose that the overrides that
  -- are there, an empty object where the file is missing or cannot be parsed, are an object; that the
  -- directory can be made; that the file can be written, and is read as it was written; and that the
  -- new overrides are parsed as they were printed. Then it ends without an error, and the overrides
  -- that are read after it are an object. Its endpoint paths and its other keys, "endpoints" apart, are
  -- upstream's where upstream has one and it is among the changes, and otherwise what was there before,
  -- absent keys and keys that pplx does not know included.
  pub write_overrides-IsMerged :
      (p : UpstreamPatch) (cs : List SpecChange) (fs : Fields) (w : W)
      → existing sh.host.codec.parse (sh.disk.read (overrides_file sh.host) w) ≡ entries fs
      → ((dir : String) (v : W) → (sh.make_dir dir v).0 ≡ none)
      → ((bs : Bytes) (v : W) → (sh.disk.write (overrides_file sh.host) bs v).0 ≡ none)
      → ((bs : Bytes) (v : W)
          → (sh.disk.write (overrides_file sh.host) bs v).0 ≡ none
          → sh.disk.read (overrides_file sh.host) (sh.disk.write (overrides_file sh.host) bs v).1
            ≡ content bs)
      → ((gs : Fields)
          → merge p cs (entries fs) ≡ some (entries gs)
          → sh.host.codec.parse (document sh (entries gs)) ≡ some (obj gs))
      → ((write_overrides sh p cs w).0 ≡ finished (ok tt))
        × ((gs : Fields) × (existing sh.host.codec.parse
                (sh.disk.read (overrides_file sh.host) (write_overrides sh p cs w).1)
              ≡ entries gs)
            × IsMerged p cs fs gs)
  unfolding write_overrides
  write_overrides-IsMerged p cs fs w there dirs writes kept printed =
      let (gs, new, keys) = merge-IsMerged p cs fs in
      let bs = document sh (entries gs) in
      let d = sh.make_dir (filepath_dir (overrides_file sh.host)) w in
      let ran = made-written bs d (dirs _ w) (writes bs) in
      rw (there, new, ran, kept bs d.1 (writes bs d.1), printed gs new) (refl, (gs, refl, keys))
