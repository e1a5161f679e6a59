-- ===== src/Cli/Sync/Command/Raw.antt =====
-- The embedded spec that `cmdSpecSync` of cmd/pplx/commands_spec.go reads again from the raw text of
-- the loaded one.
use perplexity_proxy_go.Prelude.{◌≡◌, refl, ap, sym, ◌∙◌, List, [], ◌∷◌, Option, String, Bytes, ◌⧺◌}
use perplexity_proxy_go.Errors.{Failure, wrapped, Result, ok, err, ◌>>=◌}
use perplexity_proxy_go.Act.{wrap_result}
use perplexity_proxy_go.Json.{Value, at, to_str, to_struct, to_slice, to_document}
use perplexity_proxy_go.Spec.Decode.{
  Spec, decode_endpoints, decode_headers, decode_defaults, decode_models, decode_spec,
  parse_embedded,
}
use perplexity_proxy_go.Spec.Load.{
  FileRead, missing, unreadable, content, patch, decode_overrides, apply_file_overrides,
  apply_env_overrides, load,
}
use perplexity_proxy_go.Json.{Codec}
use perplexity_proxy_go.Cli.Shell.{Shell, spec_load, overrides_file}
use perplexity_proxy_go.Cli.Sync.Upstream.{UpstreamPatch}
use perplexity_proxy_go.Cli.Sync.Drift.{keys_of, sort, add_endpoints, diff_patch}
use perplexity_proxy_go.Cli.Sync.Overrides.Merged.{bind-ok}
use perplexity_proxy_go.Cli.Sync.Command.{embedded_of}

abbrev pub with_raw : Bytes → Spec → Spec
with_raw raw s = record s { raw = raw }

ok_injective : {a b : Spec} → ok a ≡ ok b → a ≡ b
ok_injective h = cc

abbrev map_ok : (Spec → Spec) → Result Spec → Result Spec
map_ok f (ok s) = ok (f s)
map_ok f (err e) = err e

bind-map_ok :
    {A : Type 0} (f : Spec → Spec) (m : Result A) (g g' : A → Result Spec)
    → ((a : A) → g' a ≡ map_ok f (g a))
    → (m >>= g') ≡ map_ok f (m >>= g)
bind-map_ok f (ok a) g g' h = h a
bind-map_ok f (err e) g g' h = refl

-- the raw text that the decoder is given has no influence but on that field
decode_spec-with_raw :
    (doc : Option Value) (raw other : Bytes)
    → decode_spec doc other ≡ map_ok (with_raw other) (decode_spec doc raw)
unfolding decode_spec
decode_spec-with_raw doc raw other =
    let f = with_raw other in
    bind-map_ok f (to_document doc) _ _ λ fs. bind-map_ok f (to_str (at "base_url" fs)) _ _ λ b.
      bind-map_ok f (to_str (at "api_version" fs)) _ _ λ a.
        bind-map_ok f (to_str (at "session_cookie_name" fs)) _ _ λ c.
          bind-map_ok f (to_struct (at "endpoints" fs)) _ _ λ es.
            bind-map_ok f (decode_endpoints es) _ _ λ endpoints.
              bind-map_ok f (to_struct (at "headers" fs)) _ _ λ hs.
                bind-map_ok f (decode_headers hs) _ _ λ headers.
                  bind-map_ok f (to_struct (at "defaults" fs)) _ _ λ ds.
                    bind-map_ok f (decode_defaults ds) _ _ λ defaults.
                      bind-map_ok f (to_slice (at "models" fs)) _ _
                        λ vs. bind-map_ok f (decode_models vs) _ _ λ models. refl

decode_spec-raw :
    (doc : Option Value) (raw other : Bytes) (s : Spec)
    → decode_spec doc raw ≡ ok s
    → (decode_spec doc other ≡ ok (with_raw other s)) × (s.raw ≡ raw)
decode_spec-raw doc raw other s h = (
  decode_spec-with_raw doc raw other ∙ ap (map_ok (with_raw other)) h,
  ap (λ v. v.raw)
      (ok_injective (sym h ∙ decode_spec-with_raw doc raw raw ∙ ap (map_ok (with_raw raw)) h)),
)

wrap_result-ok :
    (r : Result Spec) (f : Failure → Failure) (s : Spec) → wrap_result r f ≡ ok s → r ≡ ok s
wrap_result-ok (ok a) f s h = h
wrap_result-ok (err e) f s h = absurd cc

file-raw :
    (codec : Codec) (path : String) (file : FileRead) (base s : Spec)
    → apply_file_overrides codec path file base ≡ ok s
    → s.raw ≡ base.raw
unfolding apply_file_overrides
file-raw codec path missing base s h = ap (λ v. v.raw) (sym (ok_injective h))
file-raw codec path (unreadable e) base s h = absurd cc
file-raw codec path (content bs) base s h =
    let (ov, e, g) =
      bind-ok
        (wrap_result (decode_overrides (codec.parse bs))
          (λ e. wrapped ("parse spec overrides " ⧺ path ⧺ ": ") e ""))
        (λ o. ok (patch o base)) s h in
    ap (λ v. v.raw) (sym (ok_injective g))

module _ {W : Type 0} (sh : Shell W) where
  spec_load-raw :
      (w : W) (base s : Spec)
      → parse_embedded sh.host.codec sh.embedded ≡ ok base
      → spec_load sh w ≡ ok s
      → s.raw ≡ base.raw
  unfolding spec_load load apply_env_overrides
  spec_load-raw w base s e h =
      let rest = rw e at h in
      let (s', f, g) =
        bind-ok
          (apply_file_overrides sh.host.codec (overrides_file sh.host)
            (sh.disk.read (overrides_file sh.host) w) base)
          (λ v. ok (apply_env_overrides sh.host.env v)) s rest in
      ap (λ v. v.raw) (sym (ok_injective g)) ∙ file-raw _ _ _ base s' f

  -- the spec that the drift is computed against
  pub embedded_of-load :
      (w : W) (base s : Spec)
      → parse_embedded sh.host.codec sh.embedded ≡ ok base
      → spec_load sh w ≡ ok s
      → embedded_of sh (spec_load sh w) ≡ ok (with_raw [] base)
  unfolding parse_embedded
  embedded_of-load w base s e h =
      let decoded =
        wrap_result-ok (decode_spec (sh.host.codec.parse sh.embedded) sh.embedded) _ base e in
      let (again, raw) =
        decode_spec-raw (sh.host.codec.parse sh.embedded) sh.embedded [] base decoded in
      let same = spec_load-raw w base s e h ∙ raw in rw (h, same, again) refl

add_endpoints-raw :
    (base : Spec) (raw : Bytes) (p : UpstreamPatch) (ks : List String)
    → add_endpoints (with_raw raw base) p ks ≡ add_endpoints base p ks
unfolding add_endpoints
add_endpoints-raw base raw p [] = refl
add_endpoints-raw base raw p (k ∷ ks) = rw (add_endpoints-raw base raw p ks) refl

pub diff_patch-raw :
    (base : Spec) (raw : Bytes) (p : UpstreamPatch)
    → diff_patch (with_raw raw base) p ≡ diff_patch base p
unfolding diff_patch
diff_patch-raw base raw p = rw (add_endpoints-raw base raw p (sort (keys_of p.endpoints))) refl
