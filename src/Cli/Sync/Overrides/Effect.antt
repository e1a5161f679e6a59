-- ===== src/Cli/Sync/Overrides/Effect.antt =====
-- The effect of `writeOverrides` of cmd/pplx/commands_spec.go on the spec in force.
use perplexity_proxy_go.Prelude.{
  Bool, true, false, ◌≡◌, refl, Option, some, String, ◌⧺◌, if◌then◌else◌, lookup, Option-cases, inl,
  inr,
}
use perplexity_proxy_go.Errors.{ok}
use perplexity_proxy_go.Json.{obj, Fields}
use perplexity_proxy_go.Spec.Endpoints.{get, is_known}
use perplexity_proxy_go.Spec.Decode.{Spec}
use perplexity_proxy_go.Spec.Load.{Overrides, decode_overrides, override, patch}
use perplexity_proxy_go.Spec.Load.Precedence.{HasDistinctKeys, said, get-set_paths}
use perplexity_proxy_go.Cli.Sync.Upstream.{UpstreamPatch}
use perplexity_proxy_go.Cli.Sync.Drift.{differs, text_at, diff_patch, is_changed}
use perplexity_proxy_go.Cli.Sync.Drift.Changed.{
  is_changed-api_version, is_changed-base_url, is_changed-cookie, is_changed-endpoint,
}
use perplexity_proxy_go.Cli.Sync.Overrides.{entries, merge}
use perplexity_proxy_go.Cli.Sync.Overrides.Merged.{chosen, merge_endpoints-paths}
use perplexity_proxy_go.Cli.Sync.Overrides.Parts.{decode_overrides-merged, decode_overrides-inverse}
use perplexity_proxy_go.Cli.Sync.Overrides.Assigned.{merged, merge-entries}

-- The value in force after a sync: upstream's, where it has one and it is not the embedded one.
abbrev pub synced : String → String → String → String
synced embedded upstream old = if differs embedded upstream then upstream else old

override-synced :
    (c : Bool) (embedded upstream : String) (old : Option String)
    → c ≡ differs embedded upstream
    → override (if c then some upstream else old) embedded
      ≡ synced embedded upstream (override old embedded)
override-synced true embedded upstream old h = rw (← h) refl
override-synced false embedded upstream old h = rw (← h) refl

override-chosen :
    (base : Spec) (p : UpstreamPatch) (k : String) (old : Option String)
    → override
        (chosen (is_changed ("endpoints." ⧺ k) (diff_patch base p)) (lookup k p.endpoints) old)
        (get base.endpoints k)
      ≡ synced (get base.endpoints k) (text_at k p.endpoints) (override old (get base.endpoints k))
override-chosen base p k old = elim (Option-cases (lookup k p.endpoints)) [
  | inl absent ↦ rw absent refl
  | inr (path, found) ↦
      rw (found, is_changed-endpoint base p k path found)
        (override-synced _ (get base.endpoints k) path old refl)
]

-- The merge that a sync writes does not panic where the overrides that are there are an object that
-- the loader reads, with distinct endpoint keys, and the loader reads its result. Under the new
-- overrides the base URL, the API version, the cookie name and each endpoint are upstream's value
-- where upstream has one that is not the embedded one, and what the old overrides made them
-- otherwise.
pub merge-patch :
    (base : Spec) (p : UpstreamPatch) (fs : Fields) (ov : Overrides)
    → decode_overrides (some (obj fs)) ≡ ok ov
    → HasDistinctKeys ov.endpoints
    → (gs : Fields) × (new : Overrides) × (merge p (diff_patch base p) (entries fs)
        ≡ some (entries gs))
      × (decode_overrides (some (obj gs)) ≡ ok new)
      × HasDistinctKeys new.endpoints
      × ((patch new base).base_url ≡ synced base.base_url p.base_url (patch ov base).base_url)
      × ((patch new base).api_version
          ≡ synced base.api_version p.api_version (patch ov base).api_version)
      × ((patch new base).session_cookie_name
          ≡ synced base.session_cookie_name p.session_cookie_name
              (patch ov base).session_cookie_name)
      × ((k : String)
          → is_known k ≡ true
          → get (patch new base).endpoints k
            ≡ synced
                (get base.endpoints k)
                (text_at k p.endpoints)
                (get (patch ov base).endpoints k))
merge-patch base p fs ov h d =
    let cs = diff_patch base p in
    let (es, hb, ha, hc, he, hp) = decode_overrides-inverse fs ov h in
    let (qs, hq, dq, g) = merge_endpoints-paths p.endpoints cs es ov.endpoints hp d in
    (
      merged p cs fs,
      _,
      merge-entries p cs fs,
      decode_overrides-merged p cs fs es _ _ _ ov.endpoints qs hb ha hc he hq,
      dq,
      override-synced _ base.base_url p.base_url ov.base_url (is_changed-base_url base p),
      override-synced _ base.api_version p.api_version ov.api_version
          (is_changed-api_version base p),
      override-synced _ base.session_cookie_name p.session_cookie_name ov.session_cookie_name
          (is_changed-cookie base p),
      λ k known.
          rw
            (
              get-set_paths qs base.endpoints k dq known,
              get-set_paths ov.endpoints base.endpoints k d known,
              g k,
            )
            (override-chosen base p k (said (lookup k ov.endpoints))),
    )
