-- ===== src/Cli/Sync/Drift/Changed.antt =====
-- Which keys `diffPatch` of cmd/pplx/commands_spec.go reports.
use perplexity_proxy_go.Prelude.{
  Bool, true, false, ◌&&◌, ◌||◌, ◌≡◌, refl, ◌∙◌, List, [], ◌∷◌, ◌++◌, some, String, ◌⧺◌, ◌==◌,
  eq_iff, lookup, Bool-cases, inl, inr, drop_prefix, drop_prefix-append, arith, sym, ap,
  starts_with, eq_refl,
}
use mathlib.Core.Bool.{false≢true}
use text.Mathlib.TextPositions.{starts_with-append}
use perplexity_proxy_go.Spec.Endpoints.{get}
use perplexity_proxy_go.Spec.Decode.{Spec}
use perplexity_proxy_go.Cli.Sync.Upstream.{UpstreamPatch}
use perplexity_proxy_go.Cli.Sync.Drift.{
  SpecChange, precedes, place, sort, differs, add, text_at, or_empty, keys_of, add_endpoints,
  diff_patch, is_changed,
}

is_changed-append :
    (key : String) (cs ds : List SpecChange)
    → is_changed key (cs ++ ds) ≡ (is_changed key cs || is_changed key ds)
unfolding is_changed
is_changed-append key [] ds = refl
is_changed-append key (c ∷ cs) ds = rw (is_changed-append key cs ds) (ground arith)

is_changed-add :
    (key j from to : String) → is_changed key (add j from to) ≡ (differs from to && j == key)
unfolding is_changed
is_changed-add key j from to = elim (Bool-cases (differs from to)) [
  | inl d ↦ rw d (ground arith)
  | inr d ↦ rw d refl
]

abbrev is_listed : String → List String → Bool
is_listed k [] = false
is_listed k (j ∷ js) = j == k || is_listed k js

is_listed-place :
    (k j : String) (js : List String) → is_listed k (place j js) ≡ (j == k || is_listed k js)
unfolding place
is_listed-place k j [] = refl
is_listed-place k j (i ∷ js) = elim (Bool-cases (precedes i j)) [
  | inl b ↦ rw (b, is_listed-place k j js) (ground arith)
  | inr b ↦ rw b refl
]

is_listed-sort : (k : String) (ks : List String) → is_listed k (sort ks) ≡ is_listed k ks
unfolding sort
is_listed-sort k [] = refl
is_listed-sort k (j ∷ ks) = is_listed-place k j (sort ks) ∙ rw (is_listed-sort k ks) refl

is_listed-keys_of :
    (k path : String) (m : List (String × String))
    → lookup k m ≡ some path
    → is_listed k (keys_of m) ≡ true
unfolding lookup
is_listed-keys_of k path [] h = cc
is_listed-keys_of k path ((j, v) ∷ m) h = elim (Bool-cases (j == k)) [
  | inl same ↦ rw same refl
  | inr differ ↦ rw differ (is_listed-keys_of k path m (rw differ at h))
]

differ_of_ne : (s t : String) → (s ≡ t → ⊥) → (s == t) ≡ false
differ_of_ne s t h = ground (eq_iff s t, arith)

ne_of_differ : (s t : String) → (s == t) ≡ false → s ≡ t → ⊥
ne_of_differ s t h e = ground (eq_iff s t, arith)

same_endpoint : (j k : String) → ("endpoints." ⧺ j == "endpoints." ⧺ k) ≡ (j == k)
same_endpoint j k = elim (Bool-cases (j == k)) [
  | inl same ↦ rw ((eq_iff j k).0 same, eq_refl, eq_refl) refl
  | inr differ ↦ rw differ (
      differ_of_ne _ _ λ (e : "endpoints." ⧺ j ≡ "endpoints." ⧺ k). ne_of_differ j k differ (
        sym (drop_prefix-append "endpoints." j)
        ∙ ap (λ s. drop_prefix s "endpoints.") e
        ∙ drop_prefix-append "endpoints." k))
]

no_endpoint : (t k : String) → starts_with t "endpoints." ≡ false → ("endpoints." ⧺ k == t) ≡ false
no_endpoint t k h =
    differ_of_ne _ _ λ (e : "endpoints." ⧺ k ≡ t).
      false≢true (sym h ∙ rw (← e) (starts_with-append "endpoints." k))

endpoint_ne : (t k : String) → starts_with t "endpoints." ≡ false → (t == "endpoints." ⧺ k) ≡ false
endpoint_ne t k h =
    differ_of_ne _ _ λ (e : t ≡ "endpoints." ⧺ k). ne_of_differ _ _ (no_endpoint t k h) (sym e)

is_changed-add_endpoints :
    (base : Spec) (p : UpstreamPatch) (k : String) (ks : List String)
    → is_changed ("endpoints." ⧺ k) (add_endpoints base p ks)
      ≡ (is_listed k ks && differs (get base.endpoints k) (text_at k p.endpoints))
unfolding add_endpoints is_changed
is_changed-add_endpoints base p k [] = refl
is_changed-add_endpoints base p k (j ∷ ks) =
    rw (is_changed-append, is_changed-add, same_endpoint, is_changed-add_endpoints base p k ks)
      (elim (Bool-cases (j == k)) [
        | inl same ↦ rw (same, (eq_iff j k).0 same) (ground arith)
        | inr differ ↦ rw differ (ground arith)
      ])

is_changed-add_endpoints_none :
    (base : Spec) (p : UpstreamPatch) (t : String) (ks : List String)
    → starts_with t "endpoints." ≡ false
    → is_changed t (add_endpoints base p ks) ≡ false
unfolding add_endpoints is_changed
is_changed-add_endpoints_none base p t [] h = refl
is_changed-add_endpoints_none base p t (k ∷ ks) h =
    rw
      (
        is_changed-append,
        is_changed-add,
        no_endpoint t k h,
        is_changed-add_endpoints_none base p t ks h,
      )
      (ground arith)

is_changed-diff_patch :
    (base : Spec) (p : UpstreamPatch) (t : String)
    → is_changed t (diff_patch base p) ≡ (
        differs base.api_version p.api_version && "api_version" == t
        || differs base.base_url p.base_url && "base_url" == t
        || differs base.session_cookie_name p.session_cookie_name && "session_cookie_name" == t
        || is_changed t (add_endpoints base p (sort (keys_of p.endpoints))))
unfolding diff_patch
is_changed-diff_patch base p t =
    rw
      (
        is_changed-append,
        is_changed-append,
        is_changed-append,
        is_changed-add t "api_version" base.api_version p.api_version,
        is_changed-add t "base_url" base.base_url p.base_url,
        is_changed-add t "session_cookie_name" base.session_cookie_name p.session_cookie_name,
      )
      refl

pub is_changed-api_version :
    (base : Spec) (p : UpstreamPatch)
    → is_changed "api_version" (diff_patch base p) ≡ differs base.api_version p.api_version
is_changed-api_version base p =
    rw (is_changed-diff_patch, is_changed-add_endpoints_none base p "api_version" _ refl)
      (ground arith)

pub is_changed-base_url :
    (base : Spec) (p : UpstreamPatch)
    → is_changed "base_url" (diff_patch base p) ≡ differs base.base_url p.base_url
is_changed-base_url base p =
    rw (is_changed-diff_patch, is_changed-add_endpoints_none base p "base_url" _ refl)
      (ground arith)

pub is_changed-cookie :
    (base : Spec) (p : UpstreamPatch)
    → is_changed "session_cookie_name" (diff_patch base p)
      ≡ differs base.session_cookie_name p.session_cookie_name
is_changed-cookie base p =
    rw (is_changed-diff_patch, is_changed-add_endpoints_none base p "session_cookie_name" _ refl)
      (ground arith)

pub text_at-some :
    (k v : String) (m : List (String × String)) → lookup k m ≡ some v → text_at k m ≡ v
text_at-some k v m h = ap or_empty h

pub is_changed-endpoint :
    (base : Spec) (p : UpstreamPatch) (k path : String)
    → lookup k p.endpoints ≡ some path
    → is_changed ("endpoints." ⧺ k) (diff_patch base p) ≡ differs (get base.endpoints k) path
is_changed-endpoint base p k path h =
    rw
      (
        is_changed-diff_patch,
        endpoint_ne "api_version" k refl,
        endpoint_ne "base_url" k refl,
        endpoint_ne "session_cookie_name" k refl,
        is_changed-add_endpoints,
        is_listed-sort,
        is_listed-keys_of k path _ h,
        text_at-some k path p.endpoints h,
      )
      (ground arith)
