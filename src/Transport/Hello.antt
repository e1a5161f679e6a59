-- ===== src/Transport/Hello.antt =====
-- internal/transport/chrome_hello.go: the ClientHello that a connection presents. The extensions of
-- the library utls are of two kinds that the code tells apart and of others, their contents and the
-- rest of a spec are parameters.
pub mod Hybrid
use perplexity_proxy_go.Prelude.{
  Bool, true, false, not, ◌&&◌, List, [], ◌∷◌, ◌++◌, Option, none, some, String, Bytes, ◌==◌,
  if◌then◌else◌,
}
use perplexity_proxy_go.Errors.{Result, ok, err}
use perplexity_proxy_go.Act.{Act}
use perplexity_proxy_go.Transport.Client.{Host}

module _ (K C O R : Type 0) where
  pub data Extension : Type 0 where
    key_share : K → Extension
    curves : C → Extension
    other : O → Extension

  -- `utls.ClientHelloSpec`
  pub record HelloSpec : Type 0 where
    pub extensions : List Extension
    pub rest : R

  -- `FromRaw` and `UTLSIdToSpec(HelloChrome_Auto)`, `none` for an error
  pub record Utls : Type 0 where
    pub from_raw : Bytes → Option HelloSpec
    pub chrome_auto : Option HelloSpec

  abbrev pub first_key_share : List Extension → Option K
  first_key_share [] = none
  first_key_share (key_share k ∷ es) = some k
  first_key_share (_ ∷ es) = first_key_share es

  abbrev pub first_curves : List Extension → Option C
  first_curves [] = none
  first_curves (curves c ∷ es) = some c
  first_curves (_ ∷ es) = first_curves es

  -- the loop over the layout's extensions, from the two flags on: what is appended, and whether the
  -- key share was replaced
  unfoldable pub replace : K → Option C → Bool → Bool → List Extension → List Extension × Bool
  replace ks cs got_ks got_cs [] = ([], got_ks)
  replace ks cs false got_cs (key_share k ∷ es) =
      let (out, got) = replace ks cs true got_cs es in (key_share ks ∷ out, got)
  replace ks cs true got_cs (key_share k ∷ es) = replace ks cs true got_cs es
  replace ks (some c) got_ks false (curves d ∷ es) =
      let (out, got) = replace ks (some c) got_ks true es in (curves c ∷ out, got)
  replace ks cs got_ks got_cs (curves d ∷ es) = replace ks cs got_ks got_cs es
  replace ks cs got_ks got_cs (other o ∷ es) =
      let (out, got) = replace ks cs got_ks got_cs es in (other o ∷ out, got)

  abbrev appended : K → List Extension × Bool → List Extension
  appended ks (es, true) = es
  appended ks (es, false) = es ++ key_share ks ∷ []

  -- `out` and `layout` are one object: its extensions are emptied before the loop ranges over them
  abbrev pub emptied : HelloSpec → HelloSpec
  emptied layout = record layout { extensions = [] }

  abbrev with_keys : K → Option C → HelloSpec → HelloSpec
  with_keys ks cs layout = record layout {
    extensions = appended ks (replace ks cs false false layout.extensions);
  }

  abbrev pub hybrid : Option K → Option C → HelloSpec → Option HelloSpec
  hybrid none cs layout = none
  hybrid (some ks) cs layout = some (with_keys ks cs (emptied layout))

  abbrev pub with_layout : Option HelloSpec → Option HelloSpec → Option HelloSpec
  with_layout none keyed = none
  with_layout (some layout) none = none
  with_layout (some layout) (some keyed) =
      hybrid (first_key_share keyed.extensions) (first_curves keyed.extensions) layout

  -- `buildHybridSpec`
  unfoldable pub build_hybrid_spec : Utls → Bytes → Option HelloSpec
  unfolding replace
  build_hybrid_spec u raw = with_layout (u.from_raw raw) u.chrome_auto

  -- `helloSpec` and `helloSrc`
  pub record HelloCache : Type 0 where
    pub spec : Option HelloSpec
    pub src : String

  -- `RefreshHello`
  abbrev pub refresh_hello : HelloCache
  refresh_hello = record { spec = none; src = "" }

  -- what is there to use: the cached spec, where it came from the same source
  abbrev fresh_spec : String → HelloCache → Option HelloSpec
  fresh_spec src cache = if cache.src == src then cache.spec else none

  abbrev cached : String → HelloCache → Option HelloSpec → Option HelloSpec × HelloCache
  cached src cache none = (none, cache)
  cached src cache (some s) = (some s, record { spec = some s; src = src })

  abbrev load_or_build :
      String → HelloCache → Option HelloSpec → Option HelloSpec → Option HelloSpec × HelloCache
  load_or_build src cache (some s) built = (some s, cache)
  load_or_build src cache none built = cached src cache built

  abbrev or_bytes : Option Bytes → Bytes → Bytes
  or_bytes none embedded = embedded
  or_bytes (some bs) embedded = bs

  abbrev raw_hello : Bytes → String → (String → Option Bytes) → Bytes
  raw_hello embedded src read_file =
      if src == "" then embedded else or_bytes (read_file src) embedded

  -- `loadHelloSpec`; `src` is the path that `helloFile` gives
  unfoldable pub load_hello_spec :
      Utls → Bytes → String → (String → Option Bytes) → HelloCache → Option HelloSpec × HelloCache
  unfolding build_hybrid_spec
  load_hello_spec u embedded src read_file cache =
      load_or_build src cache (fresh_spec src cache)
        (build_hybrid_spec u (raw_hello embedded src read_file))

-- `helloFile`
unfoldable pub hello_file : Host → String
hello_file host =
    if host.env "PPLX_HELLO_FILE" == ""
    then elim host.home [
      | none ↦ ""
      | some home ↦ host.join_path (home ∷ ".pplx" ∷ "clienthello.bin" ∷ [])
    ]
    else host.env "PPLX_HELLO_FILE"
