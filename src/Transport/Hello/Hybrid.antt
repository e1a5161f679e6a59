-- ===== src/Transport/Hello/Hybrid.antt =====
-- The extensions of the spec that `buildHybridSpec` of internal/transport/chrome_hello.go builds.
use perplexity_proxy_go.Prelude.{◌≡◌, refl, ap, sym, [], ◌∷◌, Option, none, some, Bytes}
use perplexity_proxy_go.Transport.Hello.{
  key_share, HelloSpec, Utls, first_key_share, replace, hybrid, with_layout, build_hybrid_spec,
}

module _ (K C O R : Type 0) where
  some_injective : {a b : HelloSpec K C O R} → some a ≡ some b → a ≡ b
  some_injective h = cc

  abbrev bare : K → R → HelloSpec K C O R
  bare k r = record { extensions = key_share k ∷ []; rest = r }

  -- the spec is the layout's rest with one extension, a key share of the code-generated spec
  abbrev pub IsBare :
      Option (HelloSpec K C O R) → Option (HelloSpec K C O R) → HelloSpec K C O R → Type 0
  IsBare made auto spec =
      (layout : HelloSpec K C O R) × (keyed : HelloSpec K C O R) × (k : K) × (made ≡ some layout)
      × (auto ≡ some keyed)
      × (first_key_share K C O R keyed.extensions ≡ some k)
      × (spec.extensions ≡ key_share k ∷ [])
      × (spec.rest ≡ layout.rest)

  hybrid-extensions :
      (ks : Option K) (cs : Option C) (layout spec : HelloSpec K C O R)
      → hybrid K C O R ks cs layout ≡ some spec
      → (k : K) × (ks ≡ some k) × (bare k layout.rest ≡ spec)
  unfolding replace
  hybrid-extensions none cs layout spec h = absurd cc
  hybrid-extensions (some k) cs layout spec h = (k, refl, some_injective h)

  with_layout-IsBare :
      (made auto : Option (HelloSpec K C O R)) (spec : HelloSpec K C O R)
      → with_layout K C O R made auto ≡ some spec
      → IsBare made auto spec
  with_layout-IsBare none auto spec h = absurd cc
  with_layout-IsBare (some layout) none spec h = absurd cc
  with_layout-IsBare (some layout) (some keyed) spec h =
      let (k, found, same) =
        hybrid-extensions (first_key_share K C O R keyed.extensions) _ layout spec h in
      (
        layout,
        keyed,
        k,
        refl,
        refl,
        found,
        ap (λ s. s.extensions) (sym same),
        ap (λ s. s.rest) (sym same),
      )

  -- A hybrid spec has one extension, the first key share of the spec that the library generates,
  -- and none of the captured layout's; the rest of it is the layout's.
  pub build_hybrid_spec-IsBare :
      (u : Utls K C O R) (raw : Bytes) (spec : HelloSpec K C O R)
      → build_hybrid_spec K C O R u raw ≡ some spec
      → IsBare (u.from_raw raw) u.chrome_auto spec
  unfolding build_hybrid_spec
  build_hybrid_spec-IsBare u raw spec h = with_layout-IsBare (u.from_raw raw) u.chrome_auto spec h
