-- ===== src/Transport/Dial/Healing.antt =====
-- The error of `dialUTLS` of internal/transport/utls_client.go.
use perplexity_proxy_go.Prelude.{
  ℕ, true, false, ◌≡◌, refl, ap, sym, ◌∙◌, ◌⊎◌, inl, inr, Option, none, some, String, Bool-cases,
}
use perplexity_proxy_go.Errors.{Failure, Result, ok, err}
use perplexity_proxy_go.Transport.Client.{Host}
use perplexity_proxy_go.Transport.Hello.{HelloCache, refresh_hello}
use perplexity_proxy_go.Transport.Dial.{
  Net, Dialer, is_handshake_failure, dial_utls_opt, refresh_captured_hello, second_try, healed,
  dial_utls,
}

module _ (K C O R W : Type 0) (host : Host) (net : Net K C O R W) where
  -- a second attempt after a capture, which made the connection
  abbrev pub IsHealed : String → Failure → Dialer K C O R W → Result ℕ × Dialer K C O R W → Type 0
  IsHealed addr e d r =
      (conn : ℕ) × (is_handshake_failure e ≡ true)
      × ((refresh_captured_hello K C O R W host net d.world).0 ≡ none)
      × (r.0 ≡ ok conn)
      × (dial_utls_opt K C O R W host net addr false (record {
        cache = refresh_hello K C O R;
        world = (refresh_captured_hello K C O R W host net d.world).1;
      })
          ≡ r)

  second_try-outcome :
      (e : Failure) (r : Result ℕ × Dialer K C O R W)
      → ((second_try K C O R W host net e r).0 ≡ err e)
        ⊎ ((conn : ℕ) × (r.0 ≡ ok conn) × (second_try K C O R W host net e r ≡ r))
  second_try-outcome e (ok conn, d) = inr (conn, refl, refl)
  second_try-outcome e (err e', d) = inl refl

  healed-outcome :
      (addr : String) (e : Failure) (cache : HelloCache K C O R) (m : Option Failure × W)
      → ((healed K C O R W host net addr e cache m).0 ≡ err e)
        ⊎ ((conn : ℕ) × (m.0 ≡ none)
            × ((healed K C O R W host net addr e cache m).0 ≡ ok conn)
            × (dial_utls_opt K C O R W host net addr false
                  (record { cache = refresh_hello K C O R; world = m.1 })
                ≡ healed K C O R W host net addr e cache m))
  healed-outcome addr e cache (some e', w) = inl refl
  healed-outcome addr e cache (none, w) =
      elim (second_try-outcome e (
        dial_utls_opt K C O R W host net addr false
          (record { cache = refresh_hello K C O R; world = w }))) [
            | inl same ↦ inl same
            | inr (conn, made, whole) ↦ inr (conn, refl, ap (λ r. r.0) whole ∙ made, sym whole)
          ]

  -- A dial whose first attempt fails ends in the error of that attempt, whatever the capture script
  -- and a second attempt do, or with a connection: then the error was a handshake failure, the
  -- capture succeeded, and the connection is that of a second attempt from an emptied cache.
  pub dial_utls-outcome :
      (addr : String) (e : Failure) (d d' : Dialer K C O R W)
      → dial_utls_opt K C O R W host net addr false d ≡ (err e, d')
      → ((dial_utls K C O R W host net addr d).0 ≡ err e)
        ⊎ IsHealed addr e d' (dial_utls K C O R W host net addr d)
  unfolding dial_utls
  dial_utls-outcome addr e d d' h = elim (Bool-cases (is_handshake_failure e)) [
    | inr other ↦ rw (h, other) (inl refl)
    | inl handshake ↦
        elim (healed-outcome addr e d'.cache (refresh_captured_hello K C O R W host net d'.world)) [
          | inl same ↦ rw (h, handshake) (inl same)
          | inr (conn, captured, made, whole) ↦
              rw (h, handshake) (inr (conn, refl, captured, made, whole))
        ]
  ]
