-- ===== src/Transport/Shared/Cookies.antt =====
-- The cookies that the client is asked for.
use perplexity_proxy_go.Prelude.{◌≡◌, refl, String, ◌∙◌, ap, eq_refl, lookup-insert}
use perplexity_proxy_go.Transport.Jar.{Jar, get, set_cookies, for_host, store_all, store_cookie}
use perplexity_proxy_go.Transport.Shared.{shared, stored}
use perplexity_proxy_go.Transport.Http.{Http, Shared}

module _ {W : Type 0} (h : Http W) (c : Shared) where
  get-stored :
      (name value : String) (j : Jar)
      → j.host ≡ c.base.hostname
      → get (stored h c name value j) name ≡ value
  unfolding get set_cookies for_host store_all store_cookie
  get-stored name value j same =
      rw (same, eq_refl c.base.hostname, lookup-insert name name value j.cookies, eq_refl name) refl

  -- A cookie that was set is the one that is read, where the world gives back the jar that was put
  -- into it and the jar is that of the client's host.
  cookie-set_cookie :
      ((j : Jar) (w : W) → h.jar (h.put_jar j w) ≡ j)
      → (name value : String) (w : W) → (h.jar w).host ≡ c.base.hostname
      → (shared h c).cookie name ((shared h c).set_cookie name value w) ≡ value
  cookie-set_cookie kept name value w same =
      ap (λ j. get j name) (kept (stored h c name value (h.jar w)) w)
      ∙ get-stored name value (h.jar w) same
