-- ===== src/Transport/Jar/Sessions.antt =====
-- What the jar gives back of what it was told, and what stays within its host.
use perplexity_proxy_go.Prelude.{
  ◌≡◌, List, [], ◌∷◌, Option, none, some, String, ◌==◌, lookup, lookup-insert, lookup-without,
  is_neg, if◌then◌else◌, arith,
}
use perplexity_proxy_go.Transport.Jar.{
  Cookie, Jar, for_host, store_cookie, store_all, set_cookies, cookies_for,
}

-- The last word on a name in a list of cookies: `some none` deletes it.
unfoldable pub verdict : String → Option (Option String) → List Cookie → Option (Option String)
verdict name v [] = v
verdict name v (c ∷ cs) =
    verdict name
      (if c.name == name then some (if is_neg c.max_age then none else some c.value) else v) cs

abbrev pub settle : Option (Option String) → Option String → Option String
settle none old = old
settle (some v) old = v

lookup-store_all :
    (m : List (String × String)) (cs : List Cookie) (name : String) (v : Option (Option String))
    (old : Option String)
    → lookup name m ≡ settle v old
    → lookup name (store_all m cs) ≡ settle (verdict name v cs) old
unfolding store_all store_cookie verdict
lookup-store_all m [] name v old h = h
lookup-store_all m (c ∷ cs) name v old h =
    lookup-store_all (store_cookie m c) cs name _ old
      (ground (arith, lookup-insert c.name name c.value m, lookup-without c.name name m))

-- After storing cookies for a URL, a request to the jar's own host carries, under each name, what
-- the last stored cookie of that name says, a deletion included, and under the other names what it
-- carried before; cookies of another host, or of no URL, change nothing. A request to another host
-- carries no cookie at all.
pub lookup-cookies_for-set_cookies :
    (j : Jar) (from to : Option String) (cs : List Cookie) (name : String)
    → lookup name (cookies_for (set_cookies j from cs) to) ≡ (
        if for_host j to
        then (if for_host j from
            then settle (verdict name none cs) (lookup name j.cookies)
            else lookup name j.cookies)
        else none)
unfolding set_cookies cookies_for lookup
lookup-cookies_for-set_cookies j from to cs name =
    ground (arith, lookup-store_all j.cookies cs name none (lookup name j.cookies))
