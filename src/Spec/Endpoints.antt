-- ===== src/Spec/Endpoints.antt =====
-- `Endpoints`, `Endpoints.set` and `Endpoints.Get` of internal/spec/spec.go. The switch on the key
-- is `endpoint_key`; its cases are the constructors of `Key`.
use mathlib.Core.Bool.{false≢true}
use perplexity_proxy_go.Prelude.{
  Bool, true, false, ◌&&◌, ◌≡◌, ◌≢◌, refl, sym, ap, ◌∙◌, Bool-cases, inl, inr, List, [], ◌∷◌,
  Option, none, some, String, ◌==◌, eq_iff, if◌then◌else◌, arith,
}

pub record Endpoints : Type 0 where
  pub ask : String
  pub search_init : String
  pub upload : String
  pub rate_limits : String
  pub user_settings : String
  pub list_threads : String
  pub thread_detail : String
  pub credits : String
  pub auth_csrf : String
  pub auth_otp_redirect : String
  pub auth_signin_email : String
  pub auth_totp_verify : String

pub data Key : Type 0 where
  ask search_init upload rate_limits user_settings list_threads thread_detail credits : Key
  auth_csrf auth_otp_redirect auth_signin_email auth_totp_verify : Key

-- the text of a key's case
abbrev pub key_name : Key → String
key_name Key.ask = "ask"
key_name Key.search_init = "search_init"
key_name Key.upload = "upload"
key_name Key.rate_limits = "rate_limits"
key_name Key.user_settings = "user_settings"
key_name Key.list_threads = "list_threads"
key_name Key.thread_detail = "thread_detail"
key_name Key.credits = "credits"
key_name Key.auth_csrf = "auth_csrf"
key_name Key.auth_otp_redirect = "auth_otp_redirect"
key_name Key.auth_signin_email = "auth_signin_email"
key_name Key.auth_totp_verify = "auth_totp_verify"

abbrev keys : List Key
keys =
    Key.ask ∷ Key.search_init ∷ Key.upload ∷ Key.rate_limits ∷ Key.user_settings ∷ Key.list_threads
    ∷ Key.thread_detail ∷ Key.credits ∷ Key.auth_csrf ∷ Key.auth_otp_redirect
    ∷ Key.auth_signin_email ∷ Key.auth_totp_verify ∷ []

switch : String → List Key → Option Key
switch k [] = none
switch k (x ∷ xs) = if k == key_name x then some x else switch k xs

unfoldable pub endpoint_key : String → Option Key
unfolding switch
endpoint_key k = switch k keys

abbrev set_key : Key → String → Endpoints → Endpoints
set_key Key.ask v e = record e { ask = v }
set_key Key.search_init v e = record e { search_init = v }
set_key Key.upload v e = record e { upload = v }
set_key Key.rate_limits v e = record e { rate_limits = v }
set_key Key.user_settings v e = record e { user_settings = v }
set_key Key.list_threads v e = record e { list_threads = v }
set_key Key.thread_detail v e = record e { thread_detail = v }
set_key Key.credits v e = record e { credits = v }
set_key Key.auth_csrf v e = record e { auth_csrf = v }
set_key Key.auth_otp_redirect v e = record e { auth_otp_redirect = v }
set_key Key.auth_signin_email v e = record e { auth_signin_email = v }
set_key Key.auth_totp_verify v e = record e { auth_totp_verify = v }

abbrev get_key : Key → Endpoints → String
get_key Key.ask e = e.ask
get_key Key.search_init e = e.search_init
get_key Key.upload e = e.upload
get_key Key.rate_limits e = e.rate_limits
get_key Key.user_settings e = e.user_settings
get_key Key.list_threads e = e.list_threads
get_key Key.thread_detail e = e.thread_detail
get_key Key.credits e = e.credits
get_key Key.auth_csrf e = e.auth_csrf
get_key Key.auth_otp_redirect e = e.auth_otp_redirect
get_key Key.auth_signin_email e = e.auth_signin_email
get_key Key.auth_totp_verify e = e.auth_totp_verify

abbrev set_found : Option Key → String → Endpoints → Endpoints
set_found none v e = e
set_found (some k) v e = set_key k v e

abbrev get_found : Option Key → Endpoints → String
get_found none e = ""
get_found (some k) e = get_key k e

-- `Endpoints.set`
unfoldable pub set : String → String → Endpoints → Endpoints
set key v e = set_found (endpoint_key key) v e

-- `Endpoints.Get`
unfoldable pub get : Endpoints → String → String
get e key = get_found (endpoint_key key) e

abbrev is_known_key : Option Key → Bool
is_known_key none = false
is_known_key (some k) = true

-- Whether the switches have a case for the key.
unfoldable pub is_known : String → Bool
is_known k = is_known_key (endpoint_key k)

switch-name : (k : String) (xs : List Key) (x : Key) → switch k xs ≡ some x → k ≡ key_name x
unfolding switch
switch-name k [] x h = cc
switch-name k (y ∷ xs) x h = elim (Bool-cases (k == key_name y)) [
  | inl e ↦ let same : y ≡ x = ground arith in (eq_iff k (key_name y)).0 e ∙ ap key_name same
  | inr e ↦ switch-name k xs x (rw e at h)
]

get_key-set_key_self : (x : Key) (v : String) (e : Endpoints) → get_key x (set_key x v e) ≡ v
get_key-set_key_self Key.ask v e = refl
get_key-set_key_self _ v e = refl

get_key-set_key_ne :
    (x y : Key) (v : String) (e : Endpoints) → x ≢ y → get_key y (set_key x v e) ≡ get_key y e
get_key-set_key_ne Key.ask Key.ask v e h = absurd (h refl)
get_key-set_key_ne Key.search_init Key.search_init v e h = absurd (h refl)
get_key-set_key_ne Key.upload Key.upload v e h = absurd (h refl)
get_key-set_key_ne Key.rate_limits Key.rate_limits v e h = absurd (h refl)
get_key-set_key_ne Key.user_settings Key.user_settings v e h = absurd (h refl)
get_key-set_key_ne Key.list_threads Key.list_threads v e h = absurd (h refl)
get_key-set_key_ne Key.thread_detail Key.thread_detail v e h = absurd (h refl)
get_key-set_key_ne Key.credits Key.credits v e h = absurd (h refl)
get_key-set_key_ne Key.auth_csrf Key.auth_csrf v e h = absurd (h refl)
get_key-set_key_ne Key.auth_otp_redirect Key.auth_otp_redirect v e h = absurd (h refl)
get_key-set_key_ne Key.auth_signin_email Key.auth_signin_email v e h = absurd (h refl)
get_key-set_key_ne Key.auth_totp_verify Key.auth_totp_verify v e h = absurd (h refl)
get_key-set_key_ne _ _ v e h = refl

endpoint_key_name : (k : String) (x : Key) → endpoint_key k ≡ some x → k ≡ key_name x
unfolding endpoint_key
endpoint_key_name k x h = switch-name k keys x h

get_found-set_found_self :
    (o : Option Key) (v : String) (e : Endpoints)
    → get_found o (set_found o v e) ≡ (if is_known_key o then v else get_found o e)
get_found-set_found_self none v e = refl
get_found-set_found_self (some x) v e = get_key-set_key_self x v e

get_found-set_found_ne :
    (o p : Option Key) (v : String) (e : Endpoints)
    → ((x : Key) → o ≡ some x → p ≡ some x → ⊥)
    → get_found p (set_found o v e) ≡ get_found p e
get_found-set_found_ne none p v e h = refl
get_found-set_found_ne (some x) none v e h = refl
get_found-set_found_ne (some x) (some y) v e h =
    get_key-set_key_ne x y v e (λ (same : x ≡ y). h x refl (ap some (sym same)))

-- Reading an endpoint after a write gives the written path at a known key, and at every other key,
-- and after a write to an unknown key, what was there before.
pub get-set :
    (k j v : String) (e : Endpoints)
    → get (set k v e) j ≡ (if k == j && is_known k then v else get e j)
unfolding get set is_known
get-set k j v e = elim (Bool-cases (k == j)) [
  | inl same ↦ rw (same, ← (eq_iff k j).0 same) (get_found-set_found_self (endpoint_key k) v e)
  | inr differ ↦ rw differ (
      get_found-set_found_ne (endpoint_key k) (endpoint_key j) v e λ x p q.
        false≢true
          (sym differ ∙ (eq_iff k j).1 (endpoint_key_name k x p ∙ sym (endpoint_key_name j x q))))
]

set-ask : (v : String) (e : Endpoints) → set "ask" v e ≡ record e { ask = v }
unfolding set endpoint_key
set-ask v e = refl

is_known-ask : is_known "ask" ≡ true
unfolding is_known endpoint_key
is_known-ask = refl

pub get-ask : (e : Endpoints) → get e "ask" ≡ e.ask
unfolding get endpoint_key
get-ask e = refl

pub get-record_ask :
    (v : String) (e : Endpoints) (j : String)
    → get (record e { ask = v }) j ≡ (if "ask" == j then v else get e j)
get-record_ask v e j =
    rw (← set-ask v e, get-set, is_known-ask)
      (elim (Bool-cases ("ask" == j)) [ inl same ↦ rw same refl | inr differ ↦ rw differ refl ])
