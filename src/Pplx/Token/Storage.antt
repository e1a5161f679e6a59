-- ===== src/Pplx/Token/Storage.antt =====
-- A token that was saved is loaded until it expires.
use perplexity_proxy_go.Prelude.{
  ℕ, ◌+◌, Bool, true, false, ◌≡◌, ◌≢◌, refl, ap, ◌∙◌, Option, none, some, String, Bytes, ◌==◌, ltb,
  eq_iff, if◌then◌else◌, arith, not,
}
use perplexity_proxy_go.Errors.{Failure, sentinel, token_expired, ok, err}
use perplexity_proxy_go.Spec.Load.{content}
use perplexity_proxy_go.Pplx.Token.{
  Token, Disk, fresh, token_json, new_token, save, written, made, decode_token, load,
}

if_not : {A : Type 0} (b : Bool) (x y : A) → (if not b then x else y) ≡ (if b then y else x)
if_not true x y = refl
if_not false x y = refl

module _ {W : Type 0} (disk : Disk W) (path : String) where
  -- What the code relies on for a token: its JSON and its times are read as they were printed, and
  -- a file that was written is read as it was written.
  pub record IsReliable (t : Token) : Type 0 where
    pub document : disk.parse (disk.print (token_json disk path t)) ≡ some (token_json disk path t)
    pub obtained : disk.parse_time (disk.print_time t.obtained_at) ≡ some t.obtained_at
    pub expires : disk.parse_time (disk.print_time t.expires_at) ≡ some t.expires_at
    pub files :
        (bs : Bytes) (w : W)
        → (disk.write path bs w).0 ≡ none
        → disk.read path (disk.write path bs w).1 ≡ content bs

  decode_token-token_json :
      (t : Token)
      → IsReliable t
      → decode_token disk path (disk.parse (disk.print (token_json disk path t))) ≡ ok t
  unfolding decode_token
  decode_token-token_json t reliable =
      rw (reliable.document, reliable.obtained, reliable.expires) refl

  written-ok :
      (t : Token) (d : Option Failure × W) → d.0 ≡ none → written disk path t d ≡ (ok t, d.1)
  written-ok t (none, w) h = refl
  written-ok t (some e, w) h = absurd cc

  made-ok :
      (t : Token) (m : Option Failure × W)
      → m.0 ≡ none
      → (disk.write path (disk.print (token_json disk path t)) m.1).0 ≡ none
      → made disk path t m ≡ (ok t, (disk.write path (disk.print (token_json disk path t)) m.1).1)
  made-ok t (none, w) h k = written-ok t (disk.write path (disk.print (token_json disk path t)) w) k
  made-ok t (some e, w) h k = absurd cc

  load-written :
      (t : Token) (w : W)
      → IsReliable t
      → t.value ≢ ""
      → (disk.write path (disk.print (token_json disk path t)) w).0 ≡ none
      → (v : W)
      → disk.read path v
        ≡ disk.read path (disk.write path (disk.print (token_json disk path t)) w).1
      → load disk path v
        ≡ (if ltb (disk.clock v) t.expires_at then ok t else err (sentinel token_expired))
  unfolding load fresh
  load-written t w reliable present k v same =
      let given : (t.value == "") ≡ false = ground (arith, eq_iff t.value "") in
      rw
        (
          same,
          reliable.files (disk.print (token_json disk path t)) w k,
          decode_token-token_json t reliable,
          given,
        )
        (if_not (ltb (disk.clock v) t.expires_at) (err (sentinel token_expired)) (ok t))

  -- Where directory and file could be written and are read as they were written, `Save` returns the
  -- token. In every later world whose token file is the one that `Save` left, `Load` returns that token
  -- while the clock is before the time of the save and `ttl`, and ErrTokenExpired from then on.
  pub load-save :
      (value : String) (ttl : ℕ) (w : W)
      → IsReliable (new_token disk path value ttl w)
      → value ≢ ""
      → (disk.make_parent path w).0 ≡ none
      → (disk.write path
          (disk.print (token_json disk path (new_token disk path value ttl w)))
          (disk.make_parent path w).1).0
        ≡ none
      → (v : W) → disk.read path v ≡ disk.read path (save disk path value ttl w).1
      → ((save disk path value ttl w).0 ≡ ok (new_token disk path value ttl w))
        × (load disk path v ≡ (
            if ltb (disk.clock v) (disk.clock w + ttl)
            then ok (new_token disk path value ttl w)
            else err (sentinel token_expired)))
  unfolding save
  load-save value ttl w reliable present parent wrote v same =
      let t = new_token disk path value ttl w in
      let given : (value == "") ≡ false = ground (arith, eq_iff value "") in
      let saved : save disk path value ttl w ≡ (
        ok t,
        (disk.write path (disk.print (token_json disk path t)) (disk.make_parent path w).1).1,
      ) =
        rw given (made-ok t (disk.make_parent path w) parent wrote) in
      (
        ap (λ r. r.0) saved,
        load-written t (disk.make_parent path w).1 reliable present wrote v
            (same ∙ ap (λ r. disk.read path r.1) saved),
      )
