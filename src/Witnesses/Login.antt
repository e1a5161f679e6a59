-- ===== src/Witnesses/Login.antt =====
-- The sign-in, and the stored token.
use perplexity_proxy_go.Prelude.{
  ℕ, false, ◌≡◌, ◌≢◌, refl, sym, ◌∙◌, eq_iff, is_int, List, [], ◌∷◌, none, some, String, Bytes, ltb,
  ◌==◌, if◌then◌else◌, eqb, contains,
}
use mathlib.Core.Bool.{false≢true}
use perplexity_proxy_go.Errors.{totp_required, sentinel, token_expired, Result, ok, err}
use perplexity_proxy_go.Act.{next}
use perplexity_proxy_go.Json.{Value, str, obj, end, field}
use perplexity_proxy_go.Spec.Load.{missing, content}
use perplexity_proxy_go.Pplx.Auth.{Auth, resolve_code, verify_totp, complete_login, read_token}
use perplexity_proxy_go.Pplx.Auth.Challenge.{complete_login-resumed}
use perplexity_proxy_go.Pplx.Auth.Outcome.{complete_login-ok}
use perplexity_proxy_go.Pplx.Token.{Token, Disk, save, load}
use perplexity_proxy_go.Pplx.Token.Storage.{IsReliable, load-save}
use perplexity_proxy_go.Witnesses.Samples.{host, client, spec}

abbrev parse_token : String → Result String
parse_token location = ok "t"

abbrev challenge_url : String
challenge_url = "/auth/totp-challenge?token=t"

abbrev pending : Auth ℕ
pending = record { csrf = "c"; pending_totp = "t"; world = 1 }

is_empty_false : (s : String) → (s == "") ≡ false → s ≢ ""
is_empty_false s h e = false≢true (sym h ∙ (eq_iff s "").1 e)

abbrev idle : Auth ℕ
idle = record { csrf = "c"; pending_totp = ""; world = 0 }

verified_lem :
    verify_totp host client parse_token spec "t" "123456"
      (record idle { pending_totp = "t"; world = 1 })
    ≡ (ok tt, record idle { pending_totp = "t"; world = 2 })
unfolding verify_totp is_int
verified_lem = refl

resolved_lem :
    resolve_code host client parse_token spec "a@b" "https://link" idle ≡ (ok "https://link", idle)
unfolding resolve_code
resolved_lem = refl

complete_login-resumed_example :
    (complete_login host client parse_token spec "a@b" "https://link" "" idle
      ≡ (err (sentinel totp_required), record idle { pending_totp = "t"; world = 1 }))
    × (complete_login host client parse_token spec "" "" "123456"
          (record idle { pending_totp = "t"; world = 1 })
        ≡ (ok "secret", record idle { pending_totp = "t"; world = 2 }))
    × (complete_login host client parse_token spec "c@d" "9999" "654321"
          (record idle { pending_totp = "t"; world = 2 })
        ≡ next
            (verify_totp host client parse_token spec "t" "654321"
              (record idle { pending_totp = "t"; world = 2 }))
            (λ _. read_token host client parse_token spec))
unfolding contains
complete_login-resumed_example =
    complete_login-resumed host client parse_token spec "a@b" "https://link" "" "" "c@d" "9999"
      "123456" "654321" "https://link" challenge_url "t" 302 0 1 2 idle (is_empty_false "c" refl)
      refl resolved_lem refl refl refl refl refl (is_empty_false "t" refl) verified_lem
      (is_empty_false "secret" refl)

logged_in_lem :
    complete_login host client parse_token spec "a@b" "1234" "123456" pending
    ≡ (ok "secret", record pending { world = 2 })
unfolding complete_login verify_totp is_int
logged_in_lem = refl

complete_login-ok_example :
    (◌≢◌ {A = String} "secret" "") × ("secret" ≡ client.cookie spec.session_cookie_name 2)
complete_login-ok_example =
    complete_login-ok host client parse_token spec "a@b" "1234" "123456" "secret" pending
      (record pending { world = 2 }) logged_in_lem

-- a disk with one file, at 5 past the zero time
abbrev saved_token : Token
saved_token = record { value = "secret"; obtained_at = 5; expires_at = 15 }

abbrev time_text : ℕ → String
time_text n = if eqb n 5 then "5" else "15"

abbrev stored_json : Value
stored_json = obj (
    field "token" (str "secret")
      (field "obtained_at" (str "5") (field "expires_at" (str "15") end)))

abbrev disk : Disk (List Bytes)
disk = record {
  clock = λ w. 5;
  make_parent = λ path w. (none, w);
  write = λ path bs w. (none, bs ∷ w);
  read = λ path w. elim w [ [] ↦ missing | bs ∷ older ↦ content bs ];
  parse = λ bs. some stored_json;
  print = λ v. 123 ∷ [];
  print_time = time_text;
  parse_time = λ s. if s == "5" then some 5 else some 15;
  no_time = 0;
}

disk-IsReliable : IsReliable disk "token.json" saved_token
disk-IsReliable = record {
  document = refl;
  obtained = refl;
  expires = refl;
  files = λ bs w h. refl;
}

load-save_example :
    ((save disk "token.json" "secret" 10 []).0 ≡ ok saved_token)
    × (load disk "token.json" (save disk "token.json" "secret" 10 []).1 ≡ (
        if ltb (disk.clock (save disk "token.json" "secret" 10 []).1) 15
        then ok saved_token
        else err (sentinel token_expired)))
load-save_example =
    load-save disk "token.json" "secret" 10 [] disk-IsReliable (is_empty_false "secret" refl) refl
      refl (save disk "token.json" "secret" 10 []).1 refl
