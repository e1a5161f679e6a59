-- ===== src/Pplx/Usage.antt =====
-- internal/pplx/usage.go: `SourceLimit`, `RateLimits` and `Usage`. The order in which Go ranges
-- over a map is a parameter.
use perplexity_proxy_go.Prelude.{ℤ, Bool, true, false, List, [], ◌∷◌, Option, none, some, String}
use perplexity_proxy_go.Errors.{wrapped, Result, ok, ◌>>=◌}
use perplexity_proxy_go.Act.{wrap_result}
use perplexity_proxy_go.Json.{Value, Fields, end, field, at, to_struct, to_int, to_int_pointer}
use perplexity_proxy_go.Spec.Decode.{Spec}
use perplexity_proxy_go.Transport.Client.{Client}

pub record SourceLimit : Type 0 where
  pub source_id : String
  pub monthly_limit : Option ℤ
  pub remaining : Option ℤ

-- `SourceLimit.Unlimited`
abbrev pub unlimited : SourceLimit → Bool
unlimited s = elim s.monthly_limit [ none ↦ true | some n ↦ false ]

-- `RateLimits`, without `ModelSpecificLimits`, which nothing reads
pub record RateLimits : Type 0 where
  pub remaining_pro : ℤ
  pub remaining_research : ℤ
  pub remaining_labs : ℤ
  pub remaining_agentic_research : ℤ
  pub source_limits : List SourceLimit

decode_limit : String → Value → Result SourceLimit
decode_limit id v = do
  fs ← to_struct (some v)
  monthly ← to_int_pointer (at "monthly_limit" fs)
  remaining ← to_int_pointer (at "remaining" fs)
  ok (record { source_id = id; monthly_limit = monthly; remaining = remaining })

-- the members of `source_to_limit`
unfoldable pub decode_limits : Fields → Result (List SourceLimit)
unfolding decode_limit
decode_limits end = ok []
decode_limits (field id v fs) = do l ← decode_limit id v; ls ← decode_limits fs; ok (l ∷ ls)

-- the struct `raw` of `Usage`, and the assignments to `out`
unfoldable pub decode_usage : (List SourceLimit → List SourceLimit) → Value → Result RateLimits
unfolding decode_limits
decode_usage order v = do
  fs ← to_struct (some v)
  pro ← to_int (at "remaining_pro" fs)
  research ← to_int (at "remaining_research" fs)
  labs ← to_int (at "remaining_labs" fs)
  agentic ← to_int (at "remaining_agentic_research" fs)
  _ ← to_struct (at "model_specific_limits" fs)
  sources ← to_struct (at "sources" fs)
  limits ← to_struct (at "source_to_limit" sources)
  ls ← decode_limits limits
  ok (record {
    remaining_pro = pro;
    remaining_research = research;
    remaining_labs = labs;
    remaining_agentic_research = agentic;
    source_limits = order ls;
  })

module _ {W : Type 0} (order : List SourceLimit → List SourceLimit) (client : Client W) where
  abbrev used : Result Value × W → Result RateLimits × W
  used (r, w) = (wrap_result (r >>= decode_usage order) (λ e. wrapped "usage: " e ""), w)

  -- `Usage`
  unfoldable pub usage : Spec → W → Result RateLimits × W
  usage sp w = used (client.get_json sp.endpoints.rate_limits w)
