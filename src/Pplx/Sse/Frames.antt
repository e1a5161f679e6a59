-- ===== src/Pplx/Sse/Frames.antt =====
-- What one frame changes, and what it leaves alone.
use perplexity_proxy_go.Prelude.{
  Bool, false, ◌≡◌, refl, Bool-cases, inl, inr, List, [], ◌∷◌, Option, none, some, String, bytes,
  ◌==◌, if_natural, All, arith,
}
use perplexity_proxy_go.Errors.{Failure}
use perplexity_proxy_go.Json.{
  Value, null, arr, obj, Fields, field, elems, Codec, at, as_str, as_true, as_arr, as_obj,
  str_or_empty,
}
use perplexity_proxy_go.Pplx.Sse.{
  Citation, State, identify, with_citations, set_citations, cite, with_answer, with_chunks,
  with_title, absorb_answer_data, emit_chunk_deltas, absorb_markdown, absorb_results, absorb_block,
  absorb_blocks, absorb_content, absorb_steps, absorb_parsed, absorb_text, absorb_either,
  process_data,
}

-- The state without its callback and what the callback got.
abbrev pub erase : State → State
erase s = record s { on_chunk = false; emitted = [] }

erase-with_citations :
    (o : Option (List Value)) (s : State) → with_citations o (erase s) ≡ erase (with_citations o s)
erase-with_citations none s = refl
erase-with_citations (some vs) s = by_result (cite 0 vs)
  where
    by_result : (cs : List Citation) → set_citations cs (erase s) ≡ erase (set_citations cs s)
    by_result [] = refl
    by_result (c ∷ cs) = refl

erase-with_answer :
    (o : Option String) (s : State) → with_answer o (erase s) ≡ erase (with_answer o s)
erase-with_answer none s = refl
erase-with_answer (some a) s = refl

erase-with_chunks :
    (b : Bool) (o : Option (List Value)) (s : State)
    → with_chunks b o (erase s) ≡ erase (with_chunks b o s)
erase-with_chunks b none s = refl
erase-with_chunks b (some vs) s = refl

erase-with_title : (o : Option String) (s : State) → with_title o (erase s) ≡ erase (with_title o s)
erase-with_title none s = refl
erase-with_title (some t) s = elim (Bool-cases (t == "")) [ inl e ↦ rw e refl | inr e ↦ rw e refl ]

erase-absorb_answer_data :
    (d : Fields) (s : State) → absorb_answer_data d (erase s) ≡ erase (absorb_answer_data d s)
unfolding absorb_answer_data
erase-absorb_answer_data d s =
    rw (erase-with_citations, erase-with_answer, erase-with_chunks, erase-with_title) refl

erase-emit_chunk_deltas : (d : Fields) (s : State) → erase (emit_chunk_deltas d s) ≡ erase s
unfolding emit_chunk_deltas
erase-emit_chunk_deltas d s = ground arith

deaf-emit_chunk_deltas : (d : Fields) (s : State) → emit_chunk_deltas d (erase s) ≡ erase s
unfolding emit_chunk_deltas
deaf-emit_chunk_deltas d s = refl

erase-absorb_markdown :
    (o : Option Fields) (s : State) → absorb_markdown o (erase s) ≡ erase (absorb_markdown o s)
erase-absorb_markdown none s = refl
erase-absorb_markdown (some md) s =
    rw (deaf-emit_chunk_deltas md s, ← erase-emit_chunk_deltas md s)
      (erase-absorb_answer_data md (emit_chunk_deltas md s))

erase-absorb_results :
    (o : Option Fields) (s : State) → absorb_results o (erase s) ≡ erase (absorb_results o s)
erase-absorb_results none s = refl
erase-absorb_results (some wr) s = erase-with_citations (as_arr (at "web_results" wr)) s

erase-absorb_block :
    (o : Option Fields) (s : State) → absorb_block o (erase s) ≡ erase (absorb_block o s)
erase-absorb_block none s = refl
erase-absorb_block (some block) s =
    if_natural erase (str_or_empty (at "intended_usage" block) == "ask_text")
      (erase-absorb_markdown (as_obj (at "markdown_block" block)) s)
      (if_natural erase (str_or_empty (at "intended_usage" block) == "web_results")
        (erase-absorb_results (as_obj (at "web_result_block" block)) s) refl)

erase-absorb_blocks :
    (bs : List Value) (s : State) → absorb_blocks bs (erase s) ≡ erase (absorb_blocks bs s)
unfolding absorb_blocks
erase-absorb_blocks [] s = refl
erase-absorb_blocks (b ∷ bs) s =
    rw (erase-absorb_block (as_obj (some b)) s)
      (erase-absorb_blocks bs (absorb_block (as_obj (some b)) s))

abbrev pub erase_result : State × Option Failure → State × Option Failure
erase_result (s, e) = (erase s, e)

erase-identify : (d : Fields) (s : State) → identify d (erase s) ≡ erase (identify d s)
unfolding identify
erase-identify d s = refl

erase-absorb_content :
    (o : Option Fields) (s : State) → absorb_content o (erase s) ≡ erase (absorb_content o s)
erase-absorb_content none s = refl
erase-absorb_content (some d) s = erase-absorb_answer_data d s

erase-absorb_steps :
    (vs : List Value) (s : State) → absorb_steps vs (erase s) ≡ erase_result (absorb_steps vs s)
unfolding absorb_steps
erase-absorb_steps [] s = refl
erase-absorb_steps (obj step ∷ vs) s =
    ground (arith, erase-absorb_steps vs s, erase-absorb_content (as_obj (at "content" step)) s)
erase-absorb_steps (null ∷ vs) s = erase-absorb_steps vs s
erase-absorb_steps (_ ∷ vs) s = erase-absorb_steps vs s

erase-absorb_parsed :
    (o : Option Value) (s : State) → absorb_parsed o (erase s) ≡ erase_result (absorb_parsed o s)
erase-absorb_parsed none s = refl
erase-absorb_parsed (some (arr vs)) s = erase-absorb_steps (elems vs) s
erase-absorb_parsed (some (obj d)) s = rw (erase-absorb_answer_data d s) refl
erase-absorb_parsed (some _) s = refl

erase-absorb_either :
    (codec : Codec) (text : Option String) (blocks : Option (List Value)) (s : State)
    → absorb_either codec text blocks (erase s) ≡ erase_result (absorb_either codec text blocks s)
unfolding absorb_text
erase-absorb_either codec (some t) blocks s = erase-absorb_parsed (codec.parse (bytes t)) s
erase-absorb_either codec none (some bs) s = rw (erase-absorb_blocks bs s) refl
erase-absorb_either codec none none s = refl

-- The callback has no influence on what a frame does to the rest of the state, nor on its error:
-- with no callback the frame has the same effect, and calls nothing.
pub process_data-erase :
    (codec : Codec) (d : Fields) (s : State)
    → process_data codec d (erase s) ≡ erase_result (process_data codec d s)
unfolding process_data
process_data-erase codec d s =
    if_natural erase_result (str_or_empty (at "error_code" d) == "FREE_TIER_RATE_LIMITED") refl (
      if_natural erase_result (as_true (at "final_sse_message" d)) (rw (erase-identify d s) refl) (
        rw (erase-identify d s) (
          erase-absorb_either codec (as_str (at "text" d)) (as_arr (at "blocks" d))
            (identify d s))))

-- A field by which the client knows nothing.
abbrev pub known_fields : List String
known_fields =
    "error_code" ∷ "upsell_information" ∷ "backend_uuid" ∷ "read_write_token" ∷ "thread_title"
    ∷ "final_sse_message" ∷ "text" ∷ "blocks" ∷ []

-- A frame with an unknown field more is the frame without it, whatever the field holds.
process_data-unknown :
    (codec : Codec) (key : String) (v : Value) (d : Fields) (s : State)
    → All (λ k. (key == k) ≡ false) known_fields
    → process_data codec (field key v d) s ≡ process_data codec d s
unfolding process_data identify
process_data-unknown codec key v d s (a, (b, (c, (e, (f, (g, (h, (i, _)))))))) =
    rw (a, b, c, e, f, g, h, i) refl
