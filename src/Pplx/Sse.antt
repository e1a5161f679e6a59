-- ===== src/Pplx/Sse.antt =====
-- internal/pplx/sse.go: frames of the ask stream, folded into the state of a conversation. The
-- calls of `onChunk` are kept in `emitted`, in order; `on_chunk` says whether it is set.
pub mod Answer
pub mod Frames
pub mod Stream
use perplexity_proxy_go.Prelude.{
  ℤ, pos, ℕ, suc, ◌+◌, Bool, true, false, not, ◌&&◌, ◌||◌, List, [], ◌∷◌, ◌++◌, Option, none, some,
  String, Bytes, bytes, ◌==◌, eqb, join, contains, if◌then◌else◌,
}
use perplexity_proxy_go.Errors.{Failure, sentinel, clarifying, rate_limited, stop_scanning}
use perplexity_proxy_go.Json.{
  Value, null, bool, num, str, arr, obj, Fields, elems, members, Codec, at, as_str, as_true, as_arr,
  as_obj, str_or_empty, as_map,
}
use perplexity_proxy_go.Transport.Space.{trim_space}
use perplexity_proxy_go.Pplx.Frame.{sse_data, strings_of, extract_clarifying_questions}

pub record Citation : Type 0 where
  pub index : ℤ
  pub title : String
  pub url : String

pub record State : Type 0 where
  pub authwalled : Bool
  pub backend_uuid : String
  pub read_write_token : String
  pub title : String
  pub answer : String
  pub chunks : List String
  pub citations : List Citation
  pub on_chunk : Bool
  pub emitted : List String

-- `&convState{onChunk: onChunk}`
abbrev pub start : Bool → State
start on_chunk = record {
  authwalled = false;
  backend_uuid = "";
  read_write_token = "";
  title = "";
  answer = "";
  chunks = [];
  citations = [];
  on_chunk = on_chunk;
  emitted = [];
}

-- the loop over `web_results`, from index `i`
unfoldable pub cite : ℕ → List Value → List Citation
cite i [] = []
cite i (obj r ∷ vs) =
    record {
      index = pos (i + 1);
      title = str_or_empty (at "name" r);
      url = str_or_empty (at "url" r);
    }
    ∷ cite (suc i) vs
cite i (_ ∷ vs) = cite (suc i) vs

abbrev set_citations : List Citation → State → State
set_citations [] s = s
set_citations (c ∷ cs) s = record s { citations = c ∷ cs }

abbrev with_citations : Option (List Value) → State → State
with_citations none s = s
with_citations (some results) s = set_citations (cite 0 results) s

abbrev with_answer : Option String → State → State
with_answer none s = s
with_answer (some answer) s = record s { answer = answer }

abbrev has_answer : Option String → Bool
has_answer none = false
has_answer (some _) = true

abbrev pub is_nil : List String → Bool
is_nil [] = true
is_nil (c ∷ cs) = false

-- the chunks of a frame; a frame with no answer makes the running chunks the answer
abbrev with_chunks : Bool → Option (List Value) → State → State
with_chunks answered none s = s
with_chunks answered (some vs) s =
    let all = s.chunks ++ strings_of vs in
    record s {
      chunks = all;
      answer = if not answered && not (is_nil all) then join "" all else s.answer;
    }

abbrev with_title : Option String → State → State
with_title none s = s
with_title (some t) s = if t == "" then s else record s { title = t }

-- `absorbAnswerData`
unfoldable pub absorb_answer_data : Fields → State → State
unfolding cite strings_of
absorb_answer_data d s = with_title (as_str (at "thread_title" d)) (
    with_chunks (has_answer (as_str (at "answer" d))) (as_arr (at "chunks" d))
      (with_answer (as_str (at "answer" d)) (with_citations (as_arr (at "web_results" d)) s)))

abbrev emit : Option (List Value) → State → State
emit none s = s
emit (some vs) s = record s { emitted = s.emitted ++ strings_of vs }

-- `emitChunkDeltas`
unfoldable pub emit_chunk_deltas : Fields → State → State
unfolding strings_of
emit_chunk_deltas md s =
    if not s.on_chunk
    then s
    else if str_or_empty (at "progress" md) == "IN_PROGRESS"
    then emit (as_arr (at "chunks" md)) s
    else s

abbrev absorb_markdown : Option Fields → State → State
absorb_markdown none s = s
absorb_markdown (some md) s = absorb_answer_data md (emit_chunk_deltas md s)

abbrev absorb_results : Option Fields → State → State
absorb_results none s = s
absorb_results (some wr) s = with_citations (as_arr (at "web_results" wr)) s

abbrev absorb_block : Option Fields → State → State
absorb_block none s = s
absorb_block (some block) s =
    if str_or_empty (at "intended_usage" block) == "ask_text"
    then absorb_markdown (as_obj (at "markdown_block" block)) s
    else if str_or_empty (at "intended_usage" block) == "web_results"
    then absorb_results (as_obj (at "web_result_block" block)) s
    else s

-- `absorbBlocks`
unfoldable pub absorb_blocks : List Value → State → State
absorb_blocks [] s = s
absorb_blocks (b ∷ bs) s = absorb_blocks bs (absorb_block (as_obj (some b)) s)

abbrev absorb_content : Option Fields → State → State
absorb_content none s = s
absorb_content (some content) s = absorb_answer_data content s

-- the loop over steps of `absorbText`; `break` leaves the loop at the first FINAL step
unfoldable pub absorb_steps : List Value → State → State × Option Failure
absorb_steps [] s = (s, none)
absorb_steps (obj step ∷ vs) s =
    let later = absorb_steps vs s in
    if str_or_empty (at "step_type" step) == "RESEARCH_CLARIFYING_QUESTIONS"
    then (s, some (clarifying (extract_clarifying_questions (at "content" step))))
    else if str_or_empty (at "step_type" step) == "FINAL"
    then (absorb_content (as_obj (at "content" step)) s, none)
    else later
absorb_steps (_ ∷ vs) s = absorb_steps vs s

abbrev absorb_parsed : Option Value → State → State × Option Failure
absorb_parsed (some (arr vs)) s = absorb_steps (elems vs) s
absorb_parsed (some (obj d)) s = (absorb_answer_data d s, none)
absorb_parsed _ s = (s, none)

-- `absorbText`
unfoldable pub absorb_text : Codec → String → State → State × Option Failure
absorb_text codec text s = absorb_parsed (codec.parse (bytes text)) s

-- `if v, ok := d[key].(string); ok && v != ""`
abbrev pub keep : Option String → String → String
keep none old = old
keep (some v) old = if v == "" then old else v

abbrev is_upsell : String → Bool
is_upsell name = name == "fraud_authwall_upsell" || name == "logged_out_thread_sign_in"

abbrev walled : Option Fields → Bool
walled none = false
walled (some ui) = is_upsell (str_or_empty (at "name" ui))

-- the part of `processData` that notes the thread's identity
unfoldable pub identify : Fields → State → State
identify d s = record s {
  authwalled = s.authwalled || walled (as_obj (at "upsell_information" d));
  backend_uuid = keep (as_str (at "backend_uuid" d)) s.backend_uuid;
  read_write_token = keep (as_str (at "read_write_token" d)) s.read_write_token;
  title = keep (as_str (at "thread_title" d)) s.title;
}

abbrev absorb_either : Codec → Option String → Option (List Value) → State → State × Option Failure
absorb_either codec (some text) blocks s = absorb_text codec text s
absorb_either codec none (some bs) s = (absorb_blocks bs s, none)
absorb_either codec none none s = (s, none)

-- `processData`
unfoldable pub process_data : Codec → Fields → State → State × Option Failure
process_data codec d s =
    if str_or_empty (at "error_code" d) == "FREE_TIER_RATE_LIMITED"
    then (s, some (sentinel rate_limited))
    else if as_true (at "final_sse_message" d)
    then (identify d s, some (sentinel stop_scanning))
    else absorb_either codec (as_str (at "text" d)) (as_arr (at "blocks" d)) (identify d s)

abbrev pub process_frame : Codec → Option Fields → State → State × Option Failure
process_frame codec none s = (s, none)
process_frame codec (some d) s = process_data codec d s

-- the callback that `askDirect` and `AskStream` hand to `PostSSE`
unfoldable pub on_line : Codec → State → Bytes → State × Option Failure
on_line codec s line = process_frame codec (sse_data codec line) s
