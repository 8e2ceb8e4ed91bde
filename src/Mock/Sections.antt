-- ===== src/Mock/Sections.antt =====
-- What the offsets and lengths of a recording point at.
use nanoproxy.Prelude.{
  ℕ, ◌^◌, ◌≤◌, ◌<◌, ◌≡◌, ap₂, ◌∙◌, Option, List, ◌++◌, Bytes, arith, length, replicate,
  length-append, length-replicate, append_assoc,
}
use nanoproxy.Mock.{
  Recorder, Request, request_text, meta_text, recorder_begin, append_request_body, response_mark,
  begin_response, append_response_body, recorder_finish,
}
use nanoproxy.Mock.Header.{header_field}
use nanoproxy.Mock.Parts.{
  section, recorder_finish-response, recorder_finish-request, Parts-Grown, Begun,
  begin_response-Begun,
}
use nanoproxy.Mock.Offsets.{recorder_finish-HasHeader}
use nanoproxy.Mock.Growth.{
  flat, append_requests, append_responses, Grown, append_requests-Grown, append_responses-Grown,
}

-- an exchange: the request, more of its body, the first bytes of the response, and more of them
unfoldable pub recorded :
    (Bytes → ℕ) → ℕ → ℕ → Request → Option Bytes → List Bytes → Bytes → List Bytes → Recorder
unfolding recorder_begin append_request_body begin_response append_response_body recorder_finish
recorded atoi now later request upstream_url bodies first rest = recorder_finish (
    append_responses rest (
      begin_response atoi later first
        (append_requests bodies (recorder_begin now request upstream_url))))

-- The two parts of a finished recording: what the fields 4 to 7 of its first line point at.
pub record Sections (request response : Bytes) (file : Bytes) : Type 0 where
  pub request_section :
      section (header_field 4 file) (header_field 5 file) file ≡ request ++ response
  pub response_section : section (header_field 6 file) (header_field 7 file) file ≡ response

-- When an exchange is recorded in a file of less than 2^63 bytes, the file starts with a line of numbers whose
-- fields 4 to 7, read back as decimals, point into it: the response's offset and length at its mark and all of its
-- bytes, in order, and the request's at the request with all of its body, and at the response behind it as well.
pub recorded-Sections :
    (atoi : Bytes → ℕ) (now later : ℕ) (request : Request) (upstream_url : Option Bytes)
    (bodies : List Bytes) (first : Bytes) (rest : List Bytes)
    → length (recorded atoi now later request upstream_url bodies first rest).file < 2 ^ 63
    → Sections
        (request_text request ++ flat bodies)
        (response_mark ++ first ++ flat rest)
        (recorded atoi now later request upstream_url bodies first rest).file
unfolding recorded recorder_begin Grown
recorded-Sections atoi now later request upstream_url bodies first rest fits =
    let a = replicate 256 0 ++ meta_text now upstream_url in
    let b = request_text request ++ flat bodies in
    let r0 = recorder_begin now request upstream_url in
    let r1 = append_requests bodies r0 in
    let r2 = begin_response atoi later first r1 in
    let g = append_requests-Grown bodies r0 in
    let long : 256 ≤ length a = omega (
      arith,
      length-append (replicate 256 0) (meta_text now upstream_url),
      length-replicate {A = ℕ} 256 0,
    ) in
    let begun : Begun a b (response_mark ++ first) r2 =
      begin_response-Begun atoi later first a b r1 g.0.same_started g.0.same_meta
        (omega (arith, g.0.same_meta_len)) g.0.same_request_len g.0.same_request long
        (g.1 ∙ append_assoc a (request_text request) (flat bodies)) in
    let parts =
      Parts-Grown a b (response_mark ++ first) (flat rest) r2 (append_responses rest r2) begun.0
        (append_responses-Grown rest r2 begun.1) in
    let c = response_mark ++ first ++ flat rest in
    let r3 = append_responses rest r2 in
    let header = recorder_finish-HasHeader a b c r3 parts fits in
    let file = (recorder_finish r3).file in
    record {
      request_section =
          ap₂ (λ i n. section i n file) header.request_at header.request_length
          ∙ recorder_finish-request a b c r3 parts;
      response_section =
          ap₂ (λ i n. section i n file) header.response_at header.response_length
          ∙ recorder_finish-response a b c r3 parts;
    }
