-- ===== src/Proxy/Relay.antt =====
-- The response on its way from the upstream server to the client: `proxy_relay_upstream_keepalive` and
-- `proxy_on_upstream_read`. The access log is left out, and the string buffer of the rebuilt head finds its memory.
pub mod Whole
use nanoproxy.Prelude.{
  ℕ, ◌+◌, ◌-◌, ◌%◌, ◌^◌, Bool, true, false, not, ◌&&◌, Option, none, some, [], ◌++◌, Bytes, ltb,
  leb, if◌then◌else◌, length, take, drop, c_string,
}
use nanoproxy.StringBuf.{is_negative}
use nanoproxy.Proxy.{
  Wrote, wrote, again, broke, taken, Proxy, Outcome, going, ended, cleanup, hold_rest, deliver,
}
use nanoproxy.Proxy.Response.{crlf, strstr, Framing, framing, is_poolable, rebuilt_head}

-- what `read` answers: at least one byte, EAGAIN, or the end or another error
pub data Got : Type 0 where
  got : Bytes → Got
  got_again got_end : Got

-- which of the requests for memory are met: the header buffer, the text for the client, what waits for it
pub record Memory : Type 0 where
  pub for_head : Bool
  pub for_text : Bool
  pub for_rest : Bool

-- `n` bytes of the body count as relayed, and the exchange may be complete
unfoldable pub count_relayed : ℕ → Outcome → Outcome
unfolding cleanup
count_relayed n (ended p pooled kept) = ended p pooled kept
count_relayed n (going p) =
    let q = record p { resp_body_relayed = (p.resp_body_relayed + n) % 2 ^ 64 } in
    if not (is_negative p.resp_content_length) && leb p.resp_content_length q.resp_body_relayed
    then cleanup q
    else going q

-- behind the head: bytes of the body
unfoldable pub relay_body : Bool → Wrote → Bytes → Proxy → Outcome
unfolding deliver count_relayed
relay_body room w bytes p = count_relayed (length bytes) (deliver room w bytes p)

-- the head is whole: `head` of it, with its empty line, then bytes of the body
unfoldable pub relay_head : (Bytes → ℕ) → Memory → Wrote → ℕ → Bytes → Proxy → Outcome
unfolding cleanup framing is_poolable rebuilt_head relay_body deliver count_relayed
relay_head atol m w head_len held p =
    let f = framing atol (take head_len held) in
    let poolable = is_poolable p.keepalive_enabled f in
    let text =
      rebuilt_head (poolable && p.client_keeps) (take (head_len - 2) held) ++ drop head_len held in
    let q = record p {
      resp_header_buf = held;
      resp_content_length = f.content_length;
      resp_chunked = f.chunked;
      resp_conn_close = f.conn_close;
      resp_poolable = poolable;
    } in
    if m.for_text
    then count_relayed (length (drop head_len held))
        (deliver m.for_rest w text (record q { resp_headers_done = true; resp_header_buf = [] }))
    else cleanup q

-- more than 16384 bytes without the end of a head: they go on as they are, and what the client does not take is lost
unfoldable pub relay_oversized : Wrote → Bytes → Proxy → Outcome
relay_oversized w held p =
    if ltb 16384 (length held)
    then going (record p {
      resp_headers_done = true;
      resp_poolable = false;
      resp_header_buf = [];
      to_client = p.to_client ++ take (taken w (length held)) held;
    })
    else going (record p { resp_header_buf = held })

unfoldable pub on_head : (Bytes → ℕ) → Memory → Wrote → Option ℕ → Bytes → Proxy → Outcome
unfolding relay_head relay_oversized
on_head atol m w none held p = relay_oversized w held p
on_head atol m w (some i) held p = relay_head atol m w (i + 4) held p

-- `proxy_relay_upstream_keepalive`
unfoldable pub relay_upstream_keepalive : (Bytes → ℕ) → Memory → Wrote → Bytes → Proxy → Outcome
unfolding on_head relay_body strstr cleanup
relay_upstream_keepalive atol m w bytes p =
    if p.resp_headers_done
    then relay_body m.for_rest w bytes p
    else if m.for_head
    then (let held = p.resp_header_buf ++ bytes in
        on_head atol m w (strstr (c_string held) (crlf ++ crlf)) held p)
    else cleanup p

-- `proxy_on_upstream_read`
unfoldable pub on_upstream_read : (Bytes → ℕ) → Memory → Wrote → Got → Proxy → Outcome
unfolding relay_upstream_keepalive deliver cleanup
on_upstream_read atol m w got_again p = going p
on_upstream_read atol m w got_end p = cleanup p
on_upstream_read atol m w (got bytes) p =
    if p.keepalive_enabled
    then relay_upstream_keepalive atol m w bytes p
    else deliver m.for_rest w bytes p
