-- ===== src/Proxy/Tests.antt =====
-- Runs of proxied connections, and the instances of their theorems.
use nanoproxy.Prelude.{
  ℕ, ◌≡◌, refl, true, false, none, some, List, [], ◌∷◌, ◌++◌, Bytes, codes, arith, c_string,
}
use nanoproxy.Proxy.Upload
use nanoproxy.Proxy.Download
use nanoproxy.Proxy.{
  on_upstream_write, deliver, on_client_writable, wrote, again, Proxy, next, state_of, ev_read,
  no_events, ev_read_write, on_body_data,
}
use nanoproxy.Proxy.Response.{header_value, rebuilt_head, connection_line}
use nanoproxy.Proxy.Response.Lines.{lines_text, forwarded, rebuilt_head-lines_text}
use nanoproxy.Proxy.Relay.{got, Memory, on_upstream_read, relay_body}
use nanoproxy.Proxy.Relay.Whole.{
  Completes, relay_all, relay_all-Completes, relay_body-Completes_part,
}
use nanoproxy.Proxy.Upload.{Uploads, uploaded, sent, run-Uploads}
use nanoproxy.Proxy.Download.{received, upstream_read, client_writable}
use nanoproxy.Proxy.Download.Order.{Downloads, downloaded, run-Downloads}
use nanoproxy.Proxy.Download.Lost.{Leaves, on_body_data-Leaves}
use nanoproxy.Proxy.Drain.{EndsDrained, drain_all, drain_all-EndsDrained}

abbrev started : Proxy
started = record {
  connected = false;
  pending = some (codes "GET / HTTP/1.1");
  pending_sent = 0;
  downstream_buf = none;
  downstream_sent = 0;
  client_paused = false;
  upstream_paused = false;
  body_remaining = 6;
  body_complete = false;
  is_websocket = false;
  keepalive_enabled = false;
  resp_headers_done = false;
  resp_header_buf = [];
  resp_content_length = 18446744073709551615;
  resp_chunked = false;
  resp_conn_close = false;
  resp_body_relayed = 0;
  resp_poolable = false;
  client_keeps = true;
  client_events = ev_read;
  upstream_events = ev_read_write;
  to_upstream = [];
  to_client = [];
}

abbrev uploading : List Upload.Event
uploading =
    Upload.body_data true again (codes "abc")
    ∷ Upload.upstream_write false (wrote 9)
    ∷ Upload.body_data true again (codes "def")
    ∷ Upload.upstream_write false (wrote 90)
    ∷ []

upload_end : (state_of (Upload.run uploading started)).to_upstream ≡ codes "GET / HTTP/1.1abcdef"
unfolding Upload.run Upload.step on_body_data on_upstream_write
upload_end = refl

run-Uploads_example : Uploads (uploaded started ++ sent uploading) (Upload.run uploading started)
run-Uploads_example = run-Uploads uploading started (omega arith)

abbrev no_atol : Bytes → ℕ
no_atol _ = 5

abbrev enough : Memory
enough = record { for_head = true; for_text = true; for_rest = true }

abbrev answering : Proxy
answering = record started { connected = true; pending = none; upstream_events = ev_read }

abbrev downloading : List Download.Event
downloading =
    upstream_read enough (wrote 2) (got (codes "hello"))
    ∷ upstream_read enough (wrote 9) (got (codes "lost"))
    ∷ client_writable (wrote 1)
    ∷ client_writable (wrote 7)
    ∷ upstream_read enough (wrote 9) (got (codes "!"))
    ∷ []

download_end : (state_of (Download.run no_atol downloading answering)).to_client ≡ codes "hello!"
unfolding Download.run Download.step on_upstream_read deliver on_client_writable
download_end = refl

run-Downloads_example :
    Downloads
      (downloaded answering ++ received no_atol downloading answering)
      (Download.run no_atol downloading answering)
run-Downloads_example =
    run-Downloads no_atol downloading answering
      (record { raw = refl; sent_le = omega arith; paused = λ w. cc })

abbrev waiting : Proxy
waiting = record answering {
  downstream_buf = some (codes "rest");
  upstream_paused = true;
  upstream_events = no_events;
  client_events = ev_read_write;
}

on_body_data-Leaves_example : Leaves (codes "new") (
    next
      (Download.step no_atol (upstream_read enough (wrote 1) (got (codes "new"))))
      (on_body_data true (wrote 2) (codes "body") waiting))
on_body_data-Leaves_example =
    on_body_data-Leaves no_atol true 2 1 (codes "body") (codes "new") waiting refl refl refl
      (omega arith) (omega arith)

drain_all-EndsDrained_example : EndsDrained (codes "rest") (drain_all (1 ∷ 2 ∷ 1 ∷ 1 ∷ []) waiting)
drain_all-EndsDrained_example =
    drain_all-EndsDrained (1 ∷ 2 ∷ 1 ∷ 1 ∷ []) waiting refl refl refl (omega arith)

abbrev fields : List Bytes
fields = codes "Content-Length: 5" ∷ codes "connection: Keep-Alive" ∷ codes "Server: x" ∷ []

rebuilt_head-lines_text_example :
    rebuilt_head true (lines_text (codes "HTTP/1.1 200 OK" ∷ fields))
    ≡ lines_text (codes "HTTP/1.1 200 OK" ∷ forwarded fields) ++ connection_line true
rebuilt_head-lines_text_example =
    rebuilt_head-lines_text true (codes "HTTP/1.1 200 OK") fields refl refl

forwarded_fields : forwarded fields ≡ codes "Content-Length: 5" ∷ codes "Server: x" ∷ []
unfolding forwarded
forwarded_fields = refl

connection_value :
    header_value (codes "Connection") 64 true (lines_text (codes "HTTP/1.1 200 OK" ∷ fields))
    ≡ some (codes "Keep-Alive")
unfolding header_value
connection_value = refl

abbrev keeping : Proxy
keeping = record answering {
  keepalive_enabled = true;
  resp_headers_done = true;
  resp_content_length = 5;
  resp_poolable = true;
}

relay_all-Completes_example :
    Completes
      (codes "hello")
      true
      true
      (relay_all no_atol enough (codes "he" ∷ codes "llo" ∷ []) keeping)
relay_all-Completes_example =
    relay_all-Completes no_atol enough (codes "he" ∷ []) (codes "llo") keeping refl refl
      (omega arith) (omega arith) refl

relay_body-Completes_part_example :
    Completes (codes "he") true true (relay_body true (wrote 2) (codes "hello") keeping)
relay_body-Completes_part_example =
    relay_body-Completes_part 2 (codes "hello") keeping (omega arith) (omega arith) (omega arith)
      (omega arith)

-- a whole response in one read
relayed :
    (state_of (
      on_upstream_read no_atol enough
        (wrote 900)
        (got (lines_text (codes "HTTP/1.1 200 OK" ∷ fields ++ [] ∷ []) ++ codes "hello"))
        (record keeping { resp_headers_done = false }))).to_client
    ≡ lines_text (codes "HTTP/1.1 200 OK" ∷ forwarded fields)
      ++ connection_line true
      ++ codes "hello"
unfolding on_upstream_read forwarded connection_line c_string
relayed = refl
