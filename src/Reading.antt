-- ===== src/Reading.antt =====
-- The reading of a request: `read_request` and `handle_expect_continue` of src/server/server_http.c, on the buffer of
-- `Buffer` and the parser of `Http.Parse`. What the sockets and the clock answer in a round is the parameter `peer`.
pub mod Checks
pub mod Received
mod Tests
use gargantua.Common.{
  ℕ, zero, suc, ◌+◌, ◌-◌, ◌*◌, Bool, true, false, not, ◌&&◌, ◌||◌, Option, none, some, List, [],
  ◌∷◌, ◌++◌, Bytes, codes, strcase_eq, length, take, drop, ltb, leb, ◌==◌, if◌then◌else◌,
}
use gargantua.Buffer.{DynBuf, System, min_chunk, dynbuf_reserve}
use gargantua.Buffer.Reserve.{contents}
use gargantua.Http.{HttpRequest, HttpParseResult, parsed, need_more, error}
use gargantua.Http.Parse.{http_parse_request, http_find_header}

abbrev pub read_steps : ℕ
read_steps = 4096

abbrev pub body_max : ℕ
body_max = 8 * 1024 * 1024

-- What `recv` gives: bytes, the end, EINTR, or another error.
pub data Recv : Type 0 where
  got : Bytes → Recv
  closed interrupted failed : Recv

-- Whether `deadline_after`, and in each round `set_timeout_until` and `send_all`, succeed; and what `recv` gives for so
-- much room.
pub record Peer : Type 0 where
  pub deadline : Bool
  pub timeout : ℕ → Bool
  pub send : ℕ → Bool
  pub recv : ℕ → ℕ → Recv

-- The results 1, 0, -1, -2 and -3.
pub data Outcome : Type 0 where
  ready : HttpRequest → Outcome
  no_request broken too_large unexpected : Outcome

-- `interims` counts the sent `100 Continue`.
pub record Conn : Type 0 where
  pub buf : DynBuf
  pub sent_continue : Bool
  pub interims : ℕ

-- `ok` is `parsed == HTTP_PARSE_OK`.
pub expected : Peer → ℕ → HttpRequest → Bool → Conn → Bytes → Option Outcome × Conn
expected peer step req ok c expect =
    if not (req.minor_version == 1)
      || not (length expect == 12)
      || not (strcase_eq expect (codes "100-continue"))
    then (some unexpected, c)
    else if ok
    then (none, record c { sent_continue = true })
    else if peer.send step
    then (none, record c { sent_continue = true; interims = c.interims + 1 })
    else (some broken, c)

pub expect_header : Peer → ℕ → HttpRequest → Bool → Conn → Option Bytes → Option Outcome × Conn
expect_header peer step req ok c none = (none, c)
expect_header peer step req ok c (some expect) = expected peer step req ok c expect

-- `none` is the result 0.
pub handle_expect_continue : Peer → ℕ → HttpRequest → Bool → Conn → Option Outcome × Conn
handle_expect_continue peer step req ok c =
    if req.header_len == 0 || c.sent_continue
    then (none, c)
    else expect_header peer step req ok c (http_find_header req.headers (codes "Expect"))

abbrev pub announces_too_much : HttpRequest → Option ℕ → Bool
announces_too_much req none = false
announces_too_much req (some n) = ltb 0 req.header_len && ltb body_max n

pub after_expect : HttpRequest → Bool → Option Outcome × Conn → Option Outcome × Conn
after_expect req ok (some o, c) = (some o, c)
after_expect req ok (none, c) =
    (if ok then some (if ltb body_max req.body_len then too_large else ready req) else none, c)

pub check_request : Peer → ℕ → HttpRequest → Bool → Conn → Option Outcome × Conn
check_request peer step req ok c =
    if announces_too_much req req.content_length
    then (some too_large, c)
    else after_expect req ok (handle_expect_continue peer step req ok c)

pub check_parsed : Peer → ℕ → Conn → HttpParseResult → Option Outcome × Conn
check_parsed peer step c error = (some broken, c)
check_parsed peer step c (parsed req) = check_request peer step req true c
check_parsed peer step c (need_more req) = check_request peer step req false c

-- What the buffer decides before more is read.
pub check_buffer : Peer → ℕ → Conn → Option Outcome × Conn
check_buffer peer step c =
    if ltb 0 c.buf.len
    then check_parsed peer step c (http_parse_request (contents c.buf))
    else (none, c)

-- The bytes behind the buffer's, and a NUL behind them.
pub stored_block : ℕ → Bytes → Option Bytes → Option Bytes
stored_block len bytes none = none
stored_block len bytes (some p) =
    some ((take len p ++ bytes) ++ (0 ∷ drop (len + length bytes + 1) p))

pub store : DynBuf → Bytes → DynBuf
store b bytes = record b { block = stored_block b.len bytes b.block; len = b.len + length bytes }

-- `next` is the rest of the loop.
pub after_recv : (Conn → Outcome × Conn) → Conn → Recv → Outcome × Conn
after_recv next c (got bytes) = next (record c { buf = store c.buf bytes })
after_recv next c closed = (if c.buf.len == 0 then no_request else broken, c)
after_recv next c interrupted = next c
after_recv next c failed = (broken, c)

pub receive :
    (Conn → Outcome × Conn) → Peer → ℕ → Conn → Bool × DynBuf × List Bytes → Outcome × Conn
receive next peer step c (false, b, released) =
    (if b.truncated then too_large else broken, record c { buf = b })
receive next peer step c (true, b, released) =
    if not (peer.timeout step)
    then (broken, record c { buf = b })
    else after_recv next (record c { buf = b }) (peer.recv step (b.cap - b.len - 1))

pub read_more : System → (Conn → Outcome × Conn) → Peer → ℕ → Option Outcome × Conn → Outcome × Conn
read_more os next peer step (some o, c) = (o, c)
read_more os next peer step (none, c) =
    receive next peer step c (dynbuf_reserve os c.buf (c.buf.len + min_chunk + 1))

pub read_loop : System → Peer → ℕ → Conn → Outcome × Conn
read_loop os peer zero c = (broken, c)
read_loop os peer (suc steps) c =
    read_more os (read_loop os peer steps) peer steps (check_buffer peer steps c)

pub read_request : System → Peer → DynBuf → Outcome × Conn
read_request os peer buf =
    let c : Conn = record { buf = buf; sent_continue = false; interims = 0 } in
    if peer.deadline then read_loop os peer read_steps c else (broken, c)
