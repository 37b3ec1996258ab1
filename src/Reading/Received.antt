-- ===== src/Reading/Received.antt =====
-- What `read_request` of src/server/server_http.c leaves.
use gargantua.Common.{
  ℕ, zero, suc, ◌+◌, ◌≤◌, false, Option, none, some, ◌++◌, Bytes, length, ◌==◌, if◌then◌else◌, ◌≡◌,
}
use gargantua.Buffer.{DynBuf, System, min_chunk, dynbuf_reserve}
use gargantua.Buffer.Reserve.{IsValid, contents}
use gargantua.Reading.{
  got, closed, interrupted, failed, Peer, Outcome, no_request, broken, too_large, Conn,
  check_buffer,
}
use gargantua.Reading.Checks.{Once, ReadyOk}

-- `recv` gives no more than there is room for.
pub record IsPeer (peer : Peer) : Type 0 where
  pub room_kept :
      (step room : ℕ) (bytes : Bytes) → peer.recv step room ≡ got bytes → length bytes ≤ room

-- A look at the contents `s` in the round `step` ends in `o`, or with nothing decided.
abbrev pub Looked : Peer → ℕ → Bytes → Option Outcome → Type 0
Looked peer step s o = (c : Conn) × (contents c.buf ≡ s) × ((check_buffer peer step c).0 ≡ o)

-- The rounds from the contents `s` to the outcome and the contents at the end, with `n` rounds left.
pub data Rounds (os : System) (peer : Peer) : ℕ → Bytes → Outcome → Bytes → Type 0 where
  out_of_steps : {s : Bytes} → Rounds os peer zero s broken s
  by_request :
      {n : ℕ} {s : Bytes} {o : Outcome} → Looked peer n s (some o) → Rounds os peer (suc n) s o s
  by_reserve :
      {n : ℕ} {s : Bytes} (b : DynBuf)
      → Looked peer n s none
      → contents b ≡ s
      → (dynbuf_reserve os b (b.len + min_chunk + 1)).0 ≡ false
      → Rounds os peer
          (suc n)
          s
          (if (dynbuf_reserve os b (b.len + min_chunk + 1)).1.truncated then too_large else broken)
          s
  by_timeout :
      {n : ℕ} {s : Bytes}
      → Looked peer n s none
      → peer.timeout n ≡ false
      → Rounds os peer (suc n) s broken s
  by_end :
      {n : ℕ} {s : Bytes} (room : ℕ)
      → Looked peer n s none
      → peer.recv n room ≡ closed
      → Rounds os peer (suc n) s (if length s == 0 then no_request else broken) s
  by_error :
      {n : ℕ} {s : Bytes} (room : ℕ)
      → Looked peer n s none
      → peer.recv n room ≡ failed
      → Rounds os peer (suc n) s broken s
  resumed :
      {n : ℕ} {s r : Bytes} {o : Outcome} (room : ℕ)
      → Looked peer n s none
      → peer.recv n room ≡ interrupted
      → Rounds os peer n s o r
      → Rounds os peer (suc n) s o r
  received :
      {n : ℕ} {s r : Bytes} {o : Outcome} (room : ℕ) (bytes : Bytes)
      → Looked peer n s none
      → min_chunk ≤ room
      → peer.recv n room ≡ got bytes
      → Rounds os peer n (s ++ bytes) o r
      → Rounds os peer (suc n) s o r

-- The answer of `read_request` on the buffer `b`, with `n` rounds.
pub record Answer (os : System) (peer : Peer) (n : ℕ) (b : DynBuf) (a : Outcome × Conn)
    : Type 0 where
  pub valid : IsValid a.1.buf
  pub rounds : Rounds os peer n (contents b) a.0 (contents a.1.buf)
  pub kept : (more : Bytes) × (contents a.1.buf ≡ contents b ++ more)
  pub once : a.1.interims ≤ 1
  pub decided : ReadyOk (contents a.1.buf) a.0

-- The rest of the loop, for a valid buffer.
abbrev Rest : System → Peer → ℕ → (Conn → Outcome × Conn) → Type 0
Rest os peer n next = (c : Conn) → IsValid c.buf → Once c → Answer os peer n c.buf (next c)
