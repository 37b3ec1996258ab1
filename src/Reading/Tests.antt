-- ===== src/Reading/Tests.antt =====
-- A request that is read.
use gargantua.Common.{
  ℕ, zero, suc, ◌∷◌, ◌==◌, if◌then◌else◌, true, false, none, some, [], Bytes, codes, length,
  length-take, take, strcase_eq, ◌≡◌, inl, refl, ap, arith,
}
use gargantua.Buffer.{DynBuf, System}
use gargantua.Buffer.Reserve.{IsValid}
use gargantua.Http.{HttpRequest, empty_request}
use gargantua.Reading.{got, Peer, Conn, unexpected, expected}
use gargantua.Reading.Received.{IsPeer}

-- A system without memory, which is enough for a buffer with a whole request.
abbrev no_memory : System
no_memory = record { mmap = λ n. none; realloc = λ p n. none }

abbrev chatty : Peer
chatty = record {
  deadline = true;
  timeout = λ step. true;
  send = λ step. true;
  recv = λ step room. got (take room (codes "GET /"));
}

got_inj : (a b : Bytes) → got a ≡ got b → a ≡ b
got_inj a b e = ap (λ r. elim r [ got s ↦ s | _ ↦ [] ]) e

chatty-IsPeer : IsPeer chatty
chatty-IsPeer = record {
  room_kept = λ step room bytes e.
      omega (arith, ap length (got_inj _ _ e), length-take room (codes "GET /"));
}

abbrev filled : DynBuf
filled = record {
  block = some (codes "GET / HTTP/1.1\r\nHost: x\r\n\r\n");
  len = 27;
  cap = 27;
  max = 100;
  bytes = 27;
  mapped = false;
  truncated = false;
}

filled-IsValid : IsValid filled
filled-IsValid = record {
  size = refl;
  len_in = omega arith;
  max_small = omega arith;
  cap_small = inl (omega arith);
  same_bytes = refl;
  mapped_large = (λ h. cc, λ h. absurd (omega (arith, h)));
}

abbrev post_head : HttpRequest
post_head = record empty_request { minor_version = 1; header_len = 40 }

abbrev idle : Conn
idle = record { buf = filled; sent_continue = false; interims = 0 }

expected-continue :
    expected chatty 0 post_head false idle (codes "100-Continue")
    ≡ (none, record idle { sent_continue = true; interims = 1 })
unfolding expected strcase_eq
expected-continue = refl

-- Another expectation is refused.
expected-other : expected chatty 0 post_head false idle (codes "a") ≡ (some unexpected, idle)
unfolding expected
expected-other = refl

abbrev zeros : ℕ → Bytes
zeros zero = []
zeros (suc n) = 0 ∷ zeros n

-- An empty buffer with room for a call of `recv`.
abbrev roomy : DynBuf
roomy = record {
  block = some (zeros 8300);
  len = 0;
  cap = 8300;
  max = 100000;
  bytes = 8300;
  mapped = false;
  truncated = false;
}

-- A peer that sends a request in two pieces, the second again and again.
abbrev whole : ℕ → Bytes
whole step = if step == 4095 then codes "GET / HTTP/1.1\r\nHo" else codes "st: x\r\n\r\n"

abbrev halting : Peer
halting = record chatty { recv = λ step room. got (take room (whole step)) }
