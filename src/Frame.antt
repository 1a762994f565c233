-- ===== src/Frame.antt =====
-- Frames of src/protocol/frame.c: a length, a header, and a body that may be left out.
pub mod Delivery
use utu.Prelude.{
  ℕ, zero, suc, ◌+◌, ◌*◌, ◌/◌, ◌%◌, ◌^◌, Bool, true, false, Option, none, some, List, [], ◌∷◌, ◌++◌,
  ◌==◌, ltb, leb, length, take, drop, if◌then◌else◌,
}
use utu.Prelude.Calls.{Call, ok, failed, stopped, then_call, of_option, check, or_stop}
use utu.Stackish.Node.{Bytes, Node, Floats}
use utu.Stackish.Print.{bstr}
use utu.Stackish.Sequence.{Outcome, parsed, crashed, out_of_fuel, parse_seq}

-- What `FrameSource_recv` gives through its pointers and returns: the bytes of the header, the
-- header, and the body, each of which may be null; and the bytes that it has not read.
pub record Received : Type 0 where
  pub hbuf : Option Bytes
  pub header : Option Node
  pub msg : Option Node
  pub rest : Bytes

abbrev pub nothing : Bytes → Received
nothing rest = record { hbuf = none; header = none; msg = none; rest = rest }

-- `bmidstr(data, 0, from)`
abbrev carve : ℕ → Bytes → Bytes
carve from bytes = take from bytes

-- The body behind the header. The function returns the body that it has parsed also where bytes are
-- left behind it, since the check of that comes last and what is returned is the body.
unfoldable pub recv_body : ℕ → Floats → Bytes → ℕ → Bytes → Node → Call Received
recv_body fuel floats bytes from rest header =
    let got = λ (body : Option Node).
      ok (record {
        hbuf = some (carve from bytes);
        header = some header;
        msg = body;
        rest = rest;
      }) in
    let body : Call Received = elim (parse_seq fuel floats bytes from) [
      | parsed n q ↦ got n
      | crashed ↦ stopped
      | out_of_fuel ↦ stopped
    ] in
    if ltb from (length bytes) then body else got none

-- The header of the `count` bytes that have arrived.
unfoldable pub recv_data : ℕ → Floats → Bytes → Bytes → Call Received
unfolding recv_body
recv_data fuel floats bytes rest = elim (parse_seq fuel floats bytes 0) [
  | parsed none q ↦ ok (nothing rest)
  | parsed (some n) q ↦ recv_body fuel floats bytes q rest n
  | crashed ↦ stopped
  | out_of_fuel ↦ stopped
]

-- `FrameSource_recv` of the bytes that arrive before the connection closes. The buffer of the
-- socket hands them on in order; where they are fewer than the code waits for, it finds the
-- connection closed.
unfoldable pub recv : ℕ → Floats → Bytes → Call Received
unfolding recv_data
recv fuel floats [] = ok (nothing [])
recv fuel floats (high ∷ []) = ok (nothing (high ∷ []))
recv fuel floats (high ∷ low ∷ bytes) =
    let count = high * 256 + low in
    let read = recv_data fuel floats (take count bytes) (drop count bytes) in
    if count == 0
    then ok (nothing bytes)
    else if ltb (length bytes) count
    then ok (nothing bytes)
    else read

-- `FrameSource_send` with the body, flushed: the bytes that leave. The length is a `uint16_t`. The
-- first argument is what `sbuf_space_avail` gives of a buffer that is flushed.
unfoldable pub send : ℕ → Floats → Bytes → Node → Call Bytes
send space floats header msg = then_call (or_stop (bstr floats msg)) (λ body.
    let count = (length header + length body) % 2 ^ 16 in
    check (leb count space) (ok ((count / 256) ∷ (count % 256) ∷ (header ++ body))))
