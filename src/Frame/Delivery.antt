-- ===== src/Frame/Delivery.antt =====
-- A frame that is sent is received.
use utu.Prelude.{
  leb, Bool, ℕ, suc, ◌+◌, ◌*◌, ◌/◌, ◌%◌, ◌^◌, ◌≡◌, ◌<◌, refl, sym, ap, ◌∙◌, true, false, none, some,
  [], ◌∷◌, ◌++◌, ◌==◌, ltb, length, length-append, take, take-append, drop-append, append-nil,
  arith, subst, lt→ltb,
}
use utu.Prelude.Calls.{check, ok, or_stop, then_call-ok, or_stop-ok, ok-injective}
use utu.Stackish.Node.{Bytes, Node, nil, cons, Floats}
use utu.Stackish.Print.{bstr}
use utu.Stackish.Text.{IsReadableRoot, blob_count}
use utu.Stackish.RoundTrip.{parse_seq-bstr, parse-bstr, last_byte-bstr, no_newline-bstr}
use utu.Stackish.Sequence.{parsed, last_byte, is_space_at_end, parse_seq, parse}
use utu.Frame.{recv, recv_data, recv_body, send}

-- The bytes of a frame around its contents.
abbrev pub framed : Bytes → Bytes
framed bytes = (length bytes / 256) ∷ (length bytes % 256) ∷ bytes

recv-framed :
    (fuel : ℕ) (floats : Floats) (bytes more : Bytes)
    → 0 < length bytes
    → recv fuel floats (framed bytes ++ more) ≡ recv_data fuel floats bytes more
unfolding recv
recv-framed fuel floats bytes more p =
    rw (whole (length bytes), is_zero, enough, take-append bytes more, drop-append bytes more) refl
  where
    whole : (n : ℕ) → n / 256 * 256 + n % 256 ≡ n
    whole n = omega arith

    is_zero : (length bytes == 0) ≡ false
    is_zero = ground arith

    enough : ltb (length (bytes ++ more)) (length bytes) ≡ false
    enough = ground (arith, length-append bytes more)

ltb_self : (n : ℕ) → ltb n n ≡ false
ltb_self n = ground arith

take_all : (t : Bytes) → take (length t) t ≡ t
take_all t = ap (take (length t)) (sym (append-nil t)) ∙ take-append t []

pub bstr-pos : (floats : Floats) (n : Node) (t : Bytes) → bstr floats n ≡ some t → 0 < length t
bstr-pos floats n [] e = let h : false ≡ true = last_byte-bstr floats n [] [] e in cc
bstr-pos floats n (c ∷ t) e = omega arith

-- The length with its wrap, in front of the header's bytes and the printed body.
abbrev sent : ℕ → Bytes → Bytes
sent count bytes = (count % 2 ^ 16 / 256) ∷ (count % 2 ^ 16 % 256) ∷ bytes

sent-framed :
    (header t : Bytes)
    → length (header ++ t) < 2 ^ 16
    → sent (length header + length t) (header ++ t) ≡ framed (header ++ t)
sent-framed header t h = ap (λ n. (n / 256) ∷ (n % 256) ∷ (header ++ t)) count
  where
    count : (length header + length t) % 2 ^ 16 ≡ length (header ++ t)
    count = omega (arith, length-append header t)

check-ok : {A : Type 0} → (b : Bool) (a c : A) → check b (ok a) ≡ ok c → a ≡ c
check-ok true a c e = ok-injective a c e
check-ok false a c e = cc

-- What was sent, where it fits in a frame.
pub send-framed :
    (space : ℕ) (floats : Floats) (header : Bytes) (msg : Node) (out : Bytes)
    → send space floats header msg ≡ ok out
    → length out < 2 ^ 16
    → (t : Bytes) × (bstr floats msg ≡ some t)
      × (out ≡ framed (header ++ t))
      × (length (header ++ t) < 2 ^ 16)
unfolding send
send-framed space floats header msg out e l =
    let (t, b, h) = then_call-ok (or_stop (bstr floats msg)) _ out e in
    let shape : sent (length header + length t) (header ++ t) ≡ out =
      check-ok (leb ((length header + length t) % 2 ^ 16) space)
        (sent (length header + length t) (header ++ t)) out h in
    let whole : length out ≡ suc (suc (length (header ++ t))) = ap length (sym shape) in
    let printed = or_stop-ok (bstr floats msg) t b in
    let fits : length (header ++ t) < 2 ^ 16 = omega arith in
    (t, printed, sym shape ∙ sent-framed header t fits, fits)

-- A frame with one tree alone.
pub recv-alone :
    (fuel : ℕ) (floats : Floats) (hdr : Node) (t more : Bytes)
    → IsReadableRoot hdr
    → blob_count (cons hdr nil) < fuel
    → bstr floats hdr ≡ some t
    → length t < 2 ^ 16
    → recv fuel floats (framed t ++ more)
      ≡ ok (record { hbuf = some t; header = some hdr; msg = none; rest = more })
unfolding recv_data recv_body parse
recv-alone fuel floats hdr t more r f e s =
    recv-framed fuel floats t more (bstr-pos floats hdr t e)
    ∙ rw (recv_data, read, recv_body, ltb_self (length t), take_all t) refl
  where
    read : parse_seq fuel floats t 0 ≡ parsed (some hdr) (length t)
    read = parse-bstr fuel floats hdr t r f e (omega arith)

-- Both trees of a frame parse, one behind the other.
pub both_parsed :
    (fuel : ℕ) (floats : Floats) (hdr body : Node) (ht bt : Bytes)
    → IsReadableRoot hdr
    → IsReadableRoot body
    → blob_count (cons hdr nil) < fuel
    → blob_count (cons body nil) < fuel
    → bstr floats hdr ≡ some ht
    → bstr floats body ≡ some bt
    → length (ht ++ bt) < 2 ^ 16
    → (parse_seq fuel floats (ht ++ bt) 0 ≡ parsed (some hdr) (length ht))
      × (parse_seq fuel floats (ht ++ bt) (length ht) ≡ parsed (some body) (length ht + length bt))
both_parsed fuel floats hdr body ht bt rh rb fh fb eh eb s = (header_read, body_read)
  where
    ends : is_space_at_end (last_byte (ht ++ bt)) ≡ true
    ends = last_byte-bstr floats body bt ht eb

    header_read : parse_seq fuel floats (ht ++ bt) 0 ≡ parsed (some hdr) (length ht)
    header_read =
        parse_seq-bstr fuel floats hdr ht [] bt rh fh eh (omega arith) ends
          (no_newline-bstr floats body bt rb eb)
        ∙ ap (λ x. parsed (some hdr) x) (omega arith)

    body_read :
        parse_seq fuel floats (ht ++ bt) (length ht) ≡ parsed (some body) (length ht + length bt)
    body_read =
        subst
          (λ x.
            parse_seq fuel floats (ht ++ x) (length ht)
            ≡ parsed (some body) (length ht + length bt))
          (append-nil bt)
          (parse_seq-bstr fuel floats body bt ht [] rb fb eb
            (subst (λ x. length (ht ++ x) < 2 ^ 64) (sym (append-nil bt)) (omega arith))
            (subst (λ x. is_space_at_end (last_byte (ht ++ x)) ≡ true) (sym (append-nil bt)) ends)
            refl)

-- FrameSource_recv reads a frame of a printed header and a printed body: the bytes of the header,
-- both trees, and nothing of what follows. The trees can be read back, and the frame is shorter than
-- 2 ^ 16 bytes.
pub recv-both :
    (fuel : ℕ) (floats : Floats) (hdr body : Node) (ht bt more : Bytes)
    → IsReadableRoot hdr
    → IsReadableRoot body
    → blob_count (cons hdr nil) < fuel
    → blob_count (cons body nil) < fuel
    → bstr floats hdr ≡ some ht
    → bstr floats body ≡ some bt
    → length (ht ++ bt) < 2 ^ 16
    → recv fuel floats (framed (ht ++ bt) ++ more)
      ≡ ok (record { hbuf = some ht; header = some hdr; msg = some body; rest = more })
unfolding recv_data recv_body
recv-both fuel floats hdr body ht bt more rh rb fh fb eh eb s =
    let trees = both_parsed fuel floats hdr body ht bt rh rb fh fb eh eb s in
    recv-framed fuel floats (ht ++ bt) more
      (omega (arith, length-append ht bt, bstr-pos floats body bt eb))
    ∙ rw (recv_data, trees.0, recv_body, behind, trees.1, take-append ht bt) refl
  where
    behind : ltb (length ht) (length (ht ++ bt)) ≡ true
    behind =
        lt→ltb (length ht) (length (ht ++ bt))
          (omega (arith, length-append ht bt, bstr-pos floats body bt eb))
