-- ===== src/Tests/Frames.antt =====
-- Frames and packets on concrete inputs, over primitives that hide nothing.
use utu.Prelude.{
  ℕ, ◌+◌, ◌≡◌, ◌≤◌, refl, sym, ap, subst, ◌∙◌, true, false, not, ◌||◌, leb, none, some,
  some-injective, [], ◌∷◌, ◌++◌, length, codes, arith,
}
use utu.Prelude.Calls.{ok}
use utu.Stackish.Node.{Bytes, Node, node, nil, cons, number, group}
use utu.Stackish.Print.{decimal, value_text, catbstr, bstr}
use utu.Stackish.Text.{IsWord, IsWordByte}
use utu.Stackish.Cons.{node_cons, build, step, take_arg}
use utu.Stackish.Cons
use utu.Stackish.Sequence.{parsed, parse_seq}
use utu.Stackish.RoundTrip.{parse_seq-bstr}
use utu.Frame.{recv, send}
use utu.Frame.Delivery.{framed, recv-both}
use utu.Crypto.{CryptState, CryptPeer, Primitives, Library, Nonce, opened}
use utu.Crypto.Packet.{encrypt_packet, encrypt_node}
use utu.Crypto.Exchange.{empty_header}
use utu.Crypto.Receiver.{receiver_send_final}
use utu.Crypto.Delivery.{IsSealing, IsSendable, sealed_once, envelope}
use utu.Peer.{ended, peer_recv, peer_send, receiver_final}
use utu.Peer.Broken.{receiver_final-closed}
use utu.Peer.Forged.{raw, peer_recv-forged}
use utu.Peer.Conversation.{Sends, nothing_sent, sent, recv_all, recv_all-Sends}
use utu.Stackish.Classes.{is_word_byte}
use utu.Peer.Delivery.{InStep}
use utu.Tests.Parsing.{no_floats, leaf}

abbrev pub toy : Primitives
toy = record {
  export_key = λ k. some (k ∷ []);
  import_key = elim [ [] ↦ none | k ∷ ks ↦ some k ];
  shared_secret = λ a b. some ((a + b) ∷ []);
  schedule = λ secret. some 7;
  seal = λ key nonce header text. some (text, codes "tag");
  unseal = λ key nonce header text. opened text (codes "tag");
}

abbrev pub toy_library : Library
toy_library = record { primitives = toy; floats = no_floats; fuel = 5; space = 32768 }

pub toy-IsSealing : IsSealing toy
toy-IsSealing = record {
  opens = λ key nonce header text sealed tag e.
      let pair = some-injective (text, codes "tag") (sealed, tag) e in
      ap (λ x. opened x (codes "tag")) (sym (ap (λ x. x.0) pair))
      ∙ ap (λ x. opened text x) (ap (λ x. x.1) pair);
  sizes = λ key nonce header text sealed tag e.
      let pair = some-injective (text, codes "tag") (sealed, tag) e in
      (
        sym (ap (λ x. length x.0) pair),
        subst (λ x. length x ≤ 16) (ap (λ x. x.1) pair) (omega arith),
      );
}

abbrev pub peer : ℕ → ℕ → CryptPeer
peer nonce skey = record {
  name = none;
  nonce = record { left = nonce; right = nonce };
  key = 1;
  session = some (codes "s");
  skey = skey;
}

abbrev pub sender : CryptState
sender = record { me = peer 5 11; them = peer 8 12; shared = 0 }

abbrev pub receiver : CryptState
receiver = record { me = peer 8 12; them = peer 5 11; shared = 0 }

abbrev pub hello : Node
hello = node (some (codes "header")) group (cons (leaf (number 1)) nil)

name-IsWord : IsWord (codes "header")
name-IsWord = (
  omega arith,
  refl,
  (byte 101 refl, (byte 97 refl, (byte 100 refl, (byte 101 refl, (byte 114 refl, tt))))),
)
  where
    byte : (c : ℕ) → (leb 256 c || not (is_word_byte c)) ≡ false → IsWordByte c
    byte c h = ground arith

pub hello-IsSendable : IsSendable toy_library hello
hello-IsSendable = ((name-IsWord, (tt, omega arith, tt, tt)), omega arith)

-- The header as it is printed, and the two frames that leave.
abbrev pub hello_text : Bytes
hello_text = codes "[ 1 header " ++ (10 ∷ [])

pub printed_hello : bstr no_floats hello ≡ some hello_text
unfolding bstr catbstr value_text decimal
printed_hello = refl

abbrev envelope_text : Bytes
envelope_text = codes "[ '12:[ 1 header " ++ ((10 ∷ []) ++ (codes "' '3:tag' env " ++ (10 ∷ [])))

abbrev pub packet : Bytes
packet = framed (hello_text ++ envelope_text)

pub sent_hello : peer_send toy_library sender hello hello ≡ ok (sealed_once sender, packet)
unfolding peer_send encrypt_node encrypt_packet node_cons build Cons.step take_arg bstr catbstr
    value_text decimal send
sent_hello = refl

sent_twice :
    Sends toy_library sender
      ((hello, hello) ∷ (hello, hello) ∷ [])
      (packet ++ (packet ++ []))
      (sealed_once (sealed_once sender))
unfolding peer_send encrypt_node encrypt_packet node_cons build Cons.step take_arg bstr catbstr
    value_text decimal send
sent_twice =
    sent hello-IsSendable hello-IsSendable refl (omega arith)
      (sent hello-IsSendable hello-IsSendable refl (omega arith) nothing_sent)

recv_all-Sends_example :
    (u : CryptState) × (recv_all toy_library 2 receiver ((packet ++ (packet ++ [])) ++ (7 ∷ []))
      ≡ ok (u, (hello, hello) ∷ (hello, hello) ∷ [], 7 ∷ []))
    × InStep (sealed_once (sealed_once sender)) u
recv_all-Sends_example =
    recv_all-Sends toy_library sender (sealed_once (sealed_once sender)) receiver
      ((hello, hello) ∷ (hello, hello) ∷ []) (packet ++ (packet ++ [])) (7 ∷ []) toy-IsSealing
      (omega arith) (refl, refl) sent_twice

parse_seq-bstr_example :
    parse_seq 1 no_floats (codes "??" ++ (hello_text ++ hello_text)) 2 ≡ parsed (some hello) 14
parse_seq-bstr_example =
    parse_seq-bstr 1 no_floats hello hello_text (codes "??") hello_text hello-IsSendable.0
      (omega arith) printed_hello (omega arith) refl refl

recv-both_example :
    recv 1 no_floats (framed (hello_text ++ hello_text) ++ (7 ∷ []))
    ≡ ok (record { hbuf = some hello_text; header = some hello; msg = some hello; rest = 7 ∷ [] })
recv-both_example =
    recv-both 1 no_floats hello hello hello_text hello_text (7 ∷ []) hello-IsSendable.0
      hello-IsSendable.0 (omega arith) (omega arith) printed_hello printed_hello (omega arith)

-- The hub's side when the client closes the connection early.
abbrev hub : CryptState
hub = record receiver { me = record (peer 8 12) { name = some (codes "hub") }; them = peer 8 11 }

abbrev drawn : Nonce
drawn = record { left = 9; right = 9 }

abbrev hub_after : CryptState
hub_after = sealed_once (record hub { me = record hub.me { nonce = drawn } })

abbrev answer_text : Bytes
answer_text = codes "[ \"hub\" '1:s' 8 8 9 9 recv " ++ (10 ∷ [])

abbrev answer : Node
answer = envelope answer_text (codes "tag")

abbrev answer_frame : Bytes
answer_frame =
    framed
      (empty_header ++ (codes "[ '28:" ++ (answer_text ++ (codes "' '3:tag' env " ++ (10 ∷ [])))))

receiver_final-closed_example :
    (receiver_final toy_library (some drawn) true hub (codes "..") []
      ≡ ended true hub_after (codes ".." ++ answer_frame) [])
    × (hub_after.me.skey ≡ hub.me.skey)
    × (hub_after.them.skey ≡ hub.them.skey)
unfolding receiver_send_final encrypt_node encrypt_packet node_cons build Cons.step take_arg bstr
    catbstr value_text decimal send
receiver_final-closed_example =
    receiver_final-closed toy_library (some drawn) true hub hub_after (codes "..") empty_header
      answer_frame answer refl refl

abbrev raw_text : Bytes
raw_text = codes "[ '12:[ 1 header " ++ ((10 ∷ []) ++ (codes "' '0:' raw " ++ (10 ∷ [])))

printed_raw : bstr no_floats (raw hello_text) ≡ some raw_text
unfolding bstr catbstr value_text decimal
printed_raw = refl

peer_recv-forged_example :
    peer_recv toy_library receiver (framed (hello_text ++ raw_text) ++ (7 ∷ []))
    ≡ ok (receiver, some hello, hello, 7 ∷ [])
peer_recv-forged_example =
    peer_recv-forged toy_library receiver hello hello hello_text hello_text raw_text (7 ∷ [])
      (omega arith) hello-IsSendable hello-IsSendable printed_hello printed_hello printed_raw
      (omega arith)
