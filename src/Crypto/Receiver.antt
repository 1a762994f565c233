-- ===== src/Crypto/Receiver.antt =====
-- The receiver's side of the key exchange, which is the hub's: src/protocol/crypto.c. A nonce that
-- `CryptState_create_nonce` draws is an argument, `none` where it fails.
use utu.Prelude.{Bool, false, Option, some, List, [], ◌∷◌, if◌then◌else◌, codes}
use utu.Prelude.Calls.{Call, ok, failed, stopped, then_call, of_option, check}
use utu.Stackish.Node.{Bytes, Node}
use utu.Stackish.Sequence.{parse}
use utu.Stackish.Cons.{Arg, node_cons}
use utu.Stackish.Decons.{Out, node_decons}
use utu.Crypto.{CryptState, Library, Nonce, nonce_inc, nonce_check}
use utu.Crypto.Packet.{of_built, of_parts, of_outcome, encrypt_node, decrypt_node}
use utu.Crypto.Exchange.{header_word, empty_header, create_shared_key, finalize_session}

-- `CryptState_receiver_start`: N, PubR.
unfoldable pub receiver_start : Library → Option Nonce → CryptState → Call (CryptState × Node)
receiver_start lib drawn s = then_call (of_option drawn) (λ nonce.
    then_call (of_option (lib.primitives.export_key s.me.key)) (λ key.
      then_call
        (of_built (
          node_cons (codes "[nnbw") (
            Arg.uint64 nonce.right
            ∷ Arg.uint64 nonce.left
            ∷ Arg.bstring (some key)
            ∷ Arg.c_string (some header_word)
            ∷ [])))
        (λ msg. ok (record s { me = record s.me { nonce = nonce } }, msg))))

abbrev ident_of : CryptState → List Out → Call CryptState
ident_of s (Out.uint64 l ∷ Out.uint64 r ∷ Out.binary session ∷ Out.text name ∷ []) = ok (record s {
  them = record s.them { nonce = record { left = l; right = r }; session = session; name = name };
})
ident_of s _ = stopped

-- `CryptState_receiver_process_response`: PubI, Er(I,Kir,Ni).
unfoldable pub receiver_process_response :
    Library → (CryptState → Bool) → Bytes → Node → CryptState → Call CryptState
receiver_process_response lib key_confirm hbuf payload s =
    then_call (of_outcome (parse lib.fuel lib.floats hbuf)) (λ header.
      then_call (create_shared_key lib key_confirm false s header) (λ u.
        then_call (decrypt_node lib u u.shared hbuf payload) (λ (v, ident).
          then_call (of_parts (node_decons ident (codes "[nnbsw") (codes "init" ∷ [])))
            (λ out. ident_of v out))))

-- The state with a nonce of its own, and what the hub tells of itself and gives back.
abbrev pub with_nonce : CryptState → Nonce → CryptState
with_nonce s nonce = record s { me = record s.me { nonce = nonce } }

abbrev pub answer_args : CryptState → List Arg
answer_args u =
    Arg.bstring u.me.name
    ∷ Arg.bstring u.me.session
    ∷ Arg.uint64 u.them.nonce.right
    ∷ Arg.uint64 u.them.nonce.left
    ∷ Arg.uint64 u.me.nonce.right
    ∷ Arg.uint64 u.me.nonce.left
    ∷ Arg.c_string (some (codes "recv"))
    ∷ []

-- `CryptState_receiver_send_final`: Ei(R,Kri,Ni,Nr), with the bytes of its header.
unfoldable pub receiver_send_final :
    Library → Option Nonce → CryptState → Call (CryptState × Bytes × Node)
receiver_send_final lib drawn s = then_call (of_option drawn) (λ nonce.
    then_call (of_built (node_cons (codes "[sbnnnnw") (answer_args (with_nonce s nonce))))
      (λ payload.
        then_call (encrypt_node lib (with_nonce s nonce) s.shared empty_header payload)
          (λ (v, msg). ok (v, empty_header, msg))))

abbrev pub nonce_of : List Out → Call Nonce
nonce_of (Out.uint64 l ∷ Out.uint64 r ∷ []) = ok (record { left = l; right = r })
nonce_of _ = stopped

-- `CryptState_receiver_done`: Er(Nr).
unfoldable pub receiver_done : Library → Bytes → Node → CryptState → Call CryptState
receiver_done lib header msg s = then_call (decrypt_node lib s s.shared header msg) (λ (u, payload).
    then_call (of_parts (node_decons payload (codes "[nnw") (codes "init" ∷ []))) (λ out.
      then_call (nonce_of out) (λ expected.
        check (nonce_check u.me.nonce (nonce_inc expected))
          (then_call (finalize_session lib u) (λ (v, done). if done then ok v else failed)))))
