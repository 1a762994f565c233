-- ===== src/Crypto/Initiator.antt =====
-- The initiator's side of the key exchange, which is the client's: src/protocol/crypto.c.
use utu.Prelude.{Bool, true, Option, some, List, [], ◌∷◌, if◌then◌else◌, codes}
use utu.Prelude.Calls.{Call, ok, stopped, then_call, of_option, or_stop}
use utu.Stackish.Node.{Bytes, Node}
use utu.Stackish.Print.{bstr}
use utu.Stackish.Cons.{Arg, node_cons}
use utu.Stackish.Decons.{Out, node_decons}
use utu.Crypto.{CryptState, Library, Nonce, nonce_inc, nonce_check}
use utu.Crypto.Packet.{of_built, of_parts, encrypt_node, decrypt_node}
use utu.Crypto.Exchange.{header_word, empty_header, create_shared_key, finalize_session}

-- `CryptState_initiator_start`: PubI, Er(I,Kir,Ni), with the bytes of its header.
unfoldable pub initiator_start :
    Library
    → (CryptState → Bool)
    → Option Nonce
    → Node
    → CryptState
    → Call (CryptState × Bytes × Node)
initiator_start lib key_confirm drawn recvhdr s =
    then_call (create_shared_key lib key_confirm true s recvhdr) (λ u.
      then_call (of_option (lib.primitives.export_key u.me.key)) (λ key.
        then_call
          (of_built (
            node_cons (codes "[bw")
              (Arg.bstring (some key) ∷ Arg.c_string (some header_word) ∷ [])))
          (λ header. then_call (or_stop (bstr lib.floats header)) (λ hbuf.
            then_call (of_option drawn) (λ nonce.
              let v = record u { me = record u.me { nonce = nonce } } in
              let args =
                Arg.bstring v.me.name
                ∷ Arg.bstring v.me.session
                ∷ Arg.uint64 nonce.right
                ∷ Arg.uint64 nonce.left
                ∷ Arg.c_string (some (codes "init"))
                ∷ [] in
              then_call (of_built (node_cons (codes "[sbnnw") args)) (λ payload.
                then_call (encrypt_node lib v v.shared hbuf payload)
                  (λ (x, msg). ok (x, hbuf, msg))))))))

-- What the receiver's answer holds: the nonce that comes back, and the state with theirs.
abbrev answer_of : CryptState → List Out → Call (CryptState × Nonce)
answer_of s
      (Out.uint64 l
        ∷ Out.uint64 r
        ∷ Out.uint64 ml
        ∷ Out.uint64 mr
        ∷ Out.binary session
        ∷ Out.text name
        ∷ []) =
    ok (
      record s {
        them = record s.them {
          nonce = record { left = l; right = r };
          session = session;
          name = name;
        };
      },
      record { left = ml; right = mr },
    )
answer_of s _ = stopped

-- `CryptState_initiator_process_response`: Ei(R,Kri,Ni,Nr). Where the nonce that comes back is
-- another one, the check fails, and what is returned is still the 1 of `Node_decons`.
unfoldable pub initiator_process_response : Library → Bytes → Node → CryptState → Call CryptState
initiator_process_response lib header msg s =
    then_call (decrypt_node lib s s.shared header msg) (λ (u, payload).
      then_call (of_parts (node_decons payload (codes "[nnnnbsw") (codes "recv" ∷ []))) (λ out.
        then_call (answer_of u out)
          (λ (v, me_nonce). if nonce_check v.me.nonce (nonce_inc me_nonce) then ok v else ok v)))

-- `CryptState_initiator_send_final`: Er(Nr). The message is returned also where the session keys
-- could not be scheduled.
unfoldable pub initiator_send_final : Library → CryptState → Call (CryptState × Bytes × Node)
initiator_send_final lib s =
    let args =
      Arg.uint64 s.them.nonce.right
      ∷ Arg.uint64 s.them.nonce.left
      ∷ Arg.c_string (some (codes "init"))
      ∷ [] in
    then_call (of_built (node_cons (codes "[nnw") args)) (λ payload.
      then_call (encrypt_node lib s s.shared empty_header payload)
        (λ (u, msg). then_call (finalize_session lib u) (λ (v, done). ok (v, empty_header, msg))))
