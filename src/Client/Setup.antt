-- ===== src/Client/Setup.antt =====
-- How the proxy of src/client/proxy.c is configured and connects to its hub. The sockets are there;
-- what the listener is told of errors, and the keys and their fingerprints that it is told at the end,
-- are left out.
use utu.Prelude.{
  Bool, true, false, ◌&&◌, Option, none, some, is_some, List, [], ◌∷◌, ◌++◌, if◌then◌else◌, codes,
}
use utu.Prelude.Calls.{Call, ok, stopped, then_call, or_stop}
use utu.Stackish.Node.{Bytes, Node}
use utu.Stackish.Print.{bstr}
use utu.Stackish.Decons.{Out, node_decons}
use utu.Crypto.{CryptState, Library, Nonce}
use utu.Crypto.Packet.{of_parts}
use utu.Crypto.Signature.{biseq}
use utu.Crypto.Initiator.{initiator_start, initiator_process_response, initiator_send_final}
use utu.Peer.{Ended, ended, or_else, must, or_none}
use utu.Client.{NodesRead, readnodes, write_header_node}
use utu.Client.Proxy.{Message, both}

-- The part of `Proxy` that is configured. What is null is `none`.
pub record Config : Type 0 where
  pub host_host : Option Bytes
  pub host_port : Option Bytes
  pub host_name : Option Bytes
  pub host_key : Option Bytes
  pub client_name : Option Bytes
  pub client_key : Option Bytes

-- Keys of no bytes are set to null.
abbrev key_or_null : Option Bytes → Option Bytes
key_or_null (some (c ∷ cs)) = some (c ∷ cs)
key_or_null _ = none

abbrev host_parts : List Out → Call (Option Bytes × Option Bytes × Option Bytes × Option Bytes)
host_parts (Out.binary key ∷ Out.text name ∷ Out.text port ∷ Out.text host ∷ []) =
    ok (key, name, port, host)
host_parts _ = stopped

abbrev client_parts : List Out → Call (Option Bytes × Option Bytes)
client_parts (Out.binary key ∷ Out.text name ∷ []) = ok (key, name)
client_parts _ = stopped

-- `Proxy_configure`: the configuration and the bytes left; `failed` is its 0.
unfoldable pub configure : Library → Bytes → Call (Config × Bytes)
configure lib incoming = then_call (readnodes lib.fuel lib.floats incoming) (λ r.
    then_call (both r) (λ ((client, host), rest).
      then_call (of_parts (node_decons host (codes "[bsssw") (codes "host" ∷ []))) (λ a.
        then_call (host_parts a) (λ (key, name, port, address).
          then_call (of_parts (node_decons client (codes "[bsw") (codes "client" ∷ []))) (λ b.
            then_call (client_parts b) (λ (client_key, client_name). ok (
              record {
                host_host = address;
                host_port = port;
                host_name = name;
                host_key = key_or_null key;
                client_name = client_name;
                client_key = key_or_null client_key;
              },
              rest,
            )))))))

-- `Proxy_confirm_key`: the key that the hub gives, against the one expected, if there is one.
unfoldable pub confirm_key : Library → Option Bytes → CryptState → Bool
confirm_key lib none s = true
confirm_key lib (some expected) s = biseq (lib.primitives.export_key s.them.key) (some expected)

-- The checks of `Proxy_final_verify` before it tells the listener.
unfoldable pub final_checks : Library → Config → CryptState → Bool
final_checks lib config s =
    is_some config.host_name
    && is_some config.client_name
    && biseq config.host_name s.them.name
    && biseq config.client_name s.me.name
    && biseq config.host_key (lib.primitives.export_key s.them.key)

-- The header of a frame without a body.
abbrev pub header_only : NodesRead → Option Node
header_only r = elim r.body [ none ↦ r.header | some body ↦ none ]

abbrev pub both_read : NodesRead → Option Message
both_read r = elim r.header [
  | none ↦ none
  | some header ↦ elim r.body [ none ↦ none | some body ↦ some (header, body) ]
]

-- From the hub's answer on: a check that fails leaves `rc` at what was written or at the 1 of the
-- answer, also where the final checks fail.
unfoldable pub connect_final : Library → Config → CryptState → Bytes → Bytes → Call Ended
connect_final lib config s sent incoming = must (readnodes lib.fuel lib.floats incoming) (λ r.
    or_none (both_read r) (ended true s sent r.rest) (λ (rhdr, rmsg).
      must (or_stop (bstr lib.floats rhdr)) (λ header.
        or_else (initiator_process_response lib header rmsg s) (ended false s sent r.rest) (λ u.
          or_else (initiator_send_final lib u) (ended true u sent r.rest) (λ (v, hbuf, imsg).
            must (write_header_node lib.floats hbuf (some imsg)) (λ bytes.
              if final_checks lib config v
              then ended true v (sent ++ bytes) r.rest
              else ended true v (sent ++ bytes) r.rest))))))

-- `Proxy_connect` with a state that was made, the nonce that it draws, and the bytes that will arrive.
unfoldable pub connect : Library → Config → Option Nonce → CryptState → Bytes → Call Ended
unfolding connect_final confirm_key
connect lib config drawn s incoming = must (readnodes lib.fuel lib.floats incoming) (λ r.
    or_none (header_only r) (ended false s [] r.rest) (λ rhdr.
      or_else (initiator_start lib (confirm_key lib config.host_key) drawn rhdr s)
        (ended false s [] r.rest)
        (λ (u, header, imsg).
          must (write_header_node lib.floats header (some imsg))
            (λ sent. connect_final lib config u sent r.rest))))
