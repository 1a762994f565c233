-- ===== src/Tests/Clients.antt =====
-- The proxy between a hub and a listener, over primitives that hide nothing.
use utu.Prelude.{codes, ◌≡◌, refl, true, false, some, [], ◌∷◌, ◌++◌, arith}
use utu.Prelude.Calls.{ok, stopped}
use utu.Stackish.Node.{Bytes}
use utu.Stackish.Print.{decimal, bstr}
use utu.Crypto.{CryptState}
use utu.Crypto.Delivery.{opened_once, sealed_once}
use utu.Frame.Delivery.{framed}
use utu.Peer.Delivery.{InStep}
use utu.Client.Proxy.{Side, Proxy, Ready, hub_recv, round, event_loop, side_start, start}
use utu.Client.Relay.{Relaying, event_loop-start}
use utu.Client.Delivery.{hub_recv-peer_send, round-empty}
use utu.Tests.Frames.{
  toy_library, toy-IsSealing, sender, receiver, hello, hello-IsSendable, packet, sent_hello,
}

-- The hub's socket alone, and the listener's alone.
abbrev from_hub : Ready
from_hub = record {
  hub_read = true;
  hub_write = false;
  listener_read = false;
  listener_write = false;
}

abbrev to_listener : Ready
to_listener = record {
  hub_read = false;
  hub_write = false;
  listener_read = false;
  listener_write = true;
}

-- The text of the message without a newline.
abbrev hello_alone : Bytes
hello_alone = codes "[ 1 header "

-- A message of the hub that was handed on to the listener.
abbrev handed_on : Proxy
handed_on = record {
  state = opened_once receiver;
  hub = record {
    reads = true;
    writes = false;
    message = some (hello, hello);
    incoming = [];
    outgoing = framed (hello_alone ++ hello_alone);
  };
  listener = side_start [];
}

hands_on :
    event_loop toy_library (from_hub ∷ to_listener ∷ []) (start receiver packet []) ≡ ok handed_on
unfolding event_loop hub_recv utu.Client.readnodes utu.Stackish.Sequence.parse_seq
    utu.Stackish.Parser.drive utu.Stackish.Parser.feed utu.Stackish.Parser.run_actions
    utu.Stackish.Tables.next utu.Stackish.Parser.perform bstr utu.Crypto.Packet.decrypt_node
    utu.Stackish.Decons.node_decons utu.Stackish.Sequence.parse utu.Client.Proxy.listener_send
    utu.Client.writenodes utu.Stackish.Print.catbstr decimal
hands_on = refl

event_loop-start_example : Relaying toy_library receiver packet [] handed_on
event_loop-start_example =
    event_loop-start toy_library receiver packet [] (from_hub ∷ to_listener ∷ []) handed_on hands_on

hub_recv-peer_send_example :
    (hub_recv toy_library receiver (packet ++ (7 ∷ []))
      ≡ ok (opened_once receiver, (hello, hello), 7 ∷ []))
    × InStep (sealed_once sender) (opened_once receiver)
hub_recv-peer_send_example =
    hub_recv-peer_send toy_library sender receiver (sealed_once sender) hello hello packet (7 ∷ [])
      toy-IsSealing (omega arith) hello-IsSendable hello-IsSendable (refl, refl) sent_hello
      (omega arith)

round-empty_example : round toy_library from_hub (start receiver (0 ∷ 0 ∷ packet) []) ≡ stopped
round-empty_example =
    round-empty toy_library from_hub (start receiver (0 ∷ 0 ∷ packet) []) packet refl refl refl
