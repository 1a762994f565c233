-- ===== src/Tests/Commands.antt =====
-- The hub's services on messages.
use Prim.Native.Nat.{lt}
use utu.Prelude.{ℕ, ◌≡◌, refl, Bool, true, Option, none, some, List, [], ◌∷◌, codes, arith, take}
use utu.Prelude.Calls.{Call, ok, stopped}
use utu.Stackish.Node.{Bytes, Node, Nodes, node, nil, cons, group, number}
use utu.Message.{Store}
use utu.Routing.{Table}
use utu.Routing.Paths.{route_find}
use utu.Commands.{Info, Answer, given, Services, Hub}
use utu.Commands.Service.{
  Registration, registrations, commands_register, service_message, route_deliver,
}
use utu.Commands.Unnamed.{service_message-unnamed}
use utu.Commands.Delivery.{Delivers, offer_each, route_deliver_refines}
use utu.Tests.Parsing.{no_floats}
use utu.Tests.Queues.{store, empty_queue, empty_queue-Holds}
use utu.Tests.Routes.{shop, rooted, chatting}

abbrev services : Services
services = record {
  routing = shop;
  floats = no_floats;
  now = 100;
  info = λ op path. given (codes "data");
}

abbrev hub_of : Table → Hub
hub_of t = record {
  table = t;
  routes = 1;
  names = λ m. some (codes "alex");
  queues = λ m. empty_queue;
  counts = store;
  trees = λ p. none;
  fresh = 70;
}

abbrev serving : Call Hub → Hub
serving (ok hub) = hub
serving _ = hub_of rooted

-- The hub with its commands.
abbrev hub : Hub
hub = serving (commands_register services (hub_of rooted))

-- A path of one name under another, around a message.
abbrev wrapped_in : Bytes → Bytes → Nodes → Node
wrapped_in root child inner = node (some root) group (cons (node (some child) group inner) nil)

abbrev callback_of : Option ℕ → ℕ
callback_of none = 0
callback_of (some r) = (hub.table.routes r).callback

abbrev called : List Registration → List ℕ
called [] = []
called (reg ∷ regs) =
    callback_of (route_find shop hub.table 1 (wrapped_in reg.root reg.child nil)) ∷ called regs

-- Each command is found by the path that it was registered with.
all_called : called registrations ≡ 1 ∷ 2 ∷ 3 ∷ 4 ∷ 5 ∷ 6 ∷ 7 ∷ 8 ∷ 9 ∷ 10 ∷ 11 ∷ 12 ∷ []
unfolding commands_register route_find utu.Routing.find_child utu.Heap.search
    utu.Stackish.Cons.node_cons utu.Routing.Paths.register_callback utu.Routing.route_add
    utu.Routing.create_root utu.Heap.create utu.Heap.add
all_called = refl

answered : Call (Hub × Bool) → Option (Node × Node)
answered (ok (u, true)) = u.trees 70
answered _ = none

-- A ping that was sent at 60 is answered at 100.
ping_answered :
    answered (
      service_message services 8 9
        (wrapped_in (codes "system") (codes "ping") (cons (node none (number 60) nil) nil))
        hub)
    ≡ some (
      node (some (codes "header")) group (cons (node none (number 0) nil) nil),
      node
          (some (codes "rpy"))
          group
          (cons (node (some (codes "pong")) group (cons (node none (number 40) nil) nil)) nil),
    )
unfolding answered service_message commands_register route_find utu.Routing.find_child
    utu.Heap.search utu.Stackish.Cons.node_cons utu.Routing.Paths.register_callback
    utu.Routing.route_add utu.Routing.create_root utu.Heap.create utu.Heap.add
    utu.Commands.system_ping_cb utu.Message.Decons.cons_header utu.Message.Decons.cons_body
    utu.Member.send_msg utu.Message.ref_inc
ping_answered = refl

null_is_error : (a : Option Bytes) → shop.bstrcmp a none ≡ lt
null_is_error none = refl
null_is_error (some a) = refl

-- A number where a path is expected.
abbrev unnamed : Node
unnamed = wrapped_in (codes "route") (codes "register") (cons (node none (number 5) nil) nil)

service_message-unnamed_example : service_message services 8 9 unnamed hub ≡ stopped
unfolding commands_register route_find utu.Routing.find_child utu.Heap.search
    utu.Stackish.Cons.node_cons utu.Routing.Paths.register_callback utu.Routing.route_add
    utu.Routing.create_root utu.Heap.create utu.Heap.add
service_message-unnamed_example =
    service_message-unnamed services 8 9 3 unnamed (number 5) nil hub null_is_error refl refl refl
      refl (omega arith)

-- The member 40 of the route 4 gets the message 8.
route_deliver_refines_example :
    Delivers
      (λ m. 2)
      (route_deliver 4 8 (hub_of chatting))
      (offer_each
        (λ m. 2)
        8
        (take (chatting.routes 4).members.last (chatting.routes 4).members.members)
        0
        (λ m. [])
        store)
route_deliver_refines_example =
    route_deliver_refines (λ m. 2) 4 8 (hub_of chatting) (λ m. []) (λ m. (empty_queue-Holds, refl))
