-- ===== src/Commands.antt =====
-- The services of the hub: src/hub/commands.c. What is only logged is left out.
pub mod Service
pub mod Unnamed
pub mod Delivery
use utu.Prelude.{
  ℕ, ◌+◌, ◌-◌, ◌%◌, ◌^◌, Bool, true, false, Option, none, some, List, [], ◌∷◌, ◌==◌, length, take,
  codes, if◌then◌else◌,
}
use utu.Prelude.Calls.{Call, ok, failed, stopped, then_call, or_stop, check}
use utu.Stackish.Node.{
  Bytes, Floats, Value, Node, Nodes, node, nil, cons, number, string, blob, floating, group,
}
use utu.Stackish.Print.{bstr}
use utu.Stackish.Cons.{Arg, node_cons}
use utu.Stackish.Decons.{Out, node_decons}
use utu.Crypto.Packet.{of_built, of_parts}
use utu.Message.{Store, put}
use utu.Message.Decons.{cons_header, cons_body}
use utu.Queue.{MsgQueue}
use utu.Member.{send_msg}
use utu.Heap.{Heap}
use utu.Routing.{Table, Route, Library, update}
use utu.Routing.Paths.{register, unregister, route_find, register_callback}

-- What is asked of src/hub/info.c, and what it gives: data, or an error.
pub data Info : Type 0 where
  tag get list : Info

pub data Answer : Type 0 where
  given refused : Bytes → Answer

-- What the services use: routes, the printing of floating point numbers, `time`, and the files.
pub record Services : Type 0 where
  pub routing : Library
  pub floats : Floats
  pub now : ℕ
  pub info : Info → Bytes → Answer

-- The part of the hub that services reach: the routes and their root, the names and the queues of
-- members, the reference counts and the trees of messages, and the address of the next message.
pub record Hub : Type 0 where
  pub table : Table
  pub routes : ℕ
  pub names : ℕ → Option Bytes
  pub queues : ℕ → MsgQueue
  pub counts : Store
  pub trees : ℕ → Option (Node × Node)
  pub fresh : ℕ

-- `Message_alloc`; a fresh message has no references.
abbrev message_alloc : Node → Node → Hub → Hub
message_alloc hdr body hub = record hub {
  counts = put hub.fresh (some 0) hub.counts;
  trees = update hub.trees hub.fresh (some (hdr, body));
  fresh = hub.fresh + 1;
}

-- `Member_send_msg`, with what it returns.
unfoldable pub member_send : ℕ → ℕ → Hub → Call (Hub × Bool)
member_send member msg hub =
    then_call (or_stop (send_msg (hub.queues member) msg hub.counts)) (λ (q, counts, sent).
      ok (record hub { queues = update hub.queues member q; counts = counts }, sent))

-- `send_response`; that a queue may be full is not noticed.
unfoldable pub send_response : ℕ → Node → Bytes → Hub → Call Hub
unfolding member_send
send_response member response type hub = then_call (of_built (cons_header 0)) (λ hdr.
    then_call (of_built (cons_body response type)) (λ body.
      then_call (member_send member hub.fresh (message_alloc hdr body hub)) (λ (u, sent). ok u)))

abbrev rpy : Bytes
rpy = codes "rpy"

abbrev err : Bytes
err = codes "err"

-- A callback that only answers with a word.
unfoldable pub answer_word : Bytes → ℕ → Hub → Call (Hub × Bool)
unfolding send_response
answer_word word from hub =
    then_call (of_built (node_cons (codes "[w") (Arg.c_string (some word) ∷ [])))
      (λ response. then_call (send_response from response rpy hub) (λ u. ok (u, true)))

-- `Node_new_string` of a parent, which may be null.
abbrev new_string : Node → Option Bytes → Node
new_string (node name v kids) text = node name v (cons (node none (string text) nil) kids)

unfoldable pub new_strings : Node → List (Option Bytes) → Node
new_strings parent [] = parent
new_strings parent (text ∷ texts) = new_strings (new_string parent text) texts

-- The response of `members` and `children`: the path that was asked for, under a word.
abbrev path_response : Services → Node → Bytes → Call Node
path_response lib message word = then_call (or_stop (bstr lib.floats message)) (λ path. of_built (
    node_cons (codes "[b@w") (
      Arg.bstring (some path)
      ∷ Arg.c_string (some (codes "@path"))
      ∷ Arg.c_string (some word)
      ∷ [])))

abbrev pub name_each : {A : Type 0} → (ℕ → A) → List ℕ → List A
name_each f [] = []
name_each f (x ∷ xs) = f x ∷ name_each f xs

-- `Hub_route_register_cb` and `Hub_route_unregister_cb`
unfoldable pub route_register_cb : Services → ℕ → Node → Hub → Call (Hub × Bool)
route_register_cb lib from message hub =
    then_call (or_stop (register lib.routing hub.table hub.routes message from))
      (λ (t, b). ok (record hub { table = t }, b))

unfoldable pub route_unregister_cb : Services → ℕ → Node → Hub → Call (Hub × Bool)
route_unregister_cb lib from message hub =
    then_call (or_stop (unregister lib.routing hub.table hub.routes message from))
      (λ (t, b). ok (record hub { table = t }, b))

-- `Hub_route_members_cb`
unfoldable pub route_members_cb : Services → ℕ → Node → Hub → Call (Hub × Bool)
unfolding send_response new_strings
route_members_cb lib from message hub =
    then_call (path_response lib message (codes "members")) (λ response.
      elim (route_find lib.routing hub.table hub.routes message) [
        | some target ↦
            let members = (hub.table.routes target).members in
            then_call
              (send_response from
                (new_strings response (name_each hub.names (take members.last members.members))) rpy
                hub)
              (λ u. ok (u, true))
        | none ↦
            then_call
              (send_response from
                (new_string response (some (codes "Requested route does not exist."))) err hub)
              (λ u. ok (u, true))
      ])

-- `Hub_route_children_cb`
unfoldable pub route_children_cb : Services → ℕ → Node → Hub → Call (Hub × Bool)
unfolding send_response new_strings
route_children_cb lib from message hub =
    then_call (path_response lib message (codes "children")) (λ response.
      let names = λ (target : ℕ).
        let children = (hub.table.routes target).children in
        name_each (λ r. some (hub.table.routes r).name) (take children.last children.members) in
      let found : Node = elim (route_find lib.routing hub.table hub.routes message) [
        | none ↦ response
        | some target ↦ new_strings response (names target)
      ] in
      then_call (send_response from found rpy hub) (λ u. ok (u, true)))

-- `Hub_system_ping_cb`: the time that has passed, as a `uint64_t`.
unfoldable pub system_ping_cb : Services → ℕ → Node → Hub → Call (Hub × Bool)
unfolding send_response
system_ping_cb lib from (node name (number sent_at) kids) hub =
    then_call
      (of_built (
        node_cons (codes "[nw") (
          Arg.uint64 ((lib.now + 2 ^ 64 - sent_at) % 2 ^ 64)
          ∷ Arg.c_string (some (codes "pong"))
          ∷ [])))
      (λ response. then_call (send_response from response rpy hub) (λ u. ok (u, true)))
system_ping_cb lib from (node name _ kids) hub = ok (hub, false)

-- The name that is asked for; it must not be empty.
abbrev info_name : Node → Call Bytes
info_name message =
    then_call (of_parts (node_decons message (codes "[sw") (codes "name" ∷ [])))
      (λ out. elim out [ Out.text (some (c ∷ cs)) ∷ [] ↦ ok (c ∷ cs) | _ ↦ failed ])

abbrev info_args : Bytes → Bytes → Answer → Bytes × List Arg
info_args name operation (given data_given) = (
  codes "[[sw[bww",
  Arg.bstring (some name)
      ∷ Arg.c_string (some (codes "name"))
      ∷ Arg.bstring (some data_given)
      ∷ Arg.c_string (some operation)
      ∷ Arg.c_string (some (codes "info"))
      ∷ [],
)
info_args name operation (refused error) = (
  codes "[[sw[sww",
  Arg.bstring (some name)
      ∷ Arg.c_string (some (codes "name"))
      ∷ Arg.bstring (some error)
      ∷ Arg.c_string (some (codes "error"))
      ∷ Arg.c_string (some (codes "info"))
      ∷ [],
)

abbrev answer_type : Answer → Bytes
answer_type (given _) = rpy
answer_type (refused _) = err

-- `Hub_info_generic`
unfoldable pub info_generic : Services → Info → Bytes → ℕ → Node → Hub → Call (Hub × Bool)
unfolding send_response
info_generic lib op operation from message hub = elim (info_name message) [
  | failed ↦ ok (hub, false)
  | stopped ↦ stopped
  | ok name ↦
      let answer = lib.info op name in
      let (format, args) = info_args name operation answer in
      then_call (of_built (node_cons format args)) (λ response.
        then_call (send_response from response (answer_type answer) hub) (λ u. ok (u, true)))
]
