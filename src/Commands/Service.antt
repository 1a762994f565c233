-- ===== src/Commands/Service.antt =====
-- The table of registrations and the dispatch of src/hub/commands.c, and `Route_deliver` of
-- src/hub/routing.c.
use utu.Prelude.{
  ℕ, ◌+◌, ◌-◌, ltb, get_or, Bool, true, false, Option, none, some, List, [], ◌∷◌, take, codes,
  if◌then◌else◌,
}
use utu.Prelude.Calls.{Call, ok, stopped, then_call, or_stop, check}
use utu.Stackish.Node.{Bytes, Node, node, nil, cons}
use utu.Stackish.Cons.{Arg, node_cons}
use utu.Crypto.Packet.{of_built}
use utu.Message.{ref_inc}
use utu.Routing.Paths.{register_callback, route_find}
use utu.Commands.{
  tag, get, list, Services, Hub, member_send, answer_word, route_register_cb, route_unregister_cb,
  route_members_cb, route_children_cb, system_ping_cb, info_generic,
}

-- The functions of the table, by their numbers from 1 on; a call of any other address stops.
abbrev callbacks : Services → List (ℕ → Node → Hub → Call (Hub × Bool))
callbacks lib =
    route_register_cb lib
    ∷ route_unregister_cb lib
    ∷ route_members_cb lib
    ∷ route_children_cb lib
    ∷ (λ from message hub. answer_word (codes "registered") from hub)
    ∷ (λ from message hub. answer_word (codes "mendicated") from hub)
    ∷ (λ from message hub. answer_word (codes "invited") from hub)
    ∷ (λ from message hub. answer_word (codes "sent") from hub)
    ∷ info_generic lib get (codes "get")
    ∷ info_generic lib list (codes "list")
    ∷ info_generic lib tag (codes "tag")
    ∷ system_ping_cb lib
    ∷ []

unfoldable pub call_back : Services → ℕ → ℕ → Node → Hub → Call (Hub × Bool)
call_back lib callback from message hub =
    if ltb 0 callback
    then get_or (callbacks lib) (callback - 1) (λ f m h. stopped) from message hub
    else stopped

-- `Registration`, and `registrations` up to the entry that ends them.
pub record Registration : Type 0 where
  pub child : Bytes
  pub root : Bytes
  pub callback : ℕ

abbrev entry : Bytes → Bytes → ℕ → Registration
entry child root callback = record { child = child; root = root; callback = callback }

abbrev pub registrations : List Registration
registrations =
    entry (codes "register") (codes "route") 1
    ∷ entry (codes "unregister") (codes "route") 2
    ∷ entry (codes "members") (codes "route") 3
    ∷ entry (codes "children") (codes "route") 4
    ∷ entry (codes "register") (codes "member") 5
    ∷ entry (codes "mendicate") (codes "member") 6
    ∷ entry (codes "invite") (codes "member") 7
    ∷ entry (codes "send") (codes "member") 8
    ∷ entry (codes "get") (codes "info") 9
    ∷ entry (codes "list") (codes "info") 10
    ∷ entry (codes "tag") (codes "info") 11
    ∷ entry (codes "ping") (codes "system") 12
    ∷ []

-- The path of a registration.
abbrev pub registered_path : Registration → Call Node
registered_path reg =
    of_built
      (node_cons (codes "[[ww") (Arg.c_string (some reg.child) ∷ Arg.c_string (some reg.root) ∷ []))

-- The loop of `Hub_commands_register`; `failed` is its 0.
unfoldable pub register_each : Services → List Registration → Hub → Call Hub
register_each lib [] hub = ok hub
register_each lib (reg ∷ regs) hub = then_call (registered_path reg) (λ path.
    then_call (or_stop (register_callback lib.routing hub.table hub.routes path reg.callback))
      (λ (t, b). check b (register_each lib regs (record hub { table = t }))))

-- `Hub_commands_register`
unfoldable pub commands_register : Services → Hub → Call Hub
unfolding register_each
commands_register lib hub = register_each lib registrations hub

-- The loop of `Route_deliver` over members, with the deliveries so far; nothing is its -1.
unfoldable pub deliver : ℕ → List ℕ → ℕ → Hub → Call (Hub × Option ℕ)
deliver msg [] count hub = ok (hub, some count)
deliver msg (m ∷ ms) count hub =
    then_call (member_send m msg hub)
      (λ (u, sent). let more = deliver msg ms (count + 1) u in if sent then more else ok (u, none))

-- `Route_deliver`
unfoldable pub route_deliver : ℕ → ℕ → Hub → Call (Hub × Option ℕ)
unfolding deliver
route_deliver route msg hub =
    let members = (hub.table.routes route).members in
    deliver msg (take members.last members.members) 0 hub

-- `extract_message`
abbrev pub extract_message : Node → Option Node
extract_message (node name v nil) = none
extract_message (node name v (cons (node a w nil) rest)) = none
extract_message (node name v (cons (node a w (cons n more)) rest)) = some n

-- The end of `Hub_service_message` where a check has failed.
abbrev kept : ℕ → Hub → Call (Hub × Bool)
kept msg hub =
    then_call (or_stop (ref_inc msg hub.counts))
      (λ counts. ok (record hub { counts = counts }, false))

-- `Hub_service_message` of a message with its sender and its data, with what it returns.
unfoldable pub service_message : Services → ℕ → ℕ → Node → Hub → Call (Hub × Bool)
unfolding call_back route_deliver
service_message lib msg from payload hub =
    elim (route_find lib.routing hub.table hub.routes payload) [
      | none ↦ kept msg hub
      | some target ↦
          let serve : Call (Hub × Bool) = elim (extract_message payload) [
            | none ↦ kept msg hub
            | some message ↦
                then_call (call_back lib (hub.table.routes target).callback from message hub)
                  (λ (u, b). if b then ok (u, true) else kept msg u)
          ] in
          if (hub.table.routes target).is_internal_callback
          then serve
          else then_call (route_deliver target msg hub) (λ (u, count). ok (u, true))
    ]
