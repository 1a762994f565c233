-- ===== src/Tests/Routes.antt =====
-- Routes with a sort and a comparison of strings of their own.
use Prim.Native.Nat.{lt, eq}
use utu.Prelude.{ℕ, ◌≡◌, refl, Bool, false, Option, none, some, [], Ordering, arith, codes}
use utu.Stackish.Node.{Bytes, Node, Nodes, node, nil, cons, group, number}
use utu.Heap.{create}
use utu.Heap.Pointers.{create_pointers}
use utu.Routing.{Route, Table, Library, create_root, unregister_all}
use utu.Routing.Paths.{register, route_find, unregister}
use utu.Routing.Linked.{IsLinked, joined}
use utu.Routing.Joined.{no_routes, no_routes-IsLinked, create_root-IsLinked}
use utu.Routing.Registered.{Registers, register-Registers}
use utu.Routing.Left.{HasLeft, unregister_all-HasLeft}
use utu.Routing.Unregistered.{Unregisters, unregister-Unregisters}
use utu.Tests.Heaps.{by_insertion}
use utu.Tests.Sorting.{by_insertion-IsSorting}
use utu.Tests.Orders.{compare_bytes, compare_bytes-IsOrder, by_insertion-Orders}
use utu.Routing.Found.{AreNamed, no_routes-AreNamed, create_root-AreNamed}
use utu.Routing.Findable.{Findable, register-Findable}

-- A null string is an error, which is negative.
abbrev compare_strings : Option Bytes → Option Bytes → Ordering
compare_strings (some a) (some b) = compare_bytes a b
compare_strings _ _ = lt

abbrev pub shop : Library
shop = record { by = by_insertion; bstrcmp = compare_strings }

abbrev blank : Route
blank = record {
  name = [];
  is_internal_callback = false;
  callback = 0;
  members = create_pointers;
  children = create (λ x y. eq);
}

abbrev pub rooted : Table
rooted = (create_root shop (no_routes blank) (codes "root")).0

rooted-IsLinked : IsLinked rooted
rooted-IsLinked =
    (create_root-IsLinked shop (no_routes blank) (codes "root") (no_routes-IsLinked blank)).0

rooted-AreNamed : AreNamed shop rooted
rooted-AreNamed =
    create_root-AreNamed shop (no_routes blank) (codes "root") (no_routes-IsLinked blank)
      (no_routes-AreNamed shop blank)

-- `[ [ from [ to chat.speak`
abbrev chat_kids : Nodes
chat_kids =
    cons (node (some (codes "from")) group nil)
      (cons (node (some (codes "to")) group nil) (cons (node none (number 4) nil) nil))

abbrev pub chat : Node
chat = node (some (codes "chat.speak")) group chat_kids

abbrev registered_at : Option (Table × Bool) → Option ℕ
registered_at none = none
registered_at (some (t, b)) = route_find shop t 1 chat

-- A route is made for each name of the path, and is found again.
found_again : registered_at (register shop rooted 1 chat 40) ≡ some 4
unfolding register route_find create_root create create_pointers utu.Routing.route_add
    utu.Heap.search utu.Heap.add utu.Routing.add_member
found_again = refl

register-Registers_example : Registers rooted 40 (register shop rooted 1 chat 40)
unfolding create_root
register-Registers_example =
    register-Registers shop by_insertion-IsSorting rooted 1 40 (codes "chat.speak") group chat_kids
      rooted-IsLinked (omega arith, omega arith) (omega arith, omega arith) (omega arith)

abbrev table_of : Option (Table × Bool) → Table
table_of none = rooted
table_of (some (t, b)) = t

table_of-IsLinked :
    (m : ℕ) (o : Option (Table × Bool)) → Registers rooted m o → IsLinked (table_of o)
table_of-IsLinked m none r = absurd r
table_of-IsLinked m (some (t, b)) r = r.0

-- The table in which the member 40 has one route.
abbrev pub chatting : Table
chatting = table_of (register shop rooted 1 chat 40)

chatting-IsLinked : IsLinked chatting
unfolding create_root
chatting-IsLinked = table_of-IsLinked 40 (register shop rooted 1 chat 40) (
    register-Registers shop by_insertion-IsSorting rooted 1 40 (codes "chat.speak") group chat_kids
      rooted-IsLinked (omega arith, omega arith) (omega arith, omega arith) (omega arith))

has_joined : joined chatting 4 40 ≡ 1
unfolding register route_find create_root create create_pointers utu.Routing.route_add
    utu.Heap.search utu.Heap.add utu.Routing.add_member
has_joined = refl

unregister_all-HasLeft_example : HasLeft chatting 40 (unregister_all chatting 40)
unregister_all-HasLeft_example =
    unregister_all-HasLeft chatting 40 chatting-IsLinked (omega arith, omega arith)

chatting-fresh : chatting.fresh ≡ 5
unfolding register route_find create_root create create_pointers utu.Routing.route_add
    utu.Heap.search utu.Heap.add utu.Routing.add_member
chatting-fresh = refl

unregister-Unregisters_example :
    Unregisters (route_find shop chatting 1 chat) chatting 40 (unregister shop chatting 1 chat 40)
unregister-Unregisters_example =
    unregister-Unregisters shop chatting 1 40 chat chatting-IsLinked (omega arith, omega arith)
      (omega (arith, chatting-fresh))

register-Findable_example : Findable shop rooted chat 1 40 (register shop rooted 1 chat 40)
unfolding create_root
register-Findable_example =
    register-Findable shop by_insertion-IsSorting by_insertion-Orders compare_bytes-IsOrder rooted 1
      40 (codes "chat.speak") group chat_kids rooted-IsLinked rooted-AreNamed
      (omega arith, omega arith) (omega arith, omega arith) (omega arith) refl (refl, (refl, tt))
      (omega arith)
