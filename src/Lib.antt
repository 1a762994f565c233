-- ===== src/Lib.antt =====
-- Utu: a hub for chat and other messages between clients that hold keys. Clients connect over
-- TCP, are authenticated by a key exchange, become members of the hub, and send stackish messages
-- that the hub routes to other members or to its own services. The program is C, written with
-- coroutines: a task reads from each client and another writes to it.
--
-- How the parts meet: src/hub/hub.c is the state machine of the whole hub, from key generation to
-- listening and shutdown. Each client has a connection (src/hub/connection.c), a state machine
-- that is driven by two tasks (src/hub/connection_state.c): the reading task turns frames into
-- events, the writing one takes messages off the member's queue (src/hub/queue.c), which holds
-- references to counted messages (src/protocol/message.c). Clients and hub talk in frames
-- (src/protocol/frame.c) of a header and a body, which are stackish trees; after the key exchange
-- (src/protocol/crypto.c, src/protocol/peer.c) the body is an encrypted packet. A message is
-- routed by its shape through a tree of routes (src/hub/routing.c), whose children and members
-- stand in sorted heaps (src/hub/heap.c), to the members that have registered or to a command of
-- the hub (src/hub/commands.c). Both machines are tables that Ragel wrote from a chart, with a
-- driver that is the same text each time.
--
-- Files:
--
-- - Prelude: the names that all share, Boolean tests, lists over the native numbers, C strings as
--   lists of bytes, code that may stop (`none` is a failed assertion or a null pointer that is
--   followed), and in Calls code that may fail a check or stop.
-- - Ragel: the driver's search of the tables (src/hub/connection.c, src/hub/hub.c,
--   src/stackish/stackish.c: binary search over single keys, then over ranges; signed
--   characters).
-- - Connection: src/hub/connection.c and src/hub/connection_state.c. Events and States are the
--   enumerations; Tables holds the tables and the transition they give; Chart is the state chart
--   of src/hub/connection.rl, written down independently; World is the state that one event
--   reaches, with the answers of other components; Exec has the actions,
--   `ConnectionState_half_close`, `ConnectionState_rest_close`, `ConnectionState_exec`, and the
--   reading task `ConnectionState_incoming`, which the machine runs on opening; Outgoing has the
--   writing task. Agreement, Nested, Valid, Steps, Reading, Opening, Safe, Life and Abort prove.
-- - Hub: src/hub/hub.c with the chart of src/hub/hub.rl. Chart, Tables and Machine model, Finish
--   is `ConnectionState_finish` of src/hub/connection.c with what it frees, Life proves.
-- - Message: src/protocol/message.c: the reference count, a `short` with its wrap written out,
--   and in Decons the message as two trees.
-- - Queue: src/hub/queue.c and src/hub/queue.h. Fifo is the abstract queue, Ring the slots as a
--   list; Refine and References prove.
-- - Member: `Member_send_msg` of src/hub/member.c and `Hub_broadcast` of src/hub/hub_state.c over
--   the queues; Broadcast proves.
-- - Heap: src/hub/heap.c, a sorted array of pointers. Search and Find prove that its binary
--   search finds what is there and that its array keeps its size; Pointers is the comparison of
--   pointers; Bags, Placed, Keeps and Drops are about what adding and deleting make of the
--   members.
-- - Routing: the tree of routes of src/hub/routing.c in a memory of its own, with the heap of
--   routes that each member has. Paths has `Route_register`, `Route_register_callback`,
--   `Route_unregister` and `Route_find`, which follow the shape of a message. Linked says what
--   holds of routes and members, Named what holds of children and their names; Joined, Grown,
--   Registered, Left, Unregistered, Children, Kept, Found, Ways and Findable prove.
-- - Commands: src/hub/commands.c, the callbacks of the hub's own routes, over the part of the hub
--   that they reach. Service is the table of registrations, `Hub_commands_register`,
--   `Hub_service_message`, and `Route_deliver` of src/hub/routing.c. Delivery and Unnamed prove.
-- - Stackish: src/stackish/stackish.c and src/stackish/node.c. Node is the tree, Tables and
--   Parser are the parser (the groups that are open stand as a list, innermost first), Sequence
--   is `Node_parse_seq`, Cons and Decons are `Node_cons` and `Node_decons`. Print is
--   `Node_catbstr` and `Node_bstr`, Destroy is `Node_destroy`. Classes, Bytes, Attribute,
--   Numbers, Text, Tokens, Blobs, Reading, RoundTrip and Destroy prove; Text says which trees can
--   be read back.
-- - Frame: `FrameSource_send` and `FrameSource_recv` of src/protocol/frame.c. Delivery proves.
-- - Crypto: src/protocol/crypto.c over the primitives of libtomcrypt. Packet is
--   `CryptState_encrypt_packet`, `CryptState_decrypt_packet` and the same of nodes; Exchange,
--   Receiver and Initiator are the key exchange; Signature has `CryptState_sign_node` and
--   `CryptState_verify_signature`, Challenge the hate challenge. Delivery, Forged,
--   Signature/Swapped, Challenge/Solved, Challenge/Answered and Challenge/Accepted prove.
-- - Peer: src/protocol/peer.c. Both sides of the handshake, `Peer_send` and `Peer_recv`.
--   Delivery, Conversation, Forged and Broken prove.
-- - Client: the proxy that runs beside a client program. Client itself has the frames of
--   src/client/io.c; Proxy is the loop of src/client/proxy.c that hands messages on between hub
--   and listener, by the descriptors that are ready; Setup is `Proxy_configure`,
--   `Proxy_confirm_key` and `Proxy_connect`. Sides, Steps, Relay and Delivery prove.
-- - Tests: runs on concrete inputs, and each theorem at an input.
--
-- Bounds and fuel: an action of the connection machine can call the machine again: opening runs
-- the reading task with all the events that it sends, and on each of these confirming the key
-- sends a pass, and logging out wakes the writing task, which sends a close. `exec` takes the
-- depth of such calls; three levels always do, and two where the event does not open the
-- connection. What the reading task meets is a `Visit`: the answers to its events and a list of
-- reads, each with the events of the writing task and the changes of the hub's list that come
-- while it waits for bytes or for the lock. The binary searches take as many rounds of fuel as
-- there are keys. `parse_seq` goes on for as many rounds as its fuel, one round for each blob
-- that is not empty and one more, and says where it is not enough; that one more than the number
-- of blobs is enough is part of its theorem. Numbers are printed with 20 digits, enough for 2 ^
-- 64. The search of a heap takes as many rounds as there are members. A path has at most 30 names
-- (`ROUTE_MAX_PATH`). The heap's indices are `int` in the code and exact on fewer than 2 ^ 30
-- members. `drain` takes the rounds of a loop as fuel, and the number of messages is enough.
-- `size_t` and `uint64_t` wrap at 2 ^ 64; the queue's theorems ask that the ring has fewer slots
-- than that.
--
-- Parameters: what a component that is not modelled answers during an event is a field of an
-- environment, and every theorem holds for all answers; that such a call comes back is taken for
-- granted in the connection machine, also of `Message_decons`, which stops the process where it
-- frees a tree that is too deep. The sort of the heap is a parameter, of which the theorems ask
-- what they name; so are the reading and printing of floating point numbers. The primitives of
-- libtomcrypt, the nonces that are drawn and the callback that confirms a key are parameters; the
-- theorems ask of the primitives that opening gives back what was sealed, with the same tag, and
-- how long texts and tags are, and that what a key has signed verifies under its public part; in
-- the challenge, that one nonce alone has the hash in question. Undefined shifts stop the model.
-- `bstrcmp` is a parameter; the theorems on finding routes ask that it orders strings that are
-- not null, and one on errors that it is negative where the second string is null. The addresses
-- of routes and members are numbers below 2 ^ 31, so that their differences are `int`s, and
-- `h_calloc` gives them in order. The clock and the files of the information service are
-- parameters. Sockets and their buffers hand bytes on in order, flushing succeeds, and the space
-- of a buffer that is flushed is a parameter that `FrameSource_send` compares with the length;
-- writing to a buffer succeeds behind that check; a connection that closes is one whose bytes
-- have run out. `server_create`, the sockets, the tasks, the cryptography and the memory
-- allocator are such.
--
-- Not modelled: the information service of the hub (src/hub/info.c), how routes are destroyed and
-- dumped (src/hub/routing.c), of the client the sockets, fifos and command line of
-- src/client/io.c, `Proxy_listen` and src/client/client.c, and what its listener is told of
-- errors and keys, and of src/protocol/crypto.c how keys are made, freed and shown; `errno` is 0
-- at every check but those of the parser, where a number that is too large sets it; memory that
-- is freed or lost, other than by `Message_destroy`, `MsgQueue_destroy`, `Node_destroy` and
-- `ConnectionState_finish`, and pointers to what is freed already; parent pointers of nodes, a
-- child's parent being the node that it is listed under; the lock of a connection and switches
-- between tasks in the middle of an action, other than the two above; logging.
pub mod Prelude
pub mod Ragel
pub mod Message
pub mod Heap
pub mod Routing
pub mod Commands
pub mod Client
pub mod Queue
pub mod Member
pub mod Stackish
pub mod Frame
pub mod Crypto
pub mod Peer
pub mod Connection
pub mod Hub
pub mod Tests
