-- ===== src/Connection/World.antt =====
-- What one event of a connection can reach: the `ConnectionState` (src/hub/hub.h), the hub's list
-- of closed connections, and the answers of the components that the actions call.
use utu.Prelude.{ℕ, Bool, Option, List}
use utu.Connection.Events.{HubEvent}
use utu.Connection.States.{State}

-- A received message: what the machine reads of `Message`.
pub record Received : Type 0 where
  pub msgid : ℕ
  pub from : Option ℕ

-- The calls that the actions make on other components. Their trace has no counterpart in the
-- program; the theorems speak about it.
pub data Call : Type 0 where
  incoming peer_create establish_receiver member_login task_create message_decons : Call
  service_message : ℕ → Option ℕ → Call
  ref_inc : ℕ → Call
  delete_msg : ℕ → Call
  destroy_client : Call
  unregister_all member_logout : ℕ → Call

-- Pointers are Booleans where only their being null matters. `id` is the address of the state,
-- `closed` is `hub->closed`, whose links are the `next` fields, and `calls` is newest first.
pub record World : Type 0 where
  pub id : ℕ
  pub cs : State
  pub recv_count : ℕ
  pub send_count : ℕ
  pub client : Bool
  pub peer : Bool
  pub member : Option ℕ
  pub recv_hdr : Bool
  pub recv_body : Bool
  pub recv_msg : Option Received
  pub send_msg : Option ℕ
  pub closed : List ℕ
  pub calls : List Call

-- How `Peer_establish_receiver` goes: whether it comes as far as the key's confirmation, and what
-- it returns, given what the confirmation answered. It returns 0 where it does not come as far:
-- every check up to there leaves `rc` at 0.
pub data Handshake : Type 0 where
  unconfirmed : Handshake
  confirmed : (Bool → Bool) → Handshake

-- The answers during one event. `outgoing_waits`: the outgoing task is asleep on the member's
-- queue, so that it runs when `Member_logout` wakes it and yields.
pub record Env : Type 0 where
  pub peer_created : Bool
  pub handshake : Handshake
  pub logged_in : Option ℕ
  pub decons : Option ℕ
  pub serviced : Bool
  pub outgoing_waits : Bool

-- What `ConnectionState_exec` returns: -1, 0, 1.
pub data Status : Type 0 where
  failed active finished : Status

-- What can happen while a task waits: an event that another task of this connection sends, and what
-- other connections do to the hub's list, whose head they extend, or take where it is not this one.
pub data Happening : Type 0 where
  own_event : Env → HubEvent → Happening
  other_closed : ℕ → Happening
  other_reused : Happening

-- One round of the loop of `ConnectionState_incoming`: what happens while `Peer_recv` waits, the
-- pointers to header and body that it gives, what happens while the task waits for the lock, and
-- the answers during the two events.
pub record Read : Type 0 where
  pub waiting : List Happening
  pub hdr : Bool
  pub body : Bool
  pub locking : List Happening
  pub received : Env
  pub serviced : Env

-- The answers during `ConnectionState_incoming`: to the events before the loop, in its rounds, of
-- which the last finds the connection closed after what happens while it waits, and to the event
-- behind it.
pub record Visit : Type 0 where
  pub keyed : Env
  pub passed : Env
  pub passed_again : Env
  pub reads : List Read
  pub waiting : List Happening
  pub ended : Env
