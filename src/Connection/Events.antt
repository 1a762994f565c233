-- ===== src/Connection/Events.antt =====
-- The events that drive the hub and its connections (`HubEvent` in src/hub/hub.h).
use utu.Prelude.{ℕ, List, [], ◌∷◌}

pub data HubEvent : Type 0 where
  open_ev close_ev key_present pass_ev fail_ev svc_recv msg_sent msg_queued msg_recv : HubEvent
  hate_apply hate_challenge hate_paid hate_valid hate_invalid : HubEvent
  listen_ev gen_key gen_key_done key_file_load done_ev read_close write_close : HubEvent

-- The enumeration's values, which are the bytes that the machines read.
abbrev pub code : HubEvent → ℕ
code open_ev = b'O'
code close_ev = b'C'
code key_present = b'P'
code pass_ev = b'1'
code fail_ev = b'0'
code svc_recv = b's'
code msg_sent = b'e'
code msg_queued = b'Q'
code msg_recv = b'R'
code hate_apply = b'H'
code hate_challenge = b'h'
code hate_paid = b'b'
code hate_valid = b'V'
code hate_invalid = b'v'
code listen_ev = b'L'
code gen_key = b'K'
code gen_key_done = b'k'
code key_file_load = b'F'
code done_ev = b'D'
code read_close = b'r'
code write_close = b'w'

abbrev pub all_events : List HubEvent
all_events =
    open_ev ∷ close_ev ∷ key_present ∷ pass_ev ∷ fail_ev ∷ svc_recv ∷ msg_sent ∷ msg_queued
    ∷ msg_recv ∷ hate_apply ∷ hate_challenge ∷ hate_paid ∷ hate_valid ∷ hate_invalid ∷ listen_ev
    ∷ gen_key ∷ gen_key_done ∷ key_file_load ∷ done_ev ∷ read_close ∷ write_close ∷ []
