-- ===== src/Connection/Chart.antt =====
-- The state chart of src/hub/connection.rl, read independently of the tables.
use utu.Prelude.{List, [], ◌∷◌}
use utu.Connection.Events.{
  HubEvent, open_ev, key_present, pass_ev, fail_ev, svc_recv, msg_sent, msg_queued, msg_recv,
  read_close, write_close,
}
use utu.Connection.States.{State, Action}

-- `$!error`: what the chart does not accept closes the connection at both ends.
abbrev pub reject : State × List Action
reject = (State.error, Action.failed ∷ [])

abbrev close_now : State × List Action
close_now = (State.closing, Action.half_close ∷ [])

-- One line of the chart for each state: the state that an event leads to, with the actions of the
-- transition in the order in which they run.
unfoldable pub chart : State → HubEvent → State × List Action
chart State.start open_ev = (State.accepting, Action.begin ∷ Action.open_conn ∷ [])
chart State.accepting key_present = (State.key_check, Action.key_prep ∷ [])
chart State.accepting read_close = close_now
chart State.accepting write_close = close_now
chart State.key_check pass_ev = (State.tuning, Action.tune ∷ [])
chart State.key_check read_close = close_now
chart State.key_check write_close = close_now
chart State.tuning pass_ev = (State.registering, Action.register ∷ [])
chart State.tuning read_close = close_now
chart State.tuning write_close = close_now
chart State.registering pass_ev = (State.idle, Action.established ∷ [])
chart State.registering read_close = close_now
chart State.registering write_close = close_now
chart State.idle msg_recv = (State.delivering, Action.recv ∷ [])
chart State.idle msg_queued = (State.sending, Action.msg_ready ∷ [])
chart State.idle HubEvent.hate_apply = (State.hated, Action.hate_apply ∷ [])
chart State.idle read_close = close_now
chart State.idle write_close = close_now
chart State.hated HubEvent.hate_challenge = (State.awaiting, Action.hate_challenge ∷ [])
chart State.awaiting HubEvent.hate_paid = (State.validating, Action.hate_paid ∷ [])
chart State.validating HubEvent.hate_valid = (State.idle, Action.hate_valid ∷ [])
chart State.validating HubEvent.hate_invalid = (State.idle, Action.hate_invalid ∷ [])
chart State.sending msg_sent = (State.idle, Action.sent ∷ Action.clear_send ∷ [])
chart State.sending fail_ev = (State.aborting, Action.clear_send ∷ [])
chart State.aborting e = (State.closing, Action.aborted ∷ Action.half_close ∷ [])
chart State.closing read_close = (State.final, Action.rest_close ∷ [])
chart State.closing write_close = (State.final, Action.rest_close ∷ [])
chart State.delivering svc_recv =
    (State.idle, Action.msgid_check ∷ Action.service ∷ Action.clear_recv ∷ [])
chart _ _ = reject
