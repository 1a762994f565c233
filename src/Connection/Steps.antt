-- ===== src/Connection/Steps.antt =====
-- Every event on a connection that has opened keeps it valid.
use utu.Prelude.{
  ℕ, suc, ◌≡◌, ◌≢◌, ◌⊎◌, refl, Bool, true, false, Option, none, some, List, [], ◌∷◌, arith, ◌∙◌, ap,
  subst, Bool-cases, inl, inr,
}
use utu.Connection.Events.{HubEvent}
use utu.Connection.States.{State, Action}
use utu.Connection.World.{World, Env, Visit, Status, Call}
use utu.Connection.Exec.{
  half_close, head_is, log, tune, Opened, done, invariant, fire, run_actions, perform, exec,
}
use utu.Connection.Chart.{chart, reject}
use utu.Connection.Nested.{
  half_close-closing, half_close-error, half_closed, rest_close_lem, exec-pass_tuning, closing_list,
}
use utu.Connection.Valid.{IsValid, count, bit, open_in, Counted, InOrder, served}

-- The code did not stop, and `P` holds of the state and the status that it returned.
abbrev pub Returns : (World → Status → Type 0) → Option (World × Status) → Type 0
Returns P none = ⊥
Returns P (some (u, s)) = P u s

abbrev pub Good : ℕ → World → Status → Type 0
Good id u s = IsValid id u × (s ≡ invariant u.cs)

count-closing_list : (w : World) → count w.id w.closed ≡ 0 → count w.id (closing_list w) ≡ 1
unfolding count
count-closing_list w h = ground (arith, count-head w.id w.closed)
  where
    count-head : (i : ℕ) (l : List ℕ) → count i l ≡ 0 → head_is i l ≡ false
    count-head i [] h = refl
    count-head i (j ∷ l) h = ground arith

Counted-error :
    (s : State) (n : ℕ) (l : List (ℕ × Option ℕ))
    → done s ≡ false
    → Counted s n l
    → Counted State.error n l
unfolding done
Counted-error State.start n l h c = inl c
Counted-error State.error n l h c = c
Counted-error State.final n l h c = inr c
Counted-error _ n l h c = inr c

-- What half closing leaves of a connection in the error state.
abbrev pub Refused : World → World → Type 0
Refused w u =
    (u.cs ≡ State.error)
    × (u.client ≡ false)
    × (u.member ≡ none)
    × (u.id ≡ w.id)
    × (u.closed ≡ w.closed)
    × (u.recv_count ≡ w.recv_count)
    × (served u.calls ≡ served w.calls)

pub half_closed-Refused :
    (env : Env) (w : World) → w.cs ≡ State.error → Refused w (half_closed env w)
half_closed-Refused env w p = ground arith

Refused-IsValid :
    (id : ℕ) (w u : World)
    → w.id ≡ id
    → Refused w u
    → count w.id w.closed ≡ 0
    → Counted State.error w.recv_count (served w.calls)
    → IsValid id (record u { closed = closing_list u })
unfolding done
Refused-IsValid id w u same (e, c, m, i, l, r, t) none_closed counted =
    let once = count-closing_list u (rw (i, l) none_closed) in
    record {
      same = i ∙ same;
      client_open = rw e c;
      peer_set = rw e tt;
      member_set = rw e tt;
      member_cleared = rw m tt;
      message_set = rw e tt;
      closed_once = rw e once;
      sender_is_member = rw e tt;
      counted = rw (e, r, t) counted;
    }

-- The states in which the chart half closes the connection.
abbrev pub closable : State → Bool
closable State.accepting = true
closable State.key_check = true
closable State.tuning = true
closable State.registering = true
closable State.idle = true
closable State.aborting = true
closable _ = false

-- What half closing leaves of a connection in the closing state.
abbrev pub HalfClosed : World → World → Type 0
HalfClosed w u =
    (u.client ≡ false)
    × (u.member ≡ none)
    × (u.id ≡ w.id)
    × (u.recv_count ≡ w.recv_count)
    × (served u.calls ≡ served w.calls)
    × (((u.cs ≡ State.closing) × (u.closed ≡ w.closed))
        ⊎ ((u.cs ≡ State.final) × (u.closed ≡ closing_list w)))

pub half_closed-HalfClosed :
    (env : Env) (w : World) → w.cs ≡ State.closing → HalfClosed w (half_closed env w)
half_closed-HalfClosed env w p = ground arith

HalfClosed-IsValid :
    (id : ℕ) (w u : World)
    → w.id ≡ id
    → HalfClosed w u
    → count w.id w.closed ≡ 0
    → InOrder w.recv_count (served w.calls)
    → IsValid id u
unfolding done
HalfClosed-IsValid id w u same (c, m, i, r, t, inl (e, l)) none_closed counted = record {
  same = i ∙ same;
  client_open = rw e c;
  peer_set = rw e tt;
  member_set = rw e tt;
  member_cleared = rw m tt;
  message_set = rw e tt;
  closed_once = rw (i, l, e) none_closed;
  sender_is_member = rw e tt;
  counted = rw (e, r, t) counted;
}
HalfClosed-IsValid id w u same (c, m, i, r, t, inr (e, l)) none_closed counted =
    let once = count-closing_list w none_closed in
    record {
      same = i ∙ same;
      client_open = rw e c;
      peer_set = rw e tt;
      member_set = rw e tt;
      member_cleared = rw m tt;
      message_set = rw e tt;
      closed_once = rw (i, l, e) once;
      sender_is_member = rw e tt;
      counted = rw (e, r, t) counted;
    }

Counted-InOrder :
    (s : State) (n : ℕ) (l : List (ℕ × Option ℕ)) → closable s ≡ true → Counted s n l → InOrder n l
Counted-InOrder State.accepting n l h c = c
Counted-InOrder State.start n l h c = cc
Counted-InOrder State.error n l h c = cc
Counted-InOrder _ n l h c = c

pub closable_open : (s : State) → closable s ≡ true → open_in s ≡ true
closable_open s h = ground arith

closable_not_done : (s : State) → closable s ≡ true → done s ≡ false
unfolding done
closable_not_done s h = ground arith

module _ (d : ℕ) (visit : Visit) (env : Env) (id : ℕ) (opened : Opened) where
  abbrev pub fired : State × List Action → World → Option (World × Status)
  fired = fire env (exec (suc d) visit env) opened

  close-Good :
      (acts : List Action) (s : State) (w : World)
      → (acts ≡ Action.half_close ∷ []) ⊎ (acts ≡ Action.aborted ∷ Action.half_close ∷ [])
      → w.cs ≡ s
      → closable s ≡ true
      → IsValid id w
      → Returns (Good id) (fired (State.closing, acts) w)
  unfolding fire run_actions perform invariant done
  close-Good acts s w a p n v = go acts a
    where
      target : World
      target = record w { cs = State.closing }

      closes : half_close env (exec (suc d) visit env) target ≡ some (half_closed env target)
      closes =
          half_close-closing d visit env target refl
            (v.client_open ∙ ap open_in p ∙ closable_open s n)

      valid : IsValid id (half_closed env target)
      valid =
          HalfClosed-IsValid id target (half_closed env target) v.same
            (half_closed-HalfClosed env target refl)
            (v.closed_once ∙ ap (λ t. bit (done t)) p ∙ ap bit (closable_not_done s n))
            (Counted-InOrder s w.recv_count (served w.calls) n
              (subst (λ t. Counted t w.recv_count (served w.calls)) p v.counted))

      go :
          (acts : List Action)
          → (acts ≡ Action.half_close ∷ []) ⊎ (acts ≡ Action.aborted ∷ Action.half_close ∷ [])
          → Returns (Good id) (fired (State.closing, acts) w)
      go acts (inl a) = rw (a, closes) (valid, refl)
      go acts (inr a) = rw (a, closes) (valid, refl)

  pub reject-Good :
      (s : State) (w : World)
      → w.cs ≡ s
      → done s ≡ false
      → IsValid id w
      → Returns (Good id) (fired reject w)
  unfolding fire run_actions perform invariant done
  reject-Good s w p n v = elim (Bool-cases w.client) [
    | inl o ↦
        let f = half_closed-Refused env (record w { cs = State.error }) refl in
        rw
          (
            half_close-error d visit env (record w { cs = State.error }) refl o,
            rest_close_lem (half_closed env (record w { cs = State.error })) f.1,
          )
          (
            Refused-IsValid id w (half_closed env (record w { cs = State.error })) v.same f
                none_closed refused,
            refl,
          )
    | inr o ↦
        ground
          (arith, count-closing_list w, rest_close_lem (record w { cs = State.error }), refused)
  ]
    where
      refused : Counted State.error w.recv_count (served w.calls)
      refused =
          Counted-error s w.recv_count (served w.calls) n
            (subst (λ t. Counted t w.recv_count (served w.calls)) p v.counted)

      none_closed : count w.id w.closed ≡ 0
      none_closed = v.closed_once ∙ ap (λ t. bit (done t)) p ∙ ap bit n

  handshake-Good :
      (w : World)
      → w.cs ≡ State.key_check
      → IsValid id w
      → Returns (Good id) (fired (State.tuning, Action.tune ∷ []) w)
  unfolding fire run_actions perform invariant done tune
  handshake-Good w p v = ground (
    arith,
    exec-pass_tuning d visit env (log Call.establish_receiver (record w { cs = State.tuning })),
  )

  pub step-Good :
      (s : State) (e : HubEvent) (w : World)
      → w.cs ≡ s
      → done s ≡ false
      → s ≢ State.start
      → IsValid id w
      → Returns (Good id) (fired (chart s e) w)
  unfolding fire run_actions perform invariant done chart
  step-Good State.start e w p n q v = absurd (q refl)
  step-Good State.accepting HubEvent.key_present w p n q v = ground arith
  step-Good State.accepting HubEvent.read_close w p n q v = close-Good _ _ w (inl refl) p refl v
  step-Good State.accepting HubEvent.write_close w p n q v = close-Good _ _ w (inl refl) p refl v
  step-Good State.key_check HubEvent.pass_ev w p n q v = handshake-Good w p v
  step-Good State.key_check HubEvent.read_close w p n q v = close-Good _ _ w (inl refl) p refl v
  step-Good State.key_check HubEvent.write_close w p n q v = close-Good _ _ w (inl refl) p refl v
  step-Good State.tuning HubEvent.pass_ev w p n q v = ground arith
  step-Good State.tuning HubEvent.read_close w p n q v = close-Good _ _ w (inl refl) p refl v
  step-Good State.tuning HubEvent.write_close w p n q v = close-Good _ _ w (inl refl) p refl v
  step-Good State.registering HubEvent.pass_ev w p n q v = ground arith
  step-Good State.registering HubEvent.read_close w p n q v = close-Good _ _ w (inl refl) p refl v
  step-Good State.registering HubEvent.write_close w p n q v = close-Good _ _ w (inl refl) p refl v
  step-Good State.idle HubEvent.msg_recv w p n q v = ground arith
  step-Good State.idle HubEvent.msg_queued w p n q v = ground arith
  step-Good State.idle HubEvent.hate_apply w p n q v = ground arith
  step-Good State.idle HubEvent.read_close w p n q v = close-Good _ _ w (inl refl) p refl v
  step-Good State.idle HubEvent.write_close w p n q v = close-Good _ _ w (inl refl) p refl v
  step-Good State.hated HubEvent.hate_challenge w p n q v = ground arith
  step-Good State.awaiting HubEvent.hate_paid w p n q v = ground arith
  step-Good State.validating HubEvent.hate_valid w p n q v = ground arith
  step-Good State.validating HubEvent.hate_invalid w p n q v = ground arith
  step-Good State.sending HubEvent.msg_sent w p n q v = ground arith
  step-Good State.sending HubEvent.fail_ev w p n q v = ground arith
  step-Good State.aborting e w p n q v = close-Good _ _ w (inr refl) p refl v
  step-Good State.closing HubEvent.read_close w p n q v =
      ground (arith, rest_close_lem (record w { cs = State.final }), count-closing_list w)
  step-Good State.closing HubEvent.write_close w p n q v =
      ground (arith, rest_close_lem (record w { cs = State.final }), count-closing_list w)
  step-Good State.delivering HubEvent.svc_recv w p n q v = ground arith
  step-Good _ _ w p n q v = reject-Good _ w p n v
