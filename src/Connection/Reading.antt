-- ===== src/Connection/Reading.antt =====
-- A connection on which messages are read: its member is there as long as its client is
-- (`ConnectionState_read_msg` of src/hub/connection_state.c follows the pointer to it).
use utu.Prelude.{
  ℕ, suc, ◌≡◌, ◌⊎◌, refl, Bool, true, false, some, List, [], ◌∷◌, is_some, arith, ◌∙◌, ap,
  Bool-cases, inl, inr,
}
use utu.Connection.Events.{HubEvent}
use utu.Connection.States.{State, Action}
use utu.Connection.World.{World, Env, Visit}
use utu.Connection.Exec.{Opened, half_close, done, invariant, fire, run_actions, perform, exec}
use utu.Connection.Chart.{chart, reject}
use utu.Connection.Nested.{half_close-closing, half_close-error, half_closed, rest_close_lem}
use utu.Connection.Valid.{IsValid, open_in, Implies}
use utu.Connection.Steps.{
  Returns, fired, closable, closable_open, half_closed-HalfClosed, half_closed-Refused,
}

-- The states behind the handshake.
abbrev pub reading : State → Bool
reading State.start = false
reading State.accepting = false
reading State.key_check = false
reading State.tuning = false
reading _ = true

abbrev pub Reads : World → Type 0
Reads w = (reading w.cs ≡ true) × Implies w.client (is_some w.member)

closed-Reads : (u : World) → reading u.cs ≡ true → u.client ≡ false → Reads u
closed-Reads u r c = (r, rw c tt)

module _ (d : ℕ) (visit : Visit) (env : Env) (id : ℕ) (opened : Opened) where
  pub close-Reads :
      (acts : List Action) (s : State) (w : World)
      → (acts ≡ Action.half_close ∷ []) ⊎ (acts ≡ Action.aborted ∷ Action.half_close ∷ [])
      → w.cs ≡ s
      → closable s ≡ true
      → IsValid id w
      → Returns (λ u t. Reads u) (fired d visit env id opened (State.closing, acts) w)
  unfolding fire run_actions perform invariant
  close-Reads acts s w a p n v = go acts a
    where
      target : World
      target = record w { cs = State.closing }

      closes : half_close env (exec (suc d) visit env) target ≡ some (half_closed env target)
      closes =
          half_close-closing d visit env target refl
            (v.client_open ∙ ap open_in p ∙ closable_open s n)

      left : Reads (half_closed env target)
      left = ground (arith, half_closed-HalfClosed env target refl)

      go :
          (acts : List Action)
          → (acts ≡ Action.half_close ∷ []) ⊎ (acts ≡ Action.aborted ∷ Action.half_close ∷ [])
          → Returns (λ u t. Reads u) (fired d visit env id opened (State.closing, acts) w)
      go acts (inl a) = rw (a, closes) left
      go acts (inr a) = rw (a, closes) left

  reject-Reads : (w : World) → Returns (λ u t. Reads u) (fired d visit env id opened reject w)
  unfolding fire run_actions perform invariant
  reject-Reads w = elim (Bool-cases w.client) [
    | inl o ↦
        let f = half_closed-Refused env (record w { cs = State.error }) refl in
        rw
          (
            half_close-error d visit env (record w { cs = State.error }) refl o,
            rest_close_lem (half_closed env (record w { cs = State.error })) f.1,
          )
          (ground (arith, f.0, f.1))
    | inr o ↦ ground (arith, rest_close_lem (record w { cs = State.error }))
  ]

  pub step-Reads :
      (s : State) (e : HubEvent) (w : World)
      → w.cs ≡ s
      → done s ≡ false
      → Reads w
      → IsValid id w
      → Returns (λ u t. Reads u) (fired d visit env id opened (chart s e) w)
  unfolding fire run_actions perform invariant done chart
  step-Reads State.start e w p n r v = ground arith
  step-Reads State.accepting e w p n r v = ground arith
  step-Reads State.key_check e w p n r v = ground arith
  step-Reads State.tuning e w p n r v = ground arith
  step-Reads State.registering HubEvent.pass_ev w p n r v = ground arith
  step-Reads State.registering HubEvent.read_close w p n r v = close-Reads _ _ w (inl refl) p refl v
  step-Reads State.registering HubEvent.write_close w p n r v =
      close-Reads _ _ w (inl refl) p refl v
  step-Reads State.idle HubEvent.msg_recv w p n r v = ground arith
  step-Reads State.idle HubEvent.msg_queued w p n r v = ground arith
  step-Reads State.idle HubEvent.hate_apply w p n r v = ground arith
  step-Reads State.idle HubEvent.read_close w p n r v = close-Reads _ _ w (inl refl) p refl v
  step-Reads State.idle HubEvent.write_close w p n r v = close-Reads _ _ w (inl refl) p refl v
  step-Reads State.hated HubEvent.hate_challenge w p n r v = ground arith
  step-Reads State.awaiting HubEvent.hate_paid w p n r v = ground arith
  step-Reads State.validating HubEvent.hate_valid w p n r v = ground arith
  step-Reads State.validating HubEvent.hate_invalid w p n r v = ground arith
  step-Reads State.sending HubEvent.msg_sent w p n r v = ground arith
  step-Reads State.sending HubEvent.fail_ev w p n r v = ground arith
  step-Reads State.aborting e w p n r v = close-Reads _ _ w (inr refl) p refl v
  step-Reads State.closing HubEvent.read_close w p n r v =
      ground (arith, rest_close_lem (record w { cs = State.final }))
  step-Reads State.closing HubEvent.write_close w p n r v =
      ground (arith, rest_close_lem (record w { cs = State.final }))
  step-Reads State.delivering HubEvent.svc_recv w p n r v = ground arith
  step-Reads _ _ w p n r v = reject-Reads w
