-- ===== src/Client/Relay.antt =====
-- What the loop of src/client/proxy.c hands on, in both directions.
use utu.Prelude.{
  ◌≡◌, ◌⊎◌, refl, sym, ◌∙◌, subst, inl, inr, Bool, true, false, ◌&&◌, some, some-injective, List,
  [], ◌∷◌, ◌++◌,
}
use utu.Prelude.Calls.{ok, then_call-ok, ok-injective}
use utu.Stackish.Node.{Bytes}
use utu.Crypto.{CryptState, CryptPeer, Library}
use utu.Client.Sides.{hub_recv-them, hub_send-me}
use utu.Client.Proxy.{
  Message, Side, Proxy, Ready, hub_recv, hub_send, listener_recv, listener_send, read_hub,
  write_listener, read_listener, write_hub, round, event_loop, start,
}
use utu.Client.Steps.{read_hub-step, write_listener-step, read_listener-step, write_hub-step}

-- Messages that were read from the hub, the latest first, with this side's keys and the bytes left.
pub data HubReads (lib : Library) (me : CryptPeer) (bytes : Bytes)
    : List Message → CryptPeer → Bytes → Type 0 where
  none_read : HubReads lib me bytes [] me bytes
  read_next :
      (ms : List Message) (s u : CryptState) (now rest : Bytes) (m : Message)
      → HubReads lib me bytes ms s.me now
      → hub_recv lib s now ≡ ok (u, m, rest)
      → HubReads lib me bytes (m ∷ ms) u.me rest

-- Messages that were written to the listener, with all bytes.
pub data ListenerWrites (lib : Library) : List Message → Bytes → Type 0 where
  none_written : ListenerWrites lib [] []
  write_next :
      (ms : List Message) (sent bytes : Bytes) (m : Message)
      → ListenerWrites lib ms sent
      → listener_send lib m ≡ ok bytes
      → ListenerWrites lib (m ∷ ms) (sent ++ bytes)

-- Messages that were read from the listener.
pub data ListenerReads (lib : Library) (bytes : Bytes) : List Message → Bytes → Type 0 where
  no_message : ListenerReads lib bytes [] bytes
  next_message :
      (ms : List Message) (now rest : Bytes) (m : Message)
      → ListenerReads lib bytes ms now
      → listener_recv lib now ≡ ok (m, rest)
      → ListenerReads lib bytes (m ∷ ms) rest

-- Messages that were encrypted to the hub, with the keys of the other side.
pub data HubWrites (lib : Library) (them : CryptPeer)
    : List Message → CryptPeer → Bytes → Type 0 where
  none_sent : HubWrites lib them [] them []
  send_next :
      (ms : List Message) (s u : CryptState) (sent bytes : Bytes) (m : Message)
      → HubWrites lib them ms s.them sent
      → hub_send lib s m ≡ ok (u, bytes)
      → HubWrites lib them (m ∷ ms) u.them (sent ++ bytes)

-- A side that waits for a message has written all it has read; one that has a message is to write it.
abbrev pub Waits : (List Message → Type 0) → (List Message → Type 0) → Side → Type 0
Waits Reads Writes side =
    (side.reads ≡ true) × (side.writes ≡ false) × (ms : List Message) × Reads ms × Writes ms

abbrev pub HoldsOne : (List Message → Type 0) → (List Message → Type 0) → Side → Type 0
HoldsOne Reads Writes side =
    (side.reads ≡ false)
    × (side.writes ≡ true)
    × (ms : List Message) × (m : Message) × (side.message ≡ some m)
    × Reads (m ∷ ms)
    × Writes ms

abbrev pub Relays : (List Message → Type 0) → (List Message → Type 0) → Side → Type 0
Relays Reads Writes side = Waits Reads Writes side ⊎ HoldsOne Reads Writes side

module _ (lib : Library) (s : CryptState) (from_hub from_listener : Bytes) where
  -- What holds in the loop of the messages from the hub, and of those from the listener.
  abbrev pub FromHub : CryptState → Side → Type 0
  FromHub now side =
      Relays (λ ms. HubReads lib s.me from_hub ms now.me side.incoming)
        (λ ms. ListenerWrites lib ms side.outgoing) side

  abbrev pub FromListener : CryptState → Side → Type 0
  FromListener now side =
      Relays (λ ms. ListenerReads lib from_listener ms side.incoming)
        (λ ms. HubWrites lib s.them ms now.them side.outgoing) side

  abbrev pub Relaying : Proxy → Type 0
  Relaying p = FromHub p.state p.hub × FromListener p.state p.listener

  start-Relaying : Relaying (start s from_hub from_listener)
  start-Relaying =
      (inl (refl, refl, [], none_read, none_written), inl (refl, refl, [], no_message, none_sent))

  off : (i b : Bool) → b ≡ false → (i && b) ≡ false
  off true b e = e
  off false b e = refl

  -- From the hub: at most one of the two steps is taken.
  hub_half :
      (p a b : Proxy) (i j : Bool)
      → Relaying p
      → read_hub lib (i && p.hub.reads) p ≡ ok a
      → write_listener lib (j && p.hub.writes) a ≡ ok b
      → Relaying b × (b.listener ≡ p.listener)
  unfolding read_hub write_listener
  hub_half p a b i j (inl (r, w, ms, reads, writes), other) e f =
      let same : a ≡ b =
        ok-injective a b (subst (λ c. write_listener lib c a ≡ ok b) (off j p.hub.writes w) f) in
      elim (read_hub-step lib p a (i && p.hub.reads) e) [
        | inl d ↦
            subst (λ x. Relaying x × (x.listener ≡ p.listener)) (d ∙ same)
              ((inl (r, w, ms, reads, writes), other), refl)
        | inr (u, m, rest, got, d) ↦
            subst (λ x. Relaying x × (x.listener ≡ p.listener)) (d ∙ same)
              (
                (
                  inr (
                    refl,
                    refl,
                    ms,
                    m,
                    refl,
                    read_next ms p.state u p.hub.incoming rest m reads got,
                    writes,
                  ),
                  subst
                      (λ t.
                        Relays (λ ms. ListenerReads lib from_listener ms p.listener.incoming)
                          (λ ms. HubWrites lib s.them ms t p.listener.outgoing) p.listener)
                      (sym (hub_recv-them lib p.state u p.hub.incoming rest m got)) other,
                ),
                refl,
              )
      ]
  hub_half p a b i j (inr (r, w, ms, m, has, reads, writes), other) e f =
      let same : p ≡ a =
        ok-injective p a (subst (λ c. read_hub lib c p ≡ ok a) (off i p.hub.reads r) e) in
      let g : write_listener lib (j && p.hub.writes) p ≡ ok b =
        subst (λ x. write_listener lib (j && p.hub.writes) x ≡ ok b) (sym same) f in
      elim (write_listener-step lib p b (j && p.hub.writes) g) [
        | inl d ↦
            subst (λ x. Relaying x × (x.listener ≡ p.listener)) d
              ((inr (r, w, ms, m, has, reads, writes), other), refl)
        | inr (n, bytes, held, sent, d) ↦
            let one : m ≡ n = some-injective m n (sym has ∙ held) in
            subst (λ x. Relaying x × (x.listener ≡ p.listener)) d
              (
                (
                  inl (
                    refl,
                    refl,
                    m ∷ ms,
                    reads,
                    write_next ms p.hub.outgoing bytes m writes
                        (subst (λ x. listener_send lib x ≡ ok bytes) (sym one) sent),
                  ),
                  other,
                ),
                refl,
              )
      ]

  -- From the listener.
  listener_half :
      (p a b : Proxy) (i j : Bool)
      → Relaying p
      → read_listener lib (i && p.listener.reads) p ≡ ok a
      → write_hub lib (j && p.listener.writes) a ≡ ok b
      → Relaying b
  unfolding read_listener write_hub
  listener_half p a b i j (other, inl (r, w, ms, reads, writes)) e f =
      let same : a ≡ b =
        ok-injective a b (subst (λ c. write_hub lib c a ≡ ok b) (off j p.listener.writes w) f) in
      elim (read_listener-step lib p a (i && p.listener.reads) e) [
        | inl d ↦ subst Relaying (d ∙ same) (other, inl (r, w, ms, reads, writes))
        | inr (m, rest, got, d) ↦ subst Relaying (d ∙ same) (
          other,
          inr (
            refl,
            refl,
            ms,
            m,
            refl,
            next_message ms p.listener.incoming rest m reads got,
            writes,
          ),
        )
      ]
  listener_half p a b i j (other, inr (r, w, ms, m, has, reads, writes)) e f =
      let same : p ≡ a =
        ok-injective p a (subst (λ c. read_listener lib c p ≡ ok a) (off i p.listener.reads r) e) in
      let g : write_hub lib (j && p.listener.writes) p ≡ ok b =
        subst (λ x. write_hub lib (j && p.listener.writes) x ≡ ok b) (sym same) f in
      elim (write_hub-step lib p b (j && p.listener.writes) g) [
        | inl d ↦ subst Relaying d (other, inr (r, w, ms, m, has, reads, writes))
        | inr (n, u, bytes, held, sent, d) ↦
            let one : m ≡ n = some-injective m n (sym has ∙ held) in
            subst Relaying d (
              subst
                  (λ k.
                    Relays (λ ms. HubReads lib s.me from_hub ms k p.hub.incoming)
                      (λ ms. ListenerWrites lib ms p.hub.outgoing) p.hub)
                  (sym (hub_send-me lib p.state u n bytes sent)) other,
              inl (
                refl,
                refl,
                m ∷ ms,
                reads,
                send_next ms p.state u p.listener.outgoing bytes m writes
                    (subst (λ x. hub_send lib p.state x ≡ ok (u, bytes)) (sym one) sent),
              ),
            )
      ]

  round-Relaying :
      (ready : Ready) (p q : Proxy) → Relaying p → round lib ready p ≡ ok q → Relaying q
  unfolding round
  round-Relaying ready p q h e =
      let (a, ea, fa) = then_call-ok (read_hub lib (ready.hub_read && p.hub.reads) p) _ q e in
      let (b, eb, fb) =
        then_call-ok (write_listener lib (ready.listener_write && p.hub.writes) a) _ q fa in
      let (c, ec, fc) =
        then_call-ok (read_listener lib (ready.listener_read && p.listener.reads) b) _ q fb in
      let (held, same) = hub_half p a b ready.hub_read ready.listener_write h ea eb in
      listener_half b c q ready.listener_read ready.hub_write held
        (subst (λ (x : Side). read_listener lib (ready.listener_read && x.reads) b ≡ ok c)
          (sym same) ec)
        (subst (λ (x : Side). write_hub lib (ready.hub_write && x.writes) c ≡ ok q) (sym same) fc)

  event_loop-Relaying :
      (rounds : List Ready) (p q : Proxy) → Relaying p → event_loop lib rounds p ≡ ok q → Relaying q
  unfolding event_loop
  event_loop-Relaying [] p q h e = subst Relaying (ok-injective p q e) h
  event_loop-Relaying (ready ∷ rounds) p q h e =
      let (a, b, c) = then_call-ok (round lib ready p) _ q e in
      event_loop-Relaying rounds a q (round-Relaying ready p a h b) c

  -- In whatever order the sockets are ready, where the loop has not ended, what the proxy has written
  -- to the listener are the messages that it has read from the hub and decrypted, each once and in
  -- order, and what it has written to the hub are those that it has read from the listener, encrypted;
  -- in each direction at most the message that was read last is not written yet, and then the next
  -- is not read before it is.
  pub event_loop-start :
      (rounds : List Ready) (q : Proxy)
      → event_loop lib rounds (start s from_hub from_listener) ≡ ok q
      → Relaying q
  event_loop-start rounds q e =
      event_loop-Relaying rounds (start s from_hub from_listener) q start-Relaying e
