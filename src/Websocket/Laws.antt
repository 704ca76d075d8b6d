-- ===== src/Websocket/Laws.antt =====
-- No message of the WebSocket client of src/utils/actix_client.rs is lost or sent twice.
use mathlib.Core.List.{reverse}
use chimes_utils.Base.{
  subst, ℕ, suc, ◌+◌, ◌≡◌, refl, sym, inl, inr, Bool, true, Bool-cases, none, some, List, [], ◌∷◌,
  ◌++◌, append-nil, append_assoc, tally, tally-append, tally-reverse, arith,
}
use chimes_utils.Base.Text.{Text}
use chimes_utils.Websocket.{
  ChimesWebSocketClient, text, binary, continuation, ping, pong, close, timed_out, notified,
  poisoned, Turn, refused, lost, protocol_error, received, Outcome, ended, going_on, panicked,
  drain, send_all, push_received, answer_ping, on_frame, on_lost, turn, run, start,
}

-- The texts of the frames that are received.
abbrev pub texts : List Turn → List Text
texts [] = []
texts (received (text (some t)) ∷ turns) = t ∷ texts turns
texts (received (binary (some t)) ∷ turns) = t ∷ texts turns
texts (_ ∷ turns) = texts turns

-- Of the messages with the property `p`, `n` are sent or in the queue, and what was received is
-- `all`, or where the loop has ended the front part of it. A panic keeps nothing.
abbrev pub Keeps : (Text → Bool) → ℕ → List Text → Outcome → Type 0
Keeps p n all (ended sent self) =
    (tally p sent + tally p self.send_queue ≡ n)
    × ((rest : List Text) × (self.recv_queue ++ rest ≡ all))
Keeps p n all (going_on sent self) =
    (tally p sent + tally p self.send_queue ≡ n) × (self.recv_queue ≡ all)
Keeps p n all panicked = Unit

drain-tally :
    (p : Text → Bool) (queue : List Text) (takes : ℕ → Bool) (i : ℕ)
    → tally p (drain queue takes i).0 + tally p (drain queue takes i).1 ≡ tally p queue
unfolding drain
drain-tally p [] takes i = refl
drain-tally p (msg ∷ rest) takes i = elim (Bool-cases (takes i)) [
  | inl y ↦ rw (drain, y) (omega (arith, drain-tally p rest takes (suc i)))
  | inr n ↦ rw (drain, n) (omega (arith, tally-reverse p rest))
]

module _ (p : Text → Bool) (sent : List Text) (self : ChimesWebSocketClient) where
  send_all-tally :
      (takes : ℕ → Bool)
      → tally p (send_all takes sent self).0 + tally p (send_all takes sent self).1.send_queue
        ≡ tally p sent + tally p self.send_queue
  unfolding send_all
  send_all-tally takes =
      let d = drain-tally p (reverse self.send_queue) takes 0 in
      omega (
        arith,
        d,
        tally-reverse p self.send_queue,
        tally-append p sent (drain (reverse self.send_queue) takes 0).0,
      )

zero_add : (n : ℕ) → 0 + n ≡ n
zero_add n = omega arith

module _ (p : Text → Bool) where
  -- A text that is received stands behind the others.
  pushed-Keeps :
      (t : Text) (ts : List Text) (n : ℕ) (self : ChimesWebSocketClient) (o : Outcome)
      → Keeps p n ((self.recv_queue ++ t ∷ []) ++ ts) o
      → Keeps p n (self.recv_queue ++ t ∷ ts) o
  pushed-Keeps t ts n self o k =
      subst (λ l. Keeps p n l o) (append_assoc self.recv_queue (t ∷ []) ts) k

  run-Keeps :
      (turns : List Turn) (sent : List Text) (self : ChimesWebSocketClient)
      → Keeps p
          (tally p sent + tally p self.send_queue)
          (self.recv_queue ++ texts turns)
          (run turns sent self)
  unfolding run turn on_lost on_frame push_received answer_ping
  run-Keeps [] sent self = (refl, sym (append-nil self.recv_queue))
  run-Keeps (refused ∷ turns) sent self = run-Keeps turns sent self
  run-Keeps (lost timed_out takes ∷ turns) sent self = (refl, (texts turns, refl))
  run-Keeps (lost notified takes ∷ turns) sent self =
      (send_all-tally p sent self takes, (texts turns, refl))
  run-Keeps (lost poisoned takes ∷ turns) sent self =
      (send_all-tally p sent self takes, (texts turns, refl))
  run-Keeps (protocol_error ∷ turns) sent self = run-Keeps turns sent self
  run-Keeps (received (text none) ∷ turns) sent self = tt
  run-Keeps (received (text (some t)) ∷ turns) sent self =
      let next : ChimesWebSocketClient = record self { recv_queue = self.recv_queue ++ t ∷ [] } in
      pushed-Keeps t (texts turns) (tally p sent + tally p self.send_queue) self
        (run turns sent next) (run-Keeps turns sent next)
  run-Keeps (received (binary none) ∷ turns) sent self = tt
  run-Keeps (received (binary (some t)) ∷ turns) sent self =
      let next : ChimesWebSocketClient = record self { recv_queue = self.recv_queue ++ t ∷ [] } in
      pushed-Keeps t (texts turns) (tally p sent + tally p self.send_queue) self
        (run turns sent next) (run-Keeps turns sent next)
  run-Keeps (received continuation ∷ turns) sent self = run-Keeps turns sent self
  run-Keeps (received (ping none) ∷ turns) sent self = tt
  run-Keeps (received (ping (some t)) ∷ turns) sent self = run-Keeps turns sent self
  run-Keeps (received (pong none) ∷ turns) sent self = tt
  run-Keeps (received (pong (some t)) ∷ turns) sent self = run-Keeps turns sent self
  run-Keeps (received close ∷ turns) sent self = (refl, (texts turns, refl))

  -- Whatever a run of `start` meets, if it does not panic: of the messages with a property, as many
  -- have been sent or are still in the queue as the queue had, so that none is lost and none is
  -- sent twice; and the texts of the frames have been received in their order, all of them while
  -- the loop goes on, and the first of them where it has ended.
  pub start-Keeps :
      (turns : List Turn) (self : ChimesWebSocketClient)
      → Keeps p (tally p self.send_queue) (self.recv_queue ++ texts turns) (start turns self)
  unfolding start
  start-Keeps turns self =
      subst (λ n. Keeps p n (self.recv_queue ++ texts turns) (start turns self))
        (zero_add (tally p self.send_queue)) (run-Keeps turns [] (record self { looping = true }))
