-- ===== src/Websocket/Sending.antt =====
-- When the WebSocket client of src/utils/actix_client.rs sends: behind a connection that is lost, and never
-- more than once in a run.
use mathlib.Core.List.{reverse}
use chimes_utils.Base.{
  ℕ, suc, ◌≡◌, ◌≢◌, refl, ap, ◌⊎◌, inl, inr, Bool-cases, Bool, true, none, some, List, [], ◌∷◌,
  ◌++◌,
}
use chimes_utils.Base.Text.{Text}
use chimes_utils.Websocket.{
  ChimesWebSocketClient, Frame, text, binary, continuation, ping, pong, close, Wait, timed_out,
  notified, poisoned, Turn, refused, lost, protocol_error, received, Outcome, ended, going_on,
  panicked, drain, send_all, push_received, answer_ping, on_frame, on_lost, turn, run, start,
}

-- The message that is refused goes to the front of the queue, before those that were not tried; `rest`
-- has them newest first.
abbrev pub put_back : List Text → List Text
put_back [] = []
put_back (msg ∷ rest) = msg ∷ reverse rest

-- The turns begin with ones that find no connection, or bring an error or a frame; then a connection is
-- lost, and its wait does not run out. The messages `taken` are the newest of the queue, the newest
-- first, and `kept` is the queue without them.
pub data SentOnLoss (queue taken kept : List Text) : List Turn → Type 0 where
  on_loss :
      (wait : Wait) (takes : ℕ → Bool) (turns : List Turn) (rest : List Text)
      → wait ≢ timed_out
      → reverse queue ≡ taken ++ rest
      → kept ≡ put_back rest
      → SentOnLoss queue taken kept (lost wait takes ∷ turns)
  on_refused :
      {turns : List Turn}
      → SentOnLoss queue taken kept turns
      → SentOnLoss queue taken kept (refused ∷ turns)
  on_error :
      {turns : List Turn}
      → SentOnLoss queue taken kept turns
      → SentOnLoss queue taken kept (protocol_error ∷ turns)
  on_received :
      {turns : List Turn} (frame : Frame)
      → SentOnLoss queue taken kept turns
      → SentOnLoss queue taken kept (received frame ∷ turns)

-- A loop that goes on has sent nothing more than `before`, and its queue is `queue`; a loop that has
-- ended has done the same, or it has ended by a sending.
abbrev pub SendsLast : List Text → List Text → List Turn → Outcome → Type 0
SendsLast before queue turns (going_on sent self) = (sent ≡ before) × (self.send_queue ≡ queue)
SendsLast before queue turns (ended sent self) =
    ((sent ≡ before) × (self.send_queue ≡ queue))
    ⊎ ((taken : List Text) × (sent ≡ before ++ taken)
        × SentOnLoss queue taken self.send_queue turns)
SendsLast before queue turns panicked = Unit

drain-put_back :
    (queue : List Text) (takes : ℕ → Bool) (i : ℕ)
    → (rest : List Text) × (queue ≡ (drain queue takes i).0 ++ rest)
      × ((drain queue takes i).1 ≡ put_back rest)
unfolding drain
drain-put_back [] takes i = ([], refl, refl)
drain-put_back (msg ∷ queue) takes i = elim (Bool-cases (takes i)) [
  | inl y ↦
      let (rest, sent, kept) = drain-put_back queue takes (suc i) in
      (rest, rw (drain, y) (ap (λ l. msg ∷ l) sent), rw (drain, y) kept)
  | inr n ↦ (msg ∷ queue, rw (drain, n) refl, rw (drain, n) refl)
]

-- A turn that comes before the sending.
SendsLast-next :
    (before queue : List Text) (t : Turn) (turns : List Turn) (o : Outcome)
    → ((taken kept : List Text)
        → SentOnLoss queue taken kept turns
        → SentOnLoss queue taken kept (t ∷ turns))
    → SendsLast before queue turns o
    → SendsLast before queue (t ∷ turns) o
SendsLast-next before queue t turns (going_on sent self) f h = h
SendsLast-next before queue t turns (ended sent self) f (inl h) = inl h
SendsLast-next before queue t turns (ended sent self) f (inr (taken, e, h)) =
    inr (taken, e, f taken self.send_queue h)
SendsLast-next before queue t turns panicked f h = tt

module _ (turns : List Turn) (sent : List Text) (self : ChimesWebSocketClient) where
  abbrev AfterSending : Wait → (ℕ → Bool) → Type 0
  AfterSending wait takes =
      SendsLast sent self.send_queue (lost wait takes ∷ turns)
        (let r = send_all takes sent self in ended r.0 r.1)

  send_all-SendsLast : (wait : Wait) (takes : ℕ → Bool) → wait ≢ timed_out → AfterSending wait takes
  unfolding send_all
  send_all-SendsLast wait takes h =
      let (rest, taken, kept) = drain-put_back (reverse self.send_queue) takes 0 in
      inr (
        (drain (reverse self.send_queue) takes 0).0,
        refl,
        on_loss wait takes turns rest h taken kept,
      )

behind :
    (frame : Frame) (turns : List Turn) (sent : List Text) (self : ChimesWebSocketClient)
    → SendsLast sent self.send_queue turns (run turns sent self)
    → SendsLast sent self.send_queue (received frame ∷ turns) (run turns sent self)
behind frame turns sent self h =
    SendsLast-next sent self.send_queue (received frame) turns (run turns sent self)
      (λ a b g. on_received frame g) h

run-SendsLast :
    (turns : List Turn) (sent : List Text) (self : ChimesWebSocketClient)
    → SendsLast sent self.send_queue turns (run turns sent self)
unfolding run turn on_lost on_frame push_received answer_ping
run-SendsLast [] sent self = (refl, refl)
run-SendsLast (refused ∷ turns) sent self =
    SendsLast-next sent self.send_queue refused turns (run turns sent self) (λ a b h. on_refused h)
      (run-SendsLast turns sent self)
run-SendsLast (lost timed_out takes ∷ turns) sent self = inl (refl, refl)
run-SendsLast (lost notified takes ∷ turns) sent self =
    send_all-SendsLast turns sent self notified takes (λ e. cc e)
run-SendsLast (lost poisoned takes ∷ turns) sent self =
    send_all-SendsLast turns sent self poisoned takes (λ e. cc e)
run-SendsLast (protocol_error ∷ turns) sent self =
    SendsLast-next sent self.send_queue protocol_error turns (run turns sent self)
      (λ a b h. on_error h) (run-SendsLast turns sent self)
run-SendsLast (received close ∷ turns) sent self = inl (refl, refl)
run-SendsLast (received continuation ∷ turns) sent self =
    behind continuation turns sent self (run-SendsLast turns sent self)
run-SendsLast (received (ping none) ∷ turns) sent self = tt
run-SendsLast (received (ping (some t)) ∷ turns) sent self =
    behind (ping (some t)) turns sent self (run-SendsLast turns sent self)
run-SendsLast (received (pong none) ∷ turns) sent self = tt
run-SendsLast (received (pong (some t)) ∷ turns) sent self =
    behind (pong (some t)) turns sent self (run-SendsLast turns sent self)
run-SendsLast (received (text none) ∷ turns) sent self = tt
run-SendsLast (received (text (some t)) ∷ turns) sent self =
    let next : ChimesWebSocketClient = record self { recv_queue = self.recv_queue ++ t ∷ [] } in
    behind (text (some t)) turns sent next (run-SendsLast turns sent next)
run-SendsLast (received (binary none) ∷ turns) sent self = tt
run-SendsLast (received (binary (some t)) ∷ turns) sent self =
    let next : ChimesWebSocketClient = record self { recv_queue = self.recv_queue ++ t ∷ [] } in
    behind (binary (some t)) turns sent next (run-SendsLast turns sent next)

-- Whatever the turns of the loop meet, if no frame makes it panic: while the loop goes on, it has sent
-- nothing of the queue. A loop that has ended has sent nothing either, or it ended by sending behind a
-- connection that was lost, and whose wait did not run out: it sent the newest messages, the newest
-- first, and the queue keeps the others, a refused one in front.
pub start-SendsLast :
    (turns : List Turn) (self : ChimesWebSocketClient)
    → SendsLast [] self.send_queue turns (start turns self)
unfolding start
start-SendsLast turns self = run-SendsLast turns [] (record self { looping = true })
