-- ===== src/Websocket.antt =====
-- The WebSocket client of src/utils/actix_client.rs. Its lock only carries the wait of the loop and is
-- left out; what a turn of the loop meets on the network is an argument.
pub mod Laws
pub mod Sending
mod Tests
use mathlib.Core.List.{reverse}
use chimes_utils.Base.{
  ℕ, suc, Bool, true, false, Option, none, some, List, [], ◌∷◌, ◌++◌, if◌then◌else◌,
}
use chimes_utils.Base.Text.{Text, codes}

pub record ChimesWebSocketClient : Type 0 where
  pub websocket_url : Text
  pub send_queue : List Text
  pub recv_queue : List Text
  pub looping : Bool

abbrev pub new_websocket : Text → ChimesWebSocketClient
new_websocket url = record {
  websocket_url = url;
  send_queue = [];
  recv_queue = [];
  looping = false;
}

unfoldable pub send : Text → ChimesWebSocketClient → ChimesWebSocketClient
send body self = record self { send_queue = self.send_queue ++ body ∷ [] }

unfoldable pub recv : ChimesWebSocketClient → List Text
recv self = self.recv_queue

unfoldable pub stop : ChimesWebSocketClient → ChimesWebSocketClient
stop self = record self { looping = false }

-- `ws::Frame`, with `from_utf8` of its bytes where the code asks for it: `none` is an error.
pub data Frame : Type 0 where
  text binary : Option Text → Frame
  continuation : Frame
  ping pong : Option Text → Frame
  close : Frame

-- How the wait of one second ends.
pub data Wait : Type 0 where
  timed_out notified poisoned : Wait

-- What one turn of the loop meets: no connection; a connection without a frame, with the end of
-- the wait and the messages that it takes, counted from 0; an error; or a frame.
pub data Turn : Type 0 where
  refused : Turn
  lost : Wait → (ℕ → Bool) → Turn
  protocol_error : Turn
  received : Frame → Turn

-- What has been sent, oldest first, and the client. The loop ends, goes on, or panics.
pub data Outcome : Type 0 where
  ended going_on : List Text → ChimesWebSocketClient → Outcome
  panicked : Outcome

-- The loop over `send_queue.pop()`, on the queue read from its end, from the message number `i`.
-- A message that is not taken is put in front of the queue.
unfoldable pub drain : List Text → (ℕ → Bool) → ℕ → List Text × List Text
drain [] takes i = ([], [])
drain (msg ∷ rest) takes i =
    let r = drain rest takes (suc i) in
    if takes i then (msg ∷ r.0, r.1) else ([], msg ∷ reverse rest)

unfoldable pub send_all :
    (ℕ → Bool) → List Text → ChimesWebSocketClient → List Text × ChimesWebSocketClient
unfolding drain
send_all takes sent self =
    let r = drain (reverse self.send_queue) takes 0 in
    (sent ++ r.0, record self { send_queue = r.1 })

unfoldable pub push_received : Option Text → List Text → ChimesWebSocketClient → Outcome
push_received none sent self = panicked
push_received (some t) sent self =
    going_on sent (record self { recv_queue = self.recv_queue ++ t ∷ [] })

-- A ping or a pong is answered, whether it can be or not.
unfoldable pub answer_ping : Option Text → List Text → ChimesWebSocketClient → Outcome
answer_ping none sent self = panicked
answer_ping (some msg) sent self = going_on sent self

unfoldable pub on_frame : Frame → List Text → ChimesWebSocketClient → Outcome
unfolding push_received answer_ping
on_frame (text t) sent self = push_received t sent self
on_frame (binary t) sent self = push_received t sent self
on_frame continuation sent self = going_on sent self
on_frame (ping t) sent self = answer_ping t sent self
on_frame (pong t) sent self = answer_ping t sent self
on_frame close sent self = ended sent self

unfoldable pub on_lost : Wait → (ℕ → Bool) → List Text → ChimesWebSocketClient → Outcome
unfolding send_all
on_lost timed_out takes sent self = ended sent self
on_lost notified takes sent self = let r = send_all takes sent self in ended r.0 r.1
on_lost poisoned takes sent self = let r = send_all takes sent self in ended r.0 r.1

unfoldable pub turn : Turn → List Text → ChimesWebSocketClient → Outcome
unfolding on_lost on_frame
turn refused sent self = going_on sent self
turn (lost wait takes) sent self = on_lost wait takes sent self
turn protocol_error sent self = going_on sent self
turn (received frame) sent self = on_frame frame sent self

-- The loop of `start` over the turns it meets; nothing ends it from outside, since it has the
-- client for itself.
unfoldable pub run : List Turn → List Text → ChimesWebSocketClient → Outcome
unfolding turn
run [] sent self = going_on sent self
run (t ∷ turns) sent self = elim (turn t sent self) [
  | ended s c ↦ ended s c
  | going_on s c ↦ run turns s c
  | panicked ↦ panicked
]

unfoldable pub start : List Turn → ChimesWebSocketClient → Outcome
unfolding run
start turns self = run turns [] (record self { looping = true })
