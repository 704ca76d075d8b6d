-- ===== src/Websocket/Tests.antt =====
-- The theorems on the WebSocket client of src/utils/actix_client.rs at concrete turns.
use chimes_utils.Base.{◌++◌, ◌≡◌, refl, true, some, List, [], ◌∷◌, ◌==◌, tally}
use chimes_utils.Base.Text.{codes, text_eq}
use chimes_utils.Websocket.{
  ChimesWebSocketClient, new_websocket, send, text, notified, Turn, lost, received, ended, drain,
  send_all, on_lost, on_frame, push_received, turn, run, start,
}
use chimes_utils.Websocket.Laws.{texts, Keeps, start-Keeps}
use chimes_utils.Websocket.Sending.{SendsLast, start-SendsLast}

two_messages : ChimesWebSocketClient
unfolding send
two_messages = send (codes "b") (send (codes "a") (new_websocket (codes "ws://h")))

-- A frame, and then a silent connection that takes the first message only.
abbrev turns : List Turn
turns = received (text (some (codes "x"))) ∷ lost notified (λ i. i == 0) ∷ []

start-Keeps_example :
    Keeps
      (text_eq (codes "a"))
      (tally (text_eq (codes "a")) two_messages.send_queue)
      (two_messages.recv_queue ++ texts turns)
      (start turns two_messages)
start-Keeps_example = start-Keeps (text_eq (codes "a")) turns two_messages

-- The last message is sent first, and the one that is not taken stays.
start_two :
    start turns two_messages
    ≡ ended (codes "b" ∷ []) (record {
      websocket_url = codes "ws://h";
      send_queue = codes "a" ∷ [];
      recv_queue = codes "x" ∷ [];
      looping = true;
    })
unfolding two_messages send start run turn on_lost on_frame push_received send_all drain
start_two = refl

start-SendsLast_example : SendsLast [] two_messages.send_queue turns (start turns two_messages)
start-SendsLast_example = start-SendsLast turns two_messages
