-- ===== src/Mail/Progress.antt =====
-- From any state of the mail queue of src/utils/mail.rs in which a worker waits, the queue can be emptied.
use mathlib.Core.List.{reverse}
use chimes_utils.Base.{
  ℕ, zero, suc, ◌≡◌, ◌≢◌, refl, subst, true, some, List, ◌∷◌, ◌++◌, length, All,
}
use chimes_utils.Base.Text.{Text}
use chimes_utils.Mail.{EmailBody, Lettre, panicked, Worker, looping, Server, send, work}
use chimes_utils.Mail.Drain.{run, drained, run-reverse}
use chimes_utils.Mail.Steps.{State, works, Reach, here, next}

module _ (L : Lettre) (us vs : List (Worker L)) (accepted doubled dropped : List EmailBody)
    (from : State L) where
  -- One worker among others.
  abbrev at : Server L × Worker L → State L
  at r = record {
    server = r.0;
    workers = us ++ (r.1 ∷ vs);
    accepted = accepted;
    doubled = doubled;
    dropped = dropped;
  }

  -- The steps of the one worker are steps of a history.
  run-Reach :
      (n : ℕ) (w : Worker L) (s : Server L)
      → Reach L from (at (s, w))
      → Reach L from (at (run L n w s))
  unfolding run
  run-Reach zero w s r = r
  run-Reach (suc n) w s r =
      run-Reach n (work L s.msq.queue w s).1 (work L s.msq.queue w s).0
        (next r (works us vs w refl refl))

module _ (L : Lettre) where
  -- Any state, with any number of workers, in which one worker waits at its loop, the queue is
  -- started, the server can be reached with the worker's account, and no build of a queued mail
  -- panics, can go on by steps of a history to the state in which the queue is empty, every mail of
  -- it has been treated, the last one first, the worker waits again, and nothing else is changed.
  pub emptied :
      (s : State L) (us vs : List (Worker L)) (account password : Text) (mailer : L.SmtpTransport)
      → s.workers ≡ us ++ (looping account password ∷ vs)
      → s.server.msq.started ≡ true
      → L.starttls_relay s.server.msq.client_conf.smtp_server account password ≡ some mailer
      → All (λ e. send L e ≢ panicked) (reverse s.server.msq.queue)
      → Reach L s (record s {
        server = drained L (reverse s.server.msq.queue) s.server;
        workers = us ++ (looping account password ∷ vs);
      })
  emptied s us vs account password mailer e b f h =
      let q = s.server.msq.queue in
      let start : Reach L s (record s { workers = us ++ (looping account password ∷ vs) }) =
        subst (λ l. Reach L s (record s { workers = l })) e here in
      subst
        (λ (x : Server L × Worker L).
          Reach L s (record s { server = x.0; workers = us ++ (x.1 ∷ vs) }))
        (run-reverse L s.server account password mailer q refl b f h)
        (run-Reach L us vs s.accepted s.doubled s.dropped s (suc (length (reverse q)))
          (looping account password) s.server start)
