-- ===== src/Mail/Steps.antt =====
-- Histories of the mail queue of src/utils/mail.rs: calls of its methods, and steps of its workers,
-- in any order. The pop of mail.rs:128 takes no lock, and that of mail.rs:141 a read lock, so that two pops, or
-- the former and a push, may overlap: Rust gives such a data race no meaning, and two steps follow
-- what the reads and writes of the length lead to.
use chimes_utils.Base.{◌≡◌, Bool, List, [], ◌∷◌, ◌++◌, if◌then◌else◌}
use chimes_utils.Base.Text.{Text}
use chimes_utils.Mail.{
  EmailBody, EmailSendingQueue, new, config, signed, queue_send, start, shutdown, Lettre, Worker,
  created, Server, work,
}
use chimes_utils.Mail.Overlap.{Pops}

module _ (L : Lettre) where
  -- `accepted` is every mail that was queued, as it was queued, `doubled` those that an overlap of two
  -- pops took twice, and `dropped` those that an overlap of a pop and a push took away unread.
  pub record State : Type 0 where
    pub server : Server L
    pub workers : List (Worker L)
    pub accepted : List EmailBody
    pub doubled : List EmailBody
    pub dropped : List EmailBody

  abbrev pub init : State
  init = record {
    server = record { msq = new; finished = []; lost = [] };
    workers = [];
    accepted = [];
    doubled = [];
    dropped = [];
  }

  abbrev pub with_queue : State → EmailSendingQueue → State
  with_queue s q = record s { server = record s.server { msq = q } }

  abbrev pub spawned : State → State
  spawned s =
      let (q, spawn) = start s.server.msq in
      record s {
        server = record s.server { msq = q };
        workers = if spawn then s.workers ++ created ∷ [] else s.workers;
      }

  abbrev pub popped_twice :
      State
      → List (Worker L)
      → List (Worker L)
      → List (Worker L)
      → Worker L
      → Worker L
      → List EmailBody
      → EmailBody
      → State
  popped_twice s us vs xs w v rest last =
      let a = work L (rest ++ last ∷ []) w s.server in
      let b = work L (rest ++ last ∷ []) v a.0 in
      record s {
        server = b.0;
        workers = us ++ (a.1 ∷ (vs ++ (b.1 ∷ xs)));
        doubled = s.doubled ++ last ∷ [];
      }

  abbrev pub sent : State → EmailBody → Server L
  sent s emb = record s.server { msq = queue_send s.server.msq emb }

  abbrev pub overwritten :
      State
      → EmailBody
      → List (Worker L)
      → List (Worker L)
      → Worker L
      → List EmailBody
      → EmailBody
      → State
  overwritten s emb us vs w rest last =
      let a = work L (rest ++ last ∷ []) w (sent s emb) in
      record s {
        server = a.0;
        workers = us ++ (a.1 ∷ vs);
        accepted = s.accepted ++ signed s.server.msq emb ∷ [];
        dropped = s.dropped ++ signed s.server.msq emb ∷ [];
      }

  pub data Step (s : State) (s' : State) : Type 0 where
    sends :
        (emb : EmailBody)
        → s' ≡ record s {
          server = record s.server { msq = queue_send s.server.msq emb };
          accepted = s.accepted ++ signed s.server.msq emb ∷ [];
        }
        → Step s s'
    configures :
        (smtp_server password port mine_email : Text) (ssl : Bool)
        → s' ≡ with_queue s (config s.server.msq smtp_server password port mine_email ssl)
        → Step s s'
    starts : s' ≡ spawned s → Step s s'
    shuts : s' ≡ with_queue s (shutdown s.server.msq) → Step s s'
    works :
        (us vs : List (Worker L)) (w : Worker L)
        → s.workers ≡ us ++ (w ∷ vs)
        → s' ≡ record s {
          server = (work L s.server.msq.queue w s.server).0;
          workers = us ++ ((work L s.server.msq.queue w s.server).1 ∷ vs);
        }
        → Step s s'
    -- `v` pops from the list that `w` pops from.
    pops_twice :
        (us vs xs : List (Worker L)) (w v : Worker L) (rest : List EmailBody) (last : EmailBody)
        → s.workers ≡ us ++ (w ∷ (vs ++ (v ∷ xs)))
        → s.server.msq.queue ≡ rest ++ last ∷ []
        → Pops L w s.server
        → Pops L v (work L (rest ++ last ∷ []) w s.server).0
        → s' ≡ popped_twice s us vs xs w v rest last
        → Step s s'
    -- `w` pops from the list as it was before the push.
    overwrites :
        (emb : EmailBody) (us vs : List (Worker L)) (w : Worker L) (rest : List EmailBody)
        (last : EmailBody)
        → s.workers ≡ us ++ (w ∷ vs)
        → s.server.msq.queue ≡ rest ++ last ∷ []
        → Pops L w s.server
        → s' ≡ overwritten s emb us vs w rest last
        → Step s s'

  pub data Reach (s : State) : State → Type 0 where
    here : Reach s s
    next : {t u : State} → Reach s t → Step t u → Reach s u
