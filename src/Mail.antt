-- ===== src/Mail.antt =====
-- The mail queue of src/utils/mail.rs: its state and methods, the sending of a mail, and the steps of its
-- worker. The crate lettre is a parameter; logging is left out.
pub mod Pop
pub mod Accounting
pub mod Overlap
pub mod Steps
pub mod History
pub mod Drain
pub mod Progress
mod Tests
use chimes_utils.Base.{
  Bool, true, false, not, Option, none, some, List, [], ◌∷◌, ◌++◌, if◌then◌else◌,
}
use chimes_utils.Base.Text.{Text}

pub record EmailBody : Type 0 where
  pub email_receiver : Text
  pub mine_email : Text
  pub subject : Text
  pub content : Text
  pub html_email : Bool

pub record EmailServerConfig : Type 0 where
  pub smtp_server : Text
  pub password : Text
  pub port : Text
  pub mine_email : Text
  pub ssl : Bool

abbrev pub default : EmailServerConfig
default = record { smtp_server = []; password = []; port = []; mine_email = []; ssl = false }

pub data Signal : Type 0 where
  notify_one notify_waiters : Signal

-- `signals` is what the `Notify` was sent.
pub record EmailSendingQueue : Type 0 where
  pub queue : List EmailBody
  pub client_conf : EmailServerConfig
  pub started : Bool
  pub signals : List Signal

abbrev pub new : EmailSendingQueue
new = record { queue = []; client_conf = default; started = false; signals = [] }

unfoldable pub config : EmailSendingQueue → Text → Text → Text → Text → Bool → EmailSendingQueue
config q smtp_server password port mine_email ssl = record q {
  client_conf = record {
    smtp_server = smtp_server;
    password = password;
    port = port;
    mine_email = mine_email;
    ssl = ssl;
  };
}

-- `clemb` of `queue_send`: the sender is the account of the queue.
abbrev pub signed : EmailSendingQueue → EmailBody → EmailBody
signed q emb = record emb { mine_email = q.client_conf.mine_email }

unfoldable pub queue_send : EmailSendingQueue → EmailBody → EmailSendingQueue
queue_send q emb = record q {
  queue = q.queue ++ signed q emb ∷ [];
  signals = q.signals ++ notify_one ∷ [];
}

-- The flag says whether a worker is spawned. The call is made in a runtime of tokio, without which the
-- spawning panics.
unfoldable pub start : EmailSendingQueue → EmailSendingQueue × Bool
start q = if not q.started then (record q { started = true }, true) else (q, false)

unfoldable pub shutdown : EmailSendingQueue → EmailSendingQueue
shutdown q =
    if q.started
    then record q { started = false; signals = q.signals ++ notify_waiters ∷ [] }
    else q

-- `Vec::pop`: the last element, and the others.
unfoldable pub pop : List EmailBody → Option (EmailBody × List EmailBody)
pop [] = none
pop (e ∷ es) = elim (pop es) [ none ↦ some (e, []) | some (last, rest) ↦ some (last, e ∷ rest) ]

-- What mail.rs uses of lettre.
pub record Lettre : Type 1 where
  pub Mailbox : Type 0
  pub Message : Type 0
  pub SmtpTransport : Type 0
  pub parse : Text → Option Mailbox
  -- from, to, subject and body; `none` is an error
  pub build : Mailbox → Mailbox → Text → Text → Option Message
  -- the server, and the account and its password; `none` is an error
  pub starttls_relay : Text → Text → Text → Option SmtpTransport

module _ (L : Lettre) where
  -- What becomes of a mail: it is not sent, it is handed to `mailer.send` (whose errors are only
  -- logged), or the build panics.
  pub data Sending : Type 0 where
    skipped : Sending
    handed : L.Message → Sending
    panicked : Sending

  unfoldable pub send_email : Text → Text → Text → Text → Bool → Sending
  send_email email_receiver mine_email subject content html_email = elim (L.parse mine_email) [
    | none ↦ skipped
    | some from ↦ elim (L.parse email_receiver) [
      | none ↦ skipped
      | some to ↦
          elim (if html_email
            then L.build from to subject content
            else L.build from to subject content) [
              | none ↦ panicked
              | some email_build ↦ handed email_build
            ]
    ]
  ]

  unfoldable pub send : EmailBody → Sending
  unfolding send_email
  send emb = send_email emb.email_receiver emb.mine_email emb.subject emb.content emb.html_email

  -- A worker that is spawned and has not run; with the account and password that it took when it first
  -- ran, at the test of the loop, or with a mail and a connection; or ended.
  pub data Worker : Type 0 where
    created : Worker
    looping : Text → Text → Worker
    holding : Text → Text → L.SmtpTransport → EmailBody → Worker
    ended : Worker

  -- The queue, what was sent or skipped with what became of it, and the mails that a panicking worker held.
  pub record Server : Type 0 where
    pub msq : EmailSendingQueue
    pub finished : List (EmailBody × Sending)
    pub lost : List EmailBody

  -- The test of the outer loop, and its body to the first mail or to the wait. The pop takes no lock:
  -- `seen` is the list that it reads, and whose rest it leaves behind.
  unfoldable pub look : List EmailBody → Text → Text → Server → Server × Worker
  unfolding pop
  look seen account password s =
      if s.msq.started
      then elim (pop seen) [
        | none ↦ (s, looping account password)
        | some (fst, rest) ↦
            let q = record s { msq = record s.msq { queue = rest } } in
            elim (L.starttls_relay s.msq.client_conf.smtp_server account password) [
              | none ↦ (record q { lost = s.lost ++ fst ∷ [] }, ended)
              | some mailer ↦ (q, holding account password mailer fst)
            ]
      ]
      else (s, ended)

  -- The end of the inner loop's body: the next mail. This pop has the read lock, which other workers may
  -- have, too; the wait for it falls into the step.
  unfoldable pub next_mail :
      List EmailBody → Text → Text → L.SmtpTransport → Server → Server × Worker
  unfolding pop
  next_mail seen account password mailer s = elim (pop seen) [
    | none ↦ (s, looping account password)
    | some (fst, rest) ↦
        (record s { msq = record s.msq { queue = rest } }, holding account password mailer fst)
  ]

  unfoldable pub work : List EmailBody → Worker → Server → Server × Worker
  unfolding look next_mail send
  work seen created s = (s, looping s.msq.client_conf.mine_email s.msq.client_conf.password)
  work seen (looping account password) s = look seen account password s
  work seen (holding account password mailer email) s = elim (send email) [
    | skipped ↦
        next_mail seen account password mailer
          (record s { finished = s.finished ++ (email, skipped) ∷ [] })
    | handed m ↦
        next_mail seen account password mailer
          (record s { finished = s.finished ++ (email, handed m) ∷ [] })
    | panicked ↦ (record s { lost = s.lost ++ email ∷ [] }, ended)
  ]
  work seen ended s = (s, ended)
