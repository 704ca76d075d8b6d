-- ===== src/Mail/Tests.antt =====
-- Runs of the mail queue of src/utils/mail.rs, and its theorems at concrete values.
use mathlib.Core.List.{reverse}
use chimes_utils.Base.{◌≡◌, refl, true, false, none, some, [], ◌∷◌, if◌then◌else◌, arith}
use chimes_utils.Base.Text.{Text, codes, text_eq}
use chimes_utils.Mail.{
  notify_one, notify_waiters, pop, holding, look, EmailBody, new, signed, Lettre, looping, ended,
  Server, send, send_email, work,
}
use chimes_utils.Mail.Steps.{State, init, popped_twice, Reach}
use chimes_utils.Mail.Drain.{drained}
use chimes_utils.Mail.Progress.{emptied}

-- Addresses are texts that are not empty, and nothing fails.
lettre : Lettre
lettre = record {
  Mailbox = Text;
  Message = Text × Text;
  SmtpTransport = Unit;
  parse = λ t. if text_eq t [] then none else some t;
  build = λ from to subject content. some (to, content);
  starttls_relay = λ server account password. some tt;
}

mail : Text → Text → EmailBody
mail to content = record {
  email_receiver = to;
  mine_email = codes "me";
  subject = [];
  content = content;
  html_email = false;
}

two_mails : Server lettre
unfolding lettre mail
two_mails = record {
  msq = record new {
    queue = mail (codes "ann") (codes "one") ∷ mail [] (codes "two") ∷ [];
    started = true;
  };
  finished = [];
  lost = [];
}

-- A mail is queued, a worker is spawned, stopped, and another one spawned; both come to the test of
-- their loop, and their pops overlap.
abbrev ann : EmailBody
ann = signed new (mail (codes "ann") (codes "one"))

unfoldable both : State lettre
both = record (init lettre) {
  server = record (init lettre).server {
    msq = record new {
      queue = ann ∷ [];
      started = true;
      signals = notify_one ∷ notify_waiters ∷ [];
    };
  };
  workers = looping [] [] ∷ looping [] [] ∷ [];
  accepted = ann ∷ [];
}

taken : State lettre
taken = popped_twice lettre both [] [] [] (looping [] []) (looping [] []) [] ann

-- Both workers hold the one mail.
held_twice :
    (mailer : lettre.SmtpTransport) × (taken.workers
      ≡ holding [] [] mailer ann ∷ holding [] [] mailer ann ∷ [])
unfolding taken both work look lettre pop
held_twice = (tt, refl)

-- The two mails, with a second worker that has ended.
abbrev waiting : State lettre
waiting = record {
  server = two_mails;
  workers = ended ∷ looping (codes "me") (codes "pw") ∷ [];
  accepted = [];
  doubled = [];
  dropped = [];
}

emptied_example : Reach lettre waiting (record waiting {
  server = drained lettre (reverse two_mails.msq.queue) two_mails;
  workers = ended ∷ looping (codes "me") (codes "pw") ∷ [];
})
unfolding two_mails lettre mail send send_email
emptied_example =
    emptied lettre waiting (ended ∷ []) [] (codes "me") (codes "pw") tt refl refl refl
      (ground arith)
