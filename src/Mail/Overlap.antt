-- ===== src/Mail/Overlap.antt =====
-- Overlapping accesses of the mail queue of src/utils/mail.rs: what a pop does that reads a list which is
-- not the queue any more.
use chimes_utils.Base.{
  ◌+◌, ◌≡◌, ◌≢◌, refl, ap, ◌∙◌, inl, inr, Bool, true, List, [], ◌∷◌, ◌++◌, Option-cases,
}
use chimes_utils.Base.Text.{Text}
use chimes_utils.Mail.{
  EmailBody, Lettre, panicked, Worker, created, looping, holding, ended, Server, send, look,
  next_mail, work,
}
use chimes_utils.Mail.Pop.{pop-append}
use chimes_utils.Mail.Accounting.{Sending-cases, tally_server, tally_held, tally_both, tally-work}

module _ (L : Lettre) where
  -- The next step of the worker comes to a pop.
  abbrev pub Pops : Worker L → Server L → Type 0
  Pops created s = ⊥
  Pops (looping account password) s = s.msq.started ≡ true
  Pops (holding account password mailer email) s = send L email ≢ panicked
  Pops ended s = ⊥

  abbrev pub with_list : Server L → List EmailBody → Server L
  with_list s q = record s { msq = record s.msq { queue = q } }

  module _ (rest : List EmailBody) (last : EmailBody) where
    abbrev seen : List EmailBody
    seen = rest ++ last ∷ []

    -- A pop leaves the rest of the list that it read, whatever the queue is.
    look-seen :
        (account password : Text) (s : Server L) (q : List EmailBody)
        → s.msq.started ≡ true
        → (look L seen account password s ≡ look L seen account password (with_list s q))
          × ((look L seen account password s).0.msq.queue ≡ rest)
    unfolding look
    look-seen account password s q b =
        elim (Option-cases (L.starttls_relay s.msq.client_conf.smtp_server account password)) [
          | inl f ↦ rw (look, b, pop-append rest last, f) (refl, refl)
          | inr (mailer, f) ↦ rw (look, b, pop-append rest last, f) (refl, refl)
        ]

    next_mail-seen :
        (account password : Text) (mailer : L.SmtpTransport) (s : Server L) (q : List EmailBody)
        → (next_mail L seen account password mailer s
            ≡ next_mail L seen account password mailer (with_list s q))
          × ((next_mail L seen account password mailer s).0.msq.queue ≡ rest)
    unfolding next_mail
    next_mail-seen account password mailer s q = rw (next_mail, pop-append rest last) (refl, refl)

    pub work-seen :
        (w : Worker L) (s : Server L) (q : List EmailBody)
        → Pops w s
        → (work L seen w s ≡ work L seen w (with_list s q)) × ((work L seen w s).0.msq.queue ≡ rest)
    unfolding work
    work-seen created s q h = absurd h
    work-seen (looping account password) s q h = look-seen account password s q h
    work-seen (holding account password mailer email) s q h =
        elim (Sending-cases L (send L email)) [
          | inl e ↦ rw (work, e) (next_mail-seen account password mailer _ q)
          | inr (inl (m, e)) ↦ rw (work, e) (next_mail-seen account password mailer _ q)
          | inr (inr e) ↦ absurd (h e)
        ]
    work-seen ended s q h = absurd h

    -- A step that pops from a list that it saw counts as if that list were the queue.
    pub tally-work-seen :
        (p : EmailBody → Bool) (w : Worker L) (s : Server L)
        → Pops w s
        → tally_both L p (work L seen w s) ≡ tally_server L p (with_list s seen) + tally_held L p w
    tally-work-seen p w s h =
        ap (λ x. tally_both L p x) (work-seen w s seen h).0 ∙ tally-work L p w (with_list s seen)
