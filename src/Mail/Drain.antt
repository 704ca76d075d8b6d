-- ===== src/Mail/Drain.antt =====
-- One worker of src/utils/mail.rs that nothing disturbs: it sends the whole queue, the last mail first.
use mathlib.Core.List.{reverse, reverse-reverse}
use chimes_utils.Base.{
  ℕ, zero, suc, ◌≡◌, ◌≢◌, refl, sym, ap, ◌∙◌, inl, inr, true, some, List, [], ◌∷◌, ◌++◌, map,
  append-nil, append_assoc, length, All,
}
use chimes_utils.Base.Text.{Text}
use chimes_utils.Mail.{
  EmailBody, pop, Lettre, Sending, panicked, Worker, looping, holding, Server, send, look,
  next_mail, work,
}
use chimes_utils.Mail.Accounting.{Sending-cases}
use chimes_utils.Mail.Pop.{pop-reverse}

module _ (L : Lettre) where
  -- Steps of one worker.
  unfoldable pub run : ℕ → Worker L → Server L → Server L × Worker L
  run zero w s = (s, w)
  run (suc n) w s = let (s', w') = work L s.msq.queue w s in run n w' s'

  abbrev pub outcome : EmailBody → EmailBody × Sending L
  outcome e = (e, send L e)

  abbrev pub drained : List EmailBody → Server L → Server L
  drained es s = record s {
    msq = record s.msq { queue = [] };
    finished = s.finished ++ map outcome es;
  }

  work-holding :
      (e : EmailBody) (account password : Text) (mailer : L.SmtpTransport) (s : Server L)
      → send L e ≢ panicked
      → work L s.msq.queue (holding account password mailer e) s
        ≡ next_mail L s.msq.queue account password mailer
            (record s { finished = s.finished ++ outcome e ∷ [] })
  unfolding work
  work-holding e account password mailer s h = elim (Sending-cases L (send L e)) [
    | inl c ↦ rw (work, c) refl
    | inr (inl (m, c)) ↦ rw (work, c) refl
    | inr (inr c) ↦ elim (h c) [ ]
  ]

  next_mail-nil :
      (account password : Text) (mailer : L.SmtpTransport) (s : Server L)
      → s.msq.queue ≡ []
      → next_mail L s.msq.queue account password mailer s
        ≡ (record s { msq = record s.msq { queue = [] } }, looping account password)
  unfolding next_mail
  next_mail-nil account password mailer s q =
      rw (next_mail, q, pop)
        (λ i. (record s { msq = record s.msq { queue = q i } }, looping account password))

  next_mail-reverse :
      (account password : Text) (mailer : L.SmtpTransport) (s : Server L) (d : EmailBody)
      (es : List EmailBody)
      → s.msq.queue ≡ reverse (d ∷ es)
      → next_mail L s.msq.queue account password mailer s ≡ (
        record s { msq = record s.msq { queue = reverse es } },
        holding account password mailer d,
      )
  unfolding next_mail
  next_mail-reverse account password mailer s d es q =
      rw (next_mail, ap pop q ∙ pop-reverse d es) refl

  run_next :
      (n : ℕ) (w : Worker L) (s : Server L) (r : Server L × Worker L)
      → work L s.msq.queue w s ≡ r
      → run (suc n) w s ≡ run n r.1 r.0
  unfolding run
  run_next n w s r h = ap (λ x. run n x.1 x.0) h

  -- The steps that finish the mail in hand and those of the queue.
  run-holding :
      (es : List EmailBody) (e : EmailBody) (account password : Text) (mailer : L.SmtpTransport)
      (s : Server L)
      → s.msq.queue ≡ reverse es
      → All (λ d. send L d ≢ panicked) (e ∷ es)
      → run (suc (length es)) (holding account password mailer e) s
        ≡ (drained (e ∷ es) s, looping account password)
  run-holding [] e account password mailer s q (h, hs) =
      let s' = record s { finished = s.finished ++ outcome e ∷ [] } in
      run_next 0 (holding account password mailer e) s
        (drained (e ∷ []) s, looping account password)
        (work-holding e account password mailer s h ∙ next_mail-nil account password mailer s' q)
      ∙ unfold run in refl
  run-holding (d ∷ es) e account password mailer s q (h, hs) =
      let s' = record s { finished = s.finished ++ outcome e ∷ [] } in
      let t = record s' { msq = record s.msq { queue = reverse es } } in
      run_next (suc (length es)) (holding account password mailer e) s
        (t, holding account password mailer d)
        (work-holding e account password mailer s h
          ∙ next_mail-reverse account password mailer s' d es q)
      ∙ run-holding es d account password mailer t refl hs
      ∙ ap
          (λ l. (
            record s { msq = record s.msq { queue = [] }; finished = l },
            looping account password,
          ))
          (append_assoc s.finished (outcome e ∷ []) (map outcome (d ∷ es)))

  look-nil :
      (s : Server L) (account password : Text)
      → s.msq.queue ≡ []
      → s.msq.started ≡ true
      → look L s.msq.queue account password s ≡ (s, looping account password)
  unfolding look pop
  look-nil s account password q b = simp (b, q)

  run-listed :
      (r : List EmailBody) (s : Server L) (account password : Text) (mailer : L.SmtpTransport)
      → s.msq.queue ≡ reverse r
      → s.msq.started ≡ true
      → L.starttls_relay s.msq.client_conf.smtp_server account password ≡ some mailer
      → All (λ e. send L e ≢ panicked) r
      → run (suc (length r)) (looping account password) s ≡ (drained r s, looping account password)
  unfolding look work
  run-listed [] s account password mailer q b f h =
      run_next 0 (looping account password) s (drained [] s, looping account password)
        (look-nil s account password q b ∙ (λ i. (
          record s { msq = record s.msq { queue = q i }; finished = sym (append-nil s.finished) i },
          looping account password,
        )))
      ∙ unfold run in refl
  run-listed (d ∷ es) s account password mailer q b f h =
      let t = record s { msq = record s.msq { queue = reverse es } } in
      run_next (suc (length es)) (looping account password) s (t, holding account password mailer d)
        (simp (b, ap pop q ∙ pop-reverse d es, f))
      ∙ run-holding es d account password mailer t refl h

  -- A worker of a started queue that nothing disturbs, whose server can be reached, and for whose
  -- mails no build panics, ends the round with an empty queue. It treats every mail once, the
  -- last one first, and is back at the test of its loop.
  pub run-reverse :
      (s : Server L) (account password : Text) (mailer : L.SmtpTransport) (q : List EmailBody)
      → s.msq.queue ≡ q
      → s.msq.started ≡ true
      → L.starttls_relay s.msq.client_conf.smtp_server account password ≡ some mailer
      → All (λ e. send L e ≢ panicked) (reverse q)
      → run (suc (length (reverse q))) (looping account password) s
        ≡ (drained (reverse q) s, looping account password)
  run-reverse s account password mailer q e b f h =
      run-listed (reverse q) s account password mailer (e ∙ sym (reverse-reverse q)) b f h
