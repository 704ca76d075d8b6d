-- ===== src/Mail/Accounting.antt =====
-- Histories of the mail queue of src/utils/mail.rs, with any number of workers: each queued mail is
-- in exactly one place, as long as no two accesses of the queue overlap.
use chimes_utils.Base.{
  ℕ, ◌+◌, ◌≡◌, refl, ap, ◌∙◌, ◌⊎◌, inl, inr, Bool, List, [], ◌∷◌, ◌++◌, if◌then◌else◌, Bool-cases,
  Option-cases, arith, tally, tally-append,
}
use chimes_utils.Base.Text.{Text}
use chimes_utils.Mail.{
  EmailBody, Lettre, Sending, skipped, handed, panicked, Worker, created, looping, holding, ended,
  Server, send, look, next_mail, work,
}
use chimes_utils.Mail.Pop.{empty, popped, pop-cases}

pub tally-last :
    (p : EmailBody → Bool) (es rest : List EmailBody) (last : EmailBody)
    → es ≡ rest ++ (last ∷ [])
    → tally p es ≡ tally p (last ∷ rest)
tally-last p es rest last h = ap (λ l. tally p l) h ∙ tally-append p rest (last ∷ []) ∙ omega arith

module _ (L : Lettre) where
  abbrev pub tally_finished : (EmailBody → Bool) → List (EmailBody × Sending L) → ℕ
  tally_finished p [] = 0
  tally_finished p ((e, _) ∷ es) = (if p e then 1 else 0) + tally_finished p es

  tally_finished-append :
      (p : EmailBody → Bool) (xs ys : List (EmailBody × Sending L))
      → tally_finished p (xs ++ ys) ≡ tally_finished p xs + tally_finished p ys
  tally_finished-append p [] ys = omega arith
  tally_finished-append p ((e, _) ∷ xs) ys = omega (arith, tally_finished-append p xs ys)

  pub Sending-cases :
      (r : Sending L) → (r ≡ skipped) ⊎ (((m : L.Message) × (r ≡ handed m)) ⊎ (r ≡ panicked))
  Sending-cases skipped = inl refl
  Sending-cases (handed m) = inr (inl (m, refl))
  Sending-cases panicked = inr (inr refl)

  -- In the hands of a worker.
  abbrev pub tally_held : (EmailBody → Bool) → Worker L → ℕ
  tally_held p created = 0
  tally_held p (looping _ _) = 0
  tally_held p (holding _ _ _ e) = if p e then 1 else 0
  tally_held p ended = 0

  abbrev pub tally_workers : (EmailBody → Bool) → List (Worker L) → ℕ
  tally_workers p [] = 0
  tally_workers p (w ∷ ws) = tally_held p w + tally_workers p ws

  pub tally_workers-append :
      (p : EmailBody → Bool) (xs ys : List (Worker L))
      → tally_workers p (xs ++ ys) ≡ tally_workers p xs + tally_workers p ys
  tally_workers-append p [] ys = omega arith
  tally_workers-append p (w ∷ xs) ys = omega (arith, tally_workers-append p xs ys)

  -- Queued, finished or lost.
  abbrev pub tally_server : (EmailBody → Bool) → Server L → ℕ
  tally_server p s = tally_finished p s.finished + tally p s.lost + tally p s.msq.queue

  abbrev pub tally_both : (EmailBody → Bool) → Server L × Worker L → ℕ
  tally_both p (s, w) = tally_server p s + tally_held p w

  tally-look :
      (p : EmailBody → Bool) (account password : Text) (s : Server L)
      → tally_both p (look L s.msq.queue account password s) ≡ tally_server p s
  unfolding look
  tally-look p account password s = elim (Bool-cases s.msq.started) [
    | inl b ↦ elim (pop-cases s.msq.queue) [
      | empty _ n ↦ rw (look, b, n) (omega arith)
      | popped last rest h n ↦
          let t = tally-last p s.msq.queue rest last h in
          elim (Option-cases (L.starttls_relay s.msq.client_conf.smtp_server account password)) [
            | inl f ↦ rw (look, b, n, f) (omega (arith, t, tally-append p s.lost (last ∷ [])))
            | inr (mailer, f) ↦ rw (look, b, n, f) (omega (arith, t))
          ]
    ]
    | inr b ↦ rw (look, b) (omega arith)
  ]

  tally-next_mail :
      (p : EmailBody → Bool) (account password : Text) (mailer : L.SmtpTransport) (s : Server L)
      → tally_both p (next_mail L s.msq.queue account password mailer s) ≡ tally_server p s
  unfolding next_mail
  tally-next_mail p account password mailer s = elim (pop-cases s.msq.queue) [
    | empty _ n ↦ rw (next_mail, n) (omega arith)
    | popped last rest h n ↦ rw (next_mail, n) (omega (arith, tally-last p s.msq.queue rest last h))
  ]

  -- The mail of a worker is finished, and the worker goes on.
  tally-finish :
      (p : EmailBody → Bool) (account password : Text) (mailer : L.SmtpTransport) (s : Server L)
      (email : EmailBody) (r : Sending L)
      → tally_both p (
          next_mail L s.msq.queue account password mailer
            (record s { finished = s.finished ++ (email, r) ∷ [] }))
        ≡ tally_server p s + (if p email then 1 else 0)
  tally-finish p account password mailer s email r =
      tally-next_mail p account password mailer
        (record s { finished = s.finished ++ (email, r) ∷ [] })
      ∙ omega (arith, tally_finished-append p s.finished ((email, r) ∷ []))

  -- A step of a worker moves its mail, and makes and drops none.
  pub tally-work :
      (p : EmailBody → Bool) (w : Worker L) (s : Server L)
      → tally_both p (work L s.msq.queue w s) ≡ tally_server p s + tally_held p w
  unfolding work
  tally-work p created s = omega arith
  tally-work p (looping account password) s = tally-look p account password s ∙ omega arith
  tally-work p (holding account password mailer email) s = elim (Sending-cases (send L email)) [
    | inl e ↦ rw (work, e) (tally-finish p account password mailer s email skipped)
    | inr (inl (m, e)) ↦ rw (work, e) (tally-finish p account password mailer s email (handed m))
    | inr (inr e) ↦ rw (work, e) (omega (arith, tally-append p s.lost (email ∷ [])))
  ]
  tally-work p ended s = omega arith
