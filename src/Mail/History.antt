-- ===== src/Mail/History.antt =====
-- Where the mails are in every history of the mail queue of src/utils/mail.rs.
use chimes_utils.Base.{tally, ◌+◌, ◌≡◌, Bool}
use chimes_utils.Mail.{EmailBody, Lettre}
use chimes_utils.Mail.Accounting.{tally_workers, tally_server}
use chimes_utils.Mail.Steps.{State}

module _ (L : Lettre) where
  -- Queued, finished, lost, in the hands of a worker, or taken away by an overlap; those that an overlap
  -- took twice are in two places.
  abbrev pub Accounted : (EmailBody → Bool) → State L → Type 0
  Accounted p s =
      tally p s.accepted + tally p s.doubled
      ≡ tally_server L p s.server + tally_workers L p s.workers + tally p s.dropped
