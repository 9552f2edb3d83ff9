-- ===== src/Otp/Tests.antt =====
-- One-time passwords on a server that never fails, with a transparent hash.
use mlakp_backend.Base.{refl, ℕ, Option, some, none, [], ◌∷◌}
use mlakp_backend.Text.{Text, lit, text_eq}
use mlakp_backend.Store.{World, VerificationRow, Uuid, exec, read_clock}
use mlakp_backend.Samples.{sample_host, steady, scan_first, small_db}
use mlakp_backend.Sql.Rows.{any_row, update_rows}
use mlakp_backend.Sql.Keys.{distinct}
use mlakp_backend.Sql.Verifications as Sql
use mlakp_backend.Sql.Verifications.{get_active_by_email_and_purpose, latest}
use mlakp_backend.Otp.{Config}
use mlakp_backend.Otp.Repository as Repository
use mlakp_backend.Otp.Repository.{scan_verification}
use mlakp_backend.Otp.Service as Service
use mlakp_backend.Otp.Counts.{IsBounded}
use mlakp_backend.Otp.Steps.{Request, verify, serve, nothing, then_one, attempts-IsBounded}
use mlakp_backend.Otp.Sound.{Accepted, verify_otp_sound}

abbrev one_char : Uuid → Text
one_char u = u ∷ []

abbrev plain_hash : ℕ → Text → Option Text
plain_hash salt t = some t

abbrev settings : Config
settings = record {
  expiry_minutes = 10;
  request_cooldown = 60;
  max_attempts = 5;
  requests_per_window = 3;
  window_mins = 10;
}

abbrev sent : VerificationRow
sent = record {
  id = b'V';
  user_id = none;
  email = lit "u@x";
  purpose = lit "signup";
  otp_hash = lit "123456";
  expires_at = 1000;
  verified_at = none;
  attempt_count = 4;
  request_count = 1;
  last_request_at = 0;
  created_at = 0;
}

abbrev start : World
start = record { db = record small_db { verifications = sent ∷ [] }; tick = 10; notices = [] }

start-IsBounded : IsBounded settings.max_attempts start.db
unfolding distinct any_row
start-IsBounded = record { keys = refl; within = refl }

abbrev wrong_guess : Request
wrong_guess = verify (lit "u@x") (lit "signup") (lit "654321")

attempts-IsBounded_example :
    IsBounded 5
      (serve one_char scan_first plain_hash text_eq settings steady sample_host wrong_guess
        start).db
attempts-IsBounded_example =
    attempts-IsBounded one_char scan_first plain_hash text_eq settings (λ u. refl) start-IsBounded
      (then_one steady sample_host wrong_guess nothing)

verify_otp_sound_example :
    (r : VerificationRow) × Accepted start.db
      (Service.verify_otp steady sample_host one_char scan_first plain_hash text_eq settings
        (lit "u@x")
        (lit "signup")
        (lit "123456")
        start).1.db
      sample_host
      text_eq
      5
      (lit "u@x")
      (lit "signup")
      (lit "123456")
      r
unfolding Service.verify_otp Service.verify Service.check_otp Service.accept_otp
    Repository.get_active Repository.mark_verified get_active_by_email_and_purpose latest
    Sql.mark_verified exec read_clock text_eq scan_verification update_rows
verify_otp_sound_example =
    verify_otp_sound steady sample_host one_char scan_first plain_hash text_eq settings (λ u. refl)
      (lit "u@x") (lit "signup") (lit "123456") start refl
