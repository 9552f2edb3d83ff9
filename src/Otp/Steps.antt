-- ===== src/Otp/Steps.antt =====
-- The requests to the service of one-time passwords, and the number of attempts over sequences of them.
use mlakp_backend.Base.{◌≡◌, ℕ, Option, some, Bool}
use mlakp_backend.Text.{Text}
use mlakp_backend.Store.{Server, Host, World, Uuid}
use mlakp_backend.Otp.{Config}
use mlakp_backend.Otp.Service as Service
use mlakp_backend.Otp.Counts.{IsBounded}
use mlakp_backend.Otp.Keeps.{
  create-Leads, check_cooldown-Leads, verify_otp-Leads, verify_for_user-Leads,
}

pub data Request : Type 0 where
  create : Text → Text → Option Text → Request
  verify : Text → Text → Text → Request
  verify_for_user : Text → Text → Text → Text → Request
  check_cooldown : Text → Text → Request

module _ (uuid_text : Uuid → Text) (text_uuid : Text → Option Uuid)
    (bcrypt_hash : ℕ → Text → Option Text) (bcrypt_compare : Text → Text → Bool)
    (config : Config) where
  -- The world after a request, with a server and a host of its own.
  unfoldable pub serve : Server → Host → Request → World → World
  serve s host (create email purpose user_id) w =
      (Service.create_verification s host uuid_text text_uuid bcrypt_hash bcrypt_compare config
        email purpose user_id w).1
  serve s host (verify email purpose otp) w =
      (Service.verify_otp s host uuid_text text_uuid bcrypt_hash bcrypt_compare config email purpose
        otp w).1
  serve s host (verify_for_user email purpose otp user_id) w =
      (Service.verify_otp_for_user s host uuid_text text_uuid bcrypt_hash bcrypt_compare config
        email purpose otp user_id w).1
  serve s host (check_cooldown email purpose) w =
      (Service.check_cooldown s host uuid_text text_uuid bcrypt_hash bcrypt_compare config email
        purpose w).1

  -- The worlds that a sequence of requests leads to.
  pub data Reaches (start : World) : World → Type 0 where
    nothing : Reaches start start
    then_one :
        (s : Server) (host : Host) (r : Request) {w : World}
        → Reaches start w
        → Reaches start (serve s host r w)

  module _ (reads_back : (u : Uuid) → text_uuid (uuid_text u) ≡ some u) (s : Server)
      (host : Host) where
    serve-IsBounded :
        (r : Request) (w : World)
        → IsBounded config.max_attempts w.db
        → IsBounded config.max_attempts (serve s host r w).db
    unfolding serve
    serve-IsBounded (create email purpose user_id) w v =
        (create-Leads uuid_text text_uuid bcrypt_hash bcrypt_compare config s host email purpose
            user_id).at
          w v
    serve-IsBounded (verify email purpose otp) w v =
        (verify_otp-Leads uuid_text text_uuid bcrypt_hash bcrypt_compare config reads_back s host
            email purpose otp).at
          w v
    serve-IsBounded (verify_for_user email purpose otp user_id) w v =
        (verify_for_user-Leads uuid_text text_uuid bcrypt_hash bcrypt_compare config reads_back s
            host email purpose otp user_id).at
          w v
    serve-IsBounded (check_cooldown email purpose) w v =
        (check_cooldown-Leads uuid_text text_uuid bcrypt_hash bcrypt_compare config s host email
            purpose).at
          w v

  -- The count of attempts of a verification never exceeds `MaxAttempts`: where the requests run one
  -- after another, every sequence of them leads from tables with unique ids and no count above the
  -- limit to such tables, whatever the server does and whatever errors there are. The ids that the
  -- driver gives out as texts are taken to read back.
  pub attempts-IsBounded :
      {start w : World}
      → ((u : Uuid) → text_uuid (uuid_text u) ≡ some u)
      → IsBounded config.max_attempts start.db
      → Reaches start w
      → IsBounded config.max_attempts w.db
  attempts-IsBounded reads_back v nothing = v
  attempts-IsBounded reads_back v (then_one s host r {w} before) =
      serve-IsBounded reads_back s host r w (attempts-IsBounded reads_back v before)
