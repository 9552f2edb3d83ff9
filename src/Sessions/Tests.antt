-- ===== src/Sessions/Tests.antt =====
-- Sessions of one user on a server that never fails.
use mlakp_backend.Base.{
  some, if◌then◌else◌, ◌==◌, Bool-cases, inl, inr, false, ◌≡◌, refl, subst, ℕ, ok, err, none, [],
  ◌∷◌, some_injective,
}
use mlakp_backend.Text.{Text, lit, text_eq, trim_space, is_empty}
use mlakp_backend.Store.{read_clock, Host, World, SessionRow, exec, draw}
use mlakp_backend.Samples.{sample_host, sample_user, steady, scan_first, same_text, small_db}
use mlakp_backend.Sql.Rows.{find_row, update_rows, any_row}
use mlakp_backend.Sql.Keys.{distinct}
use mlakp_backend.Sql.Sessions.{
  create_auth_session, rotate_refresh_token, revoke_auth_session, revoke_all_user_sessions,
}
use mlakp_backend.Sessions.{Session, session_from_sqlc, invalid_session}
use mlakp_backend.Sessions.Repository as Repository
use mlakp_backend.Sessions.Service.{
  create, new_refresh_token, refresh, revoke, revoke_all_for_user, validate_access_session,
}
use mlakp_backend.Sessions.Steps.{nothing, then_one, DrawsGood, serve, validate_session}
use mlakp_backend.Sessions.Laws.{HasSessionKeys}
use mlakp_backend.Sessions.Safety.{refresh_once, IsOther}
use mlakp_backend.Sessions.RoundTrip.{create-refresh}
use mlakp_backend.Sessions.Revoked.{revoke_final, revoke_all_final}

abbrev one_char : ℕ → Text
one_char n = n ∷ []

abbrev sample_session : SessionRow
sample_session = record {
  id = b'S';
  user_id = b'U';
  refresh_token_hash = lit "K";
  created_at = 0;
  expires_at = 1000;
  revoked_at = none;
  last_used_at = none;
}

abbrev start : World
start = record {
  db = record small_db { users = sample_user ∷ []; sessions = sample_session ∷ [] };
  tick = 10;
  notices = [];
}

start-HasSessionKeys : HasSessionKeys start.db
unfolding distinct any_row
start-HasSessionKeys = record { ids = refl; hashes = refl }

abbrev renewed : World
renewed = (refresh steady sample_host scan_first one_char same_text 50 (lit "K") start).1

IsOther-hashes :
    DrawsGood scan_first one_char same_text 50
      (IsOther scan_first one_char same_text 50 (lit "K"))
      sample_host
unfolding text_eq trim_space
IsOther-hashes k n e =
    subst (λ m. IsOther scan_first one_char same_text 50 (lit "K") (m ∷ [])) (some_injective e) refl

refresh_once_example : ¬ (
    (refresh steady sample_host scan_first one_char same_text 50 (lit "K") renewed).0
    ≡ ok (session_from_sqlc sample_session, lit "K"))
unfolding refresh new_refresh_token Repository.rotate rotate_refresh_token exec draw find_row
    update_rows distinct any_row text_eq session_from_sqlc trim_space
refresh_once_example =
    refresh_once scan_first one_char same_text 50 steady sample_host (lit "K") start
      start-HasSessionKeys IsOther-hashes refl nothing steady sample_host
      (session_from_sqlc sample_session, lit "K") IsOther-hashes

abbrev closed : World
closed = (revoke steady sample_host scan_first one_char same_text 50 (lit "S") start).1

revoke_final_example :
    (validate_access_session steady sample_host scan_first one_char same_text 50 (lit "S") (
      serve scan_first one_char same_text 50 steady sample_host
        (validate_session (lit "S"))
        closed)).0
    ≡ err invalid_session
unfolding revoke Repository.revoke revoke_auth_session exec update_rows any_row trim_space
revoke_final_example =
    revoke_final scan_first one_char same_text 50 steady sample_host (lit "S") start refl refl refl
      (then_one steady sample_host (validate_session (lit "S")) (λ k n e. tt) nothing) steady
      sample_host

abbrev logged_out : World
logged_out =
    (revoke_all_for_user steady sample_host scan_first one_char same_text 50 (lit "U") start).1

revoke_all_final_example :
    (validate_access_session steady sample_host scan_first one_char same_text 50
      (lit "S")
      logged_out).0
    ≡ err invalid_session
unfolding revoke_all_for_user Repository.revoke_all_for_user revoke_all_user_sessions exec
    update_rows find_row trim_space
revoke_all_final_example =
    revoke_all_final scan_first one_char same_text 50 steady sample_host (lit "U") (lit "S") start
      refl refl start-HasSessionKeys (sample_session, refl, refl) refl nothing steady sample_host

abbrev two_tokens : ℕ → Text
two_tokens n = if n == 7 then lit "p" else lit "q"

tokens_plain :
    (n : ℕ) → (trim_space (two_tokens n) ≡ two_tokens n) × (is_empty (two_tokens n) ≡ false)
unfolding trim_space
tokens_plain n = elim (Bool-cases (n == 7)) [
  | inl e ↦ rw e (refl, refl)
  | inr e ↦ rw e (refl, refl)
]

abbrev other_host : Host
other_host = record { clock = λ n. n; random = λ n. some 8 }

abbrev opened : World
opened = (create steady sample_host scan_first two_tokens same_text 50 (lit "U") start).1

abbrev opened_session : Session
opened_session = session_from_sqlc (record sample_session {
  id = 12;
  refresh_token_hash = lit "p";
  created_at = 12;
  expires_at = 61;
})

create-refresh_example :
    (next : Session) × ((refresh steady other_host scan_first two_tokens same_text 50
        (lit "p")
        opened).0
      ≡ ok (next, lit "q"))
    × (next.id ≡ opened_session.id)
    × (next.user_id ≡ opened_session.user_id)
    × (next.expires_at ≡ opened_session.expires_at)
unfolding create new_refresh_token Repository.create create_auth_session exec draw read_clock
    any_row text_eq trim_space session_from_sqlc
create-refresh_example =
    create-refresh steady steady sample_host other_host scan_first two_tokens same_text 50 (lit "U")
      start 8 tokens_plain start-HasSessionKeys refl refl refl refl refl
