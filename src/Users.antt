-- ===== src/Users.antt =====
-- internal/users: accounts with a name, a unique user name, a unique address and a password. The data
-- of user.go, the methods of the repository and of the service over it.
pub mod Validation
pub mod Repository
pub mod Service
pub mod Keys
pub mod Login
pub mod RoundTrip
pub mod Steps
mod Tests
use mlakp_backend.Base.{ℕ, Bool, Option}
use mlakp_backend.Text.{Text}
use mlakp_backend.Store.{Time, UserRow}
use mlakp_backend.Uuid.{format_uuid}

-- The error values of the package; `other` is any error passed on from the driver or from the hasher
-- of passwords.
pub data UserError : Type 0 where
  invalid_name invalid_username invalid_email invalid_password not_found email_conflict
        username_conflict other :
      UserError

-- `User`
pub record User : Type 0 where
  pub id : Text
  pub name : Text
  pub username : Text
  pub email : Text
  pub email_verified_at : Option Time
  pub verification_deadline : Option Time
  pub created_at : Time
  pub updated_at : Time

-- `PrivateUser`
pub record PrivateUser : Type 0 where
  pub user : User
  pub password_hash : Text

-- `VerificationStatus`
pub record VerificationStatus : Type 0 where
  pub is_verified : Bool
  pub days_remaining : ℕ
  pub deadline : Option Time
  pub status : Text

-- `publicUserFromFields`
unfoldable pub public_user_from_fields : UserRow → User
public_user_from_fields u = record {
  id = format_uuid u.id;
  name = u.name;
  username = u.username;
  email = u.email;
  email_verified_at = u.email_verified_at;
  verification_deadline = u.verification_deadline;
  created_at = u.created_at;
  updated_at = u.updated_at;
}

-- `privateUserFromFields`
unfoldable pub private_user_from_fields : UserRow → PrivateUser
private_user_from_fields u = record {
  user = public_user_from_fields u;
  password_hash = u.password_hash;
}
