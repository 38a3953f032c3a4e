-- ===== src/Server/Auth.antt =====
-- crates/collecta-server/src/auth.rs: roles, the gates before the handlers, and login. Tokens and
-- password hashes are those of third-party crates, taken as parameters.
use collecta.Prelude.{String, Bool, true, false, Option, none, some, str_eq, find, if◌then◌else◌}
use collecta.Values.{Uuid}
use collecta.Server.{UserRecord, Db}

pub data Role : Type 0 where
  admin editor viewer : Role

-- `Role::parse`
unfoldable pub parse_role : String → Option Role
parse_role s =
    if str_eq s "admin"
    then some admin
    else if str_eq s "editor"
    then some editor
    else if str_eq s "viewer"
    then some viewer
    else none

unfoldable pub can_write : Role → Bool
can_write admin = true
can_write editor = true
can_write viewer = false

unfoldable pub is_admin : Role → Bool
is_admin admin = true
is_admin _ = false

pub record Caller : Type 0 where
  pub id : Uuid
  pub role : Role

pub data Status : Type 0 where
  bad_request unauthorized forbidden not_found conflict unprocessable internal payload_too_large :
      Status
  service_unavailable bad_gateway : Status

-- What a handler answers: a value, or an error with its message.
pub data Reply (A : Type 0) : Type 0 where
  ok : A → Reply A
  fail : Status → String → Reply A

infixl 5 ◌>>=◌ ◌>>◌
abbrev pub ◌>>=◌ : {A B : Type 0} → Reply A → (A → Reply B) → Reply B
ok a >>= f = f a
fail s m >>= f = fail s m

abbrev pub ◌>>◌ : {B : Type 0} → Reply Unit → Reply B → Reply B
m >> k = m >>= λ _. k

-- `ok_or`
abbrev pub or_fail : {A : Type 0} → Option A → Status → String → Reply A
or_fail none s m = fail s m
or_fail (some a) s m = ok a

-- What `verify_token` says of a token: its subject and its role claim.
pub record Verified : Type 0 where
  pub sub : String
  pub role : Option String

-- The crates that check tokens and passwords and read ids.
pub record Crypto : Type 0 where
  pub verify_token : String → Option Verified
  pub parse_uuid : String → Option Uuid
  pub verify_password : (password hash : String) → Bool
  pub create_jwt : UserRecord → Option String

-- `Store::get_user_by_email`
unfoldable pub get_user_by_email : String → Db → Option UserRecord
get_user_by_email email db = find (λ u. str_eq u.email email) db.users

module _ (crypto : Crypto) where
  -- `require_auth`: the caller of a bearer token.
  unfoldable pub require_auth : Option String → Reply Caller
  unfolding parse_role
  require_auth header = do
    token ← or_fail header unauthorized ""
    verified ← or_fail (crypto.verify_token token) unauthorized ""
    role_name ← or_fail verified.role unauthorized ""
    id ← or_fail (crypto.parse_uuid verified.sub) unauthorized ""
    role ← or_fail (parse_role role_name) forbidden ""
    ok (record { id = id; role = role })

  -- The outcome of the lookup and the password check. The check against a dummy hash for an unknown
  -- user changes no answer.
  abbrev checked : String → Option UserRecord → Option UserRecord
  checked password none = none
  checked password (some u) =
      if crypto.verify_password password u.password_hash then some u else none

  -- `verify_basic`
  unfoldable pub verify_basic : (email password : String) → Db → Option UserRecord
  unfolding get_user_by_email
  verify_basic email password db = checked password (get_user_by_email email db)

  -- `login`
  unfoldable pub login : (email password : String) → Db → Reply String
  unfolding get_user_by_email
  login email password db = do
    user ← or_fail (checked password (get_user_by_email email db)) unauthorized ""
    or_fail (crypto.create_jwt user) internal ""

-- `require_write`
unfoldable pub require_write : Caller → Reply Unit
unfolding can_write
require_write caller = if can_write caller.role then ok tt else fail forbidden ""

-- `require_admin`
unfoldable pub require_admin : Caller → Reply Unit
unfolding is_admin
require_admin caller = if is_admin caller.role then ok tt else fail forbidden ""
