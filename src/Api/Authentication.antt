-- ===== src/Api/Authentication.antt =====
-- backend/app/services/supabase_auth.py and backend/app/api/dependencies/auth.py: the user of a
-- request is the one that the authentication service names for its bearer token.
use agentic_trading_platform.Prelude.{
  ℕ, Bool, not, ◌||◌, ◌==◌, Option, none, some, String, ◌<>◌, ◌⊎◌, inl, inr, if◌then◌else◌,
}
use agentic_trading_platform.Api.Session.{Reply, returns, raises}

pub record AuthenticatedUser : Type 0 where
  pub id : ℕ
  pub email : Option String
  pub role : String

-- A response; `user` is its JSON as a user, or nothing if that raises a ValueError or a
-- ValidationError.
pub record Response : Type 0 where
  pub status_code : ℕ
  pub is_success : Bool
  pub user : Option AuthenticatedUser

-- The client of the library is a function of the address and the two headers; it answers nothing
-- where it raises an HTTPError.
pub record SupabaseAuthClient : Type 0 where
  pub http_get : String → String → String → Option Response
  pub user_url : String
  pub api_key : String

pub data AuthError : Type 0 where
  invalid_access_token auth_service_unavailable : AuthError

abbrev pub validated : Option AuthenticatedUser → AuthError ⊎ AuthenticatedUser
validated none = inl auth_service_unavailable
validated (some user) = inr user

abbrev pub read_user : Option Response → AuthError ⊎ AuthenticatedUser
read_user none = inl auth_service_unavailable
read_user (some response) =
    if response.status_code == 401 || response.status_code == 403
    then inl invalid_access_token
    else if not response.is_success
    then inl auth_service_unavailable
    else validated response.user

unfoldable pub get_user : SupabaseAuthClient → String → AuthError ⊎ AuthenticatedUser
get_user self access_token =
    read_user (self.http_get self.user_url self.api_key ("Bearer " <> access_token))

abbrev pub unauthorized_exception : {A : Type 0} → Reply A
unauthorized_exception = raises 401 "Invalid or missing authentication credentials."

abbrev pub current : AuthError ⊎ AuthenticatedUser → Reply AuthenticatedUser
current (inl invalid_access_token) = unauthorized_exception
current (inl auth_service_unavailable) =
    raises 503 "Authentication service is temporarily unavailable."
current (inr user) = returns user

unfoldable pub get_current_user : Option String → SupabaseAuthClient → Reply AuthenticatedUser
get_current_user none auth_client = unauthorized_exception
get_current_user (some credentials) auth_client = current (get_user auth_client credentials)
