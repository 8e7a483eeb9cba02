-- ===== src/Auth/Session.antt =====
-- The session that frontend/src/features/auth/auth-provider.tsx keeps, as a state machine: `getMe` and
-- the logout call are in flight between the event that starts one and the event that ends it.
pub mod Laws
use dopacrm.Base.{
  ◌≡◌, Bool, true, false, String, Option, none, some, List, [], ℕ, suc, get_or, is_some,
}
use dopacrm.Auth.Types.{User}
use dopacrm.Auth.Permissions.{TenantFeatures}

-- `useState` of the provider, with the calls that have not come back and the last `navigate`.
pub record Session : Type 0 where
  pub user : Option User
  pub is_loading : Bool
  pub fetches : ℕ
  pub logouts : ℕ
  pub location : Option String

-- The provider as it mounts: the effect has called `fetchUser`.
abbrev pub mounted : Session
mounted = record { user = none; is_loading = true; fetches = 1; logouts = 0; location = none }

abbrev pub tenant_features : Session → TenantFeatures
tenant_features s = elim s.user [ none ↦ [] | some u ↦ u.tenant_features_enabled ]

abbrev pub is_authenticated : Session → Bool
is_authenticated s = is_some s.user

-- `loginRefresh`: one more `getMe` is on its way.
unfoldable pub refresh : Session → Session
refresh s = record s { fetches = suc s.fetches }

-- One `getMe` comes back, with the user or, as `none`, with any error.
unfoldable pub fetched : Option User → ℕ → Session → Session
fetched result left s = record s { user = result; is_loading = false; fetches = left }

-- `logout` calls the server.
unfoldable pub leave : Session → Session
leave s = record s { logouts = suc s.logouts }

-- The call comes back, whether it failed or not.
unfoldable pub left : ℕ → Session → Session
left rest s = record s { user = none; logouts = rest; location = some "/login" }

-- What may happen next.
pub data Step : Session → Session → Type 0 where
  login_refresh : (s : Session) → Step s (refresh s)
  fetch_done :
      (s : Session) (result : Option User) (rest : ℕ)
      → s.fetches ≡ suc rest
      → Step s (fetched result rest s)
  logout_call : (s : Session) → Step s (leave s)
  logout_done : (s : Session) (rest : ℕ) → s.logouts ≡ suc rest → Step s (left rest s)

pub data Reach (s : Session) : Session → Type 0 where
  here : Reach s s
  next : {t u : Session} → Reach s t → Step t u → Reach s u

-- The steps that no login takes part in.
pub data Idle : Session → Session → Type 0 where
  still : (s : Session) → Idle s s
  fetch_done :
      {s t : Session} (result : Option User) (rest : ℕ)
      → Idle s t
      → t.fetches ≡ suc rest
      → Idle s (fetched result rest t)
  logout_call : {s t : Session} → Idle s t → Idle s (leave t)
  logout_done : {s t : Session} (rest : ℕ) → Idle s t → t.logouts ≡ suc rest → Idle s (left rest t)
