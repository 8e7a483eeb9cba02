-- ===== src/Auth/Session/Laws.antt =====
-- What holds of the session of frontend/src/features/auth/auth-provider.tsx in every order of events.
use dopacrm.Base.{◌≡◌, refl, true, false, none, some, ℕ, suc, ◌≤◌, arith}
use dopacrm.Auth.Types.{User}
use dopacrm.Auth.Session.{
  Session, mounted, refresh, fetched, leave, left, Step, login_refresh, fetch_done, logout_call,
  logout_done, Reach, here, next, Idle, still,
}

-- A provider that still loads waits for a `getMe`, and shows no user.
record IsSound (s : Session) : Type 0 where
  waits : s.is_loading ≡ true → 1 ≤ s.fetches
  hidden : s.is_loading ≡ true → s.user ≡ none

Step-IsSound : {s t : Session} → Step s t → IsSound s → IsSound t
unfolding refresh fetched leave left
Step-IsSound (login_refresh s) v = ground arith
Step-IsSound (fetch_done s r n e) v = ground arith
Step-IsSound (logout_call s) v = ground arith
Step-IsSound (logout_done s n e) v = ground arith

Reach-IsSound : {s : Session} → Reach mounted s → IsSound s
Reach-IsSound here = record { waits = λ h. omega arith; hidden = λ h. refl }
Reach-IsSound (next r st) = Step-IsSound st (Reach-IsSound r)

-- From the mount on, whatever the order in which calls start and come back, a session that still loads has a `getMe`
-- in flight and shows no user.
pub Reach-loading :
    {s : Session} → Reach mounted s → s.is_loading ≡ true → (1 ≤ s.fetches) × (s.user ≡ none)
Reach-loading run h = let sound = Reach-IsSound run in (sound.waits h, sound.hidden h)

Step-loaded : {s t : Session} → Step s t → s.is_loading ≡ false → t.is_loading ≡ false
unfolding refresh fetched leave left
Step-loaded (login_refresh s) h = h
Step-loaded (fetch_done s r n e) h = refl
Step-loaded (logout_call s) h = h
Step-loaded (logout_done s n e) h = h

-- Once the first `getMe` is back the loading state never returns.
pub Reach-loaded : {s t : Session} → Reach s t → s.is_loading ≡ false → t.is_loading ≡ false
Reach-loaded here h = h
Reach-loaded (next r st) h = Step-loaded st (Reach-loaded r h)

-- A session that has no user and no `getMe` in flight stays without a user, and without a `getMe`,
-- until somebody logs in.
pub Idle-user :
    {s t : Session} → Idle s t → s.user ≡ none → s.fetches ≡ 0 → (t.user ≡ none) × (t.fetches ≡ 0)
unfolding refresh fetched leave left
Idle-user (still s) h e = (h, e)
Idle-user (fetch_done r n i p) h e = absurd (omega (arith, (Idle-user i h e).1))
Idle-user (logout_call i) h e = Idle-user i h e
Idle-user (logout_done n i p) h e = (refl, (Idle-user i h e).1)

-- A `getMe` that was in flight when the logout came back brings the user back, on the login page: no
-- login takes part.
pub Idle-stale_user :
    (s : Session) (u : User) (m n : ℕ)
    → s.fetches ≡ suc m
    → s.logouts ≡ suc n
    → (t : Session) × Idle s t × (t.user ≡ some u) × (t.location ≡ some "/login")
unfolding fetched left
Idle-stale_user s u m n f l =
    (fetched (some u) m (left n s), fetch_done (some u) m (logout_done n (still s) l) f, refl, refl)
