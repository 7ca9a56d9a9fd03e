-- ===== src/Web/Guarded.antt =====
-- The protected interface is reached with a live session only (src/web.py: `auth_middleware`).
use discord_sftp_drive.Base.{
  ℕ, ◌≡◌, ◌⊎◌, inl, inr, Str, str_eq_iff, true, false, Option, some, [], arith, lookup, or_else,
  Bool-cases, Option-cases,
}
use discord_sftp_drive.Sessions
use discord_sftp_drive.Sessions.{WebSession, SessionStore, is_expired}
use discord_sftp_drive.Vfs.Move.{starts_with}
use discord_sftp_drive.Web.Gate.{
  Request, reaches, api_prefix, is_public, is_mutating, check_csrf, auth_middleware,
}

-- The session that a request is let through for: it is stored under the request's cookie, it has
-- not expired, and a request that changes something carries its token.
abbrev pub IsAuthorized : Request → ℕ → SessionStore → Option WebSession → Type 0
IsAuthorized r now store o =
    (s : WebSession) × (lookup (or_else r.session_cookie []) store.sessions ≡ some s)
    × (is_expired s now ≡ false)
    × (o ≡ some (record s { last_seen = now }))
    × ((is_mutating r.method ≡ false) ⊎ (or_else r.csrf_header [] ≡ s.csrf_token))

get-live :
    (id : Str) (now : ℕ) (store : SessionStore) (s : WebSession)
    → (Sessions.get id now store).0 ≡ some s
    → (s0 : WebSession) × (lookup id store.sessions ≡ some s0)
      × (is_expired s0 now ≡ false)
      × (s ≡ record s0 { last_seen = now })
unfolding Sessions.get
get-live id now store s h = elim (Option-cases (lookup id store.sessions)) [
  | inl absent ↦ absurd (ground arith)
  | inr (s0, found) ↦ (s0, found, ground arith, ground arith)
]

-- A request under "/api/", other than a login, a question for the session, or a health check, that
-- reaches its handler carries the cookie of a session that is stored and has not expired, and, if
-- its method may change something, the token of that session; its handler gets that session.
pub auth_middleware-IsAuthorized :
    (r : Request) (now : ℕ) (store : SessionStore) (o : Option WebSession)
    → is_public r.path ≡ false
    → starts_with api_prefix r.path ≡ true
    → (auth_middleware r now store).0 ≡ reaches o
    → IsAuthorized r now store o
unfolding auth_middleware check_csrf
auth_middleware-IsAuthorized r now store o private api h =
    let id = or_else r.session_cookie [] in
    elim (Option-cases (Sessions.get id now store).0) [
      | inl nobody ↦ absurd (ground arith)
      | inr (s, somebody) ↦
          let (s0, found, live, touched) = get-live id now store s somebody in
          (
            s0,
            found,
            live,
            ground arith,
            elim (Bool-cases (is_mutating r.method)) [
              | inr reads ↦ inl reads
              | inl writes ↦
                  inr ((str_eq_iff (or_else r.csrf_header []) s0.csrf_token).0 (ground arith))
            ],
          )
    ]
