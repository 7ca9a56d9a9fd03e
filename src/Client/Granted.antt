-- ===== src/Client/Granted.antt =====
-- The permissions of a channel as one decides them (src/discord_api.py: `_channel_permissions`).
use discord_sftp_drive.Base.{
  ℕ, ◌≡◌, refl, inl, inr, Str, Bool, true, false, not, ◌&&◌, ◌||◌, Option, none, some, List, [],
  ◌∷◌, if◌then◌else◌, is_empty, arith, Bool-cases, Option-cases,
}
use discord_sftp_drive.Client.Permissions.{
  Bits, Role, Overwrite, Member, Channel, administrator, missing_permissions, missing_from, Replies,
  problems, role_of, overwrite_of, join, without, join_roles, apply_overwrite, gather,
  member_overwrite, overwritten, role_permissions, effective_permissions, check_permissions,
  check_guild,
}

-- Whether an overwrite, or that of one of the roles, allows or denies a permission.
unfoldable pub allows : Option Overwrite → ℕ → Bool
allows none i = false
allows (some o) i = o.allow i

unfoldable pub denies : Option Overwrite → ℕ → Bool
denies none i = false
denies (some o) i = o.deny i

unfoldable pub grants : Option Role → ℕ → Bool
grants none i = false
grants (some r) i = r.permissions i

unfoldable pub is_true_of_one : (Str → Bool) → List Str → Bool
is_true_of_one p [] = false
is_true_of_one p (id ∷ ids) = p id || is_true_of_one p ids

-- What the role of everyone or one of the member's grants.
unfoldable pub is_granted : Role → List Role → Member → ℕ → Bool
is_granted everyone roles member i =
    everyone.permissions i || is_true_of_one (λ id. grants (role_of id roles) i) member.roles

-- The first of these that speaks of the permission decides: the member's overwrite, those of the
-- member's roles, that for everyone, and the roles themselves; and one that allows it goes before
-- one that denies it.
unfoldable pub is_allowed : Str → Channel → Role → List Role → Member → ℕ → Bool
is_allowed guild_id channel everyone roles member i =
    let os = channel.overwrites in
    if allows (member_overwrite member.user_id os) i
    then true
    else if denies (member_overwrite member.user_id os) i
    then false
    else if is_true_of_one (λ id. allows (overwrite_of id os) i) member.roles
    then true
    else if is_true_of_one (λ id. denies (overwrite_of id os) i) member.roles
    then false
    else if allows (overwrite_of guild_id os) i
    then true
    else if denies (overwrite_of guild_id os) i
    then false
    else is_granted everyone roles member i

join_roles-bit :
    (roles : List Role) (ids : List Str) (perms : Bits) (i : ℕ)
    → join_roles roles ids perms i
      ≡ (perms i || is_true_of_one (λ id. grants (role_of id roles) i) ids)
unfolding join_roles is_true_of_one grants
join_roles-bit roles [] perms i = ground arith
join_roles-bit roles (id ∷ ids) perms i = elim (Option-cases (role_of id roles)) [
  | inl absent ↦ rw (join_roles, absent) (join_roles-bit roles ids perms i)
  | inr (r, found) ↦
      rw (join_roles, found) (ground (arith, join_roles-bit roles ids (join perms r.permissions) i))
]

apply_overwrite-bit :
    (o : Option Overwrite) (perms : Bits) (i : ℕ)
    → apply_overwrite o perms i ≡ (allows o i || (perms i && not (denies o i)))
unfolding apply_overwrite allows denies
apply_overwrite-bit none perms i = ground arith
apply_overwrite-bit (some o) perms i = ground arith

gather-bits :
    (os : List Overwrite) (ids : List Str) (deny allow : Bits) (i : ℕ)
    → ((gather os ids deny allow).0 i
        ≡ (deny i || is_true_of_one (λ id. denies (overwrite_of id os) i) ids))
      × ((gather os ids deny allow).1 i
          ≡ (allow i || is_true_of_one (λ id. allows (overwrite_of id os) i) ids))
unfolding gather is_true_of_one allows denies
gather-bits os [] deny allow i = (ground arith, ground arith)
gather-bits os (id ∷ ids) deny allow i = elim (Option-cases (overwrite_of id os)) [
  | inl absent ↦ rw (gather, absent) (gather-bits os ids deny allow i)
  | inr (o, found) ↦
      rw (gather, found)
        (let (less, more) = gather-bits os ids (join deny o.deny) (join allow o.allow) i in
          (ground arith, ground arith))
]

role_permissions-granted :
    (everyone : Role) (roles : List Role) (member : Member) (i : ℕ)
    → role_permissions everyone roles member i ≡ is_granted everyone roles member i
unfolding role_permissions is_granted
role_permissions-granted everyone roles member i =
    join_roles-bit roles member.roles everyone.permissions i

overwritten-allowed :
    (guild_id : Str) (channel : Channel) (everyone : Role) (roles : List Role) (member : Member)
    → (i : ℕ)
    → overwritten guild_id channel member (role_permissions everyone roles member) i
      ≡ is_allowed guild_id channel everyone roles member i
unfolding overwritten role_permissions is_allowed is_granted
overwritten-allowed guild_id channel everyone roles member i =
    let os = channel.overwrites in
    let none_yet : Bits = λ i. false in
    let base = role_permissions everyone roles member in
    let (less, more) = gather-bits os member.roles none_yet none_yet i in
    ground (
      arith,
      less,
      more,
      join_roles-bit roles member.roles everyone.permissions i,
      apply_overwrite-bit (overwrite_of guild_id os) base i,
      apply_overwrite-bit (member_overwrite member.user_id os)
          (join
            (without (apply_overwrite (overwrite_of guild_id os) base)
              (gather os member.roles none_yet none_yet).0)
            (gather os member.roles none_yet none_yet).1)
          i,
    )

-- On the bot's roles and the channel's overwrites, all of which could be read, the check at startup
-- finds no problem if the bot is an administrator, by its roles or by what an overwrite allows, or if
-- it is allowed all that it needs, as one decides it for each permission by itself. In any other case
-- it reports just those that are not allowed.
pub check_guild-reports :
    (guild_id : Str) (channel : Channel) (replies : Replies) (member : Member) (roles : List Role)
    → (everyone : Role) → replies.member ≡ some (200, member)
    → replies.roles ≡ some (200, roles)
    → role_of guild_id roles ≡ some everyone
    → check_guild guild_id channel replies ≡ (
        let missing = missing_from (is_allowed guild_id channel everyone roles member) in
        if (is_granted everyone roles member administrator
            || is_allowed guild_id channel everyone roles member administrator)
          || is_empty missing
        then problems []
        else problems (missing_permissions missing ∷ []))
unfolding check_guild effective_permissions check_permissions
check_guild-reports guild_id channel replies member roles everyone read read' found =
    let roles_of = role_permissions-granted everyone roles member administrator in
    let same : overwritten guild_id channel member (role_permissions everyone roles member)
        ≡ is_allowed guild_id channel everyone roles member =
      λ j i. overwritten-allowed guild_id channel everyone roles member i j in
    elim (Bool-cases (role_permissions everyone roles member administrator)) [
      | inl admin ↦
          let granted : is_granted everyone roles member administrator ≡ true = cc in
          rw
            (
              check_guild, read, read', effective_permissions, found, admin, check_permissions,
              admin, granted,
            )
            refl
      | inr other ↦
          let granted : is_granted everyone roles member administrator ≡ false = cc in
          rw
            (
              check_guild, read, read', effective_permissions, found, other, check_permissions,
              same, granted,
            )
            refl
    ]
