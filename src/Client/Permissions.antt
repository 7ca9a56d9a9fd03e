-- ===== src/Client/Permissions.antt =====
-- Whether the configured credentials can move bytes (src/discord_api.py: `check_reachability`,
-- `_check_dm`, `_check_channel`, `_channel_permissions`). An integer of permissions is its bits.
use discord_sftp_drive.Base.{
  ℕ, Str, str_eq, Bool, false, not, ◌&&◌, ◌||◌, Option, none, some, List, [], ◌∷◌, ◌==◌,
  if◌then◌else◌, is_empty, filter_by,
}

abbrev pub Bits : Type 0
Bits = ℕ → Bool

pub record Role : Type 0 where
  pub id : Str
  pub permissions : Bits

pub record Overwrite : Type 0 where
  pub id : Str
  pub allow : Bits
  pub deny : Bits

-- `roles` in the order in which the set is gone through.
pub record Member : Type 0 where
  pub roles : List Str
  pub user_id : Option Str

pub record Channel : Type 0 where
  pub guild_id : Option Str
  pub overwrites : List Overwrite

-- `1 << 3`, `1 << 10`, `1 << 11`, `1 << 15`, `1 << 16`
abbrev pub administrator : ℕ
administrator = 3

-- `_REQUIRED_PERMS`: View Channel, Send Messages, Attach Files, Read Message History
abbrev pub required_perms : List ℕ
required_perms = 10 ∷ 11 ∷ 15 ∷ 16 ∷ []

pub data Problem : Type 0 where
  token_rejected : Problem
  unexpected_me : ℕ → Problem
  dm_forbidden : Problem
  dm_malformed : Problem
  dm_unexpected : ℕ → Problem
  channel_hidden : ℕ → Problem
  channel_unexpected : ℕ → Problem
  missing_permissions : List ℕ → Problem

-- What the probes answer, each a status and a body; `none` is an `aiohttp.ClientError`.
pub record Replies : Type 0 where
  pub me : Option ℕ
  pub dm : Option (ℕ × Str)
  pub channel : Option (ℕ × Channel)
  pub member : Option (ℕ × Member)
  pub roles : Option (ℕ × List Role)

pub data Checked : Type 0 where
  problems : List Problem → Checked
  unreachable client_error : Checked

-- The entry of a dictionary that is made of a list: the last one with the key.
unfoldable pub role_of : Str → List Role → Option Role
role_of k [] = none
role_of k (r ∷ rs) = elim (role_of k rs) [
  | some s ↦ some s
  | none ↦ if str_eq r.id k then some r else none
]

unfoldable pub overwrite_of : Str → List Overwrite → Option Overwrite
overwrite_of k [] = none
overwrite_of k (o ∷ os) = elim (overwrite_of k os) [
  | some p ↦ some p
  | none ↦ if str_eq o.id k then some o else none
]

-- `perms |= bits` and `perms &= ~bits`
abbrev pub join : Bits → Bits → Bits
join p q i = p i || q i

abbrev pub without : Bits → Bits → Bits
without p q i = p i && not (q i)

unfoldable pub join_roles : List Role → List Str → Bits → Bits
join_roles roles [] perms = perms
join_roles roles (id ∷ ids) perms =
    join_roles roles ids
      (elim (role_of id roles) [ none ↦ perms | some r ↦ join perms r.permissions ])

-- `perms &= ~int(ow["deny"])`, `perms |= int(ow["allow"])`, if there is one
unfoldable pub apply_overwrite : Option Overwrite → Bits → Bits
apply_overwrite none perms = perms
apply_overwrite (some o) perms = join (without perms o.deny) o.allow

-- The loop over the overwrites of the roles: `role_deny`, `role_allow`.
unfoldable pub gather : List Overwrite → List Str → Bits → Bits → Bits × Bits
gather os [] deny allow = (deny, allow)
gather os (id ∷ ids) deny allow = elim (overwrite_of id os) [
  | none ↦ gather os ids deny allow
  | some o ↦ gather os ids (join deny o.deny) (join allow o.allow)
]

-- `overwrites.get(member.get("user", {}).get("id"))`
unfoldable pub member_overwrite : Option Str → List Overwrite → Option Overwrite
member_overwrite none os = none
member_overwrite (some id) os = overwrite_of id os

-- `_channel_permissions`, behind its probes
unfoldable pub overwritten : Str → Channel → Member → Bits → Bits
overwritten guild_id channel member perms =
    let os = channel.overwrites in
    let perms' = apply_overwrite (overwrite_of guild_id os) perms in
    let (role_deny, role_allow) = gather os member.roles (λ i. false) (λ i. false) in
    apply_overwrite (member_overwrite member.user_id os)
      (join (without perms' role_deny) role_allow)

unfoldable pub role_permissions : Role → List Role → Member → Bits
role_permissions everyone roles member = join_roles roles member.roles everyone.permissions

unfoldable pub effective_permissions : Str → Channel → Member → List Role → Option Bits
effective_permissions guild_id channel member roles = elim (role_of guild_id roles) [
  | none ↦ none
  | some everyone ↦
      let perms = role_permissions everyone roles member in
      if perms administrator then some perms else some (overwritten guild_id channel member perms)
]

-- `missing`
unfoldable pub missing_from : Bits → List ℕ
missing_from perms = filter_by (λ bit. not (perms bit)) required_perms

-- What the check says of the permissions; `None` is no failure.
unfoldable pub check_permissions : Option Bits → Checked
check_permissions none = problems []
check_permissions (some perms) =
    if perms administrator || is_empty (missing_from perms)
    then problems []
    else problems (missing_permissions (missing_from perms) ∷ [])

-- `_channel_permissions`, and what `_check_channel` makes of it
unfoldable pub check_guild : Str → Channel → Replies → Checked
check_guild guild_id channel replies = elim replies.member [
  | none ↦ client_error
  | some (status, member) ↦ if not (status == 200) then problems [] else elim replies.roles [
    | none ↦ client_error
    | some (status', roles) ↦
        if not (status' == 200)
        then problems []
        else check_permissions (effective_permissions guild_id channel member roles)
  ]
]

-- `_check_channel`
unfoldable pub check_channel : Replies → Checked
check_channel replies = elim replies.channel [
  | none ↦ client_error
  | some (status, channel) ↦
      if status == 403 || status == 404
      then problems (channel_hidden status ∷ [])
      else if not (status == 200)
      then problems (channel_unexpected status ∷ [])
      else elim channel.guild_id [
        | none ↦ problems []
        | some guild_id ↦ check_guild guild_id channel replies
      ]
]

-- `_check_dm`, with `dm_channel_id`
unfoldable pub check_dm : Replies → Option Str → Checked × Option Str
check_dm replies dm_channel = elim replies.dm [
  | none ↦ (client_error, dm_channel)
  | some (status, id) ↦
      if status == 200 || status == 201
      then (problems [], some id)
      else if status == 403
      then (problems (dm_forbidden ∷ []), dm_channel)
      else if status == 400
      then (problems (dm_malformed ∷ []), dm_channel)
      else (problems (dm_unexpected status ∷ []), dm_channel)
]

-- `check_reachability`; `dm_configured` is whether `DISCORD_USER_ID` is set.
unfoldable pub check_reachability : Bool → Replies → Option Str → Checked × Option Str
check_reachability dm_configured replies dm_channel = elim replies.me [
  | none ↦ (unreachable, dm_channel)
  | some status ↦
      if status == 401
      then (problems (token_rejected ∷ []), dm_channel)
      else if not (status == 200)
      then (problems (unexpected_me status ∷ []), dm_channel)
      else if dm_configured
      then check_dm replies dm_channel
      else (check_channel replies, dm_channel)
]
