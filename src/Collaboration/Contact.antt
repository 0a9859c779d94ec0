-- ===== src/Collaboration/Contact.antt =====
-- Exactly when one user may contact another across workspaces, or share a channel or a call.
use aloqa_claude.Prelude.{
  ℕ, ◌≡◌, refl, ◌↔◌, ◌⊎◌, inl, inr, Bool, true, false, Option, none, some, List, [], ◌∷◌,
  number_key, arith, ◌<◌, contains,
}
use aloqa_claude.Errors.{
  Error, Result, ok, err, ◌>>=◌, ◌>>◌, is_forbidden, as_app_error, Result-cases, forbidden_error,
}
use aloqa_claude.Entity.Roles.{WorkspaceRole, WorkspaceMember, role_key}
use aloqa_claude.Entity.Connections.{
  active, ContactPolicy, open_contact, role_based, WorkspaceConnectionPolicy, WorkspaceConnection,
  can_contact, can_contact_by, role_allowed,
}
use aloqa_claude.Collaboration.{
  Service, check, expired, active_connection, authorize_contact, can_contact_users,
  can_share_channel, can_share_call,
}

role_allowed-contains :
    (r : WorkspaceRole) (rs : List WorkspaceRole) → role_allowed r rs ≡ contains rs r
unfolding role_allowed
role_allowed-contains r [] = refl
role_allowed-contains r (x ∷ rs) =
    ground (arith, role_key.same_key_iff r x, role_key.same_key_iff x r, role_allowed-contains r rs)

-- What a policy lets two roles do: anything if it is open, and if it is role-based what its two
-- lists of roles allow. Every other policy allows nothing.
abbrev pub Allows : WorkspaceConnectionPolicy → WorkspaceRole → WorkspaceRole → Type 0
Allows p source target =
    (p.contact_policy ≡ open_contact)
    ⊎ ((p.contact_policy ≡ role_based)
        × (contains p.allowed_source_roles source ≡ true)
        × (contains p.allowed_target_roles target ≡ true))

can_contact_by-Allows :
    (c : ContactPolicy) (p : WorkspaceConnectionPolicy) (source target : WorkspaceRole)
    → (can_contact_by c p source target ≡ true) ↔ (
        (c ≡ open_contact)
        ⊎ ((c ≡ role_based)
            × (contains p.allowed_source_roles source ≡ true)
            × (contains p.allowed_target_roles target ≡ true)))
unfolding can_contact_by
can_contact_by-Allows open_contact p source target = (λ h. inl refl, λ h. refl)
can_contact_by-Allows role_based p source target = (
  λ h. inr (
    refl,
    ground (arith, role_allowed-contains source p.allowed_source_roles),
    ground (arith, role_allowed-contains target p.allowed_target_roles),
  ),
  λ h. ground (
    arith,
    role_allowed-contains source p.allowed_source_roles,
    role_allowed-contains target p.allowed_target_roles,
  ),
)
can_contact_by-Allows _ p source target = (λ h. cc, λ h. ground arith)

-- No time limit, or one that lies ahead.
abbrev pub Lasts : Option ℕ → ℕ → Type 0
Lasts none now = Unit
Lasts (some t) now = now < t

Lasts-expired : (t : Option ℕ) (now : ℕ) → expired t now ≡ false → Lasts t now
Lasts-expired none now h = tt
Lasts-expired (some t) now h = ground arith

expired-Lasts : (t : Option ℕ) (now : ℕ) → Lasts t now → expired t now ≡ false
expired-Lasts none now h = refl
expired-Lasts (some t) now h = ground arith

no_flag : Error
no_flag = forbidden_error "no flag is asked for"

module _ {S : Type 0} (s : Service S) (st : S) (now source target source_user target_user : ℕ) where
  -- The connection stands, its flag is set, both users are members, and the policy allows them.
  pub record Connected (flag : WorkspaceConnectionPolicy → Bool) : Type 0 where
    pub connection : WorkspaceConnection
    pub source_member : WorkspaceMember
    pub target_member : WorkspaceMember
    pub stands : s.collaboration.get_connection st source target ≡ ok connection
    pub is_active : connection.status ≡ active
    pub lasts : Lasts connection.policy.expires_at now
    pub flagged : flag connection.policy ≡ true
    pub source_joined : s.workspaces.get_member source source_user ≡ ok source_member
    pub target_joined : s.workspaces.get_member target target_user ≡ ok target_member
    pub allowed : Allows connection.policy source_member.role target_member.role

  -- The shape that the three checks share, by the flag that they ask the policy for.
  share_with : (WorkspaceConnectionPolicy → Bool) → Error → Result (Unit {0})
  share_with flag refusal = do
    connection ← active_connection s st now source target
    check (flag connection.policy) refusal
    authorize_contact s connection source target source_user target_user

  share_with-Connected :
      (flag : WorkspaceConnectionPolicy → Bool) (refusal : Error)
      → share_with flag refusal ≡ ok tt
      → Connected flag
  unfolding share_with active_connection authorize_contact can_contact
  share_with-Connected flag refusal h =
      elim (Result-cases (s.collaboration.get_connection st source target)) [
        | inl (e, q) ↦ absurd (ground (arith, q, h))
        | inr (c, q) ↦ elim (Result-cases (s.workspaces.get_member source source_user)) [
          | inl (e, q') ↦ absurd (ground (arith, q, q', h))
          | inr (m, q') ↦ elim (Result-cases (s.workspaces.get_member target target_user)) [
            | inl (e, q'') ↦ absurd (ground (arith, q, q', q'', h))
            | inr (m', q'') ↦ record {
              connection = c;
              source_member = m;
              target_member = m';
              stands = q;
              is_active = ground (arith, q, h);
              lasts = Lasts-expired c.policy.expires_at now (ground (arith, q, h));
              flagged = ground (arith, q, h);
              source_joined = q';
              target_joined = q'';
              allowed =
                  (can_contact_by-Allows c.policy.contact_policy c.policy m.role m'.role).0
                    (ground (arith, q, q', q'', h));
            }
          ]
        ]
      ]

  share_with_ok :
      (flag : WorkspaceConnectionPolicy → Bool) (refusal : Error)
      → Connected flag
      → share_with flag refusal ≡ ok tt
  unfolding share_with active_connection authorize_contact can_contact
  share_with_ok flag refusal k = ground (
    arith,
    k.stands,
    k.source_joined,
    k.target_joined,
    k.is_active,
    k.flagged,
    expired-Lasts k.connection.policy.expires_at now k.lasts,
    (can_contact_by-Allows k.connection.policy.contact_policy k.connection.policy
          k.source_member.role k.target_member.role).1
        k.allowed,
  )

  share_with_forbidden :
      (flag : WorkspaceConnectionPolicy → Bool) (refusal e : Error)
      → is_forbidden refusal ≡ true
      → share_with flag refusal ≡ err e
      → is_forbidden e ≡ true
  unfolding share_with active_connection authorize_contact is_forbidden as_app_error
  share_with_forbidden flag refusal e r h = ground (arith)

  contact_as_share :
      (refusal : Error)
      → can_contact_users s st now source target source_user target_user
        ≡ share_with (λ _. true) refusal
  unfolding can_contact_users share_with
  contact_as_share refusal = refl

  -- Each of the three checks passes exactly when an active, unexpired connection stands from the
  -- first workspace to the second, its policy shares what is asked for, both users are members of
  -- their workspaces, and the policy allows their roles.
  pub sharing_exact :
      ((can_contact_users s st now source target source_user target_user ≡ ok tt)
        ↔ Connected (λ _. true))
      × ((can_share_channel s st now source target source_user target_user ≡ ok tt)
          ↔ Connected (λ p. p.shared_channels))
      × ((can_share_call s st now source target source_user target_user ≡ ok tt)
          ↔ Connected (λ p. p.shared_calls))
  unfolding can_contact_users can_share_channel can_share_call share_with
  sharing_exact = (
    (share_with-Connected (λ _. true) no_flag, share_with_ok (λ _. true) no_flag),
    (share_with-Connected (λ p. p.shared_channels) _, share_with_ok (λ p. p.shared_channels) _),
    (share_with-Connected (λ p. p.shared_calls) _, share_with_ok (λ p. p.shared_calls) _),
  )

  -- Whatever goes wrong, a failing store included, sharing a channel or a call is refused with a
  -- forbidden error.
  pub sharing_refusals_forbidden :
      (e : Error)
      → (can_share_channel s st now source target source_user target_user ≡ err e
          → is_forbidden e ≡ true)
        × (can_share_call s st now source target source_user target_user ≡ err e
            → is_forbidden e ≡ true)
  unfolding can_share_channel can_share_call share_with is_forbidden as_app_error
  sharing_refusals_forbidden e = (
    share_with_forbidden (λ p. p.shared_channels)
        (forbidden_error "workspace connection does not allow shared channels") e refl,
    share_with_forbidden (λ p. p.shared_calls)
        (forbidden_error "workspace connection does not allow shared calls") e refl,
  )
