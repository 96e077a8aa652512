-- ===== src/Users/Erasure/Laws.antt =====
-- What the erasure of a user leaves: a placeholder or nothing in the table of users, no role, no
-- notification and no token, and everybody else as before.
use godown_rbac_system.Prelude.{
  suc, ◌+◌, All, String, Bool, true, false, not, List, [], ◌∷◌, none, some, ◌≡◌, ◌≢◌, refl, ◌∙◌,
  inl, inr, map, ◌==◌, select, any, length, all_distinct, is_some_of, if◌then◌else◌, arith,
  Bool-cases, select_none,
}
use Prim.Native.String as Text
use godown_rbac_system.Orm.Laws.{any-delete, any-eq-false, select-delete, select_congr, any-update}
use godown_rbac_system.Models.{
  User, signed_in, Tenant, UserTenantRole, OutstandingToken, user_clash,
}
use godown_rbac_system.World.{World, Env, Result, ok}
use godown_rbac_system.Rbac.Queries.{in_tenant, get_role, has_role, has_permission}
use godown_rbac_system.Rbac.Checks.{joined, membership_of_lem, same_checks}
use godown_rbac_system.Users.Erasure.{
  names_one_of, ErasureResult, ErasureMode, anonymized, hard_deleted, set_identity, placeholder,
  anonymize, hard_delete,
}

deleted_gone :
    {Row : Type 0} (p : Row → Bool) (t : List Row) → any p (select (λ r. not (p r)) t) ≡ false
deleted_gone p t = any-delete p p t ∙ any-eq-false _ t (λ r. ground arith)

-- The row has the placeholder's name and address, that hash, and nothing else of a person.
pub record IsPlaceholder (tag hashed : String) (v : User) : Type 0 where
  pub username : v.username ≡ Text.◌++◌ "deleted_" tag
  pub email : v.email ≡ Text.◌++◌ (Text.◌++◌ "deleted_" tag) "@deleted.invalid"
  pub first_name : v.first_name ≡ ""
  pub last_name : v.last_name ≡ ""
  pub password : v.password ≡ hashed
  pub is_active : v.is_active ≡ false

module _ (env : Env) (user : User) (w : World) where
  abbrev pub erased_identity : User
  erased_identity =
      placeholder (env.short_hex (env.uuid4 w.ticks))
        (env.unusable_password (env.now (suc w.ticks))) user

  abbrev pub renamed : List User
  renamed = map (λ v. if v.id == user.id then set_identity erased_identity v else v) w.db.users

  abbrev pub own_tokens : List OutstandingToken
  own_tokens = select (λ t. is_some_of t.user user.id) w.db.tokens

  abbrev pub counted : ErasureMode → ErasureResult
  counted mode = record {
    user_id = user.id;
    mode = mode;
    notifications_deleted = length (select (λ n. n.user == user.id) w.db.notifications);
    roles_deleted = length (select (λ m. m.user == user.id) w.db.memberships);
    tokens_deleted = length own_tokens + length (select (names_one_of own_tokens) w.db.blacklist);
  }

  -- What is left of the user, and of the others.
  pub record IsErased (out : Result ErasureResult × World) : Type 0 where
    pub returned : out.0 ≡ ok (counted anonymized)
    pub row :
        All
          (λ v.
            (v.id == user.id) ≡ true
            → IsPlaceholder
                (env.short_hex (env.uuid4 w.ticks))
                (env.unusable_password (env.now (suc w.ticks)))
                v)
          out.1.db.users
    pub keys : map (λ v. v.id) out.1.db.users ≡ map (λ v. v.id) w.db.users
    pub other_rows :
        select (λ v. not (v.id == user.id)) out.1.db.users
        ≡ select (λ v. not (v.id == user.id)) w.db.users
    pub notifications : any (λ n. n.user == user.id) out.1.db.notifications ≡ false
    pub tokens : any (λ t. is_some_of t.user user.id) out.1.db.tokens ≡ false
    pub blacklist : any (names_one_of own_tokens) out.1.db.blacklist ≡ false
    pub no_role : (t : Tenant) → (get_role env user t out.1).0 ≡ ok none
    pub others :
        (u : User) (t : Tenant)
        → u.id ≢ user.id
        → ((slugs : List String)
            → has_role env (some (signed_in u)) t slugs out.1.db
              ≡ has_role env (some (signed_in u)) t slugs w.db)
          × ((code : String)
              → has_permission env (some (signed_in u)) t code out.1.db
                ≡ has_permission env (some (signed_in u)) t code w.db)

  abbrev rename : User → User
  rename v = if v.id == user.id then set_identity erased_identity v else v

  renamed_rows :
      (vs : List User)
      → All
          (λ v.
            (v.id == user.id) ≡ true
            → IsPlaceholder
                (env.short_hex (env.uuid4 w.ticks))
                (env.unusable_password (env.now (suc w.ticks)))
                v)
          (map rename vs)
  renamed_rows [] = tt
  renamed_rows (v ∷ vs) = elim (Bool-cases (v.id == user.id)) [
    | inl own ↦ rw own (
      (λ h. record {
        username = refl;
        email = refl;
        first_name = refl;
        last_name = refl;
        password = refl;
        is_active = refl;
      }),
      renamed_rows vs,
    )
    | inr other ↦ rw other ((λ h. cc), renamed_rows vs)
  ]

  renamed_keys : (vs : List User) → map (λ v. v.id) (map rename vs) ≡ map (λ v. v.id) vs
  renamed_keys [] = refl
  renamed_keys (v ∷ vs) = elim (Bool-cases (v.id == user.id)) [
    | inl own ↦ rw (own, renamed_keys vs) refl
    | inr other ↦ rw (other, renamed_keys vs) refl
  ]

  renamed_others :
      (vs : List User)
      → select (λ v. not (v.id == user.id)) (map rename vs) ≡ select (λ v. not (v.id == user.id)) vs
  renamed_others [] = refl
  renamed_others (v ∷ vs) = elim (Bool-cases (v.id == user.id)) [
    | inl own ↦ rw (own, own, renamed_others vs) refl
    | inr other ↦ rw (other, other, renamed_others vs) refl
  ]

  abbrev HasNone : World → Type 0
  HasNone v = v.db.memberships ≡ select (λ m. not (m.user == user.id)) w.db.memberships

  no_role_left : (v : World) → HasNone v → (t : Tenant) → (get_role env user t v).0 ≡ ok none
  unfolding get_role
  no_role_left v left t =
      let none_left : any (in_tenant user t) v.db.memberships ≡ false = rw left (
        any-delete (in_tenant user t) (λ m. m.user == user.id) w.db.memberships
        ∙ any-eq-false _ w.db.memberships (λ m. ground arith)) in
      let empty : joined env user t v.db ≡ [] =
        rw (select_none (in_tenant user t) v.db.memberships none_left) refl in
      rw (membership_of_lem env user t v.db, empty) refl

  same_rows :
      (ms : List UserTenantRole)
      → ms ≡ select (λ m. not (m.user == user.id)) w.db.memberships
      → (u : User) (t : Tenant) → u.id ≢ user.id
      → select (in_tenant u t) ms ≡ select (in_tenant u t) w.db.memberships
  same_rows ms left u t other = rw left (
      select-delete (in_tenant u t) (λ m. m.user == user.id) w.db.memberships
      ∙ select_congr _ (in_tenant u t) w.db.memberships (λ m. ground arith))

  -- If the placeholder name is nobody's, anonymizing returns how many rows it deleted, those of the
  -- blacklist that go with their tokens included; it leaves the placeholder's name, address and
  -- password, blank names and no active account in the user's row, all other rows of users as they
  -- were, and no notification, no token, blacklisted or not, and no role of the user; and it changes
  -- no answer of `has_role` or `has_permission` for anybody else.
  pub anonymize-IsErased : all_distinct user_clash renamed ≡ true → IsErased (anonymize env user w)
  unfolding anonymize
  anonymize-IsErased free =
      rw
        (
          env.tokens.filter_lem (λ t. is_some_of t.user user.id) w.db.tokens,
          env.tokens.delete_lem (λ t. is_some_of t.user user.id) w.db.tokens,
          env.blacklist.filter_lem (names_one_of own_tokens) w.db.blacklist,
          env.blacklist.delete_lem (names_one_of own_tokens) w.db.blacklist,
          env.notifications.filter_lem (λ n. n.user == user.id) w.db.notifications,
          env.notifications.delete_lem (λ n. n.user == user.id) w.db.notifications,
          env.memberships.filter_lem (λ m. m.user == user.id) w.db.memberships,
          env.memberships.delete_lem (λ m. m.user == user.id) w.db.memberships,
          env.users.update_unique_lem (λ v. v.id == user.id) (set_identity erased_identity)
              w.db.users,
          free,
        )
        (record {
          returned = refl;
          row = renamed_rows w.db.users;
          keys = renamed_keys w.db.users;
          other_rows = renamed_others w.db.users;
          notifications = deleted_gone (λ n. n.user == user.id) w.db.notifications;
          tokens = deleted_gone (λ t. is_some_of t.user user.id) w.db.tokens;
          blacklist = deleted_gone (names_one_of own_tokens) w.db.blacklist;
          no_role = no_role_left _ refl;
          others =
              λ u t other. same_checks env u t w.db _ (same_rows _ refl u t other) refl refl refl;
        })

  cleared_rows :
      {Row : Type 0} (p : Row → Bool) (f : Row → Row) (t : List Row)
      → ((r : Row) → p (f r) ≡ false)
      → any p (map (λ r. if p r then f r else r) t) ≡ false
  cleared_rows p f [] h = refl
  cleared_rows p f (r ∷ t) h = elim (Bool-cases (p r)) [
    | inl met ↦ rw (met, h r, cleared_rows p f t h) refl
    | inr missed ↦ rw (missed, missed, cleared_rows p f t h) refl
  ]

  -- What is left where the row itself is deleted.
  pub record IsGone (out : Result ErasureResult × World) : Type 0 where
    pub returned : out.0 ≡ ok (counted hard_deleted)
    pub users : any (λ v. v.id == user.id) out.1.db.users ≡ false
    pub notifications : any (λ n. n.user == user.id) out.1.db.notifications ≡ false
    pub tokens : any (λ t. is_some_of t.user user.id) out.1.db.tokens ≡ false
    pub blacklist : any (names_one_of own_tokens) out.1.db.blacklist ≡ false
    pub memberships : any (λ m. m.user == user.id) out.1.db.memberships ≡ false
    pub assigned : any (λ m. is_some_of m.assigned_by user.id) out.1.db.memberships ≡ false
    pub logs : any (λ a. is_some_of a.actor user.id) out.1.db.audit_logs ≡ false

  -- Deleting a user returns how many notifications, assignments and tokens it deleted, with the rows
  -- of the blacklist that go with the tokens, and then no row of the users, the notifications, the
  -- tokens, the blacklist, the assignments or the audit log refers to the user.
  pub hard_delete-IsGone : IsGone (hard_delete env user w)
  unfolding hard_delete
  hard_delete-IsGone =
      let kept = select (λ m. not (m.user == user.id)) w.db.memberships in
      rw
        (
          env.tokens.filter_lem (λ t. is_some_of t.user user.id) w.db.tokens,
          env.tokens.delete_lem (λ t. is_some_of t.user user.id) w.db.tokens,
          env.blacklist.filter_lem (names_one_of own_tokens) w.db.blacklist,
          env.blacklist.delete_lem (names_one_of own_tokens) w.db.blacklist,
          env.notifications.filter_lem (λ n. n.user == user.id) w.db.notifications,
          env.notifications.delete_lem (λ n. n.user == user.id) w.db.notifications,
          env.memberships.filter_lem (λ m. m.user == user.id) w.db.memberships,
          env.memberships.delete_lem (λ m. m.user == user.id) w.db.memberships,
          env.memberships.update_lem (λ m. is_some_of m.assigned_by user.id)
              (λ m. record m { assigned_by = none }) kept,
          env.audit_logs.update_lem (λ a. is_some_of a.actor user.id)
              (λ a. record a { actor = none }) w.db.audit_logs,
          env.users.delete_lem (λ v. v.id == user.id) w.db.users,
        )
        (record {
          returned = refl;
          users = deleted_gone (λ v. v.id == user.id) w.db.users;
          notifications = deleted_gone (λ n. n.user == user.id) w.db.notifications;
          tokens = deleted_gone (λ t. is_some_of t.user user.id) w.db.tokens;
          blacklist = deleted_gone (names_one_of own_tokens) w.db.blacklist;
          memberships =
              any-update (λ m. m.user == user.id) (λ m. is_some_of m.assigned_by user.id)
                (λ m. record m { assigned_by = none }) kept (λ m. refl)
              ∙ deleted_gone (λ m. m.user == user.id) w.db.memberships;
          assigned =
              cleared_rows (λ m. is_some_of m.assigned_by user.id)
                (λ m. record m { assigned_by = none }) kept (λ m. refl);
          logs =
              cleared_rows (λ a. is_some_of a.actor user.id) (λ a. record a { actor = none })
                w.db.audit_logs (λ a. refl);
        })
