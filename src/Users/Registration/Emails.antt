-- ===== src/Users/Registration/Emails.antt =====
-- What `create_user` leaves: the tables as they were, or one new user whose address nobody has.
use godown_rbac_system.Prelude.{
  suc, String, Bool, true, false, not, some, ◌≡◌, refl, ap, ◌∙◌, inl, inr, str_eq, eq_iff, any,
  arith, Bool-cases, if◌then◌else◌,
}
use godown_rbac_system.Orm.{Inserts, exists}
use godown_rbac_system.Orm.Laws.{exists_lem, any_congr}
use godown_rbac_system.Orm.Distinct.{Distinct, Distinct-insert}
use godown_rbac_system.Models.{User, user_clash}
use godown_rbac_system.World.{
  World, Env, Exc, Result, ok, err, validation, conflict, weak_password, email_required,
  username_required, password_required, username_taken, email_taken,
}
use godown_rbac_system.Text.{strip}
use godown_rbac_system.Users.Registration.{
  CreateUserInput, UserApi, has_at, full_clean, save_user, save_or_conflict, register_user,
  create_user,
}

abbrev pub same_email : User → User → Bool
same_email u v = str_eq u.email v.email

-- The two ways in which a registration ends.
pub data Outcome (w : World) (email : String) (out : Result User × World) : Type 0 where
  refused : (e : Exc) → out.0 ≡ err e → out.1.db ≡ w.db → Outcome w email out
  created :
      (u : User)
      → out.0 ≡ ok u
      → u.email ≡ email
      → any (same_email u) w.db.users ≡ false
      → Inserts u w.db.users (some out.1.db.users)
      → Outcome w email out

guarded :
    {w : World} {email : String} (b : Bool) (e : Exc) (out : Result User × World)
    → Outcome w email out
    → Outcome w email (if b then (err e, w) else out)
guarded true e out h = refused e refl refl
guarded false e out h = h

module _ (env : Env) (api : UserApi) (fields : CreateUserInput) (username email : String)
    (w : World) where
  abbrev fresh_user : User
  fresh_user = record {
    id = env.uuid4 (suc w.ticks);
    username = api.normalize_username username;
    email = email;
    first_name = strip fields.first_name;
    last_name = strip fields.last_name;
    password = api.make_password (env.now w.ticks) fields.password;
    is_active = true;
    is_superuser = false;
  }

  abbrev raw_user : User
  raw_user = record fresh_user { username = username }

  abbrev same_name : User → Bool
  same_name u = str_eq u.username (api.normalize_username username)

  saved :
      any (same_email fresh_user) w.db.users ≡ false
      → Outcome w email (save_or_conflict env api fields username email w)
  unfolding save_user full_clean
  saved free = elim (Bool-cases (api.is_clean raw_user)) [
    | inr unclean ↦ rw unclean (refused _ refl refl)
    | inl clean ↦ elim (Bool-cases (any same_name w.db.users)) [
      | inl taken ↦
          rw (clean, exists_lem env.users same_name w.db.users, taken) (refused _ refl refl)
      | inr unused ↦ elim (Bool-cases (any (user_clash fresh_user) w.db.users)) [
        | inl clash ↦
            rw
              (
                clean,
                exists_lem env.users same_name w.db.users,
                unused,
                env.users.create_clash fresh_user w.db.users clash,
              )
              (refused _ refl refl)
        | inr fresh ↦
            let (xs, ys, before, e) = env.users.create_fresh fresh_user w.db.users fresh in
            rw (clean, exists_lem env.users same_name w.db.users, unused, e)
              (created fresh_user refl refl free (xs, ys, before, refl))
      ]
    ]
  ]

  registered : Outcome w email (register_user env api fields username email w)
  unfolding register_user
  registered = guarded (not (has_at email)) (validation email_required) _ (
      guarded (str_eq username "") (validation username_required) _ (
        guarded (str_eq fields.password "") (validation password_required) _ (
          guarded (api.is_weak fields.password username email) (validation weak_password) _ (
            guarded (exists env.users (λ u. str_eq u.username username) w.db.users)
              (conflict username_taken) _ last))))
    where
      last : Outcome w email (
          if exists env.users (λ u. str_eq u.email email) w.db.users
          then (err (conflict email_taken), w)
          else save_or_conflict env api fields username email w)
      last = elim (Bool-cases (any (λ u. str_eq u.email email) w.db.users)) [
        | inl taken ↦
            rw (exists_lem env.users (λ u. str_eq u.email email) w.db.users, taken)
              (refused _ refl refl)
        | inr free ↦
            rw (exists_lem env.users (λ u. str_eq u.email email) w.db.users, free)
              (saved (
                any_congr (same_email fresh_user) (λ u. str_eq u.email email) w.db.users
                  (λ u. ground (arith, eq_iff email u.email, eq_iff u.email email))
                ∙ free))
      ]

module _ (env : Env) (api : UserApi) (fields : CreateUserInput) (w : World) where
  -- A registration raises and leaves the tables as they were, or returns a new user with the address
  -- that was given, stripped and in lower case, which no user had.
  pub create_user-Outcome :
      Outcome w (api.lower (strip fields.email)) (create_user env api fields w)
  unfolding create_user
  create_user-Outcome =
      registered env api fields (strip fields.username) (api.lower (strip fields.email)) w

  emails_kept :
      {email : String} (out : Result User × World)
      → Outcome w email out
      → Distinct same_email w.db.users
      → Distinct same_email out.1.db.users
  emails_kept out (refused e h same) d = rw (ap (λ db. db.users) same) d
  emails_kept out (created u h own free ins) d =
      Distinct-insert same_email
        (λ a b. ground (arith, eq_iff a.email b.email, eq_iff b.email a.email)) u w.db.users
        out.1.db.users ins free d

  -- If no two users have one address, no two have one after a registration, although no unique
  -- constraint of the database sees to it.
  pub create_user-Distinct :
      Distinct same_email w.db.users → Distinct same_email (create_user env api fields w).1.db.users
  create_user-Distinct d = emails_kept (create_user env api fields w) create_user-Outcome d
