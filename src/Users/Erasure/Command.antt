-- ===== src/Users/Erasure/Command.antt =====
-- apps/users/management/commands/delete_user_data.py: the erasure of one user from the command line.
use godown_rbac_system.Prelude.{
  ℕ, String, Bool, true, false, ◌||◌, [], ◌∷◌, Option, none, some, ◌≡◌, refl, ◌==◌, str_eq, select,
  all_distinct,
}
use godown_rbac_system.Orm.{Got, found, missing, several, get}
use godown_rbac_system.Models.{User, user_clash}
use godown_rbac_system.World.{
  World, Env, Action, Result, ok, pure, raise, reads, proceed, command_error, multiple_objects,
  ◌>>=◌,
}
use godown_rbac_system.Text.{strip}
use godown_rbac_system.Users.Erasure.{ErasureResult, anonymize, hard_delete}
use godown_rbac_system.Users.Erasure.Laws.{
  IsErased, IsGone, renamed, anonymize-IsErased, hard_delete-IsGone,
}

-- What the command comes to, where it raises nothing.
pub data CommandEnd : Type 0 where
  aborted : CommandEnd
  erased : ErasureResult → CommandEnd

-- `parse_key` reads a key; `none` is the ValueError of a text that is no number. `lower` is
-- `str.lower`, and `answer` what is typed at the prompt.
module _ (env : Env) (parse_key : String → Option ℕ) (lower : String → String) where
  abbrev found_or_error : Got User → Action User
  found_or_error (found user) = pure user
  found_or_error missing = raise command_error
  found_or_error several = raise multiple_objects

  abbrev user_with_id : Option ℕ → Action User
  user_with_id none = raise command_error
  user_with_id (some k) = reads (λ db. found_or_error (get env.users (λ u. u.id == k) db.users))

  unfoldable pub is_confirmed : Bool → String → Bool
  unfolding strip
  is_confirmed no_input answer = no_input || str_eq (lower (strip answer)) "yes"

  abbrev erase : Bool → User → Action ErasureResult
  erase true user = hard_delete env user
  erase false user = anonymize env user

  abbrev erase_if : Bool → Bool → User → Action CommandEnd
  erase_if false hard user = pure aborted
  erase_if true hard user = erase hard user >>= λ result. pure (erased result)

  -- `Command.handle`
  unfoldable pub delete_user_data : String → Bool → Bool → String → Action CommandEnd
  unfolding is_confirmed anonymize hard_delete
  delete_user_data user_id hard no_input answer = do
    user ← user_with_id (parse_key user_id)
    erase_if (is_confirmed no_input answer) hard user

  module _ (user_id : String) (no_input : Bool) (answer : String) (k : ℕ) (u : User) (w : World)
      (given : parse_key user_id ≡ some k)
      (listed : select (λ v. v.id == k) w.db.users ≡ u ∷ []) where
    -- What the call does, for a user whom it finds.
    abbrev pub Outcome : (Bool → Result CommandEnd × World) → Type 0
    Outcome run =
        (is_confirmed no_input answer ≡ false → (hard : Bool) → run hard ≡ (ok aborted, w))
        × (is_confirmed no_input answer ≡ true
            → (r : ErasureResult) × ((run true).0 ≡ ok (erased r))
              × IsGone env u w (ok r, (run true).1))
        × (is_confirmed no_input answer ≡ true
            → all_distinct user_clash (renamed env u w) ≡ true
            → (r : ErasureResult) × ((run false).0 ≡ ok (erased r))
              × IsErased env u w (ok r, (run false).1))

    reads_user :
        (hard : Bool)
        → delete_user_data user_id hard no_input answer w
          ≡ erase_if (is_confirmed no_input answer) hard u w
    unfolding delete_user_data
    reads_user hard = rw (given, env.users.filter_lem (λ v. v.id == k) w.db.users, listed) refl

    gone :
        (out : Result ErasureResult × World)
        → IsGone env u w out
        → (r : ErasureResult) × (out.0 ≡ ok r) × IsGone env u w (ok r, out.1)
    gone out h = (
      _,
      h.returned,
      record {
        returned = refl;
        users = h.users;
        notifications = h.notifications;
        tokens = h.tokens;
        blacklist = h.blacklist;
        memberships = h.memberships;
        assigned = h.assigned;
        logs = h.logs;
      },
    )

    erased_row :
        (out : Result ErasureResult × World)
        → IsErased env u w out
        → (r : ErasureResult) × (out.0 ≡ ok r) × IsErased env u w (ok r, out.1)
    erased_row out h = (
      _,
      h.returned,
      record {
        returned = refl;
        row = h.row;
        keys = h.keys;
        other_rows = h.other_rows;
        notifications = h.notifications;
        tokens = h.tokens;
        blacklist = h.blacklist;
        no_role = h.no_role;
        others = h.others;
      },
    )

    -- If the text is the key of exactly one user, then without `--no-input` and with an answer other
    -- than yes, but for case and blanks around it, the command changes nothing. Otherwise, with
    -- `--hard-delete` no row refers to the user afterwards; without it, if the placeholder name is
    -- nobody's, the user's row has the placeholder's name, address and password, blank names and no
    -- active account, no notification, token or role of the user is left, and nobody else's row or
    -- checks change.
    pub delete_user_data-Outcome : Outcome (λ hard. delete_user_data user_id hard no_input answer w)
    delete_user_data-Outcome = (
      (λ no hard. rw (reads_user hard, no) refl),
      (λ yes.
          let (r, done, is) = gone (hard_delete env u w) (hard_delete-IsGone env u w) in
          rw (reads_user true, yes, done, proceed) (r, refl, is)),
      (λ yes free.
          let (r, done, is) = erased_row (anonymize env u w) (anonymize-IsErased env u w free) in
          rw (reads_user false, yes, done, proceed) (r, refl, is)),
    )
