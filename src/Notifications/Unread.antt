-- ===== src/Notifications/Unread.antt =====
-- Which notifications are unread after `mark_read`, and for whom.
use godown_rbac_system.Prelude.{
  ℕ, Bool, true, false, not, ◌&&◌, List, [], ◌∷◌, ◌≡◌, ◌≢◌, refl, sym, ap, ◌∙◌, inl, inr, map, ◌==◌,
  select, any, arith, Bool-cases, if◌then◌else◌, and-true, ==_iff, select_none,
}
use godown_rbac_system.Orm.Laws.{select_hit, select_all, any_congr, any-select, any-and_comm}
use godown_rbac_system.Orm.Distinct.{Distinct, select_self}
use godown_rbac_system.Models.{User, signed_in, Notification, notification_clash}
use godown_rbac_system.World.{World, Env, Result, ok}
use godown_rbac_system.Http.{Request, failure}
use godown_rbac_system.Common.Errors.{respond}
use godown_rbac_system.Notifications.{is_unread, is_entry, mark_read, list_unread, patch_read}

and_false : (b : Bool) → (b && false) ≡ false
and_false b = ground arith

-- Marking rows as read takes them out of what is unread.
select-marked :
    (user : User) (k : ℕ) (t : List Notification)
    → select (is_unread user) (map (λ m. if m.id == k then record m { is_read = true } else m) t)
      ≡ select (λ m. not (m.id == k)) (select (is_unread user) t)
select-marked user k [] = refl
select-marked user k (n ∷ t) =
    let later = select-marked user k t in
    elim (Bool-cases (n.id == k)) [
      | inl met ↦ elim (Bool-cases (is_unread user n)) [
        | inl listed ↦ rw (met, and_false (n.user == user.id), listed, met) later
        | inr unlisted ↦ rw (met, and_false (n.user == user.id), unlisted) later
      ]
      | inr missed ↦ elim (Bool-cases (is_unread user n)) [
        | inl listed ↦ rw (missed, listed, missed) (ap (λ l. n ∷ l) later)
        | inr unlisted ↦ rw (missed, unlisted) later
      ]
    ]

none_of_key :
    (user : User) (k : ℕ) (t : List Notification) (n : Notification)
    → select (λ m. m.id == k) t ≡ n ∷ []
    → is_unread user n ≡ false
    → select (λ m. not (m.id == k)) (select (is_unread user) t) ≡ select (is_unread user) t
none_of_key user k t n listed unseen =
    select_all (λ m. not (m.id == k)) (select (is_unread user) t)
      (any_congr (λ m. not (not (m.id == k))) (λ m. m.id == k) (select (is_unread user) t)
          (λ m. ground arith)
        ∙ any-select (λ m. m.id == k) (is_unread user) t
        ∙ any-and_comm (is_unread user) (λ m. m.id == k) t
        ∙ sym (any-select (is_unread user) (λ m. m.id == k) t)
        ∙ ap (any (is_unread user)) listed
        ∙ rw unseen refl)

module _ (env : Env) (user : User) (k : ℕ) (w : World) where
  -- The unread lists, as they are before or with the entry taken out.
  pub record IsRead (out : Result Notification × World) : Type 0 where
    pub entry : Notification
    pub returned : out.0 ≡ ok entry
    pub id : entry.id ≡ k
    pub is_read : entry.is_read ≡ true
    pub own :
        list_unread env user out.1.db ≡ select (λ m. not (m.id == k)) (list_unread env user w.db)
    pub others : (u : User) → u.id ≢ user.id → list_unread env u out.1.db ≡ list_unread env u w.db

module _ (env : Env) (user : User) (k : ℕ) (n : Notification) (w : World)
    (d : Distinct notification_clash w.db.notifications)
    (listed : select (is_entry k user) w.db.notifications ≡ n ∷ []) where
  hit : (n.id ≡ k) × ((n.user == user.id) ≡ true)
  hit =
      let (same, own) =
        and-true _ _ (select_hit (is_entry k user) w.db.notifications n [] listed) in
      ((==_iff n.id k).0 same, own)

  by_key : select (λ m. m.id == k) w.db.notifications ≡ n ∷ []
  by_key =
      select_self notification_clash (is_entry k user) (λ m. m.id == k) w.db.notifications n
        (λ a b p q. ground arith) ((==_iff n.id k).1 hit.0) d listed

  not_theirs : (u : User) → u.id ≢ user.id → is_unread u n ≡ false
  not_theirs u other = let mine = hit.1 in ground arith

  abbrev marked : List Notification
  marked = map (λ m. if m.id == k then record m { is_read = true } else m) w.db.notifications

  before-IsRead : n.is_read ≡ true → IsRead env user k w (mark_read env k user w)
  unfolding mark_read list_unread
  before-IsRead seen =
      rw (env.notifications.filter_lem (is_entry k user) w.db.notifications, listed, seen)
        (record {
          entry = record n { is_read = true };
          returned = refl;
          id = hit.0;
          is_read = refl;
          own = rw (env.notifications.filter_lem (is_unread user) w.db.notifications) (
              sym (
                none_of_key user k w.db.notifications n by_key
                  (rw seen (and_false (n.user == user.id)))));
          others = λ u other. refl;
        })

  now-IsRead : n.is_read ≡ false → IsRead env user k w (mark_read env k user w)
  unfolding mark_read list_unread
  now-IsRead unseen =
      rw
        (
          env.notifications.filter_lem (is_entry k user) w.db.notifications,
          listed,
          unseen,
          hit.0,
          env.notifications.update_lem (λ m. m.id == k) (λ m. record m { is_read = true })
              w.db.notifications,
        )
        (record {
          entry = record n { id = k; is_read = true };
          returned = refl;
          id = refl;
          is_read = refl;
          own =
              rw
                (
                  env.notifications.filter_lem (is_unread user) w.db.notifications,
                  env.notifications.filter_lem (is_unread user) marked,
                )
                (select-marked user k w.db.notifications);
          others = λ u other.
              rw
                (
                  env.notifications.filter_lem (is_unread u) w.db.notifications,
                  env.notifications.filter_lem (is_unread u) marked,
                )
                (select-marked u k w.db.notifications
                  ∙ none_of_key u k w.db.notifications n by_key (not_theirs u other));
        })

  -- If the keys are distinct and the user has the notification, marking it as read returns it as
  -- read, takes exactly this entry out of the user's unread notifications, and leaves those of
  -- everybody else as they were.
  pub mark_read-IsRead : IsRead env user k w (mark_read env k user w)
  mark_read-IsRead = elim (Bool-cases n.is_read) [
    | inl seen ↦ before-IsRead seen
    | inr unseen ↦ now-IsRead unseen
  ]

-- A signed-in user who marks a notification that is not there or not theirs is answered with 404,
-- and nothing changes.
pub patch_read_foreign :
    (env : Env) (request : Request) (user : User) (k : ℕ) (w : World)
    → request.user ≡ signed_in user
    → any (is_entry k user) w.db.notifications ≡ false
    → respond (patch_read env request k) w ≡ (failure 404, w)
unfolding respond patch_read mark_read
patch_read_foreign env request user k w signed foreign =
    rw
      (
        signed,
        env.notifications.filter_lem (is_entry k user) w.db.notifications,
        select_none (is_entry k user) w.db.notifications foreign,
      )
      refl
