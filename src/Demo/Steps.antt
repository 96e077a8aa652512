-- ===== src/Demo/Steps.antt =====
-- What every step of the seeding keeps, whether it returns or raises: the memberships are those of
-- the start, no role goes, and the keys still to be drawn are in no role.
use godown_rbac_system.Prelude.{
  suc, ◌≤◌, Bool, true, List, [], ◌∷◌, Option, none, some, ◌≡◌, ◌⊎◌, refl, sym, inl, inr, select,
  arith,
}
use godown_rbac_system.Orm.{Objects, one, get}
use godown_rbac_system.Orm.Laws.{select_hit}
use godown_rbac_system.World.{
  World, Db, Env, Result, Exc, ok, err, Action, pure, reads, optional, or_raise, modify, draw_uuid,
  read_clock, proceed, integrity_error, multiple_objects, ◌>>=◌,
}
use godown_rbac_system.Rbac.Writes.Defaults.{IsReady}
use godown_rbac_system.Rbac.Writes.Growth.{Grows, Grows-trans}

-- Nothing is raised but what the database refuses and a `get` that finds several rows.
abbrev pub IsDbError : Exc → Type 0
IsDbError e = (e ≡ integrity_error) ⊎ (e ≡ multiple_objects)

-- A result that is a return has `Q`, and nothing but such an error is raised.
abbrev pub Ends : {A : Type 0} → (A → Type 0) → Result A → Type 0
Ends Q (ok a) = Q a
Ends Q (err e) = IsDbError e

abbrev pub Any : {A : Type 0} → A → Type 0
Any a = Unit

-- The row, if any, passes the test.
abbrev pub IsHit : {Row : Type 0} → (Row → Bool) → Option Row → Type 0
IsHit p none = Unit
IsHit p (some r) = p r ≡ true

module _ (env : Env) (start : World) where
  pub record IsUnder (w : World) : Type 0 where
    pub ready : IsReady env w
    pub grows : Grows start w

  -- A step that touches neither roles nor memberships.
  pub quiet :
      (w w' : World)
      → w'.db.roles ≡ w.db.roles
      → w'.db.memberships ≡ w.db.memberships
      → w.ticks ≤ w'.ticks
      → IsUnder w
      → IsUnder w'
  quiet w w' roles memberships later h = record {
    ready = record {
      distinct = rw roles h.ready.distinct;
      unused = λ k from. rw roles (h.ready.unused k (ground arith));
    };
    grows =
        Grows-trans start w w' h.grows
          (record { memberships = memberships; more = λ p e. rw roles e; ticks = later });
  }

  pub record Keeps {A : Type 0} (Q : A → Type 0) (m : Action A) : Type 0 where
    pub keeps : (w : World) → IsUnder w → IsUnder (m w).1
    pub ends : (w : World) → IsUnder w → Ends Q (m w).0

  pub Keeps-pure : {A : Type 0} (Q : A → Type 0) (a : A) → Q a → Keeps Q (pure a)
  Keeps-pure Q a q = record { keeps = λ w h. h; ends = λ w h. q }

  Ends-proceed :
      {A B : Type 0} (P : A → Type 0) (Q : B → Type 0) (f : A → Action B)
      → ((a : A) → P a → Keeps Q (f a))
      → (r : Result A × World) → Ends P r.0
      → IsUnder r.1
      → Ends Q (proceed f r).0
  Ends-proceed P Q f k (ok a, w) h under = (k a h).ends w under
  Ends-proceed P Q f k (err e, w) h under = h

  Keeps-proceed :
      {A B : Type 0} (P : A → Type 0) (Q : B → Type 0) (f : A → Action B)
      → ((a : A) → P a → Keeps Q (f a))
      → (r : Result A × World) → Ends P r.0
      → IsUnder r.1
      → IsUnder (proceed f r).1
  Keeps-proceed P Q f k (ok a, w) h under = (k a h).keeps w under
  Keeps-proceed P Q f k (err e, w) h under = under

  pub Keeps-bind :
      {A B : Type 0} {P : A → Type 0} {Q : B → Type 0} (m : Action A) (f : A → Action B)
      → Keeps P m
      → ((a : A) → P a → Keeps Q (f a))
      → Keeps Q (m >>= f)
  Keeps-bind {P = P} {Q = Q} m f first rest = record {
    keeps = λ w h. Keeps-proceed P Q f rest (m w) (first.ends w h) (first.keeps w h);
    ends = λ w h. Ends-proceed P Q f rest (m w) (first.ends w h) (first.keeps w h);
  }

  pub Keeps-reads :
      {A : Type 0} {Q : A → Type 0} (f : Db → Action A)
      → ((db : Db) → Keeps Q (f db))
      → Keeps Q (reads f)
  Keeps-reads f k = record { keeps = λ w h. (k w.db).keeps w h; ends = λ w h. (k w.db).ends w h }

  Keeps-or_raise : {A : Type 0} (o : Option A) → Keeps Any (or_raise integrity_error o)
  Keeps-or_raise none = record { keeps = λ w h. h; ends = λ w h. inl refl }
  Keeps-or_raise (some a) = Keeps-pure Any a tt

  Keeps-one :
      {Row : Type 0} (p : Row → Bool) (t rows : List Row)
      → select p t ≡ rows
      → Keeps (IsHit p) (optional (one rows))
  Keeps-one p t [] e = Keeps-pure (IsHit p) none tt
  Keeps-one p t (r ∷ []) e = Keeps-pure (IsHit p) (some r) (select_hit p t r [] e)
  Keeps-one p t (r ∷ s ∷ rows) e = record { keeps = λ w h. h; ends = λ w h. inr refl }

  pub Keeps-get :
      {Row : Type 0} {clash : Row → Row → Bool} (o : Objects clash) (p : Row → Bool) (t : List Row)
      → Keeps (IsHit p) (optional (get o p t))
  Keeps-get o p t = Keeps-one p t (o.filter p t) (sym (o.filter_lem p t))

  pub Keeps-modify :
      (f : Db → Db)
      → ((db : Db) → (f db).roles ≡ db.roles)
      → ((db : Db) → (f db).memberships ≡ db.memberships)
      → Keeps Any (modify f)
  Keeps-modify f roles memberships = record {
    keeps =
        λ w h. quiet w (record w { db = f w.db }) (roles w.db) (memberships w.db) (ground arith) h;
    ends = λ w h. tt;
  }

  pub Keeps-draw : Keeps Any (draw_uuid env)
  Keeps-draw = record {
    keeps = λ w h. quiet w (record w { ticks = suc w.ticks }) refl refl (ground arith) h;
    ends = λ w h. tt;
  }

  pub Keeps-clock : Keeps Any (read_clock env)
  Keeps-clock = record {
    keeps = λ w h. quiet w (record w { ticks = suc w.ticks }) refl refl (ground arith) h;
    ends = λ w h. tt;
  }

  -- An INSERT or an UPDATE that the database may refuse, in a table that is neither roles nor
  -- memberships.
  pub Keeps-write :
      {Rows : Type 0} {B : Type 0} {Q : B → Type 0} (write : Db → Option Rows)
      (set : Rows → Db → Db) (k : Action B)
      → ((rows : Rows) (db : Db) → (set rows db).roles ≡ db.roles)
      → ((rows : Rows) (db : Db) → (set rows db).memberships ≡ db.memberships)
      → Keeps Q k
      → Keeps Q (
          reads (λ db. or_raise integrity_error (write db)) >>= λ rows.
          modify (set rows) >>= λ _. k)
  Keeps-write write set k roles memberships rest =
      Keeps-bind _ _ (Keeps-reads _ (λ db. Keeps-or_raise (write db))) (λ rows _.
        Keeps-bind _ _ (Keeps-modify (set rows) (roles rows) (memberships rows)) (λ _ _. rest))
