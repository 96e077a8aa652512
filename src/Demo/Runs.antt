-- ===== src/Demo/Runs.antt =====
-- Steps of the seeding put together, with what holds where they return.
use godown_rbac_system.World.{World, Env, Result, ok, err, Action, pure, proceed}
use godown_rbac_system.Rbac.Writes.Defaults.{IsReady}
use godown_rbac_system.Rbac.Writes.Growth.{Grows, Grows-refl, Grows-trans}
use godown_rbac_system.Demo.Steps.{IsUnder, IsDbError, Ends, Keeps}

-- It returned with `Q`, or the database refused.
abbrev pub Holds : {A : Type 0} → (A → World → Type 0) → Result A × World → Type 0
Holds Q (ok a, w) = Q a w
Holds Q (err e, w) = IsDbError e

module _ (env : Env) where
  -- How a run from `w` ended.
  pub record Ran {A : Type 0} (w : World) (Q : A → World → Type 0) (end : Result A × World)
      : Type 0 where
    pub ready : IsReady env end.1
    pub grows : Grows w end.1
    pub holds : Holds Q end

  pub Ran-bind :
      {A B : Type 0} (w : World) (P : A → World → Type 0) (Q : B → World → Type 0)
      (f : A → Action B) (end : Result A × World)
      → Ran w P end
      → ((a : A) (v : World) → IsReady env v → Grows w v → P a v → Ran v Q (f a v))
      → Ran w Q (proceed f end)
  Ran-bind w P Q f (err e, v) r k = record { ready = r.ready; grows = r.grows; holds = r.holds }
  Ran-bind w P Q f (ok a, v) r k =
      let s = k a v r.ready r.grows r.holds in
      record { ready = s.ready; grows = Grows-trans w v _ r.grows s.grows; holds = s.holds }

  -- The last step may touch what the others keep.
  pub Holds-bind :
      {A B : Type 0} (w : World) (P : A → World → Type 0) (Q : B → World → Type 0)
      (f : A → Action B) (end : Result A × World)
      → Ran w P end
      → ((a : A) (v : World) → IsReady env v → Grows w v → P a v → Holds Q (f a v))
      → Holds Q (proceed f end)
  Holds-bind w P Q f (err e, v) r k = r.holds
  Holds-bind w P Q f (ok a, v) r k = k a v r.ready r.grows r.holds

  pub Ran-pure :
      {A : Type 0} (w : World) (Q : A → World → Type 0) (a : A)
      → IsReady env w
      → Q a w
      → Ran w Q (pure a w)
  Ran-pure w Q a ready q = record { ready = ready; grows = Grows-refl w; holds = q }

  held :
      {A : Type 0} (Q : A → Type 0) (end : Result A × World) → Ends Q end.0 → Holds (λ a w. Q a) end
  held Q (ok a, w) h = h
  held Q (err e, w) h = h

  pub Ran-Keeps :
      {A : Type 0} (Q : A → Type 0) (m : Action A) (w : World)
      → Keeps env w Q m
      → IsReady env w
      → Ran w (λ a v. Q a) (m w)
  Ran-Keeps Q m w k ready =
      let start : IsUnder env w w = record { ready = ready; grows = Grows-refl w } in
      let h = k.keeps w start in
      record { ready = h.ready; grows = h.grows; holds = held Q (m w) (k.ends w start) }
