-- ===== src/Audit/Service/Keeps.antt =====
-- `AuditService.log` never raises, and touches no table but the audit log.
use godown_rbac_system.Prelude.{String, List, Option, ◌≡◌, refl, inl, inr, Option-cases}
use godown_rbac_system.Models.{User, Tenant, AuditAction, AuditLog}
use godown_rbac_system.World.{World, Db, Env, ok}
use godown_rbac_system.Http.{Request}
use godown_rbac_system.Audit.Service.{log, log_entry}

module _ (env : Env) (action : AuditAction) (request : Option Request) (tenant : Option Tenant)
    (actor : Option User) (kind id : String) (metadata : List (String × String)) (w : World) where
  pub log_ok : (log env action request tenant actor kind id metadata w).0 ≡ ok tt
  unfolding log
  log_ok = refl

  pub log_keeps :
      (P : Db → Type 0)
      → ((db : Db) (rows : List AuditLog) → P db → P (record db { audit_logs = rows }))
      → P w.db
      → P (log env action request tenant actor kind id metadata w).1.db
  unfolding log
  log_keeps P keep h =
      let entry = log_entry env w action request tenant actor kind id metadata in
      elim (Option-cases (env.audit_logs.create entry w.db.audit_logs)) [
        | inl refused ↦ rw refused h
        | inr (rows, done) ↦ rw done (keep w.db rows h)
      ]
