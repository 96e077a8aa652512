-- ===== src/Common/Errors.antt =====
-- How an exception leaves a view: the status and the error code that `saas_exception_handler` of
-- apps/common/exceptions.py answers with. DRF's own handler knows APIException, Http404 and
-- PermissionDenied; the exceptions of services/exceptions.py and of the ORM are none of these.
use godown_rbac_system.Prelude.{ℕ}
use godown_rbac_system.World.{
  World, Action, Exc, Result, ok, err, not_authenticated, permission_denied, http404, invalid_input,
}
use godown_rbac_system.Http.{Response, failure}

unfoldable pub status_of : Exc → ℕ
status_of (invalid_input field) = 400
status_of not_authenticated = 401
status_of permission_denied = 403
status_of http404 = 404
status_of _ = 500

abbrev pub answered : {A : Type 0} → Result (Response A) × World → Response A × World
answered (ok response, w) = (response, w)
answered (err e, w) = (failure (status_of e), w)

-- The response of a view, whether it returned or raised.
unfoldable pub respond : {A : Type 0} → Action (Response A) → World → Response A × World
unfolding status_of
respond view w = answered (view w)
