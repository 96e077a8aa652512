-- ===== src/Common/Tracing.antt =====
-- apps/common/middleware/request_context.py, apps/common/celery_logging.py and the tags of
-- apps/common/sentry.py: the identifier that follows a request into its tasks.
pub mod Propagation
use godown_rbac_system.Prelude.{
  ℕ, suc, String, Bool, List, [], ◌∷◌, ◌++◌, Option, none, some, str_eq, if◌then◌else◌,
}
use godown_rbac_system.World.{Result, ok, err}
use godown_rbac_system.Dict.{lookup, put}

abbrev pub Headers : Type 0
Headers = List (String × String)

-- structlog's context variables, the headers of the messages that were published, and how often
-- uuid4 was called.
pub record Trace : Type 0 where
  pub vars : Headers
  pub published : List Headers
  pub draws : ℕ

-- `value or other` on texts that may be missing
abbrev pub or_other : Option String → Option String → Option String
or_other none other = other
or_other (some s) other = if str_eq s "" then other else some s

abbrev pub is_set : Option String → Option String
is_set s = or_other s none

abbrev tag_if : String → Option String → Headers → Headers
tag_if name none tags = tags
tag_if name (some s) tags = put name s tags

-- `_before_send` of sentry.py, on the tags of the event
unfoldable pub before_send : Headers → Trace → Headers
before_send tags t =
    tag_if "trace_id" (is_set (lookup "trace_id" t.vars))
      (tag_if "request_id" (is_set (lookup "request_id" t.vars)) tags)

-- `inject_trace_id`, on the message's headers, if there are any
unfoldable pub inject_trace_id : Option Headers → Trace → Option Headers
inject_trace_id none t = none
inject_trace_id (some headers) t = some (
    tag_if "trace_id" (is_set (or_other (lookup "request_id" t.vars) (lookup "trace_id" t.vars)))
      headers)

abbrev sent_with : Option Headers → Headers
sent_with none = []
sent_with (some headers) = headers

-- Celery publishes a task: the signal runs on the headers first.
unfoldable pub publish : Option Headers → Trace → Trace
unfolding inject_trace_id
publish headers t = record t {
  published = t.published ++ sent_with (inject_trace_id headers t) ∷ [];
}

module _ (uuid4 : ℕ → String) where
  -- `… or str(uuid.uuid4())`
  abbrev pub new_if_unset : Option String → ℕ → String × ℕ
  new_if_unset none draws = (uuid4 draws, suc draws)
  new_if_unset (some id) draws = (id, draws)

  abbrev pub given_or_new : Option String → ℕ → String × ℕ
  given_or_new given draws = new_if_unset (is_set given) draws

  -- The worker's `bind_task_trace_id` and `clear_task_trace_id`
  unfoldable pub bind_task_trace_id : Option Headers → Trace → Trace
  bind_task_trace_id headers t =
      let (trace_id, draws) = given_or_new (lookup "trace_id" (sent_with headers)) t.draws in
      record t { vars = ("trace_id", trace_id) ∷ []; draws = draws }

  unfoldable pub clear_task_trace_id : Trace → Trace
  clear_task_trace_id t = record t { vars = [] }

  module _ {Body : Type 0} where
    -- The response with its header `X-Request-ID`.
    abbrev finished : String → Result Body × Trace → Result (Body × String) × Trace
    finished request_id (ok body, t) = (ok (body, request_id), record t { vars = [] })
    finished request_id (err e, t) = (err e, record t { vars = [] })

    -- `RequestContextMiddleware.__call__`; the inner handler is given `request.request_id`.
    unfoldable pub request_context :
        (String → Trace → Result Body × Trace)
        → Option String
        → Trace
        → Result (Body × String) × Trace
    request_context get_response header t =
        let (request_id, draws) = given_or_new header t.draws in
        finished request_id (
          get_response request_id
            (record t { vars = ("request_id", request_id) ∷ []; draws = draws }))
