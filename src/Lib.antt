-- ===== src/Lib.antt =====
-- Verification library of godown, a Django backend for many tenants with role-based access control.
--
-- A user has at most one role in each tenant (a UserTenantRole), a role grants permission codes, and
-- feature flags are set per tenant or globally. Views check the caller's role through permission
-- classes and call the services, which change the tables; saving or deleting a Role, a UserTenantRole
-- or a FeatureFlag runs the audit signals, which hand a message to a Celery task that writes the
-- audit log. AuditService.log writes the log directly.
--
-- The state is the record World (World.antt): the tables, the messages queued for Celery, the
-- thread-local audit context, and how often the clock and uuid4 were read. A service call is an
-- action on it, World → Result A × World: it returns or raises, and what it wrote before a raise
-- stays written, unless it stands in transaction.atomic.
--
-- The parts:
--   Prelude         names passed on from the libraries, Boolean tests, lists searched by tests.
--   Orm             the managers of Django as a record of operations and laws; lemmas on tables.
--   Models          apps/rbac/models.py, apps/tenants/models.py, apps/audit/models.py,
--                   apps/notifications/models.py.
--   World           the state, the exceptions of services/exceptions.py, actions.
--   Text, Http      str methods; requests and responses.
--   Rbac            services/rbac/rbac_service.py: Queries, Writes (roles and permissions), Assign
--                   (assign_role and revoke_role), with Checks, Writes.Create, Writes.Growth
--                   (what adding roles leaves), Assign.Correct and Assign.Revoke for what is
--                   proved; apps/rbac/permissions.py: Gate;
--                   apps/rbac/views.py and serializers.py: Views, with Views.Refusals.
--   Features        services/features/feature_service.py, with Toggles for its dictionaries and Laws
--                   and Set for what is proved; apps/tenants/views.py: Features.Views.
--   Audit           apps/audit/signals.py: Signals; apps/audit/context.py: Context;
--                   services/audit/audit_service.py: Service; apps/audit/tasks.py: Tasks;
--                   apps/audit/views.py: Views.
--   Dict            Python's dictionaries.
--   Config          config/env.py, with Startup for what is proved.
--   Common          apps/common/permissions.py: Gate; apps/common/exceptions.py: Errors (the status),
--                   CodeName and Envelope; apps/common/models.py: Records, with Trash and Restore for
--                   what is proved; apps/common/middleware/request_context.py, celery_logging.py and
--                   sentry.py: Tracing, with Propagation; apps/common/logging_config.py: Logging, with
--                   Redaction; apps/common/health_checks.py and views.py: Health;
--                   apps/common/throttling.py: Throttling; services/common/idempotency.py:
--                   Idempotency, with Idempotency.Once; services/common/email_service.py: Mail;
--                   Deliveries: what tasks that mail come to when they are delivered again and again;
--                   apps/common/celery_policy.py: Retries.
--   Tenants         apps/tenants/apps.py: Receivers; apps/tenants/middleware.py and
--                   services/tenant_context.py: Middleware, with Staleness for what is proved of its
--                   cache; services/tenants/tenant_service.py: Service, with Service.Create,
--                   Service.Onboarding and Service.Undone.
--   Users           apps/users/views.py: the list of users, Views; services/users/gdpr_service.py:
--                   Erasure, with Command for apps/users/management/commands/delete_user_data.py;
--                   services/auth/password_reset_service.py: PasswordReset, with SingleUse, its Views
--                   (apps/authentication/views.py), Links for what both do together, and Sending,
--                   the task of apps/authentication/tasks.py; services/users/user_service.py and the
--                   views that register users (also that of apps/authentication/views.py):
--                   Registration, with Emails; services/users/welcome_email_service.py and
--                   apps/users/tasks.py: Welcome.
--   Notifications   services/notifications/notification_service.py, apps/notifications/views.py;
--                   Unread for what is proved; apps/notifications/tasks.py: Mails;
--                   consumers.py: Socket, with Groups and Delivery; middleware.py: Token, with Erased.
--   Demo            examples/demo_config.py: Config; services/demo/seed_service.py: Permissions and
--                   Seed, with Ensured and Seeded for what is proved.
--   Tests           an environment with its laws proved, a small database, and runs at it.
--
-- Django is not part of the repository. Its managers, the cascade of Role.delete, the relation
-- behind Role.permissions, str of keys and times, uuid4 and the clock are fields of the record Env,
-- with what Django documents of them as laws. Keys are numbers, also where the source has UUIDs,
-- and so are points in time. That a key drawn by uuid4 is not yet in use is a hypothesis where it
-- is needed. Django's cache is the record CacheApi with its documented laws, and ResultCache while
-- nothing is evicted; str.lower is a parameter; what the password reset and the registration take
-- from Django are the records ResetApi and UserApi. The mail backend is MailApi, the channel layer
-- ChannelLayer, the access tokens TokenApi, Redis and the database of the health checks Backends,
-- and python-decouple AutoConfig. Whether the receiver of apps/tenants/apps.py is still there when
-- a tenant is created is a parameter, connected: Django holds it by a weak reference. All functions
-- are structural recursions on lists and texts: no fuel is used.
--
-- Not modelled: the JSON of requests and responses beyond the fields that a view reads, pagination,
-- the text of messages, log files, HTTP headers other than those in Http.Request, and the
-- components that the library does not name (the token view, which is simplejwt, settings); the
-- throttles of views other than apps/common/throttling.py; and of what Django does: a mail counts
-- as sent when send returns, although it calls no backend for an empty address, and an audit row
-- that is refused inside transaction.atomic is only ignored, where Django would mark the
-- transaction for rollback. Deliveries of a task are taken one after the other, and so are the
-- messages of a channel layer.
pub mod Prelude
pub mod Dict
pub mod Config
pub mod Orm
pub mod Models
pub mod World
pub mod Audit
pub mod Text
pub mod Http
pub mod Rbac
pub mod Features
pub mod Common
pub mod Notifications
pub mod Users
pub mod Tenants
pub mod Demo
pub mod Tests
