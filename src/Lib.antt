-- ===== src/Lib.antt =====
-- Govahi, a service by which organizations issue certificates that anybody can verify, and its
-- billing, certificates and access control. The program is a Django project; its parts call one
-- another as plain functions over one database.
--
-- How the parts are modelled:
-- - Prelude, with Prelude.Tests, Prelude.Lists, Prelude.Text, Prelude.Int and Prelude.Keyed: the
--   Boolean tests, the list and text functions of Python that the code calls, its negative
--   integers, tables of rows with a key, and the lemmas on them that the components share. Exec is the code that reads and writes the database
--   and raises exceptions: a state and an error, where a raise keeps what was saved before it and
--   `transaction.atomic` rolls back.
-- - Organizations.Models: organizations/models.py, the rows of organizations, memberships and
--   keys.
-- - Organizations.Members: the removal of a member in organizations/views.py, and
--   Organizations.Members.Update its update with MembershipSerializer of
--   organizations/serializers.py.
-- - Organizations.Slugs and Organizations.Invitations: unique_slug and invite_member of
--   organizations/services.py, with the proofs in Organizations.Slugs.Fresh and
--   Organizations.Invitations.Limits. Organizations.Provision: provision_organization with what it
--   seeds, where certificates/default_templates.py has the templates, and Organizations.Provision.Types.
-- - Organizations.Webhooks: organizations/webhooks.py and organizations/tasks.py, with the proofs
--   in Organizations.Webhooks.Retries (one attempt), Organizations.Webhooks.Overlap (runs of the
--   retry task that overlap) and Organizations.Webhooks.Events (what an event leaves).
-- - Accounts.Users and Accounts.Login: accounts/models.py and logging in with accounts/serializers.py
--   (LoginSerializer) and accounts/auth.py, with the proofs in Accounts.Login.Sound and
--   Accounts.Login.Locks. Accounts.Register: registering, with RegisterSerializer and UserManager, and
--   the proofs in Accounts.Register.Stored and Accounts.Register.Logins.
-- - Attachments.Chunks, Attachments.Storage and Attachments.Files: attachments/services/__init__.py and
--   attachments/views.py (Files, with the proofs in Files.Saved and Files.Downloads) over the interface of
--   attachments/infrastructure/storage/base.py (Storage), which local.py (Storage.Local), minio.py and
--   parspack.py (Storage.Bucket) fill; factory.py is Storage.Factory. A provider's laws are the record
--   Storage.IsStore; the modules Laws, Refines and Disposition hold the proofs.
-- - Access: the principals of accounts/auth.py (Access.Principal), the permission classes of
--   accounts/permissions.py (Access.Permissions), the roles of organizations/rbac.py (Access.Rbac),
--   the scopes of organizations/api_scopes.py (Access.Scopes), and organizations/api_keys.py with
--   organizations/authentication.py (Access.Keys, with the proof in Access.Keys.Valid).
--   Access.Soundness is about what a check lets through, Access.ApiKeys about the requests of API
--   keys.
-- - Billing.Models and Billing.State: billing/models.py, audit/models.py and the database that
--   billing uses. Billing.Entitlements: billing/entitlements.py and billing/usage.py, with the
--   proofs in Billing.Usage. Billing.Plans: billing/plans.py. Billing.Subscription:
--   apply_subscription_plan of billing/subscription.py.
-- - Billing.Gateway: billing/payments/bitpay.py and billing/payments/zibal.py. Decimal and Json
--   are the values of Python's decimal and json that these files handle.
-- - Billing.Payments: billing/payments/settings.py (Settings), billing/payments/service.py (Rows,
--   Start, Verify) and the views of billing/views.py (Begin, Callbacks). Its other modules hold
--   the proofs.
-- - Certificates: certificates/models.py (Certificates.Models), certificates/numbering.py
--   (Certificates.Numbering), the dates of certificates/variables.py (Certificates.Dates, with
--   Python's fromisoformat in Certificates.Dates.Iso), and certificates/services.py: the arguments
--   and rows of issue_certificate (Certificates.Orders), its steps (Certificates.Issue) and
--   revoke_certificate (Certificates.Revoke). The proofs are in Certificates.Issued and
--   Certificates.Issuing, Certificates.Sequence (numbers), Certificates.Status (the public status),
--   Certificates.Dates.Days (the calendar) and Certificates.Dates.Calendar (dates of expiry).
-- - Certificates.Templates: the templates and versions of certificates/views.py
--   (TemplateViewSet), with the proof in Certificates.Templates.Versions. Certificates.Public: its
--   public pages (PublicVerifyView, PublicVerifySearchView, PublicIssuerView), with
--   Certificates.Public.Disclosure. Certificates.Unique: the texts of numbers.
-- - Certificates.Api: the views of certificates (CertificateViewSet of certificates/views.py, and
--   certificates/api_v1.py), with the proofs in Certificates.Api.Rows and Certificates.Api.Tenants.
-- - Certificates.Variables: certificates/variables.py and the mail of certificates/tasks.py, with
--   Certificates.Variables.Filled.
-- - Certificates.Uploads: the parsing of certificates/bulk.py, with Certificates.Uploads.Limit.
--   Certificates.BulkIssue: the steps of BulkIssueView in certificates/views.py; Rows and Steps are
--   about the tables, Reports about what validation says.
-- - Certificates.Bulk: certificates/bulk.py and certificates/export.py, with the proof in
--   Certificates.Cells. Certificates.Batch: process_issuance_batch of certificates/tasks.py, with its
--   rows in Certificates.Batch.Rows and the proofs in Certificates.Counts.
--
-- How the parts interact: a callback view finds a payment row and runs the verification, which
-- asks the gateway and then, under a row lock, applies the plan of the payment to the subscription
-- of its organization. Between the answer of the gateway and the lock other requests may run, so
-- the check and the locked block are two definitions. Issuing a certificate reads the entitlements
-- of billing, counts in its usage counters and writes its audit log; the webhook event waits in an
-- outbox for the commit.
--
-- Bounds and fuel: every function is by structural recursion and needs no fuel, but for the
-- decimal digits of a number, whose fuel is the number itself, the search of a free slug, whose fuel
-- is one more than the number of slugs in the table, and the reading of a file in chunks of 8192
-- bytes, whose fuel is the length of the file. Amounts, times and primary keys are
-- natural numbers without a bound, as Python's integers are; the columns of the database bound
-- what it stores, and a value that does not fit would raise there.
--
-- Conventions: a time is a number of seconds and is read once per request. The columns updated_at
-- and created_at are left out: no modelled code reads them but to order rows, and tables are kept
-- in that order, newest first, but for the users of Accounts and the recipients, which are in the
-- order of their keys.
-- The Persian messages of the source stand in English.
--
-- Not modelled: the HTTP requests to the gateways and what they answer (arguments of the
-- definitions), JSON Web Tokens and cookies, serializers' field checks that Django REST framework
-- makes, mail, PDF, logging, settings and the TypeScript client.
pub mod Prelude
pub mod Organizations
pub mod Access
pub mod Exec
pub mod Accounts
pub mod Attachments
pub mod Billing
pub mod Certificates
