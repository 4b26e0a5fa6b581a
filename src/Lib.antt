-- ===== src/Lib.antt =====
-- A model of the core of CertPilot, a server that keeps track of X.509 certificates and renews them
-- before they expire.
--
-- The scheduler (core/engine/renewal/scheduler.go) asks the store which certificates are due and
-- enqueues a job for each. A worker (core/engine/renewal/queue.go) claims a job under a lease,
-- checks the certificate and the quota of its CA account, asks the renewer to renew it, and
-- completes the job, or puts it back for a time that it computes from the attempts and from what
-- the certificate has left to live. The store (core/store/inmemory.go) keeps the jobs, and is the
-- only state that the workers share: each of its operations runs under one mutex, so a history of
-- the queue is a sequence of operations. The same store keeps the audit log, in which every entry
-- has a tag over its contents and the tag of the entry before (core/store/audit_chain.go), made
-- with the keys of pkg/secrets/secrets.go.
--
-- Prelude and its children hold what the others share: the tests on numbers, lists over native
-- numbers, results with an error, 64-bit integers, and lists of rows in which one row is replaced.
-- Renewal.Job and Renewal.Certificate are the rows of core/store/models.go. Renewal.Store is the
-- renewal queue of core/store/inmemory.go: enqueue_renewal is EnqueueRenewal, claim_renewal_job is
-- ClaimRenewalJob, extend_renewal_lease is ExtendRenewalLease, complete_renewal_job is
-- CompleteRenewalJob, cancel_renewal_job is CancelRenewalJob, defer_renewal_job is DeferRenewalJob
-- and count_recent_renewals is CountRecentRenewals. Its children Invariant, Steps, Enqueue, Claim
-- and Lease reason about it. Renewal.Pacing is retryAt and shouldEscalate of
-- core/engine/renewal/queue.go; Renewal.Worker is execute, rateLimited and RunOnce of the same
-- file; Renewal.Scheduler is Enqueue and RunScan of core/engine/renewal/scheduler.go; Renewal.Lead
-- is RenewalLead (core/store/renewal_lead.go) and GetCertificatesDueForRenewal of the store.
-- Deploy.Job and Deploy.Queue are the deployment queue of the same store: enqueue_deployment is
-- EnqueueDeployment, claim_deployment_job is ClaimDeploymentJob with heldBackByAFailure and
-- heldBackByAnEarlierWave, and extend_deployment_lease, complete_deployment_job and
-- cancel_deployment_job are the rest; Deploy.Agent is ClaimAgentDeploymentJobs. Deploy.Queue.Waits
-- spells out when a job need not wait for others, and Renewal.Lead.Chosen when a certificate is
-- due. Audit.Bytes has the encodings of the Go library that the tags rely on, Audit.Keyring is MAC
-- and VerifyMAC of pkg/secrets/secrets.go, Audit.Chain is core/store/audit_chain.go with
-- CreateAuditLog and VerifyAuditChain of the store.
--
-- Policy is the policy engine (core/engine/policy/engine.go), which judges a certificate request by
-- the operator's rules: judge_key_size, judge_key_type, judge_max_lifetime, judge_ca_restriction
-- and judge_naming are evaluateKeySize to evaluateNaming; in its child Policy.Engine judge_as is
-- the switch of evaluatePolicy, and evaluate_request is EvaluateRequest. The other children say
-- what the rules demand: Domains the patterns and suffixes, Rules and Naming the kinds of rule,
-- Request and Violations a whole request. Text has the functions of the strings package that it
-- uses.
--
-- Issuance decides a request: Issuance itself has the rows and the helpers of
-- core/engine/issuance/rules.go, Issuance.Filled its applyNamesAndKey and applySuppliedValues,
-- Issuance.Template is checkTemplate with all its checks, and Issuance.Resolver is Resolve of
-- core/engine/issuance/resolve.go, which calls the policy engine last. Permits and Demands say what
-- a template demands, Granted what holds of a decision. Deploy.Rollout is EnqueueFor and Settled of
-- core/engine/deploy/rollout.go, and works on the queue of Deploy.Queue.
--
-- Signin holds the accounts: its own file is core/store/inmemory_users.go and UserByEmail,
-- Signin.Passwords and Signin.Sessions are core/store/inmemory_sessions.go, and Signin.Handlers is
-- SessionAuth of core/server/middleware/session.go with Login, Logout and ChangePassword of
-- core/api/login.go. Throttle and Lockout are about the throttle of failed sign-ins, Ended and
-- Admitted about who is let in, Authority about roles, Changed about a new password. Acme.Nonce is
-- mintNonce and spendNonce of core/acmeserver/nonce.go with the table of spent nonces of
-- core/store/inmemory_acme.go; its tags are those of Audit.Keyring, its text is Acme.Base64.
--
-- Texts that are only compared for equality are numbers, with 0 for the empty text; in the audit
-- log, the policies, the templates, the addresses of accounts and the nonces texts are bytes, since
-- their characters matter: ASCII ones where the code folds case. A time is a number of nanoseconds
-- after the zero time of Go (from 1970 in the audit log and for nonces), a duration a number of
-- nanoseconds, with the wrap-around of int64 where the code multiplies and the clamp of time.Sub.
-- Every reading of the clock is an argument, and so are the random bytes of the jitter, of nonces
-- and of session tokens (as the token's hash), and the identifiers that uuid.New makes. A pointer
-- to a row of the store is the row's place in the list. A map of rows is a list in some order, a
-- map of single values a function. All loops run over lists, so no definition needs fuel.
--
-- What is not under the repository is a parameter: floating point (the conversions of Go and the
-- product with the jitter, with their documented bounds for delays of up to six hours, in
-- Renewal.Pacing.FloatLaws), HMAC-SHA256 and SHA-256 (functions on bytes, with 32 bytes as result
-- where a theorem asks for it), the JSON decoder of the rules' configurations and ParseKeyType of
-- the gateway SDK (the record Policy.Outside), and what the SDK reads from a signing request (the
-- record Issuance.CsrInfo). The password hashing of pkg/passwords, which stands on Argon2, is a
-- parameter too. The renewer that a worker calls is any function on the state, so that what other
-- workers do while it runs is part of it.
--
-- Not modelled: the PostgreSQL store, which runs the same operations as SQL; the workers of
-- deployments; the HTTP API but for signing in, the ACME server but for its nonces, discovery,
-- cloud synchronisation, notifications and the frontend, which are input and output around the
-- store. Failures of the store's own reads (there are none in memory) are not modelled.
pub mod Prelude
pub mod Renewal
pub mod Audit
pub mod Acme
pub mod Deploy
pub mod Issuance
pub mod Policy
pub mod Signin
pub mod Text
