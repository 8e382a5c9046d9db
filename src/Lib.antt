-- ===== src/Lib.antt =====
-- The control plane of hara (the NestJS service under src/ of the repository), modelled by its
-- services: each service method is a function from the rows that it reads to a value or an
-- exception and the rows that it leaves. Paths below are from the repository's root.
--
-- Common holds the shared types: the outcome of a method (Fault and Outcome in Common/Faults),
-- lists measured by native numbers, rows kept apart by unique keys (Common/Distinct) and texts.
-- Host is a record of what the services take from Node (regular expressions, trimming, SHA-256,
-- hexadecimal, Number), and Script one of what canonical JSON takes from JavaScript; both are
-- parameters, and Host/Plain is a concrete host for the examples. Host/Numbers has JavaScript
-- numbers as counts of billionths.
--
-- Tokens is src/security/token-discipline.ts: the check (assertTokenUsable) that every use of a
-- device token passes. Devices is the device lookup of src/learnings/learnings.service.ts
-- (deviceIdentity), which runs it. License is src/license/license.ts and
-- src/license/license.service.ts: boot, features, seats; the methods of the other services ask it
-- for their feature.
--
-- Learnings is src/learnings/learnings.service.ts: candidates, their observations and each
-- organization's learning version. submit and the tables it changes stand in Learnings, review,
-- bundle and candidateOrgId in Learnings/Review, the rows and requests in Learnings/Types, and the
-- form in which a client sees a candidate in Learnings/Wire. A run of the service is a sequence of
-- accepted submissions and reviews (Reach in Learnings/Reach).
--
-- Tickets is src/feedback-tickets/feedback-tickets.service.ts: intake with its claim, updates by
-- administrators and by the holder of a claim, and the one transaction behind both (transition,
-- here split at its first guards into transition and move). Tickets/Types has the rows and
-- requests of dto.ts beside it. Redact is sanitizeControlText of src/common/redact.ts.
--
-- KeyPolicy is src/gateway/key-policy.ts: the normalisation of a key's limits, their stored
-- columns and what the gateway is told. Capabilities is src/assets/skill-capabilities.ts. OrgTree
-- is src/org/org-tree.service.ts, without descendants.
--
-- Assets is src/assets/assets.service.ts and Assets/Guard is src/assets/guard.ts: contribute,
-- review (review_approve and review_reject), promote and deprecate, after their checks of the
-- license and the device. A review or a deprecation reads rows and later updates them under the
-- condition that they are as read, so it takes both states of the tables.
--
-- Ssrf is src/security/ssrf.ts: assertUrlAllowed and safeFetch over a network (the record Network:
-- URL parsing, DNS, fetch). An address comes with what the code reads from its text. The hops of
-- safeFetch recurse on the redirections that are left, one more than the permitted ones, as its
-- loop counts them.
--
-- Secrets is src/security/secrets.service.ts over a key management that is a parameter (Kms);
-- Secrets/Marking is a concrete one for the examples. Models is src/providers/model-policy.ts; a
-- name that object literals inherit gives there the text of the inherited value. Fleet has the
-- rows of the devices (prisma/schema.prisma), as bindings, enrollment and administration change
-- them.
--
-- Bindings is src/service-bindings/service-bindings.service.ts: the transactions, each under the
-- lock of its organization and service, are the functions ending in _locked,
-- commit_verification_result and clear_reservation; Bindings/Service has the operations around
-- them (upsert, verify, disable), Bindings/Requests the normalisation, Bindings/Probe the
-- readiness checks over the fetch of Ssrf, and Bindings/Desk the target of an organization and the
-- reservation of a device. verify takes the tables that it read and those that it commits to, and
-- a run between the two is a sequence of Bindings/Steps: the transactions, and the writes of
-- enrollment and revocation to the devices' Desk columns. A provisioning is a step at any time, as
-- src/enroll/enroll.service.ts does not check that the reservation still stands; a run in which
-- every provisioning finds it standing is timely (IsTimelyRun). The audit row of an operation on a
-- binding is written after its commit, and whether that write throws is an argument.
--
-- Enroll is src/enroll: Enroll/Provisioner and Enroll/Registration are desk-provisioner.ts, where
-- what Desk answers is an argument and the requests sent are listed; Enroll/Exchange,
-- Enroll/Progress, Enroll/Saga and Enroll/Cleanup are enroll of enroll.service.ts: the checks and
-- the claim of the code, the try block, and the catch block with its compensations; Enroll/Agents
-- is provisionDeskAgent and heartbeat. Every write and remote call that can fail has its exception
-- or answer in the record Events, so a theorem over all events covers every place where an
-- enrollment can break. One of the events is the key that stays live where issueKey of
-- src/gateway/litellm.adapter.ts throws and could not clean up. Enroll/Further is about the
-- registration of a further Agent. The service of the bindings and the provisioner are always
-- there, as the application wires them.
--
-- Admin is the revocation of a device in src/admin/admin.service.ts (revokeDevice), its binding to
-- a person (bindDevicePerson, in Admin/People), and in Admin/Access assertAdminOrgAccess of
-- src/common/admin-auth.guard.ts; Enroll/Installation has the revocation at Desk that it asks for.
-- What the gateway throws is given by key, no other request comes between the steps of one
-- revocation, and its two transactions succeed.
--
-- Crypto is canonicalJson and chainHash of src/common/crypto.ts over the JSON values of Json.
-- Audit is src/audit/audit.service.ts: append and verify on an organization's rows in the order of
-- their sequence numbers; Audit/Retry is the retry loop of transact.
--
-- Bounds and fuel: the walk over ancestors recurses on the depth that is left, 64 less the rows
-- found, and its own depth test is what stops it; transact recurses on its four attempts. All
-- other loops recurse on their lists. Times are natural numbers of milliseconds; a lease, a window
-- or an allowance for skew is added on the side of the comparison that keeps this exact. Money is
-- in billionths of a dollar.
--
-- What is not modelled: reading and formatting for the administration site (list, get, ticket
-- numbers), the retry of learnings' serializable transactions, the signature of a license,
-- passwords, JWT and TOTP, the search, the audit rows and the embeddings of assets, the public
-- view of a binding, roles, the rest of administration, crash reports, gateway adapters, provider
-- credentials and HTTP wiring. The removal of a secret that nothing names any more never fails in
-- the model. Messages of exceptions are kept where they are constant and cut where they hold data.
pub mod Common
pub mod Host
pub mod Redact
pub mod Tokens
pub mod License
pub mod Json
pub mod Devices
pub mod Learnings
pub mod KeyPolicy
pub mod Tickets
pub mod Crypto
pub mod Audit
pub mod OrgTree
pub mod Capabilities
pub mod Assets
pub mod Ssrf
pub mod Secrets
pub mod Fleet
pub mod Bindings
pub mod Models
pub mod Enroll
pub mod Admin
