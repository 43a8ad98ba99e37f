-- ===== src/Lib.antt =====
-- Inbox Angel: a worker that receives DMARC reports, checks the DNS of mail domains, guides their
-- owners to an enforced policy, and follows up on free checks by email.
--
-- The parts that are modelled, and how they interact:
--   Common     shared names, Boolean tests and list helpers; integers over the native numbers.
--   Text       the string operations that the code calls. A text is the list of its code units;
--              lower and upper case are those of the letters A to Z.
--   Rollout    src/dmarc/rollout.ts. The tags of a record, its step in the sequence (none for -1),
--              the plan of the next step, and the record that is built (none for the exception).
--   Readiness  src/analytics/readiness.ts, with pct of src/analytics/senders.ts. It takes the plan
--              from Rollout and collects reasons; the percentages are in tenths. PASS_RATE_THRESHOLD
--              is 90 %, 900 tenths.
--   Funnel     packages/db/src/queries/funnel.ts: the table of leads, each operation a function from
--              table to table with what it answers. Funnel/Sequence is src/funnel/sequence.ts with
--              sendNonTransactional of src/mail/compliance.ts: a run takes the due leads, marks each
--              step, sends, and settles the answer. Funnel/Worker is the same work as a step
--              relation in which runs overlap, with the steps in flight and the steps mailed.
--              Funnel/Enroll is src/funnel/enroll.ts: enrolment, unsubscribe, manual stops.
--   RateLimit  rateLimit.hit of packages/db/src/queries/global.ts and src/auth/rate-limit.ts: a
--              counter per key over a fixed window.
--   Monitor    src/monitor/check.ts: the daily check of a domain against its stored baseline. A
--              lookup is a settled promise: fulfilled, perhaps with no record, or rejected.
--   Dmarc      packages/dns-checks/src/dmarc.ts, with normalizeName of doh.ts: parsing, discovery and
--              grade. The resolver and the organizational domain of a name are functions.
--   Spf        packages/dns-checks/src/spf.ts: parsing, and in Spf/Walk the analysis that counts
--              lookups through included records. The walk recurs on what is left of MAX_DEPTH, the
--              guard of the code itself. Spf/Flatten is collectIps and what is built from it, with
--              src/hosted/spf.ts: the code has no limit there, so the walk recurs on fuel and
--              answers none where it runs out.
--   Pointers   src/hosted/pointers.ts, with hostedNames of src/hosted/records.ts: whether a customer's
--              names point at the hosted records.
--   DnsWrite   src/dns/write-policy.ts: which DNS writes leave the worker; a refusal is a value.
--   Domains    packages/db/src/queries/domains.ts and claims.ts: the tables of domains and claims, lists
--              in the order of the ids, and the queries that the proof of a domain makes.
--   Ownership  src/domains/ownership.ts over Domains: the proof of a domain, its claims, and the
--              eviction of an unproven holder. The walk down a holder's rows has as much fuel as there
--              are ids, which is enough because a row's id is above its parent's.
--   Bulk       src/domains/bulk.ts over Ownership: a list of domains is parsed, admitted and inserted.
--   Team       packages/db/src/queries/team.ts with the invites of auth.ts: the tables of users,
--              memberships and invites, each query a function on them. Team/Requests has the
--              statements of requests that overlap as a step relation, for the invites. Team/Lifecycle
--              is packages/db/src/queries/workspaces.ts, with Team/Court as the relation of the
--              statements that make, move or keep owners.
--   Signup     src/auth/signup-policy.ts over Team: who may sign up, and where the new user lands.
--   Intake     packages/db/src/queries/intake.ts: what reporters may send to a domain's address in a
--              day. Intake/Address is src/hosted/tokens.ts, and Intake/Mail src/hosted/intake.ts and
--              canary.ts: a message is routed by its address and ends in an outcome. It uses RateLimit
--              for the free checks.
--
-- Bounds and fuel: loops follow the list that they read, and the walk of SPF records the depth that the
-- code allows. The walk down the rows of an unproven holder (Ownership) and the flattening of SPF
-- records (Spf/Flatten) recur on fuel; Ownership/Evict and Spf/Flatten/Total show how much is enough.
-- A number is printed with as much fuel as its value. Numbers are unbounded where the code has IEEE doubles; those
-- that it computes with here are small.
--
-- Not modelled: HTTP routes, the dashboard, the clients of Cloudflare and of the mail provider, the
-- templates, the database engine. What the provider answers and where an exception is thrown are functions that a run takes as its World; the hash of an address is
-- one too. Messages for people are constructors with the values that they quote, or left out.
pub mod Bulk
pub mod Common
pub mod Dmarc
pub mod DnsWrite
pub mod Domains
pub mod Funnel
pub mod Intake
pub mod Monitor
pub mod Ownership
pub mod Pointers
pub mod RateLimit
pub mod Readiness
pub mod Rollout
pub mod Signup
pub mod Spf
pub mod Team
pub mod Text
