-- ===== src/Lib.antt =====
-- The core of golangci-api: who may connect and pay for a repository, and the work that follows.
--
-- An HTTP request reaches a service (pkg/api/services). The service asks a policy
-- (pkg/api/policy) whether the caller may do what it asks, marks a row of the database with a
-- commit state, sends a message to a queue, and moves the row on to "sent to queue". A consumer
-- (pkg/api/workers/primaryqueue) handles the message later, or more than once: it calls the
-- payment gateway or the VCS provider and writes the last commit state. A message whose handling
-- returns an error is delivered again. The commit states of the rows are what keeps the parts in
-- step.
--
-- Which file models what:
--   Models            pkg/api/models: the rows of organizations, subscriptions, repositories and
--                     analysis statuses, their commit states, and `UpdateRequired`.
--   Subscription      pkg/api/services/subscription/service.go: `Update`, whose steps are
--                     `get_sub_for_update`, `dispatch_update`, `start_update`,
--                     `send_to_update_queue` and `finish_queue_sending`.
--   RepoService       pkg/api/services/repo/service.go: `Create`, `Delete` and `Get`; the
--                     child `Creation` is the way to a new row.
--   OrgService        pkg/api/services/organization/service.go: `Update` and `Get`.
--   Policy            pkg/api/policy/active_subscription.go, organization.go and org_fetcher.go.
--   Workers.Subs      pkg/api/workers/primaryqueue/subs: `Creator`, `Updater` and `Deleter`, one
--                     `run` and one `consume_message` each.
--   Workers.Repos     pkg/api/workers/primaryqueue/repos: `Creator`, the loop over commit states,
--                     and `Deleter`; `Connection` and `Provider` are what they see of the provider.
--   Workers.RepoAnalyzes
--                     pkg/api/workers/primaryqueue/repoanalyzes/launcher.go: `Launcher`, with the
--                     transaction of internal/shared/db/gormdb/tx.go.
--   Workers.PaymentEvents
--                     pkg/api/workers/primaryqueue/paymentevents/creator.go and the event processor
--                     internal/api/paymentproviders/implementations/paddle/event_processor.go.
--   Workers.Invitations
--                     pkg/api/workers/primaryqueue/invitations/acceptor.go.
--   Queue             internal/shared/queue: `Producers` and `Consumers` are the two multiplexers
--                     and what is around them, `Sqs` the queue and the consumer that polls it.
--   Authorizer        pkg/api/auth/authorizer.go: the user of a session.
--   Policy.RepoRead   pkg/api/policy/repo.go: who may read a repository.
--   Hooks             pkg/api/services/repohook/service.go: `PullRequests`, and `Pushes` with the
--                     whole webhook.
--   PrAnalyses        pkg/api/services/pranalysis/service.go.
--   RepoAnalyses      pkg/api/services/repoanalysis/service.go.
--   Crons             pkg/api/crons/pranalyzes/staler.go and pkg/api/crons/repoinfo/updater.go.
--   BuildAgent        pkg/buildagent/build/runner.go and pkg/buildagent/containers/orchestrator.go.
--   Experiments       pkg/worker/lib/experiments/checker.go.
--   CommitStates      the protocol of the commit states of repositories (pkg/api/models/repo.go), and
--                     RepoService, Workers.Repos and Crons.RepoInfo as one system on the table.
--   Analyze.Errors    pkg/worker/analyze/processors/errors.go, and isRecoverableError and
--                     wrapConsuming of pkg/worker/analyze/analyzequeue/consumers.
--   Analyze.RepoProcessor, Analyze.PullProcessor
--                     repo_processor.go and basic_pull_processor.go of
--                     pkg/worker/analyze/processors, without the build log. The first one's state
--                     is what the API has stored, the second one's what it has asked for.
--   Errors, Sql, Base error values, the database, and what the rest shares.
--
-- How the code is read. A handler is a function from the state that it sees (the rows of a
-- table, the messages that the queues have accepted, the calls that the gateway has had) to a
-- result and the new state. A Go pair of a value and an error is `Result`; `errors.Wrap` is the
-- constructor `wrap`, whose text is left out, so that `err == X` and `errors.Cause(err) == X`
-- differ as they do in Go. A Go pointer that a callee changes comes back beside the result. A
-- panic is `none`, or what the deferred call that recovers it returns.
--
-- What is not in the repository is a parameter: the database server behind gorm (`Sql`, whose
-- laws say that a query that is answered selects and changes the rows that its filter names, and
-- that one that fails changes nothing; `Select` for a query of many rows, whose law says that the
-- rows come in their order, that none is missing below the limit and none comes twice), the
-- payment gateway, the VCS provider, the queues, the cache server, the clock, the lock server, the
-- SQS client, Docker, the session store, and the functions of Go's library on texts and files that the code
-- calls, such as strings.EqualFold and encoding/json. Each query is atomic; two handlers
-- interleave between their queries only where a theorem about order says so.
--
-- Fuel. The create consumer of repositories loops over commit states (`process_states`); each
-- round stops or moves the local copy strictly towards `create_done` or `create_rollback_done`,
-- so three rounds are enough from every state. The loops of the orchestrator count their
-- attempts.
--
-- Integers. Identifiers and times are natural numbers. A version is a 64-bit word that wraps
-- around. The numbers of seats and of stars are signed, since the code meets negative ones, and
-- so is the delay of a message, a 64-bit word.
--
-- Not modelled: logging, the texts of messages, the HTTP layer and its generated endpoints, the
-- session store, OAuth, the implementations of providers and gateways, the reanalyzer, the
-- servers that listen for the build agent, and of the worker (pkg/worker) all but its treatment
-- of errors, its experiments and the two processors. Of the services, the ones of events and
-- authorization, and in pkg/api/services/repo the list of the provider's repositories. The score
-- of internal/api/score is computed with floating point numbers, which the development has none
-- of.
pub mod Base
pub mod Errors
pub mod Queue
pub mod Sql
pub mod Models
pub mod Authorizer
pub mod Subscription
pub mod Workers
pub mod RepoService
pub mod Policy
pub mod OrgService
pub mod PrAnalyses
pub mod Hooks
pub mod RepoAnalyses
pub mod Crons
pub mod BuildAgent
pub mod Experiments
pub mod CommitStates
pub mod Analyze
