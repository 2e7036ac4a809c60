-- ===== src/Lib.antt =====
-- A verification library for property-community-agent (src/property_agent), the back end of a
-- property-management agent: residents report repairs, staff handle them, and an AI agent may act
-- for a person only with that person's confirmation.
--
-- The parts and how they interact. An agent's turn that wants to write asks the person, then
-- `prepare_confirmation` issues a token and promotes an approval. The business service opens one
-- transaction, checks rights, consumes approval and token through the confirmation port, writes
-- its rows, keeps the response for repeated requests, writes an audit row, and puts messages in
-- the outbox, which a dispatcher empties. One turn at a time holds a conversation's lease, and the
-- port refuses the writes of a turn that has lost it. The library models that path, the repair
-- service and the two inspection services whole.
--
--   Base                        shared: Boolean tests, lists, Python text, the transaction monad
--   Platform/Approval           src/property_agent/platform/application/approval_service.py
--   Platform/Confirmation       src/property_agent/platform/application/confirmation_service.py
--   Platform/ConfirmationPort   src/property_agent/platform/application/
--                               platform_confirmation_port.py
--                               and platform/infrastructure/agent_fence.py
--   Platform/Idempotency        src/property_agent/platform/application/idempotency_service.py and
--                               the port in repair/infrastructure/shared_ports.py
--   Platform/Outbox             src/property_agent/platform/infrastructure/outbox_dispatcher.py
--   Platform/LoginGuard         src/property_agent/platform/application/login_guard.py
--   Platform/Tables             src/property_agent/platform/infrastructure/orm_models.py
--   Repair/Enums, Errors, WorkOrder   src/property_agent/repair/domain
--   Repair/Commands, Service, Snapshot   src/property_agent/repair/application
--   Repair/Repository, Ports    src/property_agent/repair/infrastructure
--   Repair/AutoAssignment       src/property_agent/repair/application/auto_assignment.py
--   Announcement/Entities       src/property_agent/announcement/domain/entities.py
--   Inspection/Enums, EventEnums, Errors, Task, Event, Classification
--                               src/property_agent/inspection/domain
--   Inspection/Commands, Snapshot, Service, Tasks, Events
--                               src/property_agent/inspection/application
--   Inspection/Repository, Ports   src/property_agent/inspection/infrastructure
--   Inspection/Invariant, Visibility   theorems on its services as a whole
--   Agent/RunLease              src/property_agent/agent/infrastructure/run_lease.py
--   Agent/ConfirmationProvider  src/property_agent/agent/application/confirmation_provider.py
--
-- Conventions. An identifier and a digest are numbers, since the code only compares them; a moment
-- is a number of microseconds, and an operation reads the clock once. Text that the code walks
-- through is a list of code points (`Text`), text that it only compares is a native string. The
-- set of a person's roles is its characteristic function. A list stands for a table, and a query
-- without an order reads it in the list's order, one that expects a single row the first. `Action`
-- is the code inside `with unit_of_work()`: an exception carries no tables, since the block rolls
-- back, and `transact` keeps the tables of a normal return. Where another transaction may commit
-- between a read and an insert, the function takes what it commits as an argument (`rivals`). The
-- digest of canonical JSON, SHA-256, case folding, fresh identifiers and tokens are arguments. No
-- definition needs fuel: every loop runs over a list.
--
-- In the repair service `create` is `create_work_order` (its transactions `create_order` and
-- `hand_over_high_risk` with `run_handover`), `execute_action` has its part after the lookup of a
-- kept response in `run_action`, `create_review` is `review_order` with `run_review`, and
-- `timeline` is `timeline_of`; the handlers of the single actions are in
-- `Repair/Service/Handlers`. `create_and_assign` is `create` of the facade for agents, which
-- assigns after it. `save` counts the rows that its UPDATE hits.
--
-- The services reach their stored responses through one interface, `ResponseLookup` of
-- Platform/Idempotency/Lookup. `PortLookup` fills it for any table and any reader of responses, and
-- the services give the reader: of work orders, of handovers, of tasks, of events. `found_or` is the
-- early return of a stored response.
--
-- In the inspection services an operation is `or_replay` around the part that runs when no response
-- is kept: `create_task` around `plan_task`, `execute_task_action` around `run_task_action`,
-- `create_event` around `report_event`, `execute_event_action` around `run_event_action`. A command
-- is its business parameters, which `business_command` hashes, with its confirmation beside them. A
-- task or an event stands for its row. `TrustedExecutionOriginError` cannot occur, since the source
-- of a request is one of its two members.
--
-- Not modelled: the text of identifiers and moments in a stored response, where they stay as they
-- are; the details of an error beyond those named; the masking of audit values; the
-- refusal of duplicate business numbers by the database; the parsing of an approval reference that
-- is no UUID; summaries and payloads of handover tickets; negative page offsets; the announcement
-- service and the billing package; the agent's graph, heartbeat thread, planning,
-- memory and model gateways; HTTP, configuration and observability.
pub mod Base
pub mod Platform
pub mod Repair
pub mod Agent
pub mod Announcement
pub mod Inspection
