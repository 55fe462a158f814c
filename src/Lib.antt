-- ===== src/Lib.antt =====
-- Verification library of STS2_Training: the client that trains against the RL server.
--
-- The program drives games on an RL server. Every decision that it asks for, every action that it
-- commits and every Branch that it simulates goes through one session client, which numbers its
-- requests, checks every answer against the wire contract, and keeps a request whose end it does
-- not know for an exact replay. A wrong step there plays an action twice or trains on the wrong
-- state, so this library is about that client first.
--
-- Files and code (paths from the root of the repository):
--   Base, Base/*        shared types, lists, tests and results; no code of the program
--   Json                values as Python's json module gives them: dicts in insertion order, with
--                       `get`, `has`, membership in a set, and == across numbers and booleans
--   Api/Errors          src/sts2_training/api/contract.py and transport.py: exceptions, constants
--   Api/Requests, Api/Requests/Batch
--                       contract.py: _new_request, the _build_* methods and their checks
--   Api/Decision        contract.py: _validate_decision_payload
--   Api/Responses       contract.py: _validate_api_response and the checks under it;
--                       Api/Responses/Readable: when they raise no error of a lookup
--   Api/Exec            a method that reads and writes the client and may raise
--   Api/Interface       what the client uses of tcp_connection.py and selection_log.py, as a record
--                       of operations, and the laws that it relies on
--   Api/Client          async_client.py and the state of ApiContract, as one record
--   Api/Client/Execute  _execute, _remember_pending, _consume_sequence, _mark_protocol_uncertain
--   Api/Client/Accept   the _accept_* methods
--   Api/Client/Operations  the operations that send a fresh request, and their audit records
--   Api/Client/Retry    retry_request, the deferred Branch cleanup
--   Api/Client/Session  a series of calls of the public methods
--   Api/Router          response_router.py
--   Api/Tcp, Api/Tcp/Connect, Frame, Exchange, Ping
--                       tcp_connection.py: the connection, its handshake, framing, exchange and ping,
--                       over a network that is a parameter; Api/Tcp/Io is code that awaits and raises
--   Api/Tcp/Calm, Settled, Sound
--                       what the steps of the connection leave alone, and how an exchange ends
--   Api/Tcp/Environment the connection and the audit together, as what the client relies on
--   Audit, Audit/*      src/sts2_training/selection_log.py: SelectionAudit
--   Selection/Actions   src/sts2_training/selection/action_classification.py
--   Selection/Events    src/sts2_training/selection/event_choice_heuristic.py
--   Selection/Choices   src/sts2_training/selection/choice_semantics.py
--   Search/Scope        src/sts2_training/decision/combat_decision.py, and the predicates on a state in
--                       beam_search.py
--   Search/Coverage, Search/Coverage/Required, Apply, Batch
--                       src/sts2_training/decision/candidate_coverage.py; ActionCandidate of policy.py
--   Search/Coverage/Replaced, Fit, Ranked, Legal, Numbered, Sound, Retained
--                       the invariant of the proposals, and the actions that are always tried
--   Search/Pruner, Search/Pruner/Ranking, Indices, Baseline
--                       ValueTopKPruner of stable_pruner.py, _validated_pruner_indices of beam_search.py
--   Search/Frontier, Search/Frontier/Capacity, Whole, Fitting
--                       beam_search.py: BeamNode, _fit_whole_run_frontier_to_active_capacity
--   Search/Depth, Search/Depth/Chunks, Conserved, Recorded, Attempts, Live
--                       beam_search.py: _emulate_depth_batch and _make_retry_item
--   Api/Wire/Kept, Api/Wire/Kept/Execute, Operations, Retry
--                       a relation between the connection and the wire, through each method
--   */Sound, */Kinds    what an accepted value is, and which exceptions a check raises
--   Api/Wire, Api/Wire/*  the discipline of the wire, kept by each method and by whole sessions
--   */Tests             a concrete server and the examples
--
-- State and failure. The client is a record with the fields of the class, and one ghost field
-- `wire`: the requests that the server may have received, which no method reads. A method is a
-- function from the client to a result and the client after it, so that what is written before a
-- raise stays written. A retry token is the request that it serializes; two tokens are equal when
-- their requests read alike, key order included, as the texts would.
--
-- The environment. An exchange answers with a reply or fails with an exception that says whether
-- the request may have been delivered. The laws: a failure names the request itself or no request,
-- and the values that the client looks up in sets can be hashed. The methods hold a lock,
-- so their bodies run one after the other; waiting for it may time out or be cancelled, and
-- each call takes that outcome as an argument. retry_request looks at the session before it takes
-- the lock; the model has nothing run between the two.
--
-- The connection. An await on the network is done, times out, fails or is cancelled, and leaves the
-- network in another state. The reader and the writer are set and cleared together, so one flag
-- stands for both. A ghost field `written` lists the requests given to the writer. json.loads ends with
-- a value, with one of the decode errors that the source catches, or with one of two that it does not:
-- ValueError for too many digits, and RecursionError.
--
-- The search. A set of types or ids is a list of its members. Scores are compared by a parameter: an
-- order up to equal scores, as finite floats have. The slots of a Whole Run frontier are native
-- numbers, whose subtraction stops at 0; where the source compares a difference with 0, so does the
-- model.
--
-- Loops are recursions on lists or on the attempts that are left; the division of a list into chunks
-- takes its length as fuel, and the loop that reads a response frame one more than the bytes it may
-- still read, since every chunk that keeps it going has a byte. Floats are exact binary fractions.
-- Not modelled: the texts of exceptions, sockets and processes, clocks, logging, the visualizer, the
-- runners, the learned and heuristic scores, and the search and selection code that stands on top of
-- the client, but for the parts named above.
pub mod Base
pub mod Json
pub mod Api
pub mod Audit
pub mod Search
pub mod Selection
