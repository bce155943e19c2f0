-- ===== src/Lib.antt =====
-- Math Anchor: a runtime that checks finite mathematical claims (src/math_anchor). A request goes
-- through the circuit breaker and the admission controller (runtime_control.py) to a worker of the
-- process pool (worker_pool.py), which runs one operation of the catalog (operations/). This library
-- models the two controls, the pool, a request's way through them, the runtime that checks a set of
-- obligations and replays its receipts, the checker of polynomial certificates, the dimensions of
-- expressions, and the integer operations of the programmer's calculator.
--
-- Base       shared names, ℤ over the native numbers, Python's operators on it (Base.Int, Base.Python),
--            digits (Base.Bits), and results: a value or the code of a `CalculatorError`
--            (src/math_anchor/errors.py)
-- Admission  `AdmissionController` and `batch_worker_count` of src/math_anchor/runtime_control.py:
--            `acquire`, its loop (`poll`), `_may_enter` (`may_enter`), `release`, `snapshot`.
--            Admission.System has the threads that call it and the interleavings of their calls;
--            the children Removal, Invariant, Lane, Stranded and Workers hold the proofs
-- Breaker    `CircuitBreaker` of src/math_anchor/runtime_control.py: `allow`, `abandon_probe`,
--            `record` (`record_call`), `reset`, `snapshot`
-- Pool       `_WorkerPool` of src/math_anchor/worker_pool.py: `acquire` with its loop over the
--            available workers (`select`), `release`, the three methods of a prewarm, `shutdown`.
--            Pool.System has the interleavings, Pool.Accounts the proofs
-- Integers   src/math_anchor/operations/programmer.py: `_common`, the ranges and the signed value
--            here, `_decode_literal` in Literals, `_representation` in Representation,
--            `machine_arithmetic` in Arithmetic, the word operations of `bitwise` in Actions,
--            `bitwise` and `represent` in Bitwise, `_divide` in Division, with `divide_integer` of
--            src/math_anchor/operations/rounding.py. The readers of arguments are those of
--            src/math_anchor/validation.py
-- Errors     `error_payload` of src/math_anchor/errors.py with its default phase and action
-- Obligations
--            src/math_anchor/obligations.py: `_dependency_layers`, the order in which a set of
--            obligations with dependencies is run (here; proofs in Layers, Acyclic); the reading of
--            a provider's answer (Answers), the entries (Entries) and what each answer establishes
--            (Findings); the loop of `check_obligation_set` over the layers (Check; proofs in Growth,
--            Rounds, Runs, Gating); `_validate_request`, `_summary` and the receipt (Receipts);
--            `_validate_receipt_integrity`, `_fit_feedback`, `check_obligation_set` and
--            `replay_obligation_set` (Replay; proofs in Replay.Outcomes, Replay.Integrity)
-- Transport  src/math_anchor/transport_budget.py: `_validate_shape` with its explicit stack (`loop`),
--            `encode_json_line`; Walk has the recursive reference and their equivalence, Counts
--            what a value comes to, Passed and Budget what is accepted, Line the lines that are written
-- Requests   src/math_anchor/sandbox.py: `_run_operation_impl` and `_execute_admitted_operation`, one
--            request through the breaker, the controller and the pool, as the list of its acts;
--            the proofs are in Accounts and Probe
-- Batches    src/math_anchor/sandbox.py: `_run_batch_item` in Items; `run_batch`, the groups of items with
--            one JSON text, the completed groups in any order and the results by index here; Direct is
--            the reference without groups, Grouping, Charges and Agreement the comparison with it
-- Output     src/math_anchor/output_policy.py: `apply_output_policy`, by which a request's result is
--            made to fit its mode and its limit; Cuts has what an error may be cut to, the proofs are
--            in Exact and Limit
-- Certificates
--            src/math_anchor/certificate_checker.py: `_normalize`, `_add`, `_multiply` and `_power`
--            on polynomials here, the parser `_visit` in Parser,
--            `verify_polynomial_identity_certificate` in Verify. Coefficients has the interface of
--            Python's Fraction; Evaluation, Products and Soundness compare a polynomial with the
--            value of its expression; Terms is about the listed terms, Identity about what an accepted
--            certificate says, Obligations.Identities about the entry of an obligation, and Fuel about
--            the loop of `_power`
-- Dimensions src/math_anchor/dimension_expression.py: `DimensionVector` (`__add__`, `scale`, `__sub__` and
--            the building of a vector) here, with the certificates' interface of Fraction; its proofs
--            in Names, Exponents and Vectors. Formulas has `DimensionFormula` and the visitor of
--            `DimensionExpressionAnalyzer`; Values is about the formulas, Analysis about the visitor
-- Tests      runs at concrete inputs
--
-- State is passed explicitly. What a method of the controls and the pool does under its lock, up to
-- a `wait`, is one step; an interleaving is a sequence of steps. What a call sees of its
-- surroundings is an argument: the clock, as microseconds for the breaker and as the answer to
-- `remaining <= 0` elsewhere; whether a cancel event is set; whether a worker runs and what memory it
-- uses. A negative memory request, and a breaker whose clock runs backwards, are not modelled.
--
-- The obligations ask other code for the digest and the size of a value's canonical JSON (json and
-- hashlib), the JSON schemas (jsonschema), the limits of a document, the catalog and the contracts of
-- its operations, and the normal form of an expression's source: these are
-- the parameters `Services` and `Checks`. The clock and the providers (`run_operation`, `run_batch`)
-- are an `Environment`, which answers by the number of the layer. Ids are numbers. An answer with a
-- list or a dict where a text is looked up in a set (`phase`, `suggestedAction`, `assurance`) makes
-- Python raise a TypeError and is not modelled.
--
-- A request meets its surroundings as answers: of the breaker, of the controller after its waits, of
-- the pool, of the worker, of the cancel event and the deadline. Values sent to a worker are trees
-- whose containers carry identities; the encoder of the json module and the size of a JSON text
-- are parameters. A text is a list of Unicode scalar values: a lone surrogate, which makes Python's
-- `encode` raise, is not modelled. In a batch the exception of an item's call is an `Exception`, as
-- in any thread but the first, and the order in which its groups complete is a parameter.
--
-- The certificate checker takes the operations of Fraction with their laws (a commutative ring whose
-- division undoes multiplication), the result of `ast.parse`, `str` of an integer and the digest of
-- a value's canonical JSON as parameters. A dict of a polynomial is the list of its items.
-- Exceptions other than a CertificateValidationError are not modelled, a ValueError of `zip` apart.
--
-- Loops: the loop over the available workers has the length of the list as fuel, since each round
-- takes one off; the loop of `_dependency_layers` has the number of obligations, since each round
-- completes one; the loop of `_validate_shape` has one round for each value and one more for each
-- container; the loop of `_power` has the exponent, which each round halves; `bit_length` has the
-- number itself, which has no more digits; the loop of `_reverse_chunks` counts its rounds down; all
-- else is structural.
--
-- Not modelled: messages, telemetry, `queueMs`, `str` of an integer (the integer itself is kept), the
-- Unicode tables behind a character's name, the processes and threads themselves; of the dimensions, the
-- exponents read from text, the issues of a check and the counts of nodes. The provider of
-- certificates, the other operations, the catalog, the transports, the Swift application and the
-- scripts are outside this library.
pub mod Base
pub mod Admission
pub mod Breaker
pub mod Pool
pub mod Integers
pub mod Errors
pub mod Obligations
pub mod Transport
pub mod Requests
pub mod Output
pub mod Certificates
pub mod Batches
pub mod Dimensions
pub mod Tests
