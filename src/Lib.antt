-- ===== src/Lib.antt =====
-- Verification of ActionStream: the asynchronous inference engine of a robot control loop, the
-- transports and remote calls by which it reaches a policy, the synchronous research runtime beside it,
-- and the bounded controller of the language-driven tasks.
--
-- The program's parts. A control thread publishes observations to the engine, pulls one action per
-- control step, and asks just before dispatch whether the action is still current. An inference worker
-- takes the latest observation, runs the policy outside the locks, and merges the chunk of actions that
-- it returns into the queue, or hands it to a delivery thread, which merges it after a delay. Reset, stop
-- and a change of the task revoke what was predicted before. The inference runs in the process, in a
-- child process, or on another host: there a client sends frames over one connection to a server, whose
-- single executor runs the calls of all its connections. A task of the controller is authorized before it
-- runs, by the words of the request.
--
-- Which file models what (paths from the repository's root):
--   Engine/Types: src/actionstream/inference_types.py, the configuration and the queued values.
--   Engine/State: the fields of ActionStreamInferenceEngine (src/actionstream/inference_engine.py), with
--     __init__, _epoch_is_current_locked, _emit and _mark_fatal.
--   Engine/Queue: src/actionstream/action_queue.py, validate_chunk, get_action_with_revision,
--     is_action_current and merge_chunk.
--   Engine/Delivery: src/actionstream/delivery_scheduler.py.
--   Engine/Lifecycle: start, stop, pause, resume, reset and set_task of the engine.
--   Engine/Observing: notify_observation and telemetry.
--   Engine/Worker: _worker_loop by its locked sections, with its failure handling.
--   Engine/System: the threads together. A step is one locked section of one thread, so a run is any
--     interleaving of the sections; what the policy, the clock and the callbacks do is arbitrary.
--   Engine/Episode: the specification that the engine refines: what one episode holds, and its moves.
--   Runtime/Requests, Runtime/Queue, Runtime/Worker: src/actionstream/runtime.py, the requests and
--     results, ActionQueue and LatestRequestWorker.
--   Transport/Direct, Transport/Process: src/actionstream/inference_transport.py.
--   Rpc/Client: TcpInferenceTransport of src/actionstream/rpc_client.py, its state and sections, with
--     Client/Requests (_infer_request), Client/Resets (_control and reset) and Client/Threads, in which
--     any number of callers interleave; RpcTransportTelemetry of src/actionstream/rpc_telemetry.py.
--   Rpc/Values, Rpc/Frames: src/actionstream/rpc_protocol.py, the encoding of values and the framing.
--   Rpc/Executor: src/actionstream/rpc_executor.py, its thread and the threads that wait in execute.
--   Rpc/Server: RpcFaultProfile and _client_loop of src/actionstream/rpc_server_runtime.py.
--   Vla/Contracts, Vla/Execution, Vla/Control: TaskSpec, CheckDecision and Execution of
--     src/actionstream/llm_vla/contracts.py, and execute of src/actionstream/llm_vla/integration.py.
--   Vla/Confirmation, Vla/Metrics: ContinuousConfirmation and episode_metrics of
--     src/actionstream/llm_vla/confirmation.py.
--   Vla/Grounding: src/actionstream/llm_vla/grounding.py, up to validate_authorization.
--   Vla/Coverage: src/actionstream/llm_vla/coverage.py, up to the call of execute. The loop over the
--     tokens has as many rounds as the request has tokens, which is enough if every alias has one.
--
-- Correspondence. A method is a function on its object's state; one that raises returns the state that it
-- leaves beside the error. A method that releases the lock is split there, and what happens in between is
-- an argument. Control steps are integers from -1 on. Clock times, delays and latencies are whole ticks
-- of any unit, so that two times are compared as the code compares its floats; a float that the code only
-- tests is an integer or not finite. The delivery heap is a list in the order in which it pops, so the
-- order in which a reset reports the responses that it cancels is not that of the array. The cancellation
-- events are numbered by their creation. Tensors and arrays are lists of rows, and numpy's tests on a row
-- are parameters (Commands, Rows, Displacement). The methods of LeRobot's base class are a parameter
-- (TaskMethods), and so is what the transport, the delay provider, the observer and the sink do. Loops are
-- structural: a waiting loop is one round at a time, the rounds of the controller take what the outside
-- does in each round as a list, and 300 rounds are proved to be enough for it. _recv_exact has as many
-- rounds as bytes are missing, which is enough because each round reads one. What a thread meets between
-- two sections (a socket, a response, the time, a child that dies) is a World, an argument of each step.
-- A Python mapping is the list of its items in the order of its keys. base64, JSON texts, torch and numpy
-- are the parameter Libraries, and regular expressions, case folding and hashes the parameters Tools
-- and CoverTools.
--
-- Not modelled: the inference itself and the preparation of its input, name resolution and the attempts
-- to connect, accepting and closing sockets, what a child process runs and how it is killed, the files of
-- telemetry, thread creation and joins, waits and backoff, logging, the content of events, the rotation
-- metric of a replacement and quotients of two numbers (both are kept), the grammar of covered requests,
-- the models of language and vision, and the reporting, calibration and release tools.
pub mod Prelude
pub mod Engine
pub mod Runtime
pub mod Rpc
pub mod Transport
pub mod Vla
