-- ===== src/Lib.antt =====
-- pynumaflow, the Python SDK of Numaflow: user-defined functions behind gRPC servers. The platform opens
-- a bidirectional stream to a servicer, sends requests, and reads responses; the servicer calls the
-- user's handler. This library models the servicers, from the stream of requests to the stream of
-- responses and the end of the rpc.
--
-- The program, below packages/pynumaflow/pynumaflow, and the files here:
--   shared/asynciter.py, shared/synciter.py: the queues, and the iterators over them that end at
--     STREAM_EOF: Shared/Queue.
--   shared/server.py: exit_on_error, update_context_err, handle_async_error: Shared/Server, with the
--     type of what an rpc sends and how it ends.
--   mapper/_dtypes.py and the generated types of proto/: Shared/Proto and Shared/MapProto.
--   reducer/servicer/task_manager.py: build_unique_key_name and build_window_hash in Reduce/Keys, the
--     class TaskManager in Reduce/TaskManager; reducer/servicer/async_servicer.py (ReduceFn) and
--     TaskManager.__invoke_reduce in Reduce/Servicer.
--   sinker (SinkFn of AsyncSinkServicer and of SyncSinkServicer, utils.py, Response) in Sink, and
--     batchmapper (MapFn) in BatchMap: instances of the loop over batches of Shared/Batches.
--   mapper (AsyncMapServicer, SyncMapServicer) in Map, mapstreamer in MapStream, sourcetransformer (both
--     servicers) in Transform: instances of Shared/Workers, where each request gets a task.
--   sourcer (AsyncSourceServicer) in Source, the user's source as an object with a state.
--   reducestreamer/servicer/task_manager.py in ReduceStream: the tasks, with the data types of the
--     reducer; __invoke_reduce and async_servicer.py (ReduceFn) in ReduceStream/Servicer.
--   accumulator/servicer/task_manager.py: the tasks in Accumulator/TaskManager, write_to_global_queue in
--     Accumulator/Watermarks, __invoke_accumulator and async_servicer.py (AccumulateFn) in
--     Accumulator/Servicer. Both servicers are instances of Shared/Streams, where tasks read while the
--     producer feeds them: a task manager fills the record Manager of Shared/Managers, and its theorems
--     fill ManagerLaws.
--   sideinput (RetrieveSideInput) in SideInput.
--   errors/errors.py (persist_critical_error) in Errors, with the threads that call it.
--   info/ in Info. mapper/multiproc_server.py, sourcetransformer/multiproc_server.py and
--     start_multiproc_server of shared/server.py in Servers. start_async_server, sync_server_start and
--     _run_server of shared/server.py, and write of info/server.py, in Servers/Starting, as sequences of
--     calls that may raise.
--   the other server classes (async_server.py, sync_server.py, server.py of each package): one module
--     Server, or AsyncServer and SyncServer, below the module of the package, with get_handler in
--     Handler; Servers/Classes lists them, all but the multiprocess ones, with what each is to offer and to tell.
-- The servers of a family differ in the fields of a record, `BatchServer` or `WorkerServer`: how a request
-- is read, what its handler does, what is sent, and how an error ends the rpc.
--
-- How the code is modelled:
--   - An asyncio program runs one coroutine at a time and the queues have no bound. In ReduceFn, and in
--     the loops over batches, no result depends on which task runs first: a queue is the sequence of
--     all that was put, and a handler is a function of what its iterator yields. A handler of batches
--     also sees whether its iterator has ended, and may still be waiting.
--   - Where the order is observable (one task for each request), the schedule is a run of the relation
--     Shared.Workers.Step; an rpc is what the consumer makes of the queue when no step is left.
--   - Where tasks live as long as the stream (accumulator, reducestreamer), the schedule is a run of
--     Shared.Streams.Step: between any two turns of the producer, any task may put its next result, or
--     end. A handler is a function of what its iterator has yielded so far and whether it has ended; a
--     task's consumer is one with it, so a result counts as put when the consumer has put it into the
--     queue of all results. `close_task` removes its task before it waits, in the model, and
--     after, in the code; in between only the consumer of that task uses the entry.
--   - An error kills the process (or its parent, with several processes), so after it nothing is sent. A
--     handler of the reducer's ReduceFn that raises ends the process when it raises; the model of that rpc
--     is for runs in which no handler raises before its future is awaited.
--   - Loops over requests and tasks are structural recursion on lists; there is no fuel. Schedules are
--     finite because a step lowers a number (Shared/Workers/Progress) or, where tasks live as long as
--     the stream, a pair of numbers (Shared/Streams/Finite): what the producer has still to read, and
--     what the tasks can put with the input they have.
--   - Exceptions are known by the text of their repr. Strings and bytes are lists of code points, dicts
--     lists of pairs in the order of insertion, timestamps and dates integers (microseconds for dates).
--   - The generated code, and its conversions of timestamps and metadata, are the record Protobuf, a
--     parameter; so are `from_ms`, the conversion of milliseconds to a date, which divides floats, and
--     the environment's container type.
--
-- Not modelled: grpc, aiorun, sockets and processes (the start of a server is the sequence of the calls
-- on them), the JSON text of the file with the server's information (a parameter), logging, the
-- trailing status's traceback, and runs of the reducer's ReduceFn that a handler ends
-- before its future is awaited. The synchronous servicers of mapper and sourcetransformer shut their pool
-- of threads down at the end of an rpc: the theorems on the rpcs of Shared/Workers are for the first one
-- on a servicer object, and Shared/Workers/Pool has, for the transformer, the later ones. The multiprocess
-- servers write their information without waiting for a child to listen; Servers/Classes leaves them out.
-- pynumaflow-lite binds a Rust SDK whose code is elsewhere.
-- The examples are users of the library.
mod Base
pub mod Shared
pub mod Reduce
pub mod Sink
pub mod BatchMap
pub mod Map
pub mod MapStream
pub mod Transform
pub mod Source
pub mod ReduceStream
pub mod Accumulator
pub mod Errors
pub mod Info
pub mod Servers
pub mod SideInput
mod Tests
