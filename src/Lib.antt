-- ===== src/Lib.antt =====
-- ParqDB: the service that the Python package offers over HTTP, from the client's call to the
-- service's operation.
--
-- The client, HttpTransport in python/parqdb/transport/http.py, makes a message of each call: a path
-- that names a table, and a JSON body. The server, python/parqdb/server/app.py, checks the route and
-- the body of a request, calls the session service, and answers with JSON or a stream of bytes; what
-- is raised on the way becomes an error response, of which the client makes an exception again. Both
-- sides share the messages of python/parqdb/transport/models.py.
--
-- The files, with the code that each models:
--   Prelude            shared names, Boolean tests, lists over native numbers
--   Python             what the code uses of Python: exception classes (with python/parqdb/errors.py),
--                      integers, floats, dynamically typed values, code that calls a stateful service
--   Text               texts: split and join, UTF-8, percent-encoding, int() and str()
--   Identifier         python/parqdb/identifier.py
--   Config             python/parqdb/config.py: IVF, WriteOptions, compression names
--   Query              python/parqdb/query.py
--   Status             python/parqdb/build.py and IndexInfo of python/parqdb/table.py
--   Models             python/parqdb/transport/models.py, one file for each kind of message; `x_to_json`
--                      and `x_from_json` are the code's functions of these names
--   Errors             python/parqdb/transport/errors.py
--   Sources            python/parqdb/server/source_policy.py
--   Http               python/parqdb/transport/http.py: paths in Routes, HttpTransport in Client and
--                      Client/Tables, wait_for_index in Waiting, the URL and the timeout in Settings
--   Server             python/parqdb/server/app.py: Routes and Requests have the helpers, Tables, Indexes
--                      and Queries the handlers, Service the interface of the session service
--   Ipc                python/parqdb/transport/ipc.py: the encoding stream in Encoded, the decoding one in
--                      Decoded
--   Host               python/parqdb/session.py: Native is the native session, a parameter, with Tables,
--                      Explain and Quoting over it
--   Runtime            python/parqdb/runtime/service.py: the session service; Serving puts it behind the
--                      handlers
--   Facade             python/parqdb/facade.py: AsyncSession and its result streams; Blocking has
--                      Session, its bridge and connect, Batches its iterator, Connect connect_async,
--                      Vectors the vector queries
--   Settings           python/parqdb/server/config.py, with the choice of a configuration in
--                      python/parqdb/cli.py
--   Publish            python/parqdb/publish.py: the paths of a publication, the S3 writer, its rollback;
--                      Source checks the source, Local has the local writer and the choice of a writer,
--                      Building the checks before a build
--   Tests              concrete inputs
--
-- State: a handler is an action on the service's state, which it returns with the result; the
-- client's operations are actions on the state of the network. A handler's awaits are taken to run in
-- order, with nothing between them. An exception is a value, its class and its text.
--
-- Fuel: the client's loop over the pages of the list of tables has it, since a server may send new
-- tokens for ever, and so has the wait for an index, since the clock is a parameter. Without enough of
-- it the result is `none`. One turn more than 50 milliseconds fit into the timeout is enough for the
-- wait.
--
-- Parameters: PyArrow's schemas (the record Arrow), the JSON parser and the size of a JSON text, the
-- network, the native session, the native codec of streams, the web server's percent-decoding of a path,
-- what the file system resolves a path to, and the check of unusual authorities in urlsplit. The
-- handlers take the source policy's decision as a parameter too. A write of a publication fails by
-- a list of faults that lie ahead; the deletes from S3 after it succeed, and what rmtree leaves of a
-- local directory is a parameter, as is what PyArrow reads of a Parquet file.
--
-- Kept simple: a text is a sequence of Unicode scalar values; int() reads ASCII digits with blanks, a
-- sign and underscores, with no limit on their number; a dict has text keys, each once. The client's
-- create and refresh operations have the wait for an index as an argument, a wait being modelled for
-- itself; its times are whole nanoseconds, without the rounding of floats. Not modelled: the streamed
-- query of the client, the objects of a publication, the build of an index, the native module, the
-- DataFusion bindings, the command line and the OpenAPI document.
pub mod Prelude
pub mod Python
pub mod Text
pub mod Identifier
pub mod Config
pub mod Query
pub mod Status
pub mod Models
pub mod Errors
pub mod Sources
pub mod Http
pub mod Ipc
pub mod Host
pub mod Runtime
pub mod Facade
pub mod Server
pub mod Settings
pub mod Publish
pub mod Tests
