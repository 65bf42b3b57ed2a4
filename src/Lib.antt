-- ===== src/Lib.antt =====
-- jrpc2 is a Go implementation of JSON-RPC 2.0: a client and a server that exchange messages over
-- a channel. This library models the module's core.
--
-- How the parts interact. A channel carries byte records (channel/). A record is one message or a
-- batch of them (json.go). The server's reader puts the batches of requests that it receives on a
-- queue (queue.go); its main loop takes a batch off, checks it and finds its handlers, runs them,
-- and sends the responses (server.go), counting what it does (metrics/). The client numbers its
-- calls, keeps those that wait for a reply by ID, and hands each reply to its call (client.go).
-- Errors are told apart by a code (code/, error.go). A handler is a function that reflection has
-- adapted, found by an assigner (handler/). Over HTTP a bridge hands the requests of each HTTP
-- request to a client and gives the responses the IDs of the requests, and a channel of a client may
-- send its records as HTTP requests (jhttp/). The package server starts a server for each connection
-- that is accepted (server/), and the command jcall makes calls from its arguments (tools/jcall/).
--
-- Which file models what:
--   Base, Base/*        lists and numbers over the native naturals, Go's maps, decimal numbers,
--                       signed integers with their wrap-around
--   Code, Code/Texts    code/code.go: the codes, their texts, `Register`
--   Errors, Errors/*    error.go, and of code/code.go, base.go, channel/channel.go and client.go what
--                       tells errors apart (`FromError`, `filterError`, `IsErrClosing`)
--   Message             json.go: `jmessage` and the tests on it
--   Message/Read        `jmessage.parseJSON`, `jmessages.parseJSON`
--   Message/Fields      what of a message depends on the order of a map, and when it is valid
--   Message/Parsed      `ParseRequests`, `ToRequest`; `Request` of base.go
--   Message/Write       `toJSON`; `Response.MarshalJSON` of base.go
--   Message/Bodies      the texts of requests, results and errors, and when they are well formed
--   Message/RoundTrip   what is printed is read again
--   Metrics, Metrics/*  metrics/metrics.go
--   Queue               queue.go over an explicit heap of entries
--   Queue/Chain, Queue/Refine, Queue/Session   the queue as a list of batches
--   Server/State        server.go: `Server`, `Start`, `stop`, `cancel`, `pushError`, `filterBatch`
--   Server/Tasks        `checkAndAssign`, `invoke`, the body of `dispatch`, `responses`
--   Server/Tasks/*      the duplicate IDs, the verdict on each request, the reply to a batch
--   Server/Steps        `read`, `nextRequest`, `deliver`, `dispatch`, `pushReq`, `waitCallback`,
--                       `WaitStatus`; `CancelRequest` of special.go
--   Server/Barrier      the wait of `dispatch` for the notifications before it
--   Server/Barrier/Order  the order in which notifications are completed
--   Server/Steps/Calls  a call of a method that is found
--   Server/Steps/Faults what becomes of some requests that are refused, and after a stop
--   Server/System       a server with its goroutines as a step relation
--   Server/System/*     what a step keeps, `pushReq`, the invariant of the callbacks
--   Channel/Direct      channel/channel.go: one direction of `Direct`
--   Channel/Raw         channel/json.go: `Send` and `Recv` of `RawJSON`
--   Channel/Split       channel/split.go: `Send` and `Recv`
--   Channel/Split/Lines what `Recv` returns
--   Channel/Header      channel/hdr.go: `Send` and `Recv` of `StrictHeader` and `Header`
--   Channel/Header/*    values that `Recv` does not trim, the round trip, the end of the loop
--   Client              client.go: `Client`, its reader, `stop`, `waitComplete`
--   Client/Requests     client.go: `req`, `note`, `send`, `Batch`
--   Client/Calls        client.go: `Call`, `CallResult`, `Notify`; `UnmarshalResult` of base.go
--   Client/Races        a reply against the end of its call's context
--   Client/System       a client with its goroutines as a step relation
--   Client/System/*     the numbers of calls, the invariant of the waiting calls, a stopped client, a
--                       batch that no other goroutine interrupts
--   Exchange/*          a call from `Batch` to its reply: the client's part, the server's part, both
--   Options             opts.go: the options with their defaults, the callback handler, `NewServer`
--                       and `NewClient` with them
--   Options/Callbacks   a callback from its request to its reply
--   Pending             the waiting calls as both a client and a server keep them
--   Network             base.go: `Network`; Network/Addresses: which addresses are TCP
--   Strings             what is used of the packages strings and sort
--   Handler/Assign      handler/handler.go: `Map` and `ServiceMap`
--   Handler/Check       `Check`; `structFieldNames`, `Positional` and `makeArgType` of
--                       handler/positional.go
--   Handler/Check/*     the signatures that are accepted, the names of positional arguments
--   Handler/Params      handler/handler.go: `Wrap`, `argWrapper` and the stubs; `UnmarshalParams` of
--                       base.go
--   Handler/Params/*    arrays of positional parameters, calls of an accepted function
--   Handler/Args        handler/helpers.go: the decoding of `Args` and `Obj`
--   Handler/Args/Places what `Args` stores
--   Response            base.go: `Response` and `wait`; Response/Waiters: what its waiters see
--   Jhttp/Bridge        jhttp/bridge.go: `serveInternal`, `ServeHTTP`; `writeJSON` of getter.go
--   Jhttp/Bridge/*      what the bridge is to answer, its loops, its replies
--   Jhttp/Getter        jhttp/getter.go: `ServeHTTP`, `ParseBasic`, `ParseQuery`
--   Jhttp/Getter/Values the values that a query is read as
--   Jhttp/Channel       jhttp/channel.go: `Send`, `Recv`, `Close`
--   Jhttp/Channel/*     the channel with its goroutines as a step relation, the account of the replies
--   Ledger              goroutines that are numbered, and what becomes of each
--   Loop                server/loop.go, server/run.go, server/local.go
--   Loop/Services       a loop with its goroutines as a step relation; Loop/Locals: a local pair
--   Jcall               tools/jcall/jcall.go: arguments, framings, `printResults`, `issueSequential`
--   Jcall/Specs         the calls that the arguments become, what the calls come to
--   Samples, */Tests    concrete messages and examples
--
-- State. A method that runs under a lock is a function from the state before to the state after;
-- `none` is a panic. The goroutines are the callers of these functions, in any order: Client/System,
-- Server/System, Jhttp/Channel/Fates and Loop/Services have one constructor for each. `Batch`, `Call`
-- and `Notify` take the client's lock for each request and again to send the requests: these are
-- steps of their own in Client/System, and `batch` of Client/Requests is the run without others in
-- between (Client/System/Batches). What a method
-- does outside its own state is recorded in the state: cancel functions that were called, messages
-- put on a response's channel, bytes sent. A handler, the assigner and a registry of code texts are
-- arguments.
--
-- Numbers. The queue's traversal has one round for each element and one more, which Queue/Session
-- shows to be enough. `Recv` in Channel/Split has one round for each byte and one more, which
-- Channel/Split/Lines shows to be enough. `Recv` in Channel/Header has as many, which
-- Channel/Header/Total shows to be enough; the longest slice that `make` gives is an argument of
-- it. Codes and counters are signed numbers; counters and call numbers wrap round at 64 bits.
-- Sizes, places and the numbers of responses are natural numbers.
--
-- Not modelled. encoding/json is a parameter, the record `Json` of Message: what the program uses of
-- it, as functions. Logging, contexts' values and the semaphore that bounds concurrency are left
-- out: a handler's run comes to an outcome, which may be that the semaphore was not acquired. The
-- result of the channel's `Send` does not change the server's state and is left out there.
-- Of handler/, the special case of `Wrap` for a function with the signature of `Handle`, and the
-- printing of `Args`, are not modelled: the decoders that a caller's type has are arguments. Of tools/,
-- the examples are not modelled, and of jcall not the dialing and the timing. A second `Close` of the
-- channel of jhttp/channel.go panics: that is `close_rsp` on a closed channel.
pub mod Base
pub mod Channel
pub mod Client
pub mod Code
pub mod Errors
pub mod Exchange
pub mod Ledger
pub mod Loop
pub mod Message
pub mod Metrics
pub mod Options
pub mod Pending
pub mod Queue
pub mod Samples
pub mod Server
pub mod Network
pub mod Strings
pub mod Handler
pub mod Jcall
pub mod Jhttp
pub mod Response
