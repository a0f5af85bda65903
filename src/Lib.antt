-- ===== src/Lib.antt =====
-- gMaxLinked, a server for long-lived connections: the verification of its core.
--
-- Clients connect by TCP. A node (CNode) cuts the bytes of one connection into messages and puts them
-- into the queue of its group (CNodeGroup), a ring of bytes (CLoopBuffer). The group's thread takes
-- the messages out and hands each to its transaction (CTransaction), the state of the client's
-- session, which answers through the node and asks the transaction manager for timers and the
-- database for the user of a session and for messages. The settings come from a configuration file.
--
--   Base: Booleans, lists of bytes, machine words and code that can fault.
--   LoopBuffer: src/common/CLoopBuffer.cpp (write, read, reset). Children: Invariant, Write and Appends,
--     Read, Took and Takes, Fifo.
--   Message: src/traffic/Message.h, the packed structs as bytes. Child: Codec.
--   MessageQueue: src/traffic/CNodeGroup.cpp (putMessage, and the front of _rollingQueue, as fetch).
--     Children: Order, History.
--   Socket: what the program asks of a connected socket, a parameter with the documented behaviour of
--     read and write.
--   Node: src/traffic/CNode.cpp (recv, send and their errors, onAttach and onDetach). Children: Packets,
--     Deliver, Ready, HeaderBytes, Rounds, Recv, Send, Overrun, Attach.
--   Transaction: src/transaction/CTransaction.cpp. Act has the state, the calls and the monad; Pdu the
--     messages that a transaction makes; Handlers and Messages the operations. Other children:
--     Lifecycle, Faults, Reach, Ends, Session, Acks.
--   Resource: src/common/CResource.h. Child: Units.
--   TimerManager: src/common/CTimerManager.cpp, its chain as a doubly linked list in a store. Children:
--     Links, Chain, Unlink.
--   TransactionManager: src/transaction/CTransactionManager.cpp. Children: Sessions, and Internal for
--     the messages that the program sends to itself.
--   NodeGroup: src/traffic/CNodeGroup.cpp (attach, detach, _rollingNode and the whole of
--     _rollingQueue, and working). Children: Turns, Dispatch, Served, Working, Valid.
--   Traffic: src/traffic/CTrafficManager.cpp (accepting clients, the groups, recycling and the
--     events of a node). Children: Groups, Recycle, Pool, Histories, Events, Over,
--     Broken, Working (a round of the thread), Apart, Isolated.
--   ConfReader: src/common/CConfReader.cpp. Children: Total (its loops end), Written (a file as sections
--     of settings), Scan, Lookup, Back, Sections, Searches and RoundTrip (such a file read back).
--   Config: src/config/Config.cpp, with DefaultConfig.h and Size.h. Children: Bounds, Ranges.
--   Database: src/database/CRedisOperator.cpp. Run has the commands, the replies and the monad;
--     Operator, Send and Check the operations, the last one on the database and a transaction at once.
--     Other children: Connect, Sent, Serves, Outage, Keeps, Pushed, Progress.
--   Client: clients/c/bridge.c, the client's side of the protocol. Children: Fields, Requests (what the
--     client sends, as the server reads it), Answers and Pushes (what the server sends, and the way back),
--     Connection (cnn_send of clients/c/connection.c), Receive (the loop that receives) and Thread (the
--     thread of the connection, round by round).
--   Worker: src/common/CWorker.cpp, the start of a thread and the thread, step by step (work, _run).
--     Children: Together, Started (what holds when work returns) and Stuck (how the two can block each other).
--
-- A fault is `none`: a failed assert (the build does not define NDEBUG) or an access outside an array.
-- The session id of a handshake that does not end in its array is such an access; any other string
-- out of a message or a reply is taken to end with it.
-- Pointers into an array are offsets; sizes of 16, 32 and 64 bits wrap as written. A mutex makes each
-- operation that it guards one step, but for Worker, which has the steps of both threads under any
-- schedule. A transaction keeps a log of its calls, the last first, and what
-- the callee answers is a function of the calls so far, a parameter, so that an answer may be any.
--
-- The loops of recv and send run on fuel. recv needs more fuel than there are bytes on their way,
-- since each round that goes on reads some; send needs more than the length of the message and the
-- number of times that the socket will still answer EAGAIN in a row, since without such a bound the
-- loop of the code does not end either.
--
-- The loops of the configuration's reader get one round more than there are bytes in the buffer, which
-- is enough. connect of the database and its error handler call each other; the depth of the stack
-- bounds that, and a stack that is full is a fault.
--
-- Not modelled: the semaphore and the automatic pointer (src/common), the start of the process
-- (src/gMaxLinked.cpp), the client in Java (clients/java), the start and stop of the thread of the
-- client in C, and the part of the traffic manager that sets up the listening socket, whose steps are
-- calls of the system.
pub mod Base
pub mod ConfReader
pub mod Config
pub mod Database
pub mod Client
pub mod LoopBuffer
pub mod Message
pub mod MessageQueue
pub mod Socket
pub mod Node
pub mod NodeGroup
pub mod Transaction
pub mod Resource
pub mod TimerManager
pub mod Traffic
pub mod Worker
pub mod TransactionManager
