-- ===== src/Lib.antt =====
-- bdbmsgstore: the asynchronous message store of a Qpid broker on Berkeley DB.
--
-- The broker's threads call `enqueue` and `dequeue` of lib/BdbStoreProvider.cpp, which write the start
-- of the operation to a log (lib/AsyncOperationLogger.cpp), note it in a tracker (lib/PidTracker.cpp)
-- and hand the work to a pool of threads; a worker stores or removes the message in the journal of its
-- queue (lib/JournalImpl.cpp) and logs the completion. After a crash the logs say which operations were
-- started and not completed, and these are done again. Two cleaner threads keep the logs short.
--
-- The files and what they model:
--   Prelude, OrdMap, TwoLevel: shared lemmas, and `std::map` and `std::set` of 64-bit keys with the
--     find-insert and find-erase sequences that the sources repeat; lib/PendingOperationSet.h.
--   Bytes, Word: `memcpy` of a 64-bit integer on a little-endian host, and its arithmetic.
--   PendingOperation: lib/PendingOperationType.h, and the operators of lib/AsyncOperationLogger.cpp.
--   AsyncLog: lib/AsyncOperationLogger.cpp. Format has the bytes of each record; Extract the two
--     reading loops; Replay the effect of one record on the two sets; Logger the writing operations;
--     Recover the pass at start-up; Clean one round of each cleaner.
--   IdSequence: lib/IdSequence.{h,cpp}.
--   PidTracker: lib/PidTracker.{h,cpp}. Record has the state and `addPid`, Duplicates `addDuplicate`,
--     Smart `willEnqueue` and the two checks, Wait `waitForPid` and `stop`.
--   Journal: lib/JournalImpl.cpp. Key has the comparison of keys, Berkeley what is asked of a
--     database, Journal itself the state and the calls that store, remove and look up a message, Scan
--     the reading of a whole journal through the cursors of lib/Cursor.h, Startup the lists to
--     discard and the flush timer. Contents, Outcomes, Calls, Refine and Collide read a journal as a
--     map; Reliable has what is assumed of calls that work, and Cells is a database that satisfies it.
--   Outcome: what a call may come to.
--   TxnCtxt: lib/TxnCtxt.{h,cpp}: a transaction with the lock that serialises the writers, and the block
--     of calls that lib/BdbStoreProvider.cpp and lib/JournalImpl.cpp put in one. Atomic and Ending say
--     how such a block ends.
--   Registry: lib/BdbStoreProvider.cpp: configuration items and exchanges, created, destroyed and
--     recovered. Run has calls in a row with restarts in between, and Bindings the bindings of queues
--     to exchanges, with lib/BindingDbt.cpp; Queues has the queues with their journals. The two
--     Memory files are databases that satisfy what is assumed.
--   Paths: `bHash` and `getJrnlHashDir` of lib/BdbStoreProvider.cpp, and `getSubDbPath` of
--     lib/JournalImpl.cpp: the paths of the message databases.
--   Provider: lib/BdbStoreProvider.cpp: `enqueue` and `dequeue`; Pools has the `store` and
--     `async_dequeue` that the pools run. A scheduled call is a task on a list; whether a pool takes it is an argument.
--     Recovery has `decodeAndRecoverMsg`, which recovers the messages of one queue from the journal
--     and the log, and Startup `recoverMessages`, which does so for all queues and then schedules the
--     pending operations again.
--   Message: `msgEncode` of lib/BdbStoreProvider.cpp and `loadMsgContent` of lib/JournalImpl.cpp; the
--     broker's `Buffer` is a parameter.
-- Each module's Tests hold runs on concrete inputs.
--
-- How the code is modelled:
--   A 64-bit integer is a natural number with its wrap-around written out, a byte a number below
--   256, and the conversion to `int` keeps the low 32 bits.
--   An operation holds the mutex of its state throughout, so it is one step on that state, with two
--   exceptions. A round of a cleaner releases the mutex: what other threads append in between is an
--   argument of the round. A mass completion takes it once with its big buffer, and once for each
--   record without: what other threads do to the logs before it takes the mutex is a function in its
--   `MassContext`. `waitForPid` takes the states that it finds when it is woken, as a list.
--   A reading loop has as fuel one more than the length of the file, and each turn takes at least
--   one byte.
--   A log's file is its content or its absence, by index: the names that `buildEnqLogName` and
--   `buildDeqLogName` make of the index are not modelled.
--   A stream's `open`, `write` and `flush` succeed; the sources catch exceptions there that the
--   streams are not set to throw. The small buffers can be had; whether the buffer of a mass
--   completion can is `malloc` of its `MassContext`, and whether a vector for a message can the
--   parameter `can_hold`.
--   The lists of a mass completion are short enough for their size in bytes to be an `int`.
--   A Berkeley DB database is a parameter, a record of calls that throw or have a status, with what
--   `txn_begin`, `commit` and `abort` answer in the transaction around a put or a delete of a message;
--   in the registry these answers are arguments. `IsDatabase`, `IsObjectDb` and `IsBindingDb`
--   have what its manual says, `IsReliable` that no put and no delete throws or fails, and `HasTxns`
--   that transactions begin and are committed. The opening of the message databases is one call with
--   its transaction.
--   A cursor is the list of what `next` gives; the round-robin loop over the cursors has fuel for
--   one lap more than the longest list has rows.
--   An access out of a vector, through a null pointer, or through a handle after its end, or a
--   division by 0 is the outcome `undefined`.
--   The broker's side of the recovery is a parameter: what it makes of an encoding, whether it
--   wants the content of a message, and a message's unique id. What a `Buffer` does beyond its
--   end is `undefined` for messages, and for bindings it throws. An exception in the recovery
--   ends the start-up, and the state that it leaves is dropped. `compact_message_database`
--   returns at once.
--   Whether a directory can be made or deleted, and which databases can be removed, are
--   arguments.
--
-- Not modelled: of lib/BdbStoreProvider.cpp `loadContent`, `flush`,
-- `init`, `truncateInit` and `finalizeMe`; of lib/TxnCtxt.cpp the part for journals, which
-- nothing calls; the copies of the Boost thread pool under lib/ext, the generated management
-- classes under lib/gen, the plug-in glue and the directory helpers of lib/jrnl, logging and
-- timing.
pub mod AsyncLog
pub mod Bytes
pub mod IdSequence
pub mod Journal
pub mod Message
pub mod OrdMap
pub mod Outcome
pub mod Paths
pub mod PendingOperation
pub mod PidTracker
pub mod Prelude
pub mod Provider
pub mod Registry
pub mod TwoLevel
pub mod TxnCtxt
pub mod Word
