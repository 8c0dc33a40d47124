-- ===== src/Lib.antt =====
-- The run-time system of cant, an automotive runtime in C: the parts that carry data and decide
-- on sessions, modelled as functions on their state.
--
-- - NetBuffer models src/runtime/network/net_buffer.c: `NetBuffer_Init` is `NetBuffer.init`,
--   `NetBuffer_Write` is `write`, and so on. NetBuffer/Fifo is the bounded queue that it
--   implements; Inv has the well-formedness invariant, Store and Load the copies round the end
--   of the array, Refine the single calls and Run sequences of them.
-- - Timer models the timers of src/runtime/utils/timer.c, which the transport starts and tests.
-- - Isotp models src/runtime/protocols/isotp.c: the frames and the changes of `tx_state` and
--   `rx_state` stand in Isotp, the functions in Isotp/Calls. The CAN driver of
--   src/runtime/drivers/can_driver.h is hardware access and a parameter: a type of states with
--   `can_transmit` and `can_receive`. Frames has the bytes of the frames; Reassembly and
--   Delivery follow a message through the receiver, Wire joins a sender to it over a list of
--   frames, and Faults is about bad frames and the loop. `isotp_transmit` sends only the first
--   frame of a long message; the calls of `send_consecutive_frame` that would send the rest are
--   not in isotp.c, and in Wire they are a loop of its own, `send_rest`.
-- - SessionFsm models src/runtime/diagnostic/session/session_fsm.c: the transition table and its
--   handlers stand in SessionFsm, the functions on the table of sessions in SessionFsm/Calls.
--   Trace has sequences of calls, Slots what each call does to a slot, Ids and Valid the
--   invariant of the table, Table and Runs its preservation, Reach the reachable states, Returns
--   and Lock whether the calls return with and without a recursive lock.
-- - SessionManager models src/runtime/diagnostic/session_manager.c, with the enumerations of
--   uds_handler.h: its data and access matrix stand in SessionManager, its functions in
--   SessionManager/Calls. Access says which services it lets through, Timeout is about the S3
--   timeout, Trace has sequences of calls, and Sealed and Held what they cannot do.
-- - ServiceRouter models src/runtime/diagnostic/service_router.c: Routes is about adding,
--   removing and finding routes, and Guard about the requests that are refused. It asks the
--   session manager of SessionManager whether a request may go on.
-- - SecurityState models src/runtime/diagnostic/security_state.c: Attempts has the states that
--   calls without a right key reach, and Rounds the rounds of a seed and a key.
-- - Critical models the critical sections of src/runtime/os/critical.c. The interrupt intrinsics
--   are an interface with what is documented of them; Nesting has sections one inside the other.
-- - DtcManager models src/runtime/diagnostic/dtc_manager.c: reports stand in DtcManager, the
--   other functions in DtcManager/Calls, the aging of codes in DtcManager/Aging, whose Loop
--   compares the loop with a filter of the list and whose Reentry is about its critical section.
--   Table has the records as a map, Frames and Trace sequences of calls.
-- - DataManager models src/runtime/diagnostic/data_manager.c: the table of identifiers stands in
--   DataManager, reading and writing in DataManager/Access. The memory behind an identifier and
--   the session manager are reached through an interface. Table has the identifiers as a map,
--   Guard what is refused, and RoundTrip what is read back.
-- - DiagParser models src/runtime/diagnostic/diag_parser.c: requests stand in DiagParser,
--   responses and the printer in DiagParser/Format. Checksum has the checksum as a sum,
--   RoundTrip requests that are printed and parsed.
-- - DiagMemory models src/runtime/diagnostic/memory_manager.c: the areas and the platform's
--   accesses stand in DiagMemory, the operations in DiagMemory/Calls. Bounds is about the ranges
--   that are written, Loads about bytes in memory, and Verify about the comparison in chunks.
-- - RoutineManager models src/runtime/diagnostic/routine_manager.c: its data stand in
--   RoutineManager, its calls in RoutineManager/Calls, the timeout check and the abort in
--   RoutineManager/Timeouts, with what their loops leave in Left and Loops. Valid and Steps have
--   the invariant of its two tables, and Trace sequences of calls. It asks SessionManager for
--   the security level and uses Timer.
-- - RtMemory models the block pool of src/runtime/memory/rt_memory.c. Client has a client of the
--   pool with the blocks that it holds, and Sharing how these and the free ones share the pool.
-- - Prelude/Table has what the tables of routes, identifiers, codes and routines share: an array
--   with a count and keys as a map, which Prelude/Table/Arrays adds to, changes and removes
--   from.
--
-- A pointer that may be NULL is an `Option`; a byte is a number below 256; 32-bit and 64-bit
-- values wrap where the code computes with them. A call under a lock is one step. The clock and
-- what `malloc` returns are arguments. A call that reads through NULL or waits for its own lock
-- is an outcome of SessionFsm; a read past the transition matrix of SessionManager is `none`, as
-- is a write through NULL in DtcManager; an access outside a buffer is a fault of DiagParser.
--
-- The loops over arrays are recursions on lists or on the 16 slots. The loop of `isotp_process`
-- ends when the driver has no frame; it has fuel, and Isotp/Faults says how much is enough. The
-- aging loop has as many rounds as there are records, those over active routines as many as
-- these, and the loop of the verification as many as bytes.
--
-- Not modelled: the other diagnostic managers, the general memory manager, the safety monitors
-- and the scheduler; the compiler, most of which calls LLVM; drivers and registers; logging.
pub mod Prelude
pub mod Critical
pub mod DataManager
pub mod DiagMemory
pub mod DiagParser
pub mod DtcManager
pub mod Isotp
pub mod NetBuffer
pub mod RoutineManager
pub mod RtMemory
pub mod SecurityState
pub mod ServiceRouter
pub mod SessionFsm
pub mod SessionManager
pub mod Timer
