-- ===== src/Lib.antt =====
-- The kernel of starstruck, a replacement for the IOS of the Wii's ARM processor.
--
-- The parts and how they interact. The scheduler keeps threads in singly linked queues that are
-- ordered by priority, and one running thread. A thread waits by pushing itself on a queue and
-- switching to the first ready thread; another thread wakes it by popping it off. Message queues are
-- rings of words with two such thread queues, one for receivers and one for senders. The timers are
-- a list ordered by deadline, each with the ticks behind the one before it. The key store keeps keys
-- as chains of 32-byte entries behind handles. A heap is a piece of memory with a list of its free
-- blocks, ordered by address and linked in both directions. An interrupt posts the message of its
-- event to a message queue. A message queue is registered as the resource manager of a device path.
-- The memory is mapped by tables of sections and pages, which also say what a process may access.
-- The calls on key objects check who owns a key, allocate and free its entries in the key store, and
-- raise the counters of the serial EEPROM. The serial EEPROM is driven bit by bit. Each call runs
-- with interrupts off, so that a call is one step between two switches.
--
-- Base             numbers, lists, signed values, and `Run`: a value, a memory fault, or a loop that
--                  has used up its fuel.
-- Threads          kernel/source/scheduler/threads.c, threads.h and threads_asm.s.
--   State            `ThreadInfo` and the globals, with the `NextThread` cells as one table `links`,
--                    for the code casts `&thread->NextThread` to a `ThreadQueue*`.
--   Queue            ThreadQueue_PushThread, _PopThread and _RemoveThread.
--   Schedule         ScheduleYield, YieldCurrentThread, YieldThread, UnblockThread.
--   Syscalls         CreateThread, StartThread, CancelThread, JoinThread, SuspendThread.
--   Attributes       InitializeThreadContext, priorities, user and group ids.
--   Chain, Push, Order, Pop, Switch, Preempt, Unblock, UnblockStart, Block, Start, Create
--                    the theorems on them.
-- Messages         kernel/source/messaging/messageQueue.c and messageQueue.h.
--   State, Transfer, Handlers
--                    the queues, SendMessageToQueue and ReceiveMessageFromQueue, and the calls.
--   Contents, Ring, Returns, Calls, Waiting, Destroy
--                    a queue as the list of its messages, the calls on it, those that wait, and
--                    the loops of DestroyMessageQueue.
-- Keyring          kernel/source/crypto/keyring.c and keyring.h.
--   State, Alloc, Access, Bytes
--                    the store, its allocation, the accessors, SetKey and GetKey.
--   Chains, Entries, Allocation, RoundTrip, Stored, Full
--                    the theorems on them.
-- Timers           kernel/source/scheduler/timer.c and timer.h: State, Queue (QueueTimer), Calls
--                  (CreateTimer, RestartTimer, StopTimer, DestroyTimer), Deadlines.
-- Seeprom          kernel/source/crypto/seeprom.c: Pins, Transfer, Seed, Words;
--                  with kernel/source/crypto/nand.c the NAND counters, Counters, Index, Newest and Updated,
--                  and with kernel/source/crypto/boot2.c the boot2 counters, Boot2 and Shifted.
-- Heaps            kernel/source/memory/heaps.c and heaps.h.
--   State, Create, Mallocate, Free
--                    the table and the block headers, CreateHeap and DestroyHeap, MallocateOnHeap
--                    and AllocateOnHeap, FreeOnHeap.
--   Chain, Merge, Insert, Behind, Release, Links, Freed
--                    the list of free blocks, and FreeOnHeap on it.
--   Best, Loop, Marked, Allocated, Search, Taken, Headers, RoundTrip, Created
--                    the search of MallocateOnHeap, its writes, and CreateHeap.
-- Paging           kernel/source/memory/memory.c and memory.h.
--   State, Cache, Map, Check, Setup
--                    the tables and the log, the caches, MapMemory, VirtualToPhysical and
--                    CheckMemoryPointer, InitializeMemory and the registers of the memory.
--   Block, Readable, Checked, Types
--                    CheckMemoryPointer against the formats of the tables' entries, which say of each
--                    address whether user mode may read it, and its type of access.
--   Entry, Sections, Translated, Endless, Flushed
--                    mapped sections and their translation, and the lines that are flushed.
-- Iosc             kernel/source/crypto/iosc.c: Objects (key objects), Counters, SetData.
--   Ended, Deleted, Created, Released
--                    the deletion of a key's entries, and what a created object is.
--   CounterKey, Advanced, Unread
--                    IOSC_SetData on the key of a counter.
--   Otp, Init, Started, FirstValue
--                    kernel/source/crypto/otp.c, Keyring_Init, SEEPROM_GetKoreanCommonKey and
--                    IOSC_Init, and the first calls behind them.
-- Interrupts       kernel/source/interrupt/irq.c and irq.h: State, Events (the calls on event handlers),
--                  Handler (IrqHandler), Posted (the message of an event).
-- Resources        kernel/source/messaging/resourceManager.c and resourceManager.h: Register, and Table and Again
--                  on the table of managers.
-- Strings          core/source/string.c: Memory and Memset (the stores), Compare, Copy, and with the
--                  theorems Bytes, Fill, Filled (memset), Takes, Copied (memcpy), Compared, Overrun.
--
-- How the code is read. Pointers are numbers: a thread is 0 for NULL, 1 for ThreadStartingState and
-- i + 2 for Threads[i]. A call that switches gives the state in which the next thread goes on, and a
-- call that waits takes the list of the states in which it is resumed, with the value that it is
-- woken with; the list may hold anything, and with none left the call has not returned. The result
-- of CheckMemoryPointer outside of Paging, the symbols of the linker, the words of the
-- one-time-programmable memory and whether it is set, the chip behind the EEPROM's wires, the stack
-- behind the array of boot2 counters, the timer register, the core clock and the owners of the
-- message queues are parameters. 32-bit sums have their wrap-around written out where they can wrap.
-- The kernel build is meant, without MIOS.
--
-- Fuel. The walk over a thread queue has 102 rounds, one for each of the 100 threads, the starting
-- state, and one more; the scheduler's invariant asks for a queue that is shorter. The walk over the
-- parts of a key has 65 rounds, for there are 64 entries. The walk over the timers has 258 rounds,
-- for there are 256 timers. The walks over the free blocks of a heap have 2^28 rounds, one for each
-- header of 16 bytes in a memory of 2^32. MapMemory has 2^20 + 1 rounds and CheckMemoryPointer 2^20,
-- for a round moves by a page of 4096 bytes at least. The deletion of a key has 65 rounds. The loops
-- of IOSC_SetData and of DestroyMessageQueue run on fuel that is given, since they need not end.
--
-- What is not modelled: LaunchRM, GetThreadID, GetProcessID, TimerHandler, the ids in the EEPROM,
-- IOSC_InitInformation, and all other parts of the repository: exceptions, file descriptors, the
-- mailbox to the PowerPC, the encryption and authentication calls and the drivers of the crypto
-- engines, SD card, FatFs (a copy of a library), loaders, vsprintf (a copy of a library) and user
-- modules.
pub mod Base
pub mod Threads
pub mod Messages
pub mod Keyring
pub mod Seeprom
pub mod Timers
pub mod Heaps
pub mod Interrupts
pub mod Strings
pub mod Paging
pub mod Iosc
pub mod Resources
