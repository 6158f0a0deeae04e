-- ===== src/Lib.antt =====
-- Exercises in C on synchronisation, shared data structures, kernel modules and servers. Each program
-- stands alone; what they share is what they use of the operating system. The models follow that:
--
-- Prelude     shared names, tests on numbers, lists, and families of threads (Prelude.Tally).
-- Sync        `Mutual Exclusion Problems` and `Mutual Exclusion`. Sync.Interleaving runs any number of
--             threads by a schedule, an arbitrary list of thread numbers, one statement that touches
--             shared memory at a time. ReaderWriter (reader-writer.c), ReaderWriterNoStarve
--             (reader-writer-nostarve.c), NoStarveMutex (mutex-nostarve.c), Barrier (barrier.c),
--             Rendezvous (rendezvous.c), LockOrder (main-deadlock.c), GlobalLock
--             (main-deadlock-global.c), ForkJoin (fork-join.c), ConditionVariable (main-signal-cv.c),
--             LockedCounter (main-race.c, and simple-counter.c of `Multithreaded Datastructures`).
--             Sync.Termination leads from "some thread can go on" to "all threads finish". `Shared` is
--             the shared memory with each semaphore as its value, `Pc` the next statement of a thread,
--             `step` that statement, `start` what `main` begins with. `value++` and `critical++`,
--             whose protection is the question, are two steps, a load and a store; the counters of the
--             locks themselves are changed in one.
-- Structures  `Multithreaded Datastructures`. SloppyCounter (sloppy-counter.c); Nodes, Queue (queue.c)
--             and LinkedList (linked-list.c), on a heap of nodes. There each operation runs as a whole.
--             Queue.Runs has sequences of operations. SloppyCounter.Threads, Queue.Threads and
--             LinkedList.Threads are the same programs as threads that take turns, one statement at a
--             time, with their locks. In the last two a node is nobody's, on the list, or one
--             thread's (Nodes.Owners), and Invariant says who relies on what where it stands.
-- Driver      `Kernel Modules/hw4/modules` and `hw5/modules`. Driver.Kernel states what the modules
--             call on loading and unloading (`ModInit`, `ModExit`): the answers of the kernel are the
--             argument `Kernel`, the calls that take effect are recorded, and `replay` is their
--             documented effect on what is held, with the releases and uses of what is not there. Checked
--             and Lenient are the two routines that the modules share; Hello, HelloCounted, Mynull, Myzero, Openclose, Mybuffer, BufferSync,
--             Bare and Threads are the modules, with their file operations. Driver.Loading states what
--             loading leaves behind for nine modules at once. BufferSync.Threads splits the handlers
--             of mybuffer_sync at their atomic operations, and Threads.Counting interleaves the
--             threads of mysemaphore with its unloading.
-- Servers     `Multithreaded Server implementations`, and `Kernel Modules/hw6`. Servers.Text
--             has memory as the list of the bytes from a pointer on, so that a string without a NUL is
--             a read behind a buffer; World the loop that file-server.c, file-server-async.c,
--             file-server-signals.c and select-server.c share, with what it allocates, opens and sends;
--             Files readFromFile and writeToClient. FileServer, AsyncServer, SignalServer, SelectServer,
--             SimpleServer (simple-server.c), Client (file-server-client.c), EasyServer
--             (easy_server.c and its sysinfo.c) and ComplexServer (complexserver/src/controller/
--             MyController.hpp of hw6) are the programs. What the operating system answers is
--             a `Turn` for each round, with a request of the program's own; `none` is undefined
--             behaviour, a read behind a block of memory among it.
-- Timing      mytimer and myworkqueue of `Kernel Modules/hw5/modules`: the statistics of the delays.
--
-- Bounds and fuel. Numbers are natural numbers, and where C wraps around it is written out:
-- `unsigned long` in `sub64`, the `int` counters of HelloCounted and ComplexServer and the cast in
-- Mybuffer modulo 2 ^ 32. Semaphore values, `value` and `critical` are not wrapped: they are below
-- the number of increments. Fuel is used in `walk` (one unit for each node), in `decimal` (ten
-- digits, as many as an `int` has) and in `drain` (one unit for each read, the last of which finds
-- the end). The loops of the servers recur on the list of the rounds. Sync.Termination deals out n
-- * t rounds of turns to n threads of at most t steps each.
--
-- Arguments of the models, since their code is not in the repository: the kernel's answers, `copy` for
-- copy_to_user and copy_from_user (how many bytes are not copied), `jiffies_to_nsecs`, the clocks, HZ,
-- the addresses that malloc and kmalloc return, what the threads of sloppy-counter.c find in a
-- threadWrapper that main has left (supposed to be the number of some thread), how often a wait on a
-- condition variable ends without a signal, what sockets, select, files and aio answer, what printf and operator<< write for a number, and std::stoi. A semaphore and a mutex behave as POSIX says.
--
-- Not modelled: output, but for the `printf` that reads `value` in the two reader-writer programs;
-- sleep, time measurement, a malloc of the shared structures that fails, the size of the block that
-- mybuffer asks kmalloc for (8 bytes, so that `buffer->length` lies behind it), a kmalloc that fails
-- on loading, the thread of mykthread, main-signal.c, the sysinfo programs, the thread wrappers, the test programs,
-- the programs of `Simple Datastructures`, and the build of the system images with the
-- configuration of dropbear. Of the servers, the ports and addresses, setsockopt, and the
-- descriptors that AsyncreadFromFile opens.
pub mod Prelude
pub mod Driver
pub mod Structures
pub mod Sync
pub mod Timing
pub mod Servers
