-- ===== src/Lib.antt =====
-- A model of the kernel of SystemsOS, a small multitasking system for the PC: its queues, processes,
-- stacks, scheduler, clock, process creation, serial line, console, file system, system calls and
-- shell.
--
-- The parts and the files:
--   Machine    what a run of C code yields: a result and a state, or a panic (`_kpanic`, which stops
--              the machine), a fault (a NULL queue, node, PCB or stack is dereferenced, or an array
--              or a string literal is used beyond its room) or the end of the fuel; the sequencing of runs, total correctness (`Returns`), and sums modulo 2^32.
--   Queue      queue.c. A store holds the nodes and the queues by number: `&_qnodes[i]` and
--              `&_queues[i]` are i + 1, and 0 is NULL. Queue/Chain and Queue/Move are about lists of
--              linked nodes; Queue/View is the abstract view that a store represents (the entries and
--              the comparison of each queue, the number of free nodes, the queue of free queues);
--              Queue/Remove, Queue/Insert, Queue/Peek, Queue/Init and Queue/Boot take each function to
--              a function on views; Queue/Order is about the order of the keys.
--   Kernel     the variables of the other modules of the kernel, with the store of queue.c inside.
--              `&_pcbs[i]` is i + 1; longwords of the stacks are numbered and `&_stacks[i]` is
--              1024 * (i + 1). Kernel/Books is the invariant `IsKernel k v out lent`: the store
--              represents the view `v`; each queue has its role (1 free queues, 2 free PCBs, 3 free
--              stacks, 4 to 7 ready by priority, 8 sleeping by time); all 63 nodes are accounted for;
--              `out` of the 26 PCBs and `lent` of the 25 stacks are in no queue; no queue holds NULL.
--   Stack, Process, Scheduler, System, Syscall, Clock
--              stack.c, process.c, scheduler.c, `_create_process` of system.c, syscall.c and clock.c.
--              The files below them hold the theorems.
--   Sio        sio.c: the two buffers of the serial line as arrays with two pointers and a count each,
--              a pointer being its distance from the start. Sio/Input and Sio/Output see them as queues
--              of characters; Sio/Copy and Sio/Write are about `_sio_writes`, Sio/Isr
--              about the interrupt handler, and Sio/Overrun about what the pointers that are never
--              wrapped lead to.
--   Keyboard, Screen, Console
--              c_io.c: the circular buffer of the keyboard (Keyboard/Ring sees it as a queue), the video
--              memory with the scrolling region and the cursor (Screen/Cells, Screen/Region,
--              Screen/Typing, Screen/Putchar, Screen/Cursor), and `c_getchar` and `c_gets`, which use
--              both (Console/Lines).
--   Transfer   `_sys_read` and `_sys_write` of syscall.c, on the kernel with both devices and the
--              memory of the processes. Transfer/Stream is the interface that the two devices share.
--   Convert    `cvtdec0`, `cvtdec`, `cvthex` and `cvtoct` of c_io.c, with lists of character codes for
--              the buffers.
--   Printf     `__c_do_printf` of c_io.c, with the strings of the program and the arguments as
--              functions; Printf/Text is the output of one text; Printf/Pieces has formats that are made of
--              pieces, with what they mean, and Printf/Meaning takes `c_printf` of one to its meaning.
--   Text       the string functions of user.c that the file system shares, `hashCommand`, `len`
--              (here `buffer_len`) and `compare`; Text/Laws shows that `compare` decides whether two strings are the same.
--   Files      fileSystem.c: the table of entries by number, the bytes of the blocks one behind the
--              other, and the current directory; Files/Content has the operations on what the
--              entries stand for. Files/First and Files/Names are the abstract view, the lookup of
--              a name and type, with the invariant `IsFiles`; Files/Paths is about the directories of a path; Files/Create, Files/Unlink,
--              Files/Remove, Files/Kept, Files/Start, Files/Content/Copy and Files/Content/Transfer
--              take each operation to what it does to lookups and data, and Files/Reach is about
--              sequences of calls.
--   Trap       `_sys_isr` of syscall.c with its table, and the calls on files, on the computer with
--              its file system; Trap/Events is about sequences of system calls and clock interrupts.
--   Ulib       the conversions of ulibc.c, against those of Convert in Ulib/Laws.
--   Shell      the shell of user.c: reading a line, splitting it (Shell/Split) and its commands
--              (Shell/Session).
--   Boot       `_init` of system.c, with the processes init, idle and hello and then the shell
--              (Boot/Shell), and the state that it leaves.
--   Tests      runs at concrete inputs: a kernel that has started, in files by subject.
--
-- A function f of the C code is the definition f without the leading underscores; a function of
-- queue.c, sio.c or c_io.c also loses the prefix `queue_`, `sio_` or `c_`. The modules interact by
-- calls: the scheduler, the clock and the allocators call queue.c on their own queues, the clock and
-- the system calls call the scheduler, read and write call the two drivers, the calls on files call
-- the file system, and the shell makes those calls.
-- The code is modelled as the Makefile builds it, with DEBUG, so that a NULL queue or PCB that is
-- passed on panics. Handlers run one at a time, since interrupts are off inside them.
--
-- Fuel: the walk of `_queue_insert` has as much as the queue's size and one, and the loop that wakes
-- sleepers as much as the sleep queue's size and one; the loops of `_sio_reads` and `_sio_writes` have
-- as much as the count of waiting characters, or the size of the buffer, and one; the theorems show
-- that they return. `cvtdec` has the ten levels that its longest number needs, and `c_printf` as much
-- fuel as its format's length and one. The wait of `c_getchar` runs over the scan codes that the
-- keyboard is going to deliver, and the search for the end of a string over all addresses. The walk
-- over the blocks of a file has 257 rounds: numbers of next blocks are below 256, so a longer walk has
-- no end. The loop of `_sfs_write` has 132: a first round, and 129 of 511 bytes, are enough for a
-- `uint16_t`, which is proved. `itos10` has ten levels like `cvtdec`. All other
-- loops have a number of rounds that the code gives.
--
-- Parameters: the address of the default exit and the flags of a new process (`Platform`), which the
-- linker and the header x86arch.h of the hardware give, the addresses of the first programs, the bits
-- of the interrupt enable register (`Uart`), which the header uart.h of the device gives, the events
-- that the device reports and the scan codes that the keyboard delivers, and the room at the two string
-- literals that the file system writes over (`Literals`), which the compiler and the linker give: a
-- string that does not fit there is a fault. The file system also writes texts from the address 0 on,
-- which is ordinary memory in this kernel; such a text is a result, and no fault.
--
-- Not modelled: the trial run of the file system at the end of `_init`; the rest of the libraries
-- (klibc.c, and `spawn` of ulibc.c); the interrupt and device set-up (support.c,
-- usb.c); the test programs of user.c, which call the system calls and print; the image builder
-- (BuildImage.c); and the assembly. The functions that dump a state to the console print only, and
-- the messages of the file system, its system calls and the shell to the console are left out. The
-- shell calls the file system directly: its strings, which the calls pass by address, are lists.
pub mod Prelude
pub mod Machine
pub mod Queue
pub mod Kernel
pub mod Stack
pub mod Process
pub mod Scheduler
pub mod System
pub mod Syscall
pub mod Clock
pub mod Convert
pub mod Sio
pub mod Keyboard
pub mod Screen
pub mod Console
pub mod Transfer
pub mod Printf
pub mod Text
pub mod Files
pub mod Trap
pub mod Ulib
pub mod Shell
pub mod Boot
pub mod Tests
