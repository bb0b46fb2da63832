-- ===== src/Lib.antt =====
-- The core of TayhuangOS: of its kernel the scheduler, semaphores, page allocator, page tables, heap,
-- message passing, remote calls, strings and formatted printing; of its libraries the fifo and the heap
-- of the modules; of its drivers the console and the keyboard; of its loader the heap and the reader of
-- FAT32 volumes.
--
-- Parts, and where they are modelled
--   Prelude               names of the libraries, Boolean tests, lists and integers over native numbers
--   Kernel/State          the structs of kernel/task/thread.h, kernel/task/task_struct.h and
--                         kernel/intterup/init_int.h, and the file-level variables
--   Kernel/Ready          kernel/task/task_manager.c: the two lists of ready threads, linked through
--                         the field free_next of the threads; Chain has linked chains, Queue the
--                         refinement of queues
--   Kernel/Tasks          kernel/task/task_manager.c: the list of tasks; Chain is about lookup
--   Kernel/Scheduler      kernel/task/task_scheduler.c, remove_thread of kernel/task/thread.c and
--                         kernel/intterup/clock.c; Context is about saved registers, Lists and Fifo
--                         are about order
--   Kernel/Threads        kernel/task/thread.c: creation and lookup of threads; Chain is the list of a
--                         task's threads, Create what a new thread does to it, Stacks its memory
--   Kernel/Signal         kernel/task/signal.c: the primitives; Tree is the AVL tree of semaphores,
--                         with its order (Tree/Order, Falling, Search) and its balance (Tree/Balance),
--                         Wait the counting semaphore, Store the table of all semaphores
--   Kernel/Pmm            kernel/memory/pmm.c: the lists of free areas by order; Cover counts how often
--                         an address is free, Alloc is about alloc_pages, Aligned about single pages,
--                         Faults about two places where the lists come to hold pages that are not free;
--                         Virtual is the part of pmm.c that works through the page tables, Copied about
--                         its copies, Block and Given about memory for an address space
--   Kernel/Paging         kernel/memory/paging.c and include/tayhuang/paging.h: the four levels of page
--                         tables; Tree (Paths) is about tables that are reached in one way, Levels is
--                         their invariant, Walk the lookup of what was mapped, Failure what is so when no
--                         mapping is made, Range (Page) many pages and the address spaces of other tasks,
--                         Shared (Pages) the memory of two tasks, with kernel/memory/shared_memory.c
--   Kernel/Kheap          kernel/memory/kheap.c: segments with a header each, in a doubly linked list;
--                         Blocks is what a list of segments is, Links what writes of links do to it,
--                         Free is about kfree and the joining of neighbours (Absorb, Next), Alloc
--                         about kmalloc (Find, Split) and new memory (Link)
--   Kernel/Mailbox        kernel/syscall/syscalls.c and include/tayhuang/msgpack.h: sending and
--                         receiving; Header is the header of a message, Ring and Bytes are about the
--                         buffer, Queue the queue of messages, Send and Receive the two system calls
--   Kernel/Rpc            kernel/syscall/rpc.c: the list of remote functions and the checks of a request
--   Kernel/Syscall        kernel/syscall/syscall.c: the dispatch of system calls to all of these, with the
--                         lock and the registration of interrupts of kernel/syscall/syscalls.c; Lock is
--                         about threads that try one lock, Message about a message from task to task
--   Kernel/Strings        kernel/libs/string.c: strings; Compare is about what its functions give
--   Kernel/Tostring       kernel/libs/tostring.c: integers as characters
--   Kernel/Printk         kernel/printk.c: vsprintk, as a parser of formats and a printer of fields;
--                         Syntax reads the parts of a directive, Formats is about whole formats (Parts
--                         and Parse about the parser, Meaning says what a directive prints, without
--                         the steps of the code, Fields and Render are about what is printed); Screen
--                         is the text screen of the same file and printk, Drawn about what they show
--   Libs/Fifo             libs/libfifo/fifo.c: the fifo in shared memory as a step relation, with any
--                         number of threads between any two accesses; Family counts over threads,
--                         Invariant (Defs) keeps what holds at each step, Queue is about the bytes and
--                         their order, Overrun about a fifo with less buffer than it counts
--   Libs/Malloc           libs/libkmod/memory/malloc.c: the list of free chunks in the order of their
--                         addresses; Links is about that list, Alloc about malloc (Search, Divide,
--                         Given), Free about free (Position, Joined)
--   Drivers/Console       module/driver/vdd/tty/console.c: the cursor and the cells of a text console
--   Drivers/Keyboard      module/driver/keyboard/ioman/key_parser.c, keymap.c and main.c: the state
--                         machine that turns scan codes into keys
--   Loader/Lheap          loader/grub_loader/lheap.c: the loader's heap; Search finds free memory,
--                         Blocks keeps blocks apart
--   Loader/Fat32          loader/grub_loader/fs/fat32.c with fs/common.c and disk.c: Sectors is about
--                         reads of the disk and of the FAT through its buffer, Clusters about files as
--                         chains of clusters, Convert and Names about names of files, Directory about
--                         the search for one, Volume about opening a volume and loading a file, Stale
--                         about entries that lie before the buffer
-- Each part has a module Tests with runs on small states, some of which Kernel/Samples holds.
--
-- How the parts interact
--   The clock interrupt and the end of each system call ask should_switch, and do_switch saves the
--   interrupted context in the current thread, lets it go to the ready lists and loads the next one.
--   up_signal, send_msg and the creation of threads make a thread ready and call enqueue_thread, and
--   syscall joins all of these behind one number; down_signal and check_ipc mark the current thread as
--   waiting, and the switch that follows leaves it out of the lists. The mailboxes look a task up in
--   the task list and reach its memory through the page tables. A new page table is a page of the page
--   allocator, whose lists Kernel/Paging carries in its state; alloc_vpages takes pages from these
--   lists and maps them, and shm_mapping maps for one task what the tables of another lead to. kmalloc
--   takes new memory from the page allocator, whose return of what is left over asks the heap for
--   nodes in turn. The semaphores of the fifo count as those of Kernel/Signal/Wait do, and its buffer
--   is read and written with the ring of Kernel/Mailbox. vsprintk prints numbers with Kernel/Tostring,
--   and printk draws its text. The keyboard's keys reach the console through a fifo and remote calls,
--   which end at the boundary of each model: irq_handler gives the key, wrapper_putchar takes a
--   character. The FAT32 reader compares names with Kernel/Strings, whose copy the loader holds, and
--   makes them upper case as Kernel/Printk does; the memory that it asks of the loader's heap is an
--   argument.
--
-- How state and operations correspond to the code
--   A function of the code has the same name in its module; a name with leading underscores, as
--   __send_msg, has lost them. A part of a long function has a name of its own: down_thread is
--   save_context and then release_thread, do_switch is down_thread, get_next_run_thread and run_thread,
--   __send_msg is its guards (send_refused), deliver and wake_handler. A struct pointer is an address,
--   NULL is 0, and the structs are in stores, which are functions of the address; so two pointers to one
--   struct are two uses of one address. Where the code reads or writes through NULL the model returns
--   none. A struct that kfree gives back keeps its contents, as the code may still read it. Queues whose
--   nodes are private to a component (the waiting threads of a semaphore, the areas of an order) are
--   lists. The parent pointers of the tree are the path from the new node to the root.
--
-- Numbers
--   qword sums of a mailbox and the id counter, a dword, wrap around, and the header's fields keep 16
--   bits. Addresses and the counters of type int are not bounded: no pointer of the code leaves its
--   buffer by more than one byte, and a counter moves by one at a time. Physical addresses are below
--   2^39, so that the address field of a page table's entry, 39 bits, holds them shifted or not. The
--   bits of the keyboard's state are the fields of a record. The loader runs in 32 bits: a pointer of its
--   FAT32 reader that a difference lowers wraps around, and the numbers of sectors are below 2^28. What a
--   disk holds is a function of the address of a byte, a parameter of the reader.
--   The offset of a page in a range is an int that wraps, and with it the address: page_at has this
--   written out, and the theorems about ranges are about at most 2^19 pages, up to which it is exact. A
--   width of vsprintk is the 32 bits of an int, of which a negative one fills nothing; the least int and
--   the least long long are printed as the code prints them, without a digit.
--
-- Bounds and fuel
--   get_task_by_pid walks the task list on fuel, and none means that the fuel ran out; fuel above the
--   number of tasks is enough, since each step goes to the next task. The walks through the threads of a
--   task are the same. The theorem about sending takes as a hypothesis that the walk found the target.
--   The loader's heap is searched on fuel, of which one unit for each address is enough, since each step
--   goes to a greater one; the digits of a number on fuel, for which the number itself is enough, since
--   each step divides it. The searches of the kernel's heap and of the modules' heap take one unit for
--   each segment or chunk; vsprintk takes one for each directive or other character of the format; the
--   loading of a file one for each cluster and one more.
--   kmalloc, which calls itself when it has added memory, takes fuel for these calls, and none is also
--   what it gives when it writes through NULL. All other loops are structural.
--
-- Not modelled
--   The node that add_free_area asks of kmalloc comes from memory that the heap already has: in
--   Kernel/Pmm it takes no area from the lists while they change, and kmalloc does not fail. That
--   kmalloc may ask for new pages is in Kernel/Kheap.
--   The parameter pa of the mailboxes and system calls is get_physical_address for the page tables at
--   hand; Kernel/Paging models that function on its own, and the copies between address spaces write
--   to memory apart from its tables. In the page tables a table is told by the address of its page,
--   and pages are aligned. Left out are the commands to the disk's ports and the second FAT32 reader,
--   of module/setup, the creation of tasks, the lists of video memory, the keyboard service, the
--   modules' side of remote calls, the copies of the printing library, port I/O, descriptor tables,
--   the assembly stubs of interrupts and system calls, start-up code, the drivers' device access,
--   logging, and the tools of the build.
pub mod Drivers
pub mod Kernel
pub mod Libs
pub mod Loader
pub mod Prelude
