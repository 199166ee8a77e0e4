-- ===== src/Lib.antt =====
-- SisOps: a model of the C programs of the repository, and proofs that they do what they should.
-- Three programs are modelled: the FUSE file system of fisopfs/, the shell of shell/, and parts of
-- the kernel of sched/. They share no code, but each is built here on the same helpers.
--
-- Common has the Boolean tests, arrays as lists (an access outside gives `none`), C strings as
-- lists of bytes, and the integers of the C type `int`.
--
-- Fs models fisopfs/fs.h, fisopfs/fs.c and fisopfs/fisopfs.c. Fs has the table of inodes, a list
-- of 64 entries, and its types; Fs.Path is the lookup by name, Fs.Table the search for a free
-- entry, Fs.Ops the operations of fs.c and Fs.Fuse the callbacks, under the names of the C
-- functions. Fs.Step is one call of a callback that changes the table. What the callbacks take
-- from the system (the clock, the user, whether memory can be had) is a parameter. A copy
-- past the end of an array is an outcome of its own, `none`. The proofs: Fs.Names, Fs.Bytes and
-- Fs.Lookup are lemmas on names, contents and the lookup; Fs.Invariant says what a valid table is,
-- Fs.Adds and Fs.Keeps that each operation keeps it; the others take one operation each. The file
-- that holds the table between mounts is seen as what is read from it and what is written to it.
--
-- Kern has the types of sched/inc/env.h, sched/inc/trap.h and sched/kern/env.h. A pointer into the
-- array of environments or of pages is an index. Kern.Sched models sched/kern/sched.c, with
-- env_run of sched/kern/env.c, for both schedulers the build can choose; a call ends in an
-- environment, halted or in the monitor, since none returns. Its modules prove what the round
-- robin and the priority scheduler choose (RoundRobin, Priority, Boost, Busy), and what stands
-- running (Running, Exclusive). The kernel is seen from one CPU that holds the big lock. Kern.Envs
-- models the lookup of an environment, its allocation and the end of its release, from
-- sched/kern/env.c; Kern.Links has the lists that run through the tables of environments and of
-- pages, and Kern.Ids and Kern.Init the proofs. The statements on env_alloc and sys_exofork ask for
-- an id below 2^31 in the entry, as env_init and env_alloc leave it.
--
-- Memory is modelled after sched/kern/pmap.c. Kern.Pages is the page allocator, with page_init, and
-- Kern.FreePages and Kern.InitPages are about its free list. Kern.Paging has the page tables:
-- pgdir_walk, page_lookup, page_remove, page_insert and tlb_invalidate. The words of a page are a
-- function of the page and the index, a pointer to an entry is a page and an index, and a null
-- pointer or one out of bounds is an outcome of its own (fault), as is a panic. Kern.AddressMap has
-- the map from user addresses to entries that a directory stands for (955 tables of 1024 entries,
-- below UTOP), Kern.Mapping the shape of a directory that the proofs ask for (IsSpace) and the
-- removal, Kern.Walking the walk that adds a table, Kern.Insertion the insertion, and Kern.Spaces
-- joins them. Where there are many directories, Kern.Counting counts the references to a page, and
-- Kern.Accounts says what a memory in order is (IsMemory): the directories and tables do not overlap,
-- and the reference count of a page that something refers to is the number of the directories and
-- entries that do. Kern.Giving, Kern.Entries, Kern.Keeping, Kern.Filling, Kern.Adding and
-- Kern.Taking take the steps of page_remove, page_insert and page_alloc on such a memory, and
-- Kern.Secure, SecureCalls, SecureAlloc and SecureMap the system calls. Kern.Leaving, Sweeping,
-- Unmapping and Releasing take the loops of env_free, and Kern.SecureDestroy sys_env_destroy. Kern.UserMem models user_mem_check; its loop runs over the number of pages between
-- the two ends of the range.
--
-- Kern.Kernel is the state of the kernel as system calls see it: the scheduler's, the free lists,
-- the words of the pages and the console's input. It has env_free, env_destroy and
-- user_mem_assert. A call returns, leaves for an environment, panics, or goes astray through a bad
-- pointer. Kern.Syscall and Kern.IpcCalls have the functions of sched/kern/syscall.c, under their
-- names, and Kern.Dispatch the function syscall. Kern.Ipc, Kern.Exofork, Kern.PageCalls,
-- Kern.PageLeak and Kern.Priorities are about them. Kern.Console models the buffer of input of
-- sched/kern/console.c as a queue; what the devices deliver is a parameter.
--
-- Kern.Trap models sched/kern/trap.c from the frame that the entry points build: a trap takes the
-- lock, is dispatched, and ends in the environment or in the scheduler. What page faults store in the
-- user's memory is a list of stores. Kern.Faults is about the frame of a page fault, Kern.TrapCalls
-- about a system call with all that is around it.
--
-- Kern.Spinlock models the lock of sched/kern/spinlock.c with any number of CPUs, which take their
-- turns in any order; a turn is one load, store or exchange of the lock, and a CPU locks and unlocks
-- in turn, never again while it holds the lock. Elsewhere the kernel is seen
-- from one CPU, and the lock is the field kernel_locked.
--
-- Not modelled of sched/: the devices, what runs once at the start (mem_init,
-- boot_map_region, mmio_map_region, load_icode), the rest of the library of user
-- programs, and these themselves.
--
-- Strings models functions of sched/lib/ that the kernel and the user programs share: strtol of
-- string.c and printnum of printfmt.c (Strings; its recursion has 64 rounds, the bits of a number),
-- memmove of string.c (Strings.Memory; the memory is a function of the address, and no range wraps
-- round), and the functions that compare and search (Strings.Compare). The proofs on numbers are in
-- Strings.Numbers. Strings.Format is vprintfmt: where its loop is, is a mode, and each character of the
-- format is one step; what it reads of its variable arguments is a list. Strings.Buffer has vsnprintf
-- and the buffer of the cprintf of user programs (sched/lib/printf.c), and Strings.Decimal is about %d.
-- No width, precision or count is taken to be past the range of an int.
--
-- Shell models shell/utils.c (Shell.Text), shell/parsing.c and shell/createcmd.c (Shell.Parsing),
-- shell/exec.c (Shell.Exec), and shell/builtin.c, shell/runcmd.c and shell/printstatus.c
-- (Shell.Builtin). A line is parsed to a tree of commands; a write past an array is `none`.
-- exec_cmd is the tree of calls that the processes make; whether a call works is a parameter
-- (System), and Shell.Streams reads off the tree which programs run and where their streams lead; a
-- stream from an end of a pipe that was closed before leads nowhere.
-- Shell.Words and Shell.Pipes prove what is parsed, Shell.Streams and Shell.Redirection what is
-- run, Shell.Pipeline joins the two, and Shell.Session is about one line of input. The loops of
-- parse_exec and parse_line run on fuel, the length of the line and one: each round goes on with a
-- shorter rest. read_line, the signal handler, free_command and the messages are not modelled:
-- they are terminal input and output and the release of memory.
pub mod Common
pub mod Fs
pub mod Kern
pub mod Shell
pub mod Strings
