-- ===== src/Lib.antt =====
-- graftcp, the C program that runs another program under ptrace and sends its TCP connects to a
-- proxy.
--
-- The program has these parts. string-set.c is a hash set of strings, which holds the black and the
-- white list of addresses of main.c. util.c keeps two hash tables, of sockets and of traced
-- processes, over the macros of uthash.h, and reads and writes a stopped process through ptrace.
-- The handlers of main.c run when a process enters socket, connect, close or clone, or leaves
-- socket: they record the process's TCP sockets, overwrite the destination of a connect with the
-- proxy's address, and tell the original one to graftcp-local through a fifo. The loop of main.c,
-- do_trace, waits for events and calls the two sides of a system call.
--
-- Files:
--   Prelude      shared names, Boolean tests, lists, byte strings and machine words
--   StringSet    string-set.c, string-set.h: str_set_new, str_set_put, str_set_remove,
--                str_set_length, is_str_set_member, str_set_free; a set is its buckets, each a
--                chain of members with their addresses
--   Kernel       the interface of the system calls that the tracer makes
--   Tracee       util.c: get_syscall_number, get_retval, set_retval, get_syscall_arg,
--                getdata, putdata
--   Uthash       the interface of the macros of uthash.h, with their laws, and a table that has them
--   World        the tracer's heap, tables and kernel state, and commands over them
--   Tables       util.c: the tables of socket_info and proc_info, alloc_proc_info
--   Address      the socket addresses that main.c reads and the line that it writes to the fifo
--   Filter       main.c: load_ip_file, load_blackip_file, load_whiteip_file, is_ignore
--   Handlers     main.c: socket_pre_handle, connect_pre_handle, close_pre_handle, clone_pre_handle,
--                socket_exiting_handle
--   Spawn        main.c: init, do_child
--   Trace        main.c: trace_syscall_entering, trace_syscall_exiting, trace_syscall, do_trace;
--                Trace/Spec: a machine over the states of the kernel and the phases of the
--                processes, with no table, heap or flag, that the loop is compared with;
--                Trace/Phases: what the table says of these
--   Options      main.c: main, with its option loop (read_options, put_local_addrs, start) and the
--                proxy's addresses; Options/Usage: usage, and main's table of long options;
--                Options/Told: main from its options to the fifo
--   Local        graftcp-local/local.go: what UpdateProcessAddrInfo makes of a line of the fifo;
--                Local/Pids: graftcp-local/proc_sync_map.go, hasIncludeInode of
--                graftcp-local/util.go and getPidByAddr of graftcp-local/local.go; Local/Inode:
--                getInodeByAddrs and what it calls of graftcp-local/util.go; Local/Relay:
--                NewLocal, Start, SetSelectMode, proxySelector and HandleConn of
--                graftcp-local/local.go; Local/Tunnel: pipe of the same file and the end of
--                HandleConn, as the steps of their three goroutines; Local/Settings:
--                graftcp-local/config.go; Local/HttpProxy: Dial and newHttpProxy of
--                graftcp-local/http_proxy.go; Local/MutexMap: graftcp-local/proc_mutex_map.go, as
--                the steps of its goroutines
--   Tests        a machine in place of the kernel, sample worlds, the theorems at concrete inputs
--
-- How the model stands to the code. A number of w bits is a natural number below 2 ^ w, a negative
-- one its two's complement, and every wrap-around is written out. A pointer to a struct is an
-- address, the heap a function from addresses to structs, with none where nothing is live: a
-- pointer that is followed there is the outcome `fault`, and exit(n) is the outcome `exit n`.
-- calloc of the tracer's structs gives fresh addresses and succeeds; str_set_new and str_set_put
-- take its result as an argument. The registers are those of x86-64, where a word has eight bytes
-- and the low byte comes first. The kernel is an interface: what ptrace, wait, gettimeofday,
-- usleep and the fifo do is stated by named laws (MemoryLaws, RegisterLaws, ClockLaws, FifoLaws,
-- EventLaws, ApartLaws), which the machine of Tests has. uthash.h is a vendored library and stands
-- behind UthashLaws; its *_INT macros look at the low 32 bits of a key. inet_ntop of an IPv6
-- address is a parameter (Libc), and so are the files, the name lookups and atoi that main calls
-- (Host).
--
-- main and do_trace run on fuel, one round for each event of wait; one round more than there are
-- events to come is enough. All other loops are structural.
--
-- graftcp-local accepts the connections that were sent to it, finds the process that holds the
-- other end, and with it the destination that the fifo told, and relays the connection through a
-- proxy. HandleConn is modelled from its call of getPidByAddr on. Where several goroutines store
-- what the fifo tells, the model takes the order of their steps as an argument; where they share
-- the map before Go 1.9 or a connection, it is a relation of their steps. The dialers, the file
-- system of /proc, net.ParseIP (NetLaws) and what the HTTP dialer gets of the packages url and
-- http (Web) are arguments too.
--
-- Not modelled: getopt_long, a function of the C library, so that main begins with the options that
-- it gives; the messages on standard error, but for the text of usage; uthash.h and the Go
-- packages under graftcp-local/vendor, other projects' libraries; and of graftcp-local the flags
-- and the start of the service, which are calls of libraries.
pub mod Prelude
pub mod StringSet
pub mod Kernel
pub mod Tracee
pub mod Uthash
pub mod World
pub mod Tables
pub mod Address
pub mod Filter
pub mod Handlers
pub mod Trace
pub mod Spawn
pub mod Options
pub mod Local
pub mod Tests
