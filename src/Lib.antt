-- ===== src/Lib.antt =====
-- The C core of flake: luau/xpio_c.c, the library xpio of sockets, processes and task queues;
-- luau/xpfs.c, the library xpfs of files; luau/xlua.h, by which both give objects to Lua and check
-- them; and sha1/sha1_lua.c, the binding of SHA-1.
--
-- The program. xpio gives Lua programs non-blocking sockets and child processes. A task (a Lua
-- object) that would block is put into a table of a task queue, XPQueue, by xpqueue_enqueue: the
-- readers and the writers are keyed by descriptor, the waiters for children by process object.
-- xpqueue_wait builds an array for poll from the tables, and moves the tasks whose descriptors are
-- ready to the array that it returns. A child that ends raises SIGCHLD, whose handler writes to
-- a pipe; xpproc_reap empties the pipe, calls waitpid, and stores the statuses in the process
-- objects, XPProc, which stand in a global list. Sockets, queues and process objects are userdata whose
-- metatables are made by luaopen_xpio_c and entered in the registry of Lua, where XLUA_CAST looks
-- them up. xpio__spawn passes strings NAME=VALUE to the child, whose xpio_getenv reads its environment.
--
-- The files.
--   Common             numbers, tests, lists, and the integers that stand for a C int
--   Lua                the values that functions return, errors as results; Lua/Table.antt is the
--                      interface of Lua tables,
--                      and Lua/Assoc.antt shows that it can be filled
--   Xlua               luau/xlua.h: the tables, registry and userdata of a Lua state, xlua_register,
--                      xlua_newMT, xlua_newObject, xlua_checkudata and the macros; Xlua/Typed.antt is
--                      the abstract view, a type for each userdata, and the histories of a state
--   Xpio/Address       isDigit, scanNum, addrFromString, xpsocket_getXname
--   Xpio/GrowArray     growArray
--   Xpio/Proc          XPProc: xpproc_new, xpproc_isExited, xpproc_reap, xpproc_dtor with
--                      SLL_DEQUEUE, xpproc_kill, xpproc_try_wait; Xpio/Proc/Signals.antt is the
--                      step relation of handleSIGCHLD, xpproc_init and xpproc_reap with the children
--   Xpio/Children      the abstract view of the list of process objects, and sequences of xpio__spawn in
--                      the parent, xpproc_dtor and xpproc_reap on it
--   Xpio/Queue         XPQueue: xpio_tqueue, xpqueue_enqueue, xpqueue_dequeue, xpqueue_isEmpty
--   Xpio/Queue/PollSet XPQueue_ensureFDs and the loop of xpqueue_wait that fills the array for poll
--   Xpio/Queue/Wake    XPQueue_wakeSockets, XPQueue_wakeChildWaiters
--   Xpio/Queue/Wait    xpqueue_wait
--   Xpio/Socket        isRetry, pushError, xpsocket_try_read, try_write, try_connect, try_accept, bind,
--                      shutdown, close, xpsocket_dtor, xpio_socket, xpio_pair
--   Xpio/Options       checkUInt, the table of socket options, xpsocket_setsockopt, xpsocket_getsockopt,
--                      xpsocket_listen
--   Xpio/Spawn         fcntl_mod_FL, setNonBlocking, getNonBlocking, xpio_getAction, xpio__nextfd, and
--                      xpio__spawn: the parent, and the file actions of the child, over an interface of
--                      the kernel's table of descriptors
--   Xpio/Environ       xpio__spawn: the whole child, with readStringArray; xpio_getenv
--   Xpio/Module        the arrays of functions, luaopen_xpio_c, xpio_newObject
--   Xpio/Methods       xpsocket_fileno, getsockname, getpeername, when_read, when_write,
--                      xpproc_when_wait, the types of xpio_socket and xpio_pair, xpio_fdopen,
--                      xpproc_init, xpproc_getSigPipe, xpqueue_dtor
--   Xpio/Clock         xpio_gettime
--   Xpio/Tasks         the abstract view of the task queues, the steps of a program that uses them, and
--                      how both are related
--   Xpfs               luau/xpfs.c: the modes of files in xpfs_chmod and do_stat
--   Xpfs/DoStat        do_stat and xpfs_stat
--   Xpfs/Calls         xpfs_remove, mkdir, rmdir, chdir, getcwd, rename, dir, luaopen_xpfs
--   Sha1Lua            sha1/sha1_lua.c: digest_to_string, sha1_digest, luaopen_sha1
-- A file with children holds the definitions, and the children the proofs about them.
--
-- The state. Process objects lie at addresses in a memory, with next pointers, so that list surgery
-- is that of the code. Tasks and queues are known by their addresses; a queue holds three tables.
-- Results of system calls (poll, read, waitpid, kill, malloc) are arguments of the functions.
--
-- Bounds and fuel. Parsing wraps at 32 bits as the code's unsigned numbers do. Loops over the global
-- list take fuel; the theorems about them ask for more fuel than the list is long, and show that the
-- functions then return. Other loops recurse on the list of what they still have to handle.
-- Array sizes stay below the range of int.
--
-- The string arrays of xpio__spawn have fewer than 2^31 - 1 elements.
--
-- Not modelled: the Lua library (lua/lua-5.3.1) and the SHA-1 library (sha1/sha1.c), which are other
-- projects, what the code uses of them being parameters or written out on the state of Xlua; the
-- Windows branches of luau/xpfs.c; the programs that are written in Lua; the C tests. The type double
-- is an interface. The components of Xpio but Xpio/Module do not
-- carry the Lua state of Xlua: there a cast of a userdata is a look-up that may fail.
pub mod Common
pub mod Lua
pub mod Xlua
pub mod Xpio
pub mod Xpfs
pub mod Sha1Lua
