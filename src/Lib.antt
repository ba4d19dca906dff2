-- ===== src/Lib.antt =====
-- Models of the programs of this repository of CS:APP labs, and what holds of them.
--
-- shell/lab is a shell with job control. `eval` parses a line (`parseline`), runs a built-in
-- command (`builtin_cmd`, `do_bgfg`) or starts a child and lists it (`addjob`), and for a
-- foreground job waits (`waitfg`) until the handlers of sighandler.c have taken it out of the list
-- or marked it stopped. Shell/Jobs.antt models job.c over a list of MAXJOBS slots, Shell/Atoi.antt
-- models `Atoi` of util.c, Shell/Parse.antt models `parseline`, Shell/Signals.antt the handlers
-- and `waitfg`, and Shell/Commands.antt the commands and `eval`. A string is the list of its
-- bytes. A pointer to a job is the job, and a write through it changes the first slot that the
-- lookup would find. What the kernel does is a parameter: the result of `fork`, and the list of
-- the signals that arrive while the shell waits, each with the results of the handler's `waitpid`
-- and `kill` calls. A signal may also arrive between the test of `waitfg` and its `sigsuspend`
-- (`racing`). `argv` has the MAXARGS places of `eval`, and a write behind them is a failed parse;
-- `waitfg` runs on the number of events and one more. A SIGCHLD that is pending at the unblocking
-- in `eval` is not delivered there, before the id of the job is looked up, but, for a foreground
-- job, with the events of `waitfg`. Diagnostics on stderr, the child process and the read loop of
-- `main` are not modelled.
--
-- malloc/lab is an allocator, mm.c, over a simulated memory, memlib.c. Malloc/Memlib.antt models
-- the break and the storage, with the contents as a function from byte addresses to words of 32
-- bits, and the macros GET and PUT; Malloc/Words.antt the other macros and the size classes (`U`);
-- Malloc/Mm.antt the allocator: `mm_init` sets up the 25 free lists, `mm_malloc` searches them
-- (`find_fit`) or moves the break (`extend_heap`) and splits the block it takes (`place`),
-- `mm_free` and `mm_realloc` join free neighbours (`coalesce`). The program is built with -m32, so
-- that pointers and `size_t` have 32 bits; NULL is 0. An access outside the heap, a failed
-- assertion and a loop that does not end are a failed command. The fuel of `find_fit` is two more
-- than the break, which is more than the number of addresses below it; `U` looks at 32 bits.
-- `memcpy` is a copy of words, as a payload has a multiple of 8 bytes. The sum of the break and an
-- increment is not wrapped: the 20 MB of the storage do not lie at the end of the addresses, and
-- an increment that is over their end is refused. Malloc/Chain.antt says what a free list is,
-- Malloc/Chain/First.antt which block `find_fit` takes, Malloc/Chain/All.antt what all the lists
-- are together, and Malloc/Tiles.antt what it is that blocks fill a stretch of memory.
-- Malloc/Whole.antt puts these together: in a whole heap the blocks fill the memory between the
-- padding and the epilogue, and the lists hold exactly the free ones (payload is what lies between
-- the header and the footer of an allocated block that is no head of a list); a hole between two
-- addresses is a stretch that no list knows. The modules below it follow the routines:
-- Malloc/Whole/Init.antt `mm_init`, Malloc/Whole/Merging.antt `coalesce`, Malloc/Whole/Free.antt
-- `mm_free`, Malloc/Whole/Place.antt `place`, Malloc/Whole/Extend.antt `extend_heap` and
-- Malloc/Whole/Request.antt `mm_malloc`. A whole heap has at most 2 ^ 24 bytes in use, since a
-- larger block has no free list; the storage has 20 MB. What `mm_realloc` does to a whole heap is
-- not shown.
--
-- The driver mdriver.c runs traces of requests on the allocator. Malloc/Ranges.antt models its
-- list of payloads, Malloc/Driver.antt the requests and the state of a run;
-- Malloc/Driver/Reading.antt models `read_trace` on the text of the file, Malloc/Driver/Bytes.antt
-- the bytes with which the driver marks a payload, Malloc/Driver/Valid.antt `eval_mm_valid`, and
-- Malloc/Driver/Runs.antt `eval_mm_util`, `eval_mm_speed`, and the runs of the C library's
-- `malloc`, which is an interface of three calls (`Allocator`). `read_ops` runs on fuel, one more
-- than the length of the file. The result of `eval_mm_util` is given as the two numbers of which
-- it returns the quotient. A minus sign in a trace, the failure of `malloc` for the arrays of a
-- trace, the messages, the options, `main` and the statistics of the driver are not modelled.
-- Malloc/Fcyc.antt models the sampler fcyc.c: a time is a whole number of cycles, `epsilon` a
-- quotient, and the clock a function from the number of the sample to its time. The loop of `fcyc`
-- runs on fuel, one more than the limit of samples, and that of `clear` on one more than the words
-- of the buffer. `print_free`, free_trace, clock.c, ftimer.c and fsecs.c are not modelled.
--
-- proxy/lab is a caching web proxy. Proxy/Lru.antt models its cache, lru.c, with the fields of the
-- list nodes as functions of the node's address, a semaphore as its count, and what `malloc`
-- returns, with the value that `size` has before it is set, as a parameter; a call that would
-- block ends. The count of nodes is a natural number, without the bound of an `int`. The search
-- runs on fuel that the caller gives; one more than the nodes of the cache is enough.
-- Proxy/Sbuf.antt models the bounded buffer of connections, sbuf.c, in the same way.
-- Proxy/Net.antt models a connection as the lines that are still to be read and the bytes that
-- have been sent; the routines of csapp.c, a library of the textbook that the programs call, stand
-- for what they document. Proxy/Url.antt models `parseUrl` and `parseVersion` of proxy.c, with the
-- bytes that the buffers hold at first as a parameter, and Proxy/Doit.antt `doit` with the cache
-- of Proxy/Lru.antt: it looks a URL up (`lru_get`), and when it is not stored it forwards the
-- headers to the server, passes the reply on and stores it (`lru_put`). Which server answers what
-- (`Open_clientfd`) is a parameter. Proxy/Tiny.antt models tiny/tiny.c, of which .proxy/tiny.c is
-- a copy; `stat` is a parameter, together with what the calls of `Open`, `Mmap` and `Rio_writen`
-- send for a file and a size, or their failure, at which csapp.c ends the server (`Ending`).
-- Proxy/Tiny/Requests.antt and Proxy/Tiny/Pages.antt describe requests and answers independently
-- of the code. A line is read up to its first NUL where the code scans or sends a string. The
-- loops over headers run on fuel that the caller gives, and more fuel than there are lines is
-- enough when a blank line comes. The threads and the main loops of both servers, the child of
-- `serve_dynamic` and the bound MAXLINE of the buffers are not modelled, nor is adder.c, nor are
-- the handed-out programs under attack, bomb, p3-asm and p7-link.
--
-- Base/Text.antt and Base/Strings.antt model strings as lists of bytes, with the functions of the
-- C library that the programs use (`strstr`, `strchr`, `strcasecmp`, the words of `sscanf`), and
-- Base/Decimal.antt decimal numbers; Base/State.antt is the monad of all commands.
pub mod Base
pub mod Shell
pub mod Malloc
pub mod Proxy
