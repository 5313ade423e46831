-- ===== src/Lib.antt =====
-- A verification library of the course projects in C: the GETFILE client and server, the queue of
-- the multithreaded programs, the file transfer, the echo programs, the proxy with its cache, and the
-- client of the image service.
--
-- The programs and their parts. A GETFILE client asks a server for a file by its key, over one
-- connection: "GETFILE GET <path>", a blank line. The server finds the key in its table of contents
-- and answers with an announcement of the file's length and the file. The client library parses the
-- answer, and gives the file's bytes to a callback. The download program runs the library over a
-- workload of paths. The transfer programs send a file in each direction, over two connections. The
-- echo server sends a message back. The queue hands requests to threads. The proxy answers GETFILE
-- requests itself: one handler asks libcurl for the file, the other a cache, which is a process of its
-- own and hands the file over through a segment of shared memory. The image client has a remote service
-- minify the pictures of a workload.
--
-- Which file models what:
--   Common      the shared notation: Outcome, what a piece of C does (it returns, has undefined
--               behaviour, exits, or was given too few answers); C's integers; lists over the native
--               numbers and their sums; Boolean tests
--   CString     the functions of string.h and stdlib.h that the programs use, on lists of bytes: strtok
--               with the memory that it writes, atol, sprintf of a number, copies into an allocation
--   Getopt      the loops over the command line, on what getopt gives
--   Pthreads    the loop that creates threads
--   Socket      connections and files as the programs see them: every call of the system takes its
--               answer from the environment, and its effect is recorded
--   Steque      proj1/multithreadgetfile/steque.c, on an explicit heap. Cells is the list that a heap
--               stands for; Queue, Rotate and Destroy are about the operations
--   Getfile.Response, Getfile.Serve   proj1/getfile/gfserver.c: gfs_sendheader, gfs_send, gfs_abort;
--               gfserver_serve
--   Getfile.Handler    proj1/getfile/handler.c
--   Getfile.Content    proj1/getfile/content.c: content_init, content_get, content_destroy
--   Getfile.Request, Getfile.Client   proj1/getfile/gfclient.c: the requests; gfc_perform
--   Getfile.Workload   proj1/getfile/workload.c
--   Getfile.Download   proj1/getfile/gfclient_download.c
--   Getfile.Main       proj1/getfile/gfserver_main.c: the server, its handler and its table together
--   Getfile.RoundTrip  the client, the server and the handler together
--   Transfer    proj1/transferfile/transferclient.c and transferserver.c, with their shared loops
--   Echo        proj1/server.c and proj1/client.c
--   Threads     proj1/multithreadgetfile/handler.c: handler_get and worker_main, on the queue that they
--               share, as the steps of a state; Main is gfserver_main.c; Sound is what one
--               worker sends, and Connections and Delivery are about the connections of all
--   Proxy.Shared, Proxy.Exchange   proj3/simplecached.c (cache_worker) and proj3/handle_with_cache.c
--               (handle_with_cache), behind the request: the two processes and their segment as the
--               steps of a state. A step is what a process does between two points where the other one
--               can matter; the mutexes and the condition variables are part of the state
--   Proxy.Segments     proj3/handle_with_cache.c: init_proxy, and how a handler takes a segment and
--               destroy_shm_seg gives it back
--   Proxy.Asking       proj3/handle_with_cache.c: create_shm_channel, and the request for the cache
--   Proxy.Opening      proj3/simplecached.c: how cache_worker finds the segment of a request
--   Proxy.Room  proj3/simplecached.c: how much goes into a segment at a time
--   Proxy.Requests     proj3/simplecached.c: the loop of main, and how a worker takes a request; Main is
--               main up to its loop, and the signal handler
--   Proxy.Curl  proj3/handle_with_curl.c: write_callback and handle_with_curl
--   Proxy.Options, Proxy.Webproxy   proj3/webproxy.c and proj3/webproxy_curl.c, up to the server's loop
--   Proxy.Stopping     proj3/webproxy.c: _proxy_sig_handler, on the queue of Steque
--   Downloads   proj1/multithreadgetfile/gfclient_download.c: the threads, worker_main; Main is
--               main, from the options to the threads
--   Minify      proj4/minifyjpeg_main.c and minify_via_rpc of proj4/minify_via_rpc.c; Sequence compares
--               the threads with one loop over the requests. Minify.Service is
--               proj4/minifyjpeg.c, minifyjpeg_svc.c and minifyjpeg_clnt.c
--   Examples    the theorems at concrete inputs
--
-- Bounds and fuel. A loop that calls the system runs on the list of the answers that it gets, and is
-- `starved` when they are used up. The handler's loop needs at most an answer for each byte of the
-- file, the transfer's loop one for each block and one for the end. The search in the table runs on
-- fuel of one more than the items; the destruction of a queue on one more than its nodes. `size_t`
-- wraps at 2^64, a port at 2^16; an `int` counter that overflows is undefined behaviour. Buffers have
-- 4096 bytes. An access out of bounds, to freed memory, or through a null pointer is a `fault`.
--
-- Not modelled: the output on the terminal; the server and client libraries of
-- proj1/multithreadgetfile, which are only there as object files, and those of proj3, which are not
-- in the repository; a failing munmap of the cache; what mq_send and mq_receive do behind the end
-- of a message; a client of the image service without a connection; SunRPC and ImageMagick, and the
-- registration of the image service. `malloc` is not modelled to fail where the code does not test
-- it, but for the queue, whose new node is an argument. The queues of Proxy and Minify are the
-- lists of their items.
pub mod Common
pub mod CString
pub mod Getopt
pub mod Pthreads
pub mod Socket
pub mod Steque
pub mod Getfile
pub mod Transfer
pub mod Echo
pub mod Threads
pub mod Downloads
pub mod Minify
pub mod Proxy
mod Examples
