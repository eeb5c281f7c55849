-- ===== src/Lib.antt =====
-- libnhr, a small HTTP request library: its response parser, its message builders and its work
-- thread, modelled as written and verified.
--
-- A request (libnhr.h, src/nhr_request_public.c) collects a URL, header fields and parameters.
-- nhr_request_send starts a thread (src/nhr_request_private.c) that works through commands: connect,
-- send the message that the builders of src/nhr_request_method_*.c make, wait for the blocks of the
-- response, and call one of two callbacks. Each block goes to src/nhr_response.c, which parses the
-- header from the first and collects the body.
--
-- Base, Exec        what the other files share. Exec is the result of code that may fault: an access
--                   outside its memory, a failed assert, or undefined behaviour of C is `fault`; a loop
--                   on fuel that has none left is `no_fuel`.
-- Clib              what the sources use of the C library: memory as the list of an object's bytes,
--                   where an access past the end is a fault (Clib/Memory), strings (Clib/Strings),
--                   sscanf of numbers (Clib/Scan; on hexadecimal digits in Clib/Scan/Hex, on decimal
--                   ones in Clib/Scan/Ulong and Clib/Scan/Int), sprintf to a buffer of a given size
--                   (Clib/Print) and %lu (Clib/Decimal).
-- Heap              src/nhr_memory.c and src/nhr_string.c
-- Map               src/nhr_map.h and src/nhr_map.c: the linked list of names and values is a list of
--                   nodes. Map/Stores says which names and values a list of nodes stands for.
-- Codec             the interface to src/nhr_gz.c, which its two users take as a parameter
-- Gz                src/nhr_gz.c over zlib, which is a parameter: header and footer of a gzip file,
--                   nhr_gz_decompress (Gz/Inflate), nhr_gz_compress (Gz/Deflate), both as a Codec
--                   (Gz/Both), and the proofs (Gz/Inflated; Gz/Filled, Gz/Deflated, Gz/Zipped;
--                   Gz/RoundTrip)
-- Response          src/nhr_response.h and src/nhr_response.c: the object and its body buffer; the
--                   parsers of the header (Response/Header), nhr_response_read_chunks
--                   (Response/Chunks), and the entry points (Response/Receive). Proofs: Response/Body
--                   and Response/Limit, Response/Chunked, Response/Plain, Response/Start,
--                   Response/Length, Response/Status, Response/Create, Response/Gunzip,
--                   Response/Overread and Response/Halts; of chunked responses in several blocks,
--                   Response/Blocks, Response/Framed (the first), Response/Gathered and Response/Staged.
-- Request           src/nhr_request.h: the object; the functions of src/nhr_request_public.c
--                   (Request/Public), of src/nhr_request_method_common.c (Request/Pairs), of
--                   src/nhr_request_method_get.c (Request/Get), of src/nhr_request_method_post.c
--                   (Request/Post, Request/Post/Multipart). Proofs: Request/Fields, Request/Files,
--                   Request/Render, and Request/Message, which has the texts of the messages.
-- Worker            src/nhr_request_private.c: connecting (Worker/Connect), sending and receiving
--                   (Worker/Transfer), the loop of the thread (Worker/Loop). Proofs: Worker/Connected,
--                   Worker/Reached and Worker/Refused (connecting), Worker/Machine, Worker/Collected (the blocks of a
--                   response), Worker/Exchange (a request and its response), Worker/Sending and
--                   Worker/Waiting (single rounds), Worker/Arriving and Worker/Arrived (a response
--                   over several rounds, and one that is cut short), Worker/Fetched (a GET request
--                   from its connection to its callback), Worker/Gathered (a chunked response),
--                   Worker/Posted (a request with a form, and such a response) and Worker/Timeout (a
--                   response that does not come).
--                   Worker/Race has this thread and one that cancels the request, as moves that any
--                   order interleaves: each access of the command is a move of its own. Its proofs
--                   are in Worker/Race/Inv, Worker/Race/Ends and Worker/Race/Promise, which
--                   has what the client may see as a machine of its own.
-- Thread            src/nhr_thread.c: what threads do to the joiner, cut into moves that any order
--                   interleaves. Thread/Inv has the invariant, Thread/Safety and Thread/Progress what
--                   follows from it.
-- Owner             who owns which allocation: what src/nhr_memory.c, src/nhr_string.c,
--                   src/nhr_map.c, src/nhr_response.c and src/nhr_request_private.c free, and what the
--                   functions of src/nhr_request_public.c, nhr_thread_create of src/nhr_thread.c and
--                   connecting allocate (Owner/Calls), with pointers in place of contents. Proofs:
--                   Owner/Owns, Owner/Counts, Owner/Life, Owner/Steps, Owner/Received and Owner/Runs.
-- Tests             runs at concrete inputs
--
-- Numbers of size_t are taken modulo 2^64 where the source adds them; `unsigned int` of a chunk size
-- is taken modulo 2^32 by the scanner. The loop of nhr_response_read_chunks runs on fuel, one round
-- more than there are bytes of memory. The loops of src/nhr_gz.c run on fuel of which the theorems ask
-- one round for each chunk of 512 bytes that is decompressed, and two rounds more than there are bytes
-- of compressed output. All other loops are recursions on the list they walk or on the rounds that
-- NHR_CONNECT_ATTEMPS leaves.
--
-- What the operating system, the clock and the random numbers answer are arguments of the
-- definitions (Attempt, Network, Sent, Packet, Received, Answers), of which nothing is assumed; what
-- `send` answers may depend on the bytes it is given. What zlib's manual says of inflate is the
-- hypothesis InflateLaw, what it says of deflate DeflateLaw, and that the one is the inverse of the
-- other InverseLaw. Memory that malloc has not filled has bytes of its own value (`unset`). An
-- allocation does not fail.
--
-- Not modelled: the mutexes of a request, of which command_mutex makes one access of the command
-- one move, and work_mutex is locked by one thread only; a request that is changed while it is sent;
-- the race of two threads that both make the joiner, of which Thread has one from the start; the
-- allocations of the message builders and of src/nhr_gz.c, which free them before they return or hand
-- them on; socket options, sleeping,
-- logging, and what is compiled for Windows only; tests and build files.
pub mod Base
pub mod Exec
pub mod Clib
pub mod Heap
pub mod Map
pub mod Codec
pub mod Gz
pub mod Response
pub mod Request
pub mod Worker
pub mod Thread
pub mod Owner
pub mod Tests
