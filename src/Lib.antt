-- ===== src/Lib.antt =====
-- The lzUtils library (package/libs/lzUtils/src): three byte rings, a growing buffer, a voice activity
-- detector, a Base64 coder, times, a command reader over a FIFO, the rounds of socket servers, and the
-- loops of a sound device; the queue of package/libs/cppUtils; and the programs that sort packages, that
-- serve a serial line, that answer requests over sockets, that record a camera, and that repeat sound.
--
-- The parts, all paths from the repository's root. The file of a part has its types and its functions,
-- named as in the source less the prefix of the module; what is proved of them is in its child
-- modules, and Tests has runs of the functions and of the theorems.
--   Base       lists, tests and machine words; blocks of memory with bounds, where `none` is an access
--              outside of one.
--   Queue      a bounded queue of bytes, and the calls that the clients of a ring make of it: what
--              the rings are compared with. Queue/Impl is the interface a ring fills. Window reads
--              a ring's bytes as a window of its storage.
--   Csrb       package/libs/lzUtils/src/csrb: a ring in a block of twice its size, the second half a
--              copy of the first so that a read may run over the end. The two copies of
--              `csrb_write_sync` are loops over the bytes, as in the source.
--   Shrb       package/libs/lzUtils/src/shrb: the same ring in shared memory. Its queries and syncs take
--              no common lock, so Shrb/Sides has the steps of one writer and one reader, in any order.
--              It uses the ring of Csrb.
--   Ccsrb      package/libs/lzUtils/src/ccsrb: a ring whose queries hand out a block of their own when
--              the bytes run over the end. malloc is a parameter.
--   UserFifo   package/libs/lzUtils/src/user_fifo: commands between marks, sent through FifoOps;
--              a command is cut by Argv and handed to an entry of a table.
--   Argv       package/libs/lzUtils/src/common/misc.c: a command line cut into arguments.
--   SelectServer
--              package/libs/lzUtils/src/ut_socket: the table of connections of the select servers, and
--              that of the servers for datagrams.
--   EpollServer
--              the same file: the rounds of the epoll servers, whose callbacks turn a client from
--              reading to writing and back. The kernel's set of descriptors is a parameter.
--   Base64     package/libs/lzUtils/src/common/misc.c and package/app/fileBase64/src/main.c, which
--              differ in the alphabet, and the loops of the latter over its files.
--   Vad        package/libs/lzUtils/src/vad_op: a detector that judges chunks of samples by the energy
--              of their units, and counts chunks before it changes its status.
--   Autom      package/libs/lzUtils/src/autom: a byte buffer that grows. realloc is a parameter.
--   PxTimer    package/libs/lzUtils/src/common/px_timer.c: times as bit patterns of `long`, and a stopwatch.
--   PkgSort    package/app/pkgSort and host-tools/pkgSort: packages in the order of their dependencies.
--              What make prints for a package is a parameter.
--   MtQueue    package/libs/cppUtils/src/MTQueue: a bounded queue between threads, each call a step
--              under its lock.
--   BaStream   package/app/RtspPullHandle/src/BAStream.h: frames in two queues of MtQueue, read piece by
--              piece.
--   RtspClient package/app/RtspPullHandle/src/ffapp.cpp with the read function of curlPush.cpp: the
--              packets of a camera go into a BaStream, and a signal starts an upload. The packets and
--              the sizes of the reads are arguments.
--   AnyStream  package/app/RtspStorage/src/streamHandle.h: a ring of frames in a vector.
--   AlsaCtrl   package/libs/lzUtils/src/alsa_ctrl: the loops that read and write a sound device, over
--              what ALSA returns.
--   RtPlayer   package/app/CPPBox/src/RtPlayer: a recorder and a player with a queue of MtQueue between
--              them, as steps of the threads in any order.
--   RePlayer   package/app/CPPBox/src/RePlayer: a loop that passes chunks from one sound device to another.
--   CondFifo   package/app/uartd/src/condFifo.h: the queue of uartd.
--   Uartd      package/app/uartd/src/uartd.cpp: commands cut out of a serial line, run by Argv and a table
--              of handlers, and replies written to it, by way of two queues of CondFifo.
--   SockServer package/app/SockServer/src/SockServer.cpp: a server with a thread for each request. What
--              the sockets give is an argument.
--   FdOp       package/libs/lzUtils/src/common/fd_op.h: `un_write` and `un_read`, over the answers of the
--              system calls.
--   FdFile     package/libs/lzUtils/src/common/fd_op.c: files read, written and copied by these.
--   FifoOps    package/libs/lzUtils/src/un_fifo_ops: writes in pieces, by the macro of FdOp.
--
-- Pointers into a block are offsets. A `size_t` operation that can wrap around has its modulus
-- written out; sizes of blocks are bounded as in the hypotheses named IsValid. Fuel is used in
-- `write_pieces`, where each round takes a piece, and in `commands_from`, where each takes two marks:
-- the number of bytes is enough. The calls of `up_active_list` nest by fuel: the rank of a package, or
-- one more than the number of packages, is enough; those of `para_parse` by one more than the bytes of
-- the request. The loops of fileBase64 have fuel for each line: more than the bytes of the file is
-- enough. All other loops are structural; those of AlsaCtrl go by the rounds that are given, and have
-- no result where these run out, nor where the code divides by 0. A count that the code cuts to an
-- `int` is its bit pattern of 32 bits.
--
-- Not modelled: logging, the options of the programs, the timers that signal, the set-up of
-- sockets and of the serial line, the opening of sound devices and the other programs over FFmpeg, all
-- of which are calls of other libraries, and the calls of FFmpeg and libcurl in RtspClient; its older
-- copies in src-v0.1 to src-v0.6; the cutter of video files in package/app/CPPBox; the streaming of
-- files by SockServer, which has a syntax error; and package/app/rtmpServer, package/app/curlBox and
-- package/app/ffbox, which are copies of other projects.
pub mod Base
pub mod Window
pub mod Queue
pub mod RtspClient
pub mod Csrb
pub mod Shrb
pub mod Ccsrb
pub mod Base64
pub mod Vad
pub mod FdOp
pub mod FifoOps
pub mod Autom
pub mod PxTimer
pub mod UserFifo
pub mod Argv
pub mod SelectServer
pub mod PkgSort
pub mod MtQueue
pub mod CondFifo
pub mod Uartd
pub mod SockServer
pub mod EpollServer
pub mod BaStream
pub mod RePlayer
pub mod RtPlayer
pub mod AlsaCtrl
pub mod AnyStream
pub mod FdFile
