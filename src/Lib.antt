-- ===== src/Lib.antt =====
-- A model of the core of distcc, a distributed C compiler front end, with the theorems that make it
-- correct.
--
-- The client (src/distcc.c, src/compile.c) reads a compiler's command line, decides whether it can
-- be sent to another machine, preprocesses the source, and sends the rewritten command and the
-- source to a server (src/serve.c), which scans the command again, sets its own file names in it,
-- runs the compiler, and sends the results back. Modelled here are the command line, the file names
-- that it speaks of, the list of hosts and the choice of one of them, the packets that carry the
-- command, the files and the results, the reads and writes below them, and the two drivers: the
-- client's choice between remote and local compilation, and the server's way from a request to a
-- command and from its results to an answer. Around them are modelled the files with the
-- dependencies, the list of clients that the server lets in, the list of compilers that it accepts, the
-- names of lock files, and the client's search of PATH.
--
--   Prelude, Prelude/Bytes   shared names; C strings as lists of bytes without the closing NUL, and
--                            str_startswith and str_endswith of src/util.c
--   ExitCode                 src/exitcode.h, and results: a value, a nonzero return, a call of exit,
--                            or a read of memory that the program does not own
--   Filename                 src/filename.c. dcc_find_extension is find_extension, and so on; a
--                            pointer into a name is the pair of the parts before and behind it. The
--                            build option ENABLE_REMOTE_ASSEMBLE is the argument `assemble`.
--   Arg                      dcc_scan_args of src/arg.c. The chain of tests on a word is word_action,
--                            the effect of a word is act, the loop is scan_loop, and what follows the
--                            loop is finish_scan. `i++` and `argv[++i]` inside the loop are a claim
--                            on the next word. Arg/Items and Arg/Grammar hold a grammar of command
--                            lines, Arg/Accepts the results that it gives.
--   Arg/Rewrite, Arg/Expand  dcc_set_action_opt, dcc_set_output, dcc_set_input and
--                            dcc_expand_preprocessor_options of src/arg.c
--   Argutil                  src/argutil.c
--   Strip                    src/strip.c; Strip/Items has the words of an argv by lists of options
--   Rpc                      src/rpc.c, with the headers and argument vectors of src/clirpc.c and
--                            src/srvrpc.c, over dcc_readx of src/io.c. A sender is the bytes that it
--                            writes; a receiver takes the bytes still to come before the end of the
--                            connection. strtoul of the C library is Rpc/Strtoul.
--   Hosts                    src/hosts.c: the features, options and multipliers of a host in Hosts, the
--                            three kinds of definitions and dcc_parse_hosts in Hosts/Parser, with
--                            Hosts/Parser/Printed for definitions as a user writes them. qsort and
--                            rand are arguments, and so is the build option HAVE_GSSAPI; strtol and
--                            atoi of the C library are Hosts/Numbers.
--   Where                    src/where.c and src/backoff.c, with the test of dcc_lock_host in src/lock.c.
--                            The answers of lock files and the times of backoff files are arguments.
--   Io                       src/io.c: dcc_readx is readx_loop and dcc_writex is writex_loop, over a
--                            list of the system's answers
--   Effects                  what a receiver does to the file system, in order, and how it ends
--   Bulk                     dcc_x_file of src/bulk.c; Bulk/Receive has dcc_r_file, dcc_r_bulk of
--                            src/pump.c and dcc_r_bulk_lzo1x of src/compress.c. The two calls of lzo
--                            are an argument, the record Lzo, whose documented behaviour is IsLzo; the
--                            permissions of the file system are the record Disk.
--   Many                     dcc_x_many_files of src/clirpc.c and dcc_r_many_files of src/srvrpc.c.
--                            Whether symlink succeeds is told by Disk, by target and name; the 1 that
--                            is returned where it fails is failed_symlink of ExitCode.
--   Results                  dcc_retrieve_results of src/clirpc.c, and in Results/Answer what the end
--                            of dcc_run_job in src/serve.c sends
--   Client                   dcc_build_somewhere of src/compile.c with dcc_compile_remote of
--                            src/remote.c and dcc_cpp_maybe of src/cpp.c. What the calls answer is the
--                            record Calls, what is done is a list of events. Client/Remote is the
--                            remote compilation; the labels of dcc_build_somewhere are functions of
--                            their live variables, the last ones in Client/Fallback and the others in
--                            Client/Build.
--   Serve                    the changes of src/serve.c to the command; Serve/Request has the request
--                            of src/remote.c, as bytes, and dcc_run_job up to the command that it
--                            compiles. The names of temporary files are the record Temps, and
--                            `enter` makes the server's directory and changes to it. Serve/Job has
--                            dcc_service_job and the whole of dcc_run_job, with the compiler as a field
--                            of the record Server; Serve/Job/Whole joins it with the client.
--   DebugInfo                src/fix_debug_info.c, over the bytes of an object file; the layout of
--                            <elf.h> is the record Elf
--   Access                   src/access.c in a build with ENABLE_RFC2553: dcc_parse_mask is parse_mask and
--                            dcc_check_address check_address. Access/Clients has the --allow options of
--                            src/dopt.c and dcc_check_client of src/srvnet.c, Access/Rules and
--                            Access/Prefixes what the texts of these options say of the bits of an
--                            address. getaddrinfo, the macros on v6 addresses and the order of the bytes
--                            of a word are arguments.
--   Dotd                     dcc_get_dotd_info of src/dotd.c, with Dotd/Items for the items of a command
--                            line and Dotd/Names for the file names. Dotd/Cleanup has dcc_cleanup_dotd,
--                            over the bytes of the file; the length of a line is an argument.
--   Fresh                    dcc_fresh_dependency_exists of src/compile.c, over the bytes of the file;
--                            stat and fnmatch are arguments
--   Lines                    fgets of the C library, and the lines of a text
--   Stringmap                src/stringmap.c, and dcc_remap_compiler of src/serve.c with its static
--                            variables as a state
--   IncludeServer            dcc_get_original_fname and dcc_categorize_file of src/include_server_if.c
--   Masquerade               the search of PATH: dcc_support_masquerade of src/climasq.c, dcc_trim_path and
--                            dcc_abspath of src/util.c. The rounds of their loops are the list `rounds`.
--   Locking                  dcc_make_lock_filename of src/lock.c
--   Tests                    runs on concrete inputs, and the theorems at such inputs
--
-- Fuel: the two loops over a -Wp word take the length of the word as fuel; each round but the last
-- takes a comma, so that it is enough, which expand_preprocessor_options_lem includes.
-- The loops over a host list and over the options of a host take one more than the length of the text.
-- The rounds of dcc_lock_one take one unit each; the theorems on them say when they end. The attempts to
-- decompress take one unit each, and double the buffer; k + 1 of them are enough for a text of at most
-- 8 * 2 ^ k bytes. The trimming loop of dcc_cleanup_dotd takes one unit more than the length of the line, and the loop over
-- the lines one more than that of the text. dcc_fresh_dependency_exists and
-- stringmap_load take one unit for each byte of their file, and the loop of dcc_abspath one more than the
-- bytes of the path. The jobs of Serve/Job take one unit more than the attempts that their texts
-- need, and for the lines of the dependencies one more than their bytes. The loops of src/io.c take one answer of the system for each call.
--
-- Not modelled: allocation failure, logging, writes that fail in the middle of a message; the locking of files, the
-- lookup of the host list, zeroconf, sendfile, the search for the compiler in
-- src/serve.c, processes, monitors, authentication, and the Python include server with the socket to it.
pub mod Prelude
pub mod ExitCode
pub mod Filename
pub mod Arg
pub mod Argutil
pub mod Strip
pub mod Rpc
pub mod Hosts
pub mod Where
pub mod Io
pub mod Effects
pub mod Bulk
pub mod Many
pub mod Results
pub mod DebugInfo
pub mod Client
pub mod Serve
pub mod Access
pub mod Lines
pub mod Dotd
pub mod Fresh
pub mod Stringmap
pub mod IncludeServer
pub mod Masquerade
pub mod Locking
mod Tests
