-- ===== src/Lib.antt =====
-- castserver: a server that finds speakers on the local network and casts audio to them. This is a
-- model of its C code with the theorems that hold of it.
--
-- The parts and their files. All paths are from the root of the repository.
--   server_detect.c           Detect and its children. A speaker announces itself by a request on the
--                             multicast group (srv_detect_read, valid_speaker); the monitor thread
--                             takes silent speakers offline (thread_online_detect, as rounds). Socket
--                             has the multicast socket and the start of the component. Refine
--                             compares it with a set of numbers, over the interface of Known.
--   server_speaker_control.c  Control and its children. Commands to a speaker, and the clock that it
--                             asks for.
--   server_speaker_pusher.c   Pusher and its children. Interleaved samples are taken apart, and each
--                             channel goes to its speakers.
--   server_mutex.c            Mutex. A starting server looks for another one.
--   server_http.c             Http: the files of one directory over HTTP.
--   server.c                  Server: main and its loop. Shutdown: server_deinit, xexit and
--                             signal_handle, with the `*_deinit` functions of all files.
--                             speaker_added_handle is `call_detect_cb` in Detect.
--   server_receiver.c         Receiver, which nothing calls.
--   config.c                  Config.
--   command_control.c         Command: the command socket, as rounds of its thread, and the dispatch of
--                             its messages. command/speakers.c is the command cmd_speakers there.
--   command/pushwave.c        Wave: the command cmd_wave, which plays a file. Datagrams, Messages and
--                             File take its two loops down to the datagrams of Pusher; Chunks, Split,
--                             Sendto and Heard say what is heard of a file, however it is cut.
--   client/                   Client: the program that sends a file over the command socket.
--   the whole                 System: the handlers that the event loop and the threads run, as steps,
--                             a file on its way from the client to the server (Playback) and on to the
--                             speakers (Broadcast), and a speaker that goes and comes back
--                             (Comeback). Reach and Contacts have what any sequence of steps keeps.
--   the threads               Threads: parts of handlers that run in turns. The event loop and the
--                             command thread share a buffer (Race, Outcomes); the monitor and the
--                             event loop share the speakers (Monitor).
-- How they interact: Detect connects a new speaker by Pusher, stores the moment of the connection by
-- Control and sends it a command by Control; it answers the probes of Mutex. Command answers what
-- Client asks, and gives the file that Client sends to Wave, which tells the format by Control and
-- pushes the samples by Pusher. Every part ends the process by xexit.
--
-- The state is the record World (World.antt): the file-level variables of each source file, the
-- speakers behind their pointers (Store in Env.antt; 0 is NULL), the exit flag, and the trace of the
-- calls made so far. A C function is a function of the same name in a state passing monad
-- (Process.antt), whose outcome is a result, the end of the process, undefined behaviour, or that the
-- rounds given to an endless loop are over. The client is a process of its own, with the record Client
-- for its state. A handler that the event loop
-- or a thread calls is one step on the World, and does not interleave with others in System; in Threads the steps
-- are its actions, and an interleaving is a list of them. There the encoding of a command is one
-- action, though a second thread could come in the midst of it too.
--
-- The operating system and the headers of `common/`, a submodule that the repository does not hold,
-- are the fields of the record Env (Env.antt), on which all definitions depend. No law of them is
-- assumed there: a theorem names as a hypothesis what it needs, and the tests meet it with the
-- concrete system of Sample.antt.
--
-- Numbers: the results of system calls are integers of Base/Int.antt, converted where the source
-- keeps them in an unsigned type; the clock wraps at 2^64. The copy loop of server_sppush_push runs on
-- fuel, one more than the length of the chunk, which is enough for samples of at least one byte. The
-- first loop of cmd_wave runs on one more than its bytes, which is enough for a chunk that is not
-- empty, and the loop of pipe_init on one more than the bytes of the file, which is always enough. The
-- second loop of cmd_wave and the loop of main wait for the outside and have a number of rounds as an
-- argument. All other loops are structural.
--
-- Not modelled: log output and the help text; the timing of sleeps; the interleaving of threads but for what Threads has;
-- getopt, whose results `main` takes as a list; when a signal arrives; daemon.c, which has no code. The
-- second call of server_sppush_push in cmd_wave lacks its channel list, so the file does not compile;
-- the model passes the list of the first call. The file-level variables of pushwave.c are used by
-- cmd_wave only, and are local there.
pub mod Base
pub mod Types
pub mod Env
pub mod Process
pub mod World
pub mod Shutdown
pub mod Config
pub mod Control
pub mod Pusher
pub mod Wave
pub mod Mutex
pub mod Detect
pub mod Client
pub mod Command
pub mod Http
pub mod Receiver
pub mod Server
pub mod System
pub mod Sample
pub mod Threads
