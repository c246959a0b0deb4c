-- ===== src/Lib.antt =====
-- A verification library for sync-tool, which copies files between directories of one machine and,
-- with a client and a server, between machines.
--
-- The parts of the program and the files that model them:
--   * Wire, Base/Decimal: the integers that client and server exchange as they lie in memory, and the
--     decimal numbers of the progress files.
--   * Socket, Sending: the read and write loops (SyncServer::robustRead, receiveBytes, the write loop
--     of receiveFileData, TcpClient::send and TcpServer::send in src/server and src/network). What the
--     peer and the kernel do is a list of events: chunks of any size, interruptions, failures.
--   * Disk: the file system as the program's calls see it, an interface with laws (stat, mkdir,
--     rename, opening, writing); Disk/Memory fills it. FileUtil is src/utils/LinuxFileUtil.cpp.
--   * Digest: calculateMD5 and calculatePartialMD5 (src/utils/LinuxFileUtil.cpp), calculateFileMD5
--     (src/rpc/RpcServer.cpp). Space: the sizes and the free space of a file system.
--   * Scan: listDirectory, collectMetadata and detectChanges, on the disk.
--   * Metadata: needSync and compareMetadata of src/core/FileSync.cpp.
--   * Progress: saveProgress and loadProgress of src/core/FileSync.cpp, with the formatted input.
--   * TcpClient, Client: src/network/TcpClient.cpp, and FileSync::syncRemote with sendFileSync.
--   * Server: SyncServer::handleClient and all it calls (src/server/SyncServer.cpp).
--   * TcpServer: src/network/TcpServer.cpp. SyncServer: the life of the server, from setBaseDirectory
--     and start with its accept thread to stop.
--   * Cli: src/cli/main.cpp, from the options to the exit code.
--   * Remote: both ends of a remote synchronisation together.
--   * Local: transferFile, syncFile, handleConflict, resumeSync and syncLocal of FileSync.
--   * LargeFile: robustPread, robustPwrite, transferChunk and transferLargeFileAsync, with the test
--     for free space, the opening of the files and the clean-up.
--   * ThreadPool: src/thread/ThreadPool.cpp as a step relation on the shared state and the workers.
--   * Rpc: the framing and the request loop of src/rpc/RpcServer.cpp. Rpc/Messages is
--     proto/sync_service.proto, Rpc/Handlers the handlers of the server, Rpc/Client
--     src/rpc/RpcClient.cpp, and Rpc/Served both ends together.
--   * AsyncIo: src/thread/AsyncIOHandler.cpp with the epoll set behind its tables, and
--     FileSync::sendFileViaAsyncIO, which waits for its callbacks.
--   * Modes: a connection to the server that its first byte makes an RPC connection.
--   * Manager: src/core/SyncManager.cpp over the operations of FileSync.
--   * Examples: the theorems at concrete inputs, on the file system in memory.
--
-- How the parts are put together. A method that changes an object is a function from the state to a
-- result and the state (Action): `return false`, an exception and an overrun buffer are different
-- stops, and what was written before a stop stays. The client of Client reads its disk and writes the
-- bytes of `stream`; the server of Server/Session reads events whose content those bytes are. Reads
-- says that a receive takes given bytes off a stream and returns a given value, however they are cut;
-- Client/Emits says that a step of the client sends given bytes. Remote joins the two.
--
-- Bounds. int has 4 bytes, size_t and off_t have 8, mode_t has 4 (x86-64 Linux), all little-endian.
-- Loops on fuel get as many rounds as there are bytes to move, since each round moves one or ends;
-- the theorems show that this is enough. The RPC loop gets one round more than there are bytes.
-- The server's loop runs on the number of bytes still to come.
-- transferFile reads its source as it goes: the rounds are enough for a source other than the
-- destination and its progress file. The int that counts the chunks of a large file holds 2^31 - 1.
--
-- collectMetadata and the listing of the RPC server run on one unit of fuel for each level of
-- directories, and the theorems ask for a tree of at most so many levels.
--
-- What is not modelled: the generated protobuf code and OpenSSL (arguments), logging and the
-- exception handler, the texts that the command line prints, and the progress that the chunks of a
-- large file save. syncFile takes the chunked copy as an argument, and syncLocal the tasks that
-- detectChanges finds. In Remote the RPC side of the server and the asynchronous send of the client
-- are arguments.
-- The methods of AsyncIOHandler take no lock; AsyncIo has each call and each event as one step, and
-- the two steps of a registration apart. The additions of the workers to completedTasks are not
-- synchronised either: what is left of them is an argument of Manager.
-- Links and other spellings of a path are left out: a file is known by the text of its path.
pub mod Base
pub mod Action
pub mod Wire
pub mod Socket
pub mod Sending
pub mod Reads
pub mod Disk
pub mod FileUtil
pub mod Server
pub mod Metadata
pub mod Progress
pub mod TcpClient
pub mod Client
pub mod Remote
pub mod Examples
pub mod Local
pub mod ThreadPool
pub mod Rpc
pub mod Manager
pub mod LargeFile
pub mod Digest
pub mod Space
pub mod Scan
pub mod AsyncIo
pub mod TcpServer
pub mod SyncServer
pub mod Cli
pub mod Modes
