-- ===== src/Lib.antt =====
-- Guthi-Core: a model of the core library of Guthi, a framework for distributed applications, and
-- what has been proved of it. The library runs on each node: it keeps the tree of the files that all
-- nodes share, a cache of files of other nodes, a queue of events, and what is known of the machine;
-- a daemon tracks files and tells its client, over a pipe, of their changes.
--
-- Parts, and how they interact
--   Base      Numbers, lists, byte strings and runs that end in undefined behaviour or use up their
--             fuel (Base.Runs), for the other parts. A byte string is the list of its bytes.
--   Network   src/filesystem/network_fs.hpp. FileContent is a node of a store of shared nodes, as
--             std::shared_ptr makes it: `Store` is a function from addresses. merge_single, merge_total,
--             add_as_child_directory, add_file, remove_file and merge_diff stand for
--             MergeSingleFileContent, MergeTotalFileContent, AddAsChildDirectory, AddFile, RemoveFile and
--             NetworkFS::MergeDiff; Network.Format for operator<< and its FileFormatter. Network.Tree has
--             trees as values, Footprint, Frame, Refine and Merge that the operations on the store do
--             what is said of trees, Top, Paths and Edit what follows.
--   Cache     src/filesystem/cache.cpp, and RawFile and FileCache of src/filesystem/fs.hpp. The multimap
--             is the list of its entries in their order (Cache.Entries). The disk, the memory load and
--             the clock are a parameter, the record `System`.
--   Event     src/event/event.h and src/event/event.cpp. The queue is linked entries on a heap, and
--             its operations give none where the code follows a null or dangling pointer. Event.Shape has
--             the four shapes that a queue can have, and Refine shows that these are all.
--   Tracker   src/filesystem/file_track.hpp and src/filesystem/file_track_linux.cpp. State has
--             FileTracker, TrackFolder, TrackFile and TryPopChangeInfo, Listen has ListenForChanges over
--             the bytes that each read gives. realpath and inotify are a parameter, `Inotify`.
--   Daemon    src/daemon: daemon_protocol.h and runtime.cpp, with linux_pipe.cpp (Setup, Pipe) and
--             win32_daemon_impl.cpp (Named, Pipe), and runtime_client.cpp and daemon_lib.cpp (Client),
--             that Answer has together with the daemon. Protocol has MessageVerified and
--             PrepareMessage, Dispatch DispatchMessage, and Loop a turn of the loop of main; Named also
--             CreateDaemonProcess. The state holds the tracker of
--             Tracker, which a request of the client calls in its turn, and which the tracking thread
--             brings to another state between two turns.
--   Shared    src/shared_memory/shm.h and shm.cpp, and src/core/read_sharedmemory.hpp: Attach has the
--             constructors and destructors, Shared write_data, and read_shm_round for a round of read_shm.
--   CApi      src/core/c_api.cpp: query_cached, fetch_cached and add_to_file_cache stand for IsFileCached,
--             GetCachedFile and AddToFileCache on the global file system; they call Cache, and list the
--             file in Network's store.
--   Cpuinfo   src/runtime/parser_cpuinfo.cpp and parser_cpuinfo.hpp, and the records of
--             src/runtime/sys_info.h. Tokens has the tokenizer, Parse, Memory the three parsers,
--             GetSystemInfo and GetMemoryInfo. What the commands print is a parameter.
--   Files     FileBufReader, FileBufWriter and OSFile of src/filesystem/fs.hpp and fs.cpp. Reader has
--             refill and Read, Stream and Scanf the loop over a format; Writer has printf and Flush, Os
--             the file. Between a buffer and its file stands an interface, `Blocks`, that Os fills;
--             streams and the conversions of the C library are parameters.
--   WinTracker  src/filesystem/file_track.cpp. Entries has the loop over the changes that one read
--             gives, Listen ListenForChanges in five parts, between which another thread may track more;
--             Arrays and Reach have the invariant of its arrays. It shares its records with Tracker.
--   Semaphore src/shared_memory/semaphore.hpp, in Semaphore.Linux and Semaphore.Win32. Semaphore.Mutex is
--             the interface that both fill: processes that use one semaphore, as a step relation.
--   Serialize src/filesystem/serialize_fs.hpp and serialize_fs.cpp over Network's store, and the calls of
--             src/core/c_api.cpp that pass serialized trees. The library that it calls is a parameter,
--             `Bitsery`; Round has its promises, and Sent has Serialize and Shared together.
--   SysInfo   src/runtime/sys_info.cpp: memory, processors, and the load from the counters of
--             /proc/stat. Arithmetic of floating point numbers is a parameter.
--   Demo      src/main.cpp up to its test of tracking: Network, Serialize and Cache together.
--
-- Conventions
--   A w-bit number is a natural number with its wrap-around written out. A pointer into a buffer is the
--   list of the bytes from its place on, and a read or write beyond the buffer a result of its own
--   (none, fault or faulty). exit and failed assertions are results as well.
--
-- Fuel
--   merge_single takes the depth of the second tree, which its theorems suppose or give; the serializer
--   and the deserializer take a bound on the nodes of the tree, which the round trip gives. The loops of
--   both trackers, of Scanf and of the parsers take a number of rounds; the theorems that they give a
--   result say how many are enough, and those that they never end hold for every number.
--
-- Not modelled
--   The serializer library (include/serializer) and src/runtime/Pdh.h are copies of other projects, and
--   PDH counters are only passed on. QueryLastWriteTime only asks the system. Code that only prints
--   or passes its arguments on: src/core/error.cpp, the log and print calls of src/core/c_api.cpp and
--   of src/runtime/sys_info.cpp. AddToFileFS of src/core/c_api.cpp, which keeps nothing of what it is
--   given. The test of tracking of src/main.cpp, which starts a thread and sleeps. Calls of a tracker
--   from its two threads are taken one after another, on Windows a part of the loop at a time: an
--   interleaving inside a call is not modelled, nor is the allocation of memory that fails.
pub mod Base
pub mod CApi
pub mod Cache
pub mod Cpuinfo
pub mod Daemon
pub mod Demo
pub mod Event
pub mod Files
pub mod Network
pub mod Semaphore
pub mod Serialize
pub mod Shared
pub mod SysInfo
pub mod Tracker
pub mod WinTracker
