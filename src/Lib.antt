-- ===== src/Lib.antt =====
-- A model of the C++ network and storage collection cpp-swiss-army-knife, and the theorems that hold of it.
--
-- The repository is a set of small servers and libraries. Its largest part is redisdb/db, a store of
-- sorted files in the manner of LevelDB (coding, key format, write batch, memtable, log, tables,
-- versions) with the data types of Redis on top of it.
--
-- Redisdb models that part, file by file:
--   Redisdb/Coding      redisdb/db/coding.h, coding.cc: fixed and variable length integers, slices
--   Redisdb/Comparator  redisdb/db/dbformat.h, dbformat.cc: the interface Comparator and
--                       BytewiseComparatorImpl; IsComparator is what the interface's comments ask
--   Redisdb/Format      redisdb/db/dbformat.h, dbformat.cc: internal keys, InternalKeyComparator, LookupKey
--   Redisdb/WriteBatch  redisdb/db/writebatch.cc: Put, Delete, SetContents, append, Iterate
--   Redisdb/Serialize   redisdb/db/serialize.h: the metadata values and data keys of the Redis types
--   Redisdb/VersionEdit redisdb/db/versionedit.h, versionedit.cc: the records of the manifest; VersionEdit/Calls
--                       and Setters are about the setters, Fields, Layout, Apply and RoundTrip about the
--                       encoding read back, Ends about decoding any bytes
--   Redisdb/Log         redisdb/db/logwriter.h, logwriter.cc, logreader.h, logreader.cc, and crc32c::Mask and
--                       Unmask of crc32c.h: Log is the writer, Log/Reader the reader; Log/Layout says where
--                       fragments stand in the blocks, Log/Written what the writer writes, Log/Parse, Fetch,
--                       Assembly and RoundTrip what is read back, Log/Progress and Total that reading ends
--   Redisdb/Block       redisdb/db/blockbuilder.h, blockbuilder.cc, block.h, block.cc: Block is the builder,
--                       Block/Iterator the block and its iterator; Block/Layout and Built say what the
--                       builder writes, Block/Finished, Decode, Scan and RoundTrip what is read back,
--                       Block/Halving, Search and Seek where Seek ends
--   Redisdb/Snapshot    redisdb/db/snapshot.h: the list of snapshots, with the lists its operations lead to
--   Redisdb/Logging     redisdb/db/logging.h, logging.cc: decimal numbers and escaped strings
--   Redisdb/Filename    redisdb/db/filename.h, filename.cc and StartsWith of util.cc: the names of the store's files
--   Redisdb/WritableFile  class WritableFile of redisdb/db/env.h; WritableFile/Written is about the loop around
--                       ::write, Appended and Append about FlushBuffer and append
--   Redisdb/CurrentFile SetCurrentFile of filename.cc, WriteStringToFile of logging.cc, and DeleteFile and
--                       RenameFile of env.h: CurrentFile/Writing is about a file that is written, Switched
--                       about CURRENT
--   Redisdb/Table       redisdb/db/format.h, format.cc, and WriteBlock, WriteRawBlock and flush of tablebuilder.cc:
--                       Table is the handles and the footer, Table/Builder and Reader the rest of the code;
--                       Handles is about the footer, Blocks and Written about a block in the file, Flushed
--                       about flush behind an error
-- Memcached models the server of memcached/server (server.h, server.cc):
--   Memcached/Item      class Item
--   Memcached/Store     MemcacheServer's shards: storeItem, getItem, deleteItem; a shard is the list of its
--                       items, and an operation under the shard's mutex is one step
--   Memcached/Request   the tokens of a request line
--   Memcached/World, Session  class Connect: processRequest, doUpdate, doDelete, receiveValue,
--                       discardValue, onMessage, over a world of connection, store and answers
-- A failed assert is `none`, or the outcome `crashed` of onMessage; so is undefined behaviour, where the model
-- has a value for it: an int of the memcached server that overflows, and a key whose length leaves its string.
-- Format, WriteBatch and VersionEdit use Coding; Table writes what Block builds through WritableFile;
-- InternalKeyComparator takes any Comparator, and Redisdb.Comparator gives the bytewise one. Common holds the
-- lists, tests and bit operations that all of them use.
--
-- A byte is a number below 256 and a string a list of bytes. A word of w bits is a natural number, and
-- each operation that can leave the range has `% 2 ^ w` where the C++ type wraps; a negative int32_t is
-- its two's complement. An overflow of the counts of a WriteBatch, which are ints, is undefined in C++ and
-- wraps here; the theorems on counts keep below 2^31. ExtractUserKey's assert is a condition on the keys.
-- A pointer into a buffer with its limit is the list of the bytes that remain.
-- The byte order of the host is a parameter, since the fixed integers are copied with memcpy.
--
-- Loops that consume their input run on fuel, the length of the input (the loops of Iterate and DecodeFrom) or the
-- number of bytes of a word (the varints); AddRecord's on the length of the record plus two, ReadRecord's
-- on the bytes of buffer and file plus one, ReadPhysicalRecord's on three, since it reads at most two
-- blocks; the searches of BlockIterator run on the number of restart points and on the bytes of the entries
-- plus one. The theorems on them give a result, so the fuel is enough. The loop of WriteUnbuffered runs on
-- the answers of ::write, and waits where there are none left.
--
-- Parameters, since their code is not here or not needed: the function that adds an entry to the
-- memtable, crc32c::Value and Extend, snappy, strtoull, findCRLF, the hash and the number format of the
-- memcached server, the answers of the system calls (::write, ::fsync, ::close, ::unlink, rename), and the
-- clock (the time is an argument of what reads it).
--
-- Not modelled: of redisdb/db, the comparators of comparator.h for the keys of lists and sorted sets, the
-- memtable, the cache, Add and Finish of TableBuilder, Table, the merging iterators, the versions, the database
-- and the Redis types on it; the sockets, event loops and threads of the servers, the rest of the files and the
-- environment; the repository's other directories, most of them clients of external libraries (MySQL,
-- PostgreSQL, curl, Lua, tcmalloc) or tools that are input and output.
pub mod Common
pub mod Memcached
pub mod Redisdb
