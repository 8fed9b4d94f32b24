-- ===== src/Lib.antt =====
-- FreeDOS-32: a verification library of its memory manager, its file allocation table and the code
-- around them. Paths are from the root of the repository.
--
-- The parts and their files:
-- - Pmm models the physical memory manager (fd32/kernel/pmm.c). A pool is the chain of its free
--   chunks, sorted by address; each operation of the source is a function of the same name on
--   pools, and its loop is the `..._walk` beside it. Addresses and sizes are 32-bit words, and
--   differences wrap. A chunk header lies inside the chunk that it describes, so the chain is kept
--   as a list of addresses with sizes. Pmm/Chain says what a chain means; Pmm/Alloc, Free,
--   Address, From and Resize hold the theorems on each operation.
-- - Fat models fd32/modules/fat/alloc.c: reading and writing entries of the file allocation table,
--   the search for a free cluster, seeking along the chain of a file, appending a cluster,
--   deleting clusters. It is written over the functions `fat_read` and `fat_write` that a volume
--   holds as pointers (record FatOps); what alloc.c relies on in them is the record FatLaws of
--   Fat/Laws, which Fat/Entry/Table fills for fat16_read and fat16_write. Fat/Tests runs all of it
--   on a FAT16 volume on a device in memory.
-- - Fat/Entry models the other half of alloc.c, the functions that stand behind those pointers:
--   the entries of FAT12, FAT16 and FAT32 in the sectors of a volume, over `fat_readbuf` and
--   `fat_dirtybuf` (record Buffers). Entry/Laws says what they rely on in those two: reading a
--   sector may displace what is changed in a buffer and not marked, so a state is sound only when
--   nothing is; Fat/Cache/Entries takes both functions from the model of volume.c, and its
--   theorems fill that record for any device that keeps its laws. RoundTrip and Words hold the
--   theorems on FAT16 and FAT32. Places has the arithmetic of the places of the entries of FAT16,
--   and Table makes fat16_read and fat16_write, over sound states, the `fat_read` and `fat_write`
--   of a volume and fills FatLaws for them. An entry of FAT12 can lie in two sectors; that the
--   second buffer could displace the first one is left open, and nothing is shown for FAT12.
-- - Unicode models fd32/modules/unicode/utf8.c (Unicode/Utf8) and utf16le.c with utf16be.c
--   (Unicode/Utf16: one definition over the byte order of the units). Unicode/Bytes checks the
--   masks of bytes at every byte; Utf8/Decode and Utf8/RoundTrip, Utf16/Order and Utf16/Surrogates
--   hold the theorems.
-- - Timer models the queue of timer events of oslib/kl/event.c in periodic mode; Timer/Queue holds
--   the theorems on posting, deleting and waking.
-- - Keyb models the keyboard driver of fd32/modules/keyb/src: Keyb/Queues the queues of queues.c
--   (theorems in Queues/Ring), Keyb/Flags the state of the modifier and lock keys that
--   `preprocess` of keyb.c keeps, with the commands that set the LEDs, over `keyb_write` as a
--   parameter (theorems in Flags/Release). A code that `preprocess` does not consume goes to the
--   raw queue.
-- - DosMemory models the allocator of low memory of oslib/xlib/xdosm.c, a table of free
--   partitions; DosMemory/Alloc holds the theorem on dos_alloc.
-- - Fat/Cache models the buffers of fd32/modules/fat/volume.c: find_buffer, flush_buffer,
--   fat_readbuf, fat_dirtybuf and the loop of fat_sync, over the functions that read and write the
--   block device (record BlockDev, with its laws in Cache/View, which Cache/Tests fills for a
--   device in memory, and Cache/Device, which models fat_blockdev_read and fat_blockdev_write of
--   fd32/modules/fat/fd32.c, for any driver that keeps its own laws). A buffer is its place in the
--   list of buffers, and `buffers_lru` a list of places. Cache/View says when buffers are well-
--   formed and which sectors a reader sees through them, Cache/Set what a change of one buffer
--   does to that, and Cache/Changed what one does that is not marked yet; Flush, Load, Read, Dirty
--   and Sync hold the theorems on the operations.
-- - Jft models fd32/filesys/jft.c: the table of open files of a job and the system calls on its
--   handles; Jft/Lfn models its searches with long names. The calls send requests to file systems
--   through fd32/filesys/fs.c, which are the fields of the record FileOps; Jft/Dup, Path and
--   Console hold the theorems on copies of handles, on split_path and on output without a console.
-- - Fat/Io models fd32/modules/fat/file.c: fat_lseek and fat_read, and in Io/Write fat_do_write
--   and fat_write. They stand on the clusters of a file (Fat) and on the buffers, whose operations
--   are the record DataOps; Io/Sector has the laws of it, which Io/Disk fills for a FAT16 volume.
--   Io/Bytes has the arithmetic of runs of bytes; Io/Sector says what the bytes of a file are and
--   finds the sector of one; Io/Part and Read hold the theorems on one sector and on the loop. The
--   bytes that a read copies are a list.
-- - Memory models fd32/boot/mem.c, the two pools over Pmm with sizes rounded to 8 bytes, and the
--   regions of the kernel and of its modules; Memory/RoundTrip and Release hold the theorems.
-- - Devices models fd32/devices/devices.c: the array of devices with its doubly linked list.
--   Devices/Chain says what the list is, from the device registered last to the first; Cut takes a
--   device out, Linked puts one in, Room enlarges the array over the memory manager (record
--   MemOps, with the laws MemLaws of what is promised of it), and Links has the laws of single
--   writes. Order, Register, Unregister, Walk and Run hold the theorems.
-- - Truename models fd32/filesys/truename.c: paths are lists of bytes, and the buffer that
--   fd32_truename fills through a pointer is held from its last byte to its first.
--   Truename/Components describes a path by its components and the directories they lead to;
--   Buffer relates the loop to that, Text the result, and Path and Directories hold the theorems.
-- - Slab models fd32/kernel/slabmem.c on the bytes of the memory, with pointers of four bytes in
--   it. Slab/Bytes has the laws of reading and writing a pointer, Lists the lists that are
--   threaded through the pages, and Pool, Alloc and Destroy hold the theorems.
-- - Memory/Ops is the interface through which Devices and Slab use the memory manager, with the
--   laws that Devices needs and their proof for the pool of high memory: the witnesses of Devices
--   run on it.
-- - Drives models the drive letters of fd32/filesys/drives.c: the drive of a file name, which is
--   mounted with the first time it is used (the request of a file system is the record MountOps),
--   the default drive, and the functions that walk the drives. Drives/Mount and Walk hold the
--   theorems.
-- - Common holds the shared names: Boolean tests on numbers, lists, 32-bit words, integers, and
--   results with error codes.
--
-- Bounds and fuel: the loops over lists and over a counted range are structural. The loop of
-- fat_delete_clusters ends when the chain does; it runs on fuel, and more fuel than the chain has
-- links is enough. The loop of fat_read runs on fuel, and one more than the bytes that are wanted
-- is enough; that of fat_do_write runs on fuel too. fd32_dev_search runs on one round more than
-- the array has entries, and the loop of fd32_truename on one more than the bytes of the path;
-- both are enough. The loop of slabmem_destroy runs on fuel, and one more than the cache has pages
-- is enough.
--
-- Not modelled: debug messages, pmm_dump, assertions, negative times, wrap-around of the numbers
-- of sectors in a buffer and of file offsets, handlers of timer events that post or delete events,
-- the sizes of the buffers of fd32_truename, and concurrency with interrupt handlers. A result
-- `err e` stands for the negative return value `-e`.
pub mod Common
pub mod Devices
pub mod DosMemory
pub mod Drives
pub mod Fat
pub mod Jft
pub mod Keyb
pub mod Memory
pub mod Pmm
pub mod Slab
pub mod Timer
pub mod Truename
pub mod Unicode
