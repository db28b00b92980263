-- ===== src/Lib.antt =====
-- A model of the core of the driver in source/, which tracks the changed blocks of block devices and
-- keeps snapshots of them by copy on write.
--
-- The parts, from the bottom up, and the modules that model them:
--   * Prelude: shared lists, tests and 64-bit words; the status codes; the allocator of the kernel,
--     as the list of its answers to come.
--   * Range: source/range.h, runs of sectors.
--   * PageArray: source/page_array.c, arrays kept in pages of 4096 bytes. `ptr_get` is
--     page_array_ptr_get, and so on. A page is the list of its items. Items has the access to one,
--     Alloc the pages themselves, Copying the copies out of them.
--   * RangeVector: source/rangevector.c, ranges in elements of 1000. Store has the additions and the
--     sizes, Translate rangevector_v2p, Sort rangevector_sort, Search rangevector_el_find_first_hit.
--   * SparseBitmap: source/sparse_bitmap.c, a tree of blocks of 64, each level a type of its own over
--     the level below; SparseBitmap.Bitmap is the bitmap over a window of indices.
--   * CbtMap: source/cbt_map.c, the table of changed blocks: Size has its size and allocation,
--     Table the marking of sectors, History what the bytes say after any run of operations.
--   * BlkDescrArray: source/blk_descr_array.c, the map from a device's blocks to the blocks of a
--     store that hold their old contents, over a PageArray of groups. Laws has set and get, Life
--     the rest.
--   * BlkDescrPool: source/blk_descr_pool.c, the queue of a store's free blocks.
--   * Snapstore: source/snapstore.c with source/rangelist.c: Pieces and AddFile cut the ranges of
--     a file into the blocks of the pool, Redirect sends a request to the sectors of a block
--     (Sectors has lists of them), Border aligns.
--   * SnapstoreDevice: source/snapstore_device.c, over the three above: Requests and Prepare have the
--     preparation of copy on write and its failure, Requested the blocks that it asks to copy, Copied
--     what a device has after the copy, Source and Image the reads of the snapshot where the module's
--     parameter zerosnapdata is 0 (Snapstore.Zeroed has the reads where it is not, as
--     blk_dev_redirect_read_zeroed of source/blk_redirect.c does them).
--   * BlkDeferred: source/blk_deferred.c, the requests of a copy: Portion and Submit split a run
--     of pages into bios, Complete counts their ends for the waiter, Segments and Copy follow the
--     data from the device to the store.
--   * DeferIo: source/defer_io.c, with tracking_make_request of source/tracking.c in front of it:
--     Routing has the bios that are queued and those that go on, Round, Steps and Saved a round
--     of the thread, over SnapstoreDevice, and Thread its end. `trace` has the copies of blocks
--     and the bios that are sent on in their order.
--   * TrackerQueue: source/tracker_queue.c, the disks whose operations table is replaced: Laws
--     and Puts have the container, System the clients that search, insert and put, each critical
--     section a step, Create and Put their steps, Reachable what holds where no insertion is
--     disturbed, Race two clients that both search and then both insert.
--   * Snapshot: source/snapshot.c, with source/tracker.c and tracking_add of source/tracking.c:
--     Overlap the trackers that share sectors, Capture and Release the devices of a snapshot
--     (Held has the search for them), Again the creation of a snapshot of a device that has one.
--   * CbtStorage: source/cbt_storage.c, the pages in which the table is kept over a reboot: Pages has
--     one page, Portion and Stream the bytes that are written (Splice has lists written over), Finish
--     the end of writing, Check and Reading the way back.
--   * CbtParams: source/cbt_params.c, the parameter string that says where those pages are:
--     Fields cuts it at its separators, Uuid and Ranges read two of the fields, Printed all of
--     them.
--   * SnapdataCollect: source/snapdata_collect.c, which looks for the sectors of the snapshot's
--     own data: Marks has the bits that a written segment sets in the sparse bitmap.
--
-- An operation takes and returns the state that it changes, and a status. Where an operation of
-- these parts runs under a lock of its object it is one step; tracker_disk_create_or_get has two
-- critical sections, which TrackerQueue.System and TrackerQueue.Race take apart, and
-- blk_deferred_complete two writes in a row, `complete_steps`, which BlkDeferred.Complete takes
-- apart. What the kernel answers (the results of bios, of a freeze, of the start of a thread, the
-- numbers in a text, MKDEV) is given, as a list of answers to come or as a function of the
-- device. An allocation consumes one answer of the allocator, true past the end of the list, and
-- every failure is a branch. A BUG_ON, and a page behind its array, is `none`. Words of 64 bits
-- wrap where the code can reach the wrap; counters of allocations do not.
--
-- Bounds: the loops of _calc_level and cbt_map_check_size, the bisection of
-- rangevector_el_find_first_hit, the passes of rangevector_sort, the pieces of
-- snapstore_add_file, the rounds of the thread of defer_io.c, the portions of
-- blk_deferred_submit_pages, the loop of _cbt_prst_parse_rangevector and those of
-- cbt_storage_write and cbt_storage_read run on a number of rounds, and the theorems about them
-- show that the number given is enough; the other loops are structural. A block has 64 children,
-- as on a machine of 64-bit words, a page 4096 bytes or 512 pointers, and the size of a snapstore
-- block is an argument.
--
-- The models are of the builds with VEEAMSNAP_DISK_SUBMIT_BIO, VEEAMSNAP_BLK_FREEZE and
-- BLK_DEFER_LIST, where these make a difference.
--
-- Not modelled: what the kernel does with a bio, of which Snapstore, BlkDeferred and DeferIo
-- record the submission, nor that blk_dev_redirect_zeroed_part fills pages with zeros, of which
-- Snapstore records the sectors; copies from and to user memory; logging; sysfs, ioctl and module
-- entry points; the images' block devices; the lists of the collectors of snapshot data; the
-- register of the tables that are kept over a reboot; stores in memory and on several devices.
pub mod Prelude
pub mod BlkDeferred
pub mod BlkDescrArray
pub mod BlkDescrPool
pub mod CbtMap
pub mod CbtStorage
pub mod CbtParams
pub mod DeferIo
pub mod PageArray
pub mod Range
pub mod RangeVector
pub mod SnapdataCollect
pub mod Snapshot
pub mod Snapstore
pub mod SnapstoreDevice
pub mod SparseBitmap
pub mod TrackerQueue
