-- ===== src/Lib.antt =====
-- bdev_ubi: a virtual block device of SPDK over a base bdev and a read-only image file. The base bdev
-- starts with 8 MiB of metadata; behind it lie the blocks of the device. The image is cut into
-- stripes. A stripe is fetched, that is, copied from the image to the base bdev, before the first
-- write to it, and before the first read of it if copy_on_read is set.
--
-- Paths are given from the repository's root.
--
-- Parts and files:
--   Layout       src/lib/bdev_ubi.c, ubi_init_layout_params. `Request` holds what the function
--                reads, with the answer of `stat`; `check_layout` holds the tests in their order.
--   Metadata     struct ubi_metadata of include/bdev_ubi_internal.h, and the functions of
--                src/lib/bdev_ubi.c on it. The child Version has the round trips.
--   FetchQueue   the ring of stripes that wait for a fetch, of src/lib/bdev_ubi_stripe.c. Its child
--                Contents has the abstract view, a list, and Refine the refinement.
--   Bdev         struct ubi_bdev; ubi_get_stripe_status and ubi_set_stripe_status. The child Kept
--                says what no step undoes.
--   Channel      struct ubi_io_channel, the requests, and the calls of SPDK and liburing.
--   Fetch        src/lib/bdev_ubi_stripe.c: start, completion and failure of a stripe fetch.
--   Request      src/lib/bdev_ubi.c, ubi_io_type_supported and ubi_submit_request.
--   ReadWrite    src/lib/bdev_ubi_io_channel.c: reads and writes, and their completion.
--   Flush        src/lib/bdev_ubi_flush.c: the four functions of a flush request.
--   Poll         src/lib/bdev_ubi_io_channel.c, ubi_io_poll and ubi_complete_image_io. The child Busy is
--                about the slots that a poll leaves free as it starts its fetches, Waiting about the
--                requests that it leaves.
--   System       a channel in its surroundings: a step relation over all entry points. The child
--                Shared has any number of channels on one bdev, Exclusive who fetches a stripe,
--                Recovery what the metadata is worth at any time, Fresh the channels at the start.
--   Load         src/lib/bdev_ubi.c, ubi_finish_read_metadata.
--   Create       src/lib/bdev_ubi.c: the creation of a bdev, from bdev_ubi_create over the read of the
--                metadata to ubi_finish_create, and ubi_destruct.
--   Open         src/lib/bdev_ubi_io_channel.c, ubi_create_channel_cb and ubi_destroy_channel_cb.
--   Removal      src/lib/bdev_ubi.c, ubi_handle_base_bdev_event: the removal of a base bdev.
--   Json         the JSON functions of SPDK, as parameters, with what is relied on.
--   Rpc          src/lib/bdev_ubi_rpc.c: the two RPC methods; bdev_ubi_delete and
--                ubi_write_config_json of src/lib/bdev_ubi.c. The child Answers is about what a client
--                is told, Config about requests, defaults and saved configurations.
--   Ownership    which channel is to fetch a stripe, and what each operation does to that.
--   Durable      the callbacks of flush requests among the steps of all channels, each tied to the call
--                that it answers, beside what the metadata on the base bdev marks as it was last flushed.
--   Data         the blocks themselves: what the base bdev and the image hold, what the calls of the
--                channels do to the base bdev, and what the bdev shows. Sim is what ties the bdev to a
--                plain device; Calls, Copy and Perform are about single calls, Fetching, Serving,
--                Flushing, Polling and Arriving about the functions of the source; Cluster has all
--                channels, and its children the theorems.
--   Account      where the requests of a channel are: in the queue, in a call that has a callback to come,
--                or completed. A callback runs only if a call has promised it.
--   Trace        the callbacks that the libraries owe a channel, by kind: what its calls have promised and
--                what has been run. Reads is about active_reads, Slots about the slots of fetches, Entries
--                about the ring of io_uring, Even and Steps about all of them at a step, Reach about every
--                state that is reached, Waiting about what a request waits for; Cost and
--                Bounded count the callbacks that a request may lead to.
--   Resources    what Create and Open acquire and release, as a list of acts.
--   Prelude, Errno   shared names and lemmas; results of C calls.
--   Examples     concrete data, and the theorems at concrete inputs.
--
-- How they interact: SPDK calls ubi_submit_request with a request, which is queued, with its stripe if
-- that must be fetched. The poller takes completions from io_uring, starts fetches from the ring in
-- free slots, and serves requests from the head of the queue: to the base bdev, to the image, or by a
-- flush. Callbacks of SPDK end fetches, reads, writes and flushes.
--
-- State and calls. A function of the source that changes the channel or the bdev is a function from
-- `State` to `State`, with its result beside it. SPDK, liburing and the C library are not part of the
-- repository: what their functions answer is a parameter, `Env`, a function of all calls made so far,
-- and the calls are kept in `State.calls` with the arguments that matter. Pointers to a slot, a
-- request or a channel are an index, a record with an `id`, and the state itself. A callback that SPDK
-- may run within the call (spdk_bdev_io_get_buf) is run there if `Env.buf_now` says so. A step of
-- `System` may be taken with any argument at any time, which allows more than SPDK does, and another
-- channel of the same bdev may change the bdev in between, as far as `Kept` allows. In `System.Shared`
-- that other channel is there itself, and one thing is asked of the libraries, `StepDue`: the end of a
-- read or write of a stripe is reported for a slot in use. `Trace` derives that from what the calls have
-- promised: there it is asked that a callback runs only if a call has promised it, that a read of the
-- image ends only if it has been submitted, that io_uring_submit does not fail, and that
-- io_uring_get_sqe finds an entry while fewer than 32 have been prepared and not submitted; the memory
-- of a new channel, whose active_reads ubi_create_channel_cb does not set, is taken to be cleared, as
-- SPDK allocates it. Steps of channels do not overlap: the
-- source has no locks, and threads that run at the same time on one bdev are not modelled.
--
-- Bounds. The ring has 32768 entries, one of which stays free: the theorems on rings that do not
-- overflow are about images of at most 32767 stripes, and FetchQueue.Refine shows what a full ring does.
--
-- Numbers. All numbers are natural numbers, with the wrap-around of C written out where an operation
-- can wrap. A stripe number is handed on as an int: the statuses are a function of the number itself,
-- so that an index outside stripe_status reads some value instead of leaving the array; the ring
-- keeps 32 bits of it. An int result is read only for its sign. The block length of a bdev of SPDK
-- is never 0, which `Accepts` implies.
--
-- In `Durable` the counter of stripes fetched is taken not to reach 2^64. Writes of the
-- metadata do not overlap there: metadata is written only when that of every other flush request has been
-- flushed, or its write or flush has failed. The source does not see to this, and a base bdev may carry
-- out overlapping writes in either order.
--
-- In `Data` the base bdev is an array of blocks. The calls are carried out in the order in which they
-- are made, and each is carried out or not, as a parameter says, `Carried`; a call that is not carried
-- out leaves the blocks alone. The image does not change, and its reads are full. What is asked of SPDK
-- and liburing beside `StepDue` is `Submitting`, that io_uring_submit does not fail, so that no read which
-- the source takes for a failed one is left prepared for a slot that is used again; and `DataDue`: requests do not cross the end of a stripe, as
-- split_on_optimal_io_boundary has it, and a write of a stripe whose end is reported has been carried
-- out, which write_stripe_io_completion does not test. The image is one of whole stripes: behind the end
-- of another one, the rest of its last stripe is overwritten when the stripe is fetched. The plain device
-- carries out a write of a client when the base bdev does. The calls of a channel are counted anew in
-- each step.
--
-- Loops. The halving loop of ubi_init_layout_params runs on fuel 32, more than the 31 rounds that a
-- uint32_t needs; the geometry theorem shows the logarithm exact. The request loop of the poller is
-- structural on the queue as it is when the loop begins: a client is taken not to submit a request to the
-- channel from within the callback that spdk_bdev_io_complete runs. (The source reads the head of the
-- queue anew in each round, and would handle such a request in the same loop.) The other loops are
-- structural.
--
-- Not modelled: logging and the texts of errors; iovecs and I/O options, which are only handed on; the
-- application and the tests; the module's registration with SPDK and its other one-line callbacks; the
-- allocation of the context in rpc_bdev_ubi_create, which the source does not test; the bytes
-- of the metadata area; a base bdev that reorders calls, or loses what it has carried out. The code that
-- is left is of these kinds.
pub mod Prelude
pub mod Errno
pub mod Layout
pub mod FetchQueue
pub mod Metadata
pub mod Bdev
pub mod Channel
pub mod Fetch
pub mod Request
pub mod Flush
pub mod ReadWrite
pub mod Poll
pub mod System
pub mod Load
pub mod Resources
pub mod Create
pub mod Open
pub mod Removal
pub mod Ownership
pub mod Durable
pub mod Data
pub mod Account
pub mod Trace
pub mod Json
pub mod Rpc
pub mod Examples
