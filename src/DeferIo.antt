-- ===== src/DeferIo.antt =====
-- source/defer_io.c, with the requests of tracking.c that it queues and the CBT calls of tracker.c: while
-- a snapshot is held, a bio of the device is queued, and a thread copies the blocks that it will write,
-- marks the change and sends the bio on. One tracker sends its bios to one processor. What the thread
-- reads of the environment in a round is given: whether it is asked to stop, how the reading and the
-- storing end, and the allocator. `blk` is SNAPSTORE_BLK_SIZE.
pub mod Round
mod Steps
pub mod Saved
pub mod Thread
pub mod Routing
mod Tests
use mathlib.Core.Option
use mathlib.Core.List.{map}
use veeamsnap.Prelude.{
  ℕ, zero, suc, ◌+◌, ◌-◌, ◌*◌, ◌/◌, Bool, true, false, Option, none, some, List, [], ◌∷◌, ◌++◌,
  ◌&&◌, not, ltb, ◌==◌, if◌then◌else◌, Status, success, enodata, enomem, efault, is_success, Memory,
  alloc,
}
use veeamsnap.Prelude.Word.{add64, sub64}
use veeamsnap.Range.{Range}
use veeamsnap.CbtMap.{CbtMap, set_changed}
use veeamsnap.Snapstore.{Target}
use veeamsnap.SnapstoreDevice.{
  Device, Prep, CopyRequest, is_corrupted, prepare_requests, blocks_of, copy_blocks, Fate,
}

-- The part of `tracker_t` that the writes change, with the capacity of its device.
pub record Tracker : Type 0 where
  pub cbt_map : Option CbtMap
  pub capacity : ℕ
  pub captured : Bool

-- `tracker_cbt_bitmap_lock`: whether the table is there, and active.
pub cbt_bitmap_lock : Tracker → Bool
cbt_bitmap_lock t = elim t.cbt_map [ none ↦ false | some m ↦ m.active ]

-- `tracker_cbt_bitmap_set`: a device that was resized, or a table that does not take the range, makes
-- the table inactive.
pub set_bitmap : ℕ → ℕ → ℕ → CbtMap → CbtMap
set_bitmap capacity sector sector_cnt m =
    let r = set_changed m sector sector_cnt in
    if m.device_capacity == capacity
    then (if is_success r.0 then r.1 else record r.1 { active = false })
    else record m { active = false }

pub cbt_bitmap_set : ℕ → ℕ → Tracker → Tracker
cbt_bitmap_set sector sector_cnt t = record t {
  cbt_map = Option.map (set_bitmap t.capacity sector sector_cnt) t.cbt_map;
}

-- `defer_io_original_request_t`: a bio, whether it writes data, its sectors, and whether it has a
-- tracker
pub record OriginalRequest : Type 0 where
  pub bio : ℕ
  pub is_write_bio : Bool
  pub sect : Range
  pub tracked : Bool

-- What the device sees: a block was read from it and stored, or a bio was sent on to it.
pub data Event : Type 0 where
  block_copied : ℕ × Target → Event
  bio_sent : OriginalRequest → Event

-- `defer_io_t`, with its queue, its tracker, its snapstore device, the bios that were sent on to the
-- original `make_request`, in order, and these with the copies of blocks between them
pub record DeferIo : Type 0 where
  pub dio_queue : List OriginalRequest
  pub queue_active : Bool
  pub snapstore_device : Device
  pub tracker : Tracker
  pub sent : List OriginalRequest
  pub trace : List Event
  pub state_bios_received : ℕ
  pub state_bios_processed : ℕ
  pub state_sectors_received : ℕ
  pub state_sectors_processed : ℕ

-- The marking of a write, and the sending on of its bio: as `_defer_io_finish` and
-- `tracking_make_request` do.
pub mark : OriginalRequest → Tracker → Tracker
mark req t =
    if req.tracked && req.is_write_bio && cbt_bitmap_lock t
    then cbt_bitmap_set req.sect.ofs req.sect.cnt t
    else t

-- A round of the loop of `_defer_io_finish`.
pub finish_one : OriginalRequest → DeferIo → DeferIo
finish_one req d = record d {
  tracker = mark req d.tracker;
  sent = d.sent ++ req ∷ [];
  trace = d.trace ++ bio_sent req ∷ [];
  state_bios_processed = d.state_bios_processed + 1;
  state_sectors_processed = d.state_sectors_processed + req.sect.cnt;
}

-- `_defer_io_finish`
pub finish : List OriginalRequest → DeferIo → DeferIo
finish [] d = d
finish (req ∷ reqs) d = finish reqs (finish_one req d)

-- DEFER_IO_DIO_REQUEST_LENGTH and DEFER_IO_DIO_REQUEST_SECTORS_COUNT
abbrev pub request_length : ℕ
request_length = 250

abbrev pub request_sectors_count : ℕ
request_sectors_count = 20480

-- What the loop of `_defer_io_copy_prepare` leaves: its result, the requests moved to the queue in
-- process, those left, and the device with the copy request.
pub record Moved : Type 0 where
  pub res : Status
  pub in_process : List OriginalRequest
  pub left : List OriginalRequest
  pub prep : Prep

-- The preparation of one request: nothing for a read, after a stop, or on a corrupted device.
pub prepare_one : ℕ → Bool → OriginalRequest → Prep → Status × ℕ × Prep
prepare_one blk stop req p =
    let c = is_corrupted p.dev in
    let p' : Prep = record p { dev = c.1 } in
    let r = prepare_requests blk req.sect p' in
    if stop
    then (success, 0, p)
    else if c.0
    then (success, 0, p')
    else if req.is_write_bio
    then (r.0, req.sect.cnt, r.1)
    else (success, 0, p')

-- The loop of `_defer_io_copy_prepare`, over the queue. `stops` is what `kthread_should_stop` answers;
-- past its end, false.
abbrev pub next_stop : List Bool → Bool × List Bool
next_stop [] = (false, [])
next_stop (b ∷ stops) = (b, stops)

pub copy_prepare :
    ℕ → List Bool → List OriginalRequest → ℕ → ℕ → List OriginalRequest → Prep → Moved
copy_prepare blk stops [] dios_count dios_sectors_count in_process p = record {
  res = success;
  in_process = in_process;
  left = [];
  prep = p;
}
copy_prepare blk stops (req ∷ reqs) dios_count dios_sectors_count in_process p =
    let s = next_stop stops in
    let r = prepare_one blk s.0 req p in
    let moved : List OriginalRequest = in_process ++ req ∷ [] in
    let rest = copy_prepare blk s.1 reqs (dios_count + 1) (dios_sectors_count + r.1) moved r.2 in
    if ltb dios_count request_length && ltb dios_sectors_count request_sectors_count
    then (if is_success r.0
        then rest
        else record { res = r.0; in_process = moved; left = reqs; prep = r.2 })
    else record { res = success; in_process = in_process; left = req ∷ reqs; prep = p }

-- What the environment does in a round.
pub record Turn : Type 0 where
  pub stops : List Bool
  pub read_res : Status
  pub store_res : Status
  pub mem : Memory

-- The body of the loop of `defer_io_work_thread`, where the queue is not empty: prepare, copy, and send
-- on all that was moved, whatever the result of the copy. Where the copy succeeds, the blocks of its
-- request were read and stored by then.
pub round : ℕ → Turn → DeferIo → DeferIo
round blk turn d =
    let m =
      copy_prepare blk turn.stops d.dio_queue 0 0 []
        (record { dev = d.snapstore_device; dio_copy_req = none; mem = turn.mem }) in
    let copied = copy_blocks turn.read_res turn.store_res (m.res, m.prep) in
    let done : CopyRequest = if is_success copied.0 then blocks_of m.prep.dio_copy_req else [] in
    finish m.in_process (record d {
      dio_queue = m.left;
      snapstore_device = copied.1;
      trace = d.trace ++ map block_copied done;
    })

-- The loop after `kthread_stop`, when nothing is added any more: it runs while the queue is not empty,
-- then the queue is closed and what is in it sent on. A round moves one request or more, so fuel above
-- their number is enough.
pub work : ℕ → ℕ → (ℕ → Turn) → DeferIo → Option DeferIo
work zero blk turns d = none
work (suc fuel) blk turns d =
    let rest = work fuel blk turns (round blk (turns fuel) d) in
    elim d.dio_queue [ [] ↦ some (record d { queue_active = false }) | _ ∷ _ ↦ rest ]

-- `defer_io_redirect_bio`
pub redirect_bio : OriginalRequest → Memory → DeferIo → Status × DeferIo
redirect_bio req mem d =
    let c = is_corrupted d.snapstore_device in
    let d' : DeferIo = record d { snapstore_device = c.1 } in
    if c.0
    then (enodata, d')
    else if (alloc mem).0
    then (if d'.queue_active
        then (
          success,
          record d' {
            dio_queue = d'.dio_queue ++ req ∷ [];
            state_bios_received = d'.state_bios_received + 1;
            state_sectors_received = d'.state_sectors_received + req.sect.cnt;
          },
        )
        else (efault, d'))
    else (enomem, d')

-- The sectors of a bio on the tracked device, cut at its end, in 64 bits.
abbrev pub cut : ℕ → Range → Range
cut capacity sect = record sect {
  cnt =
      let last = add64 sect.ofs sect.cnt in
      if ltb capacity last then sub64 sect.cnt (sub64 last capacity) else sect.cnt;
}

-- `tracking_make_request` for a bio of a tracked device: `own` says that it is one of the module's own
-- bios. A bio that is not queued is marked and sent on at once; its own bios are not cut.
pub make_request : Bool → OriginalRequest → Memory → DeferIo → DeferIo
make_request own bio mem d =
    let req : OriginalRequest = record bio {
      sect = cut d.tracker.capacity bio.sect;
      tracked = true;
    } in
    let r = redirect_bio req mem d in
    let low = λ (q : OriginalRequest) (e : DeferIo). record e {
      tracker = mark q e.tracker;
      sent = e.sent ++ q ∷ [];
      trace = e.trace ++ bio_sent q ∷ [];
    } in
    if own
    then low (record bio { tracked = true }) d
    else if d.tracker.captured
    then (if is_success r.0 then r.1 else low req r.1)
    else low req d
