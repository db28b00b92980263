-- ===== src/CbtStorage.antt =====
-- source/cbt_storage.c and cbt_storage.h: the change tracking data kept in pages of a disk, which a
-- vector of ranges places. A page has a header with a magic, a CRC over all that follows it, its number
-- and a time marker, of which 0 says that the page is not used; the rest is data, written and read as
-- one stream of bytes. The sizes of a page and the kernel's `crc32` are the `Machine`; a block device is
-- what its pages read as, with the results of the transfers to come. A failed transfer changes nothing.
-- `page_offset` never passes the end of the data.
pub mod Pages
mod Splice
mod Portion
pub mod Stream
pub mod Finish
pub mod Check
pub mod Reading
mod Tests
use veeamsnap.Prelude.{
  ℕ, zero, suc, ◌+◌, ◌-◌, ◌*◌, ◌/◌, ◌%◌, ◌^◌, ◌<◌, Bool, true, false, Option, none, some, List, [],
  ◌∷◌, ◌++◌, ◌&&◌, not, ltb, ◌==◌, if◌then◌else◌, min, Status, success, einval, enodata, efault,
  pos_enodata, is_success, length, take, drop, replicate, Memory, alloc, enomem,
}
use veeamsnap.RangeVector.{RangeVector, v2p, length_sectors, cnt}

-- `struct timespec64`
pub record Time : Type 0 where
  pub tv_sec : ℕ
  pub tv_nsec : ℕ

abbrev pub time_zero : Time
time_zero = record { tv_sec = 0; tv_nsec = 0 }

-- `cbt_storage_page_t`
pub record Page : Type 0 where
  pub magic : List ℕ
  pub crc : ℕ
  pub number : ℕ
  pub time : Time
  pub content : List ℕ

-- PAGE_SIZE in sectors, CBT_PAGE_DATA_SIZE, `crc32` of the fields from `number` on, and what the page
-- at a sector reads as when a page is written less than a page before or behind it.
pub record Machine : Type 0 where
  pub sectors_in_page : ℕ
  pub page_data_size : ℕ
  pub crc32 : ℕ → Time → List ℕ → ℕ
  pub overlay : ℕ → ℕ → Page → Page → Page

-- The block device: what a read of a page from a sector on gives, and the results of the transfers to
-- come; past the end of that list they succeed.
pub record Disk : Type 0 where
  pub pages : ℕ → Page
  pub results : List Status

abbrev pub next_result : List Status → Status × List Status
next_result [] = (success, [])
next_result (s ∷ rest) = (s, rest)

-- Two pages that begin at these sectors overlap.
abbrev pub overlaps : ℕ → ℕ → ℕ → Bool
overlaps sectors o p = ltb o (p + sectors) && ltb p (o + sectors)

-- `blk_direct_submit_page` with WRITE_SYNC
pub submit_write : Machine → ℕ → Page → Disk → Status × Disk
submit_write k ofs pg d =
    let r = next_result d.results in
    if is_success r.0
    then (
      success,
      record {
        pages = λ o.
            if o == ofs
            then pg
            else if overlaps k.sectors_in_page o ofs
            then k.overlay o ofs (d.pages o) pg
            else d.pages o;
        results = r.1;
      },
    )
    else (r.0, record d { results = r.1 })

-- `cbt_storage_accessor_t`, with the disk
pub record Accessor : Type 0 where
  pub device : Disk
  pub rangevector : RangeVector
  pub page : Page
  pub page_count : ℕ
  pub page_number : ℕ
  pub used_page_count : ℕ
  pub page_offset : ℕ
  pub time : Time

-- CBT_STORAGE_MAGIC
abbrev pub storage_magic : List ℕ
storage_magic = b'v' ∷ b'c' ∷ b'b' ∷ b't' ∷ b'd' ∷ b'a' ∷ b't' ∷ b'a' ∷ []

-- `0 == memcmp(a, b, n)`, of two texts of one length
unfoldable pub same_bytes : List ℕ → List ℕ → Bool
same_bytes [] [] = true
same_bytes (x ∷ xs) (y ∷ ys) = x == y && same_bytes xs ys
same_bytes _ _ = false

pub page_crc : Machine → Page → ℕ
page_crc k pg = k.crc32 pg.number pg.time pg.content

-- Where the page stands: the head of `_cbt_storage_read_page`, and the middle of
-- `_cbt_storage_write_page`.
pub locate : Machine → Accessor → Status × ℕ
locate k a =
    let r = v2p a.rangevector (a.page_number * k.sectors_in_page) k.sectors_in_page in
    elim r.1 [
      | none ↦ (r.0, 0)
      | some (phys_offset, phys_length) ↦
          if phys_length == k.sectors_in_page then (r.0, phys_offset) else (einval, phys_offset)
    ]

-- The checks of a page that was read.
pub check_page : Machine → ℕ → Page → Status
check_page k page_number pg =
    if not (same_bytes pg.magic storage_magic)
    then einval
    else if not (page_crc k pg == pg.crc)
    then einval
    else if not (page_number == pg.number)
    then einval
    else success

-- `_cbt_storage_read_page`
pub read_page : Machine → Accessor → Status × Accessor
read_page k a =
    let at = locate k a in
    let r = next_result a.device.results in
    let pg = a.device.pages at.1 in
    let spent : Disk = record a.device { results = r.1 } in
    if not (is_success at.0)
    then (at.0, a)
    else if not (is_success r.0)
    then (r.0, record a { device = spent })
    else (check_page k a.page_number pg, record a { device = spent; page = pg })

-- The header of a page that is to be written.
pub stamp : Machine → Time → Accessor → Page
stamp k time a =
    let number : ℕ = a.page_number % 2 ^ 32 in
    record {
      magic = storage_magic;
      crc = k.crc32 number time a.page.content;
      number = number;
      time = time;
      content = a.page.content;
    }

-- `_cbt_storage_write_page`
pub write_page : Machine → Option Time → Accessor → Status × Accessor
write_page k optional_time a =
    let pg = stamp k (elim optional_time [ none ↦ a.time | some time ↦ time ]) a in
    let at = locate k a in
    let r = submit_write k at.1 pg a.device in
    if not (is_success at.0)
    then (at.0, record a { page = pg })
    else (r.0, record a { page = pg; device = r.1 })

-- `cbt_storage_prepare4read`
pub prepare4read : Machine → Accessor → Status × Accessor
prepare4read k a =
    let r = read_page k (record a { page_number = 0; page_offset = 0 }) in
    let timed : Accessor = record r.1 { time = r.1.page.time } in
    if not (is_success r.0)
    then r
    else if timed.time.tv_sec == 0
    then (pos_enodata, timed)
    else write_page k (some time_zero) timed

-- `cbt_storage_prepare4write`, at the time `now`
pub prepare4write : Machine → Time → Accessor → Status × Accessor
prepare4write k now a =
    let r = read_page k (record a { page_number = 0; page_offset = 0 }) in
    if not (is_success r.0) then r else (success, record r.1 { time = now })

-- `memcpy` to the offset of a buffer
abbrev pub splice : List ℕ → ℕ → List ℕ → List ℕ
splice buff ofs bytes = take ofs buff ++ bytes ++ drop (ofs + length bytes) buff

-- A full page is written, and the next one begins: the head of the loop of `cbt_storage_write`.
pub flush : Machine → Accessor → Status × Accessor
flush k a =
    let r = write_page k none a in
    if a.page_offset == k.page_data_size
    then (if is_success r.0
        then (success, record r.1 { page_number = r.1.page_number + 1; page_offset = 0 })
        else r)
    else (success, a)

-- `can_be_write`
abbrev pub can_be_write : Machine → List ℕ → Accessor → ℕ
can_be_write k src a = min (k.page_data_size - a.page_offset) (length src)

-- The copy of `can_be_write` bytes into the page.
pub put_bytes : Machine → List ℕ → Accessor → Accessor
put_bytes k src a = record a {
  page = record a.page {
    content = splice a.page.content a.page_offset (take (can_be_write k src a) src);
  };
  page_offset = a.page_offset + can_be_write k src a;
}

-- The loop of `cbt_storage_write`, with the bytes that are left. A round writes one byte or more, so
-- fuel above their number is enough.
pub write_loop : Machine → ℕ → List ℕ → Accessor → Option (Status × Accessor)
write_loop k zero src a = none
write_loop k (suc fuel) src a =
    let r = flush k a in
    let rest = write_loop k fuel (drop (can_be_write k src r.1) src) (put_bytes k src r.1) in
    if not (is_success r.0)
    then some r
    else if r.1.page_number == r.1.page_count
    then some (if ltb 0 (length src) then enodata else success, r.1)
    else if length src == 0
    then some (success, r.1)
    else if can_be_write k src r.1 == 0
    then some (efault, r.1)
    else rest

-- `cbt_storage_write`
pub write : Machine → List ℕ → Accessor → Option (Status × Accessor)
write k src a =
    let rest =
      write_loop k (suc (length src)) (drop (can_be_write k src a) src) (put_bytes k src a) in
    if a.page_number == a.page_count
    then some (enodata, a)
    else if can_be_write k src a == 0
    then some (efault, a)
    else rest

-- The loop of `cbt_storage_write_finish`, over the pages that are left.
pub write_empty : Machine → ℕ → Accessor → Status × Accessor
write_empty k zero a = (success, a)
write_empty k (suc left) a =
    let r =
      write_page k (some time_zero)
        (record a { page = record a.page { number = a.page_number % 2 ^ 32 } }) in
    let rest = write_empty k left (record r.1 { page_number = r.1.page_number + 1 }) in
    if is_success r.0 then rest else r

-- `cbt_storage_write_finish`
pub write_finish : Machine → Accessor → Status × Accessor
write_finish k a =
    let r = write_page k none a in
    let next : Accessor = record r.1 {
      page_number = r.1.page_number + 1;
      page_offset = 0;
      page = record r.1.page { content = replicate k.page_data_size 0 };
    } in
    let rest = write_empty k (next.page_count - next.page_number) next in
    if a.page_number == a.page_count then (success, a) else if is_success r.0 then rest else r

-- `can_be_read` with `ofs` bytes read of `sz`
abbrev pub can_be_read : Machine → ℕ → Accessor → ℕ
can_be_read k left a = min (k.page_data_size - a.page_offset) left

-- The copy of `can_be_read` bytes to the start of `dst`, in every round.
pub get_bytes : Machine → ℕ → List ℕ → Accessor → List ℕ
get_bytes k left dst a =
    splice dst 0 (take (can_be_read k left a) (drop a.page_offset a.page.content))

-- The head of the loop of `cbt_storage_read`.
pub next_page : Machine → Accessor → Accessor
next_page k a =
    if a.page_offset == k.page_data_size
    then record a { page_number = a.page_number + 1; page_offset = 0 }
    else a

-- The loop of `cbt_storage_read`, with the bytes that are left.
pub read_loop : Machine → ℕ → ℕ → List ℕ → Accessor → Option (Status × List ℕ × Accessor)
read_loop k zero left dst a = none
read_loop k (suc fuel) left dst a =
    let b = next_page k a in
    let r = read_page k b in
    let n : ℕ = can_be_read k left r.1 in
    let rest =
      read_loop k fuel (left - n) (get_bytes k left dst r.1)
        (record r.1 { page_offset = r.1.page_offset + n }) in
    if b.page_number == b.page_count
    then some (if ltb 0 left then enodata else success, dst, b)
    else if not (is_success r.0)
    then some (r.0, dst, r.1)
    else if left == 0
    then some (success, dst, r.1)
    else rest

-- `cbt_storage_read` of `sz` bytes, with what the buffer `dst` holds
pub read : Machine → ℕ → List ℕ → Accessor → Option (Status × List ℕ × Accessor)
read k sz dst a =
    let n : ℕ = can_be_read k sz a in
    let rest =
      read_loop k (suc (suc sz)) (sz - n) (get_bytes k sz dst a)
        (record a { page_offset = a.page_offset + n }) in
    if a.page_number == a.page_count then some (enodata, dst, a) else rest

-- What one page after the first says to `cbt_storage_check`: the accessor, and whether to go on.
pub check_time : Accessor → Accessor × Bool
check_time a =
    if a.time.tv_sec == 0
    then (a, true)
    else if a.page.time.tv_sec == 0
    then (
      if a.used_page_count == a.page_count then record a { used_page_count = a.page_number } else a,
      true,
    )
    else if not (a.time.tv_sec == a.page.time.tv_sec) && not (a.time.tv_nsec == a.page.time.tv_nsec)
    then (record a { time = time_zero }, false)
    else (a, true)

-- The loop of `cbt_storage_check`, over the pages that are left.
pub check_loop : Machine → ℕ → Accessor → Status × Accessor
check_loop k zero a = (success, a)
check_loop k (suc left) a =
    let r = read_page k a in
    let c = check_time r.1 in
    let rest = check_loop k left (record c.0 { page_number = c.0.page_number + 1 }) in
    if not (is_success r.0) then r else if c.1 then rest else (success, c.0)

-- `cbt_storage_check`
pub check : Machine → Accessor → Status × Accessor
check k a =
    let r = read_page k (record a { page_number = 0; used_page_count = a.page_count }) in
    let timed : Accessor = record r.1 {
      time = r.1.page.time;
      used_page_count = if r.1.page.time.tv_sec == 0 then 0 else r.1.used_page_count;
      page_number = 1;
    } in
    if not (is_success r.0) then r else check_loop k (a.page_count - 1) timed
