-- ===== src/CbtStorage/Pages.antt =====
-- One page of the storage: written, and read again.
use veeamsnap.Prelude.{
  ℕ, ◌*◌, ◌^◌, ◌%◌, ◌<◌, ◌≤◌, ◌≡◌, ◌≢◌, refl, ap, ◌∙◌, true, false, Option, none, some, [], success,
  ◌==◌, ==_iff, if◌then◌else◌, length, Bool-cases, inl, inr, arith,
}
use veeamsnap.RangeVector.{RangeVector, v2p}
use veeamsnap.CbtStorage.{
  Machine, Page, Time, Disk, Accessor, overlaps, submit_write, locate, stamp, write_page, read_page,
  check_page, page_crc, same_bytes, storage_magic,
}

-- The ranges place each of `count` pages in one run of sectors of its own.
pub record Mapped (k : Machine) (rv : RangeVector) (count : ℕ) (phys : ℕ → ℕ) : Type 0 where
  pub at :
      (n : ℕ)
      → n < count
      → v2p rv (n * k.sectors_in_page) k.sectors_in_page
        ≡ (success, some (phys n, k.sectors_in_page))
  pub apart :
      (m n : ℕ)
      → m < count
      → n < count
      → m ≢ n
      → overlaps k.sectors_in_page (phys m) (phys n) ≡ false
  pub some_sectors : 0 < k.sectors_in_page

-- The j-th page on the disk passes the checks, and has the time marker.
abbrev pub Good : Machine → (ℕ → ℕ) → Disk → Time → ℕ → Type 0
Good k phys d time j =
    (check_page k j (d.pages (phys j)) ≡ success) × ((d.pages (phys j)).time ≡ time)

-- An accessor between two operations, on a disk whose transfers succeed.
pub record IsValid (k : Machine) (phys : ℕ → ℕ) (a : Accessor) : Type 0 where
  pub mapped : Mapped k a.rangevector a.page_count phys
  pub few : a.page_count ≤ 2 ^ 32
  pub full : length a.page.content ≡ k.page_data_size
  pub has_data : 0 < k.page_data_size
  pub within : a.page_offset ≤ k.page_data_size
  pub to_end : a.page_number ≤ a.page_count
  pub calm : a.device.results ≡ []
  pub stamped : (j : ℕ) → j < a.page_number → Good k phys a.device a.time j

locate_lem :
    (k : Machine) (phys : ℕ → ℕ) (a : Accessor)
    → Mapped k a.rangevector a.page_count phys
    → a.page_number < a.page_count
    → locate k a ≡ (success, phys a.page_number)
unfolding locate
locate_lem k phys a m lt =
    rw (m.at a.page_number lt, locate)
      (rw ((==_iff k.sectors_in_page k.sectors_in_page).1 refl, m.at a.page_number lt) refl)

-- The disk after a page was written.
abbrev pub written_disk : Machine → ℕ → Page → Disk → Disk
written_disk k ofs pg d = record {
  pages = λ o.
      if o == ofs
      then pg
      else if overlaps k.sectors_in_page o ofs
      then k.overlay o ofs (d.pages o) pg
      else d.pages o;
  results = [];
}

pub write_page_lem :
    (k : Machine) (phys : ℕ → ℕ) (t : Option Time) (a : Accessor)
    → Mapped k a.rangevector a.page_count phys
    → a.page_number < a.page_count
    → a.device.results ≡ []
    → let pg : Page = stamp k (elim t [ none ↦ a.time | some time ↦ time ]) a in
      write_page k t a
      ≡ (success, record a { page = pg; device = written_disk k (phys a.page_number) pg a.device })
unfolding write_page submit_write
write_page_lem k phys t a m lt calm = rw (locate_lem k phys a m lt, calm) refl

-- The page that was written reads back, and the others are as before.
pub written_disk_same :
    (k : Machine) (phys : ℕ → ℕ) (n : ℕ) (pg : Page) (d : Disk)
    → (written_disk k (phys n) pg d).pages (phys n) ≡ pg
written_disk_same k phys n pg d = rw ((==_iff (phys n) (phys n)).1 refl) refl

pub written_disk_other :
    (k : Machine) (phys : ℕ → ℕ) (rv : RangeVector) (count m n : ℕ) (pg : Page) (d : Disk)
    → Mapped k rv count phys
    → m < count
    → n < count
    → m ≢ n
    → (written_disk k (phys n) pg d).pages (phys m) ≡ d.pages (phys m)
written_disk_other k phys rv count m n pg d mapped hm hn ne =
    let no_overlap = mapped.apart m n hm hn ne in
    let others : phys m == phys n ≡ false = ground (arith, mapped.some_sectors) in
    rw (others, no_overlap) refl

same_bytes_magic : same_bytes storage_magic storage_magic ≡ true
unfolding same_bytes
same_bytes_magic = refl

-- A page that `_cbt_storage_write_page` stamped passes the checks.
pub check_page-stamp :
    (k : Machine) (t : Time) (a : Accessor)
    → a.page_number < 2 ^ 32
    → check_page k a.page_number (stamp k t a) ≡ success
unfolding check_page stamp page_crc
check_page-stamp k t a lt =
    let n : a.page_number % 2 ^ 32 ≡ a.page_number = omega arith in
    let crc : ℕ = k.crc32 a.page_number t a.page.content in
    rw (same_bytes_magic, n)
      (rw ((==_iff crc crc).1 refl, (==_iff a.page_number a.page_number).1 refl) refl)

-- Reading a page that passes its checks.
pub read_page_lem :
    (k : Machine) (phys : ℕ → ℕ) (a : Accessor)
    → Mapped k a.rangevector a.page_count phys
    → a.page_number < a.page_count
    → a.device.results ≡ []
    → let pg : Page = a.device.pages (phys a.page_number) in
      read_page k a ≡ (
        check_page k a.page_number pg,
        record a { page = pg; device = record a.device { results = [] } },
      )
unfolding read_page
read_page_lem k phys a m lt calm = rw (locate_lem k phys a m lt, calm) refl

stamp-time : (k : Machine) (t : Time) (a : Accessor) → (stamp k t a).time ≡ t
unfolding stamp
stamp-time k t a = refl

-- After a page was written, it is good, and so are the others that were.
pub written_disk-Good :
    (k : Machine) (phys : ℕ → ℕ) (t t' : Time) (a : Accessor) (j : ℕ)
    → Mapped k a.rangevector a.page_count phys
    → a.page_number < a.page_count
    → a.page_count ≤ 2 ^ 32
    → j < a.page_count
    → (j ≢ a.page_number → Good k phys a.device t' j)
    → let d : Disk = written_disk k (phys a.page_number) (stamp k t a) a.device in
      Good k phys d (if j == a.page_number then t else t') j
written_disk-Good k phys t t' a j m lt few hj old = elim (Bool-cases (j == a.page_number)) [
  | inl e ↦
      let same : j ≡ a.page_number = (==_iff j a.page_number).0 e in
      let pg = written_disk_same k phys a.page_number (stamp k t a) a.device in
      rw e (
        rw same (
          ap (check_page k a.page_number) pg ∙ check_page-stamp k t a (omega arith),
          ap (λ (p : Page). p.time) pg ∙ stamp-time k t a,
        ))
  | inr e ↦
      let other : j ≢ a.page_number = λ q. ground arith in
      let pg =
        written_disk_other k phys a.rangevector a.page_count j a.page_number (stamp k t a) a.device
          m hj lt other in
      rw e (ap (check_page k j) pg ∙ (old other).0, ap (λ (p : Page). p.time) pg ∙ (old other).1)
]
