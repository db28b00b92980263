-- ===== src/CbtStorage/Check.antt =====
-- What `cbt_storage_check` and `cbt_storage_prepare4read` find of the pages that were written.
use mathlib.Core.Path.{subst}
use veeamsnap.Prelude.{
  ℕ, zero, suc, ◌+◌, ◌-◌, ◌^◌, ◌<◌, ◌≤◌, ◌≡◌, refl, sym, ap, ◌∙◌, true, false, some, [], Status,
  success, pos_enodata, ◌==◌, if◌then◌else◌, leb, Bool-cases, inl, inr, arith,
}
use veeamsnap.CbtStorage.{
  Machine, Page, Time, time_zero, Disk, Accessor, stamp, write_finish, check_page, check_time,
  check_loop, check, prepare4read,
}
use veeamsnap.CbtStorage.Pages.{
  check_page-stamp, Mapped, Good, IsValid, written_disk, written_disk_same, write_page_lem,
  read_page_lem,
}
use veeamsnap.CbtStorage.Finish.{write_finish_lem}

-- The time marker of a page, where the pages up to `last` are used.
abbrev marker : ℕ → Time → ℕ → Time
marker last time j = if leb j last then time else time_zero

-- The first unused page, as far as the pages before `at` show it.
abbrev used_before : ℕ → ℕ → ℕ → ℕ
used_before last count at = if leb at (last + 1) then count else last + 1

check_time_lem :
    (last : ℕ) (time : Time) (a : Accessor)
    → 0 < time.tv_sec
    → a.time ≡ time
    → a.page.time ≡ marker last time a.page_number
    → a.used_page_count ≡ used_before last a.page_count a.page_number
    → last < a.page_count
    → a.page_number < a.page_count
    → check_time a
      ≡ (record a { used_page_count = used_before last a.page_count (a.page_number + 1) }, true)
unfolding check_time
check_time_lem last time a pos t p u lt hn = elim (Bool-cases (leb a.page_number last)) [
  | inl e ↦
      let pt : a.page.time ≡ time = p ∙ (rw e refl) in
      ground (arith, ap (λ (q : Time). q.tv_sec) pt, ap (λ (q : Time). q.tv_sec) t)
  | inr e ↦
      let pt : a.page.time ≡ time_zero = p ∙ (rw e refl) in
      ground (arith, ap (λ (q : Time). q.tv_sec) pt, ap (λ (q : Time). q.tv_sec) t)
]

check_loop_lem :
    (k : Machine) (phys : ℕ → ℕ) (last : ℕ) (time : Time) (left : ℕ) (a : Accessor)
    → Mapped k a.rangevector a.page_count phys
    → a.device.results ≡ []
    → ((j : ℕ) → j < a.page_count → Good k phys a.device (marker last time j) j)
    → 0 < time.tv_sec
    → a.time ≡ time
    → a.used_page_count ≡ used_before last a.page_count a.page_number
    → last < a.page_count
    → a.page_number + left ≡ a.page_count
    → (b : Accessor) × (check_loop k left a ≡ (success, b))
      × (b.time ≡ time)
      × (b.used_page_count ≡ last + 1)
unfolding check_loop
check_loop_lem k phys last time zero a m calm good pos t u lt e = (a, refl, t, u ∙ (ground arith))
check_loop_lem k phys last time (suc left) a m calm good pos t u lt e =
    let hn : a.page_number < a.page_count = omega arith in
    let here = good a.page_number hn in
    let a' : Accessor = record a {
      page = a.device.pages (phys a.page_number);
      device = record a.device { results = [] };
    } in
    let (b, eb, bt, bu) =
      check_loop_lem k phys last time left
        (record a' {
          used_page_count = used_before last a.page_count (a.page_number + 1);
          page_number = a.page_number + 1;
        })
        m refl good pos t refl lt (omega arith) in
    (
      b,
      rw
          (
            read_page_lem k phys a m hn calm,
            here.0,
            check_time_lem last time a' pos t here.1 u lt hn,
          )
          eb,
      bt,
      bu,
    )

-- `cbt_storage_check` of pages that are good, where those up to `last` have one time marker of which
-- the seconds are not 0 and the others that of a page not used, where no transfer fails: it succeeds,
-- with that time, and with the number of the first page not used.
check_lem :
    (k : Machine) (phys : ℕ → ℕ) (last : ℕ) (time : Time) (a : Accessor)
    → Mapped k a.rangevector a.page_count phys
    → a.device.results ≡ []
    → ((j : ℕ) → j < a.page_count → Good k phys a.device (marker last time j) j)
    → 0 < time.tv_sec
    → last < a.page_count
    → (b : Accessor) × (check k a ≡ (success, b)) × (b.time ≡ time) × (b.used_page_count ≡ last + 1)
unfolding check
check_lem k phys last time a m calm good pos lt =
    let start : Accessor = record a { page_number = 0; used_page_count = a.page_count } in
    let h0 : 0 < a.page_count = omega arith in
    let first = good 0 h0 in
    let pg : Page = a.device.pages (phys 0) in
    let t : pg.time ≡ time = first.1 ∙ (let e : leb 0 last ≡ true = ground arith in rw e refl) in
    let used : pg.time.tv_sec == 0 ≡ false = ground (arith, ap (λ (q : Time). q.tv_sec) t) in
    let (b, eb, bt, bu) =
      check_loop_lem k phys last time (a.page_count - 1)
        (record start {
          page = pg;
          device = record a.device { results = [] };
          time = pg.time;
          used_page_count = a.page_count;
          page_number = 1;
        })
        m refl good pos t (ground arith) lt (omega arith) in
    (b, rw (read_page_lem k phys start m h0 calm, first.0, used) eb, bt, bu)

-- What was written and finished at a time other than 0 passes `cbt_storage_check`, which finds that time
-- and that the pages up to the last one written are used, where no transfer fails.
pub write_finish-check :
    (k : Machine) (phys : ℕ → ℕ) (a : Accessor)
    → IsValid k phys a
    → a.page_number < a.page_count
    → 0 < a.time.tv_sec
    → (b : Accessor) × (c : Accessor) × (write_finish k a ≡ (success, b))
      × (check k b ≡ (success, c))
      × (c.time ≡ a.time)
      × (c.used_page_count ≡ a.page_number + 1)
write_finish-check k phys a v lt pos =
    let (b, eb, _, _, _, calm, rv, pc) = write_finish_lem k phys a 0 v lt (omega arith) in
    let good : (j : ℕ) → j < b.page_count → Good k phys b.device (marker a.page_number a.time j) j =
      λ j h.
        let (b', eb', _, g, _, _, _, _) = write_finish_lem k phys a j v lt (omega (arith, pc)) in
        subst (λ (q : Accessor). Good k phys q.device (marker a.page_number a.time j) j)
          (ap (λ (r : Status × Accessor). r.1) (sym eb' ∙ eb)) g in
    let m : Mapped k b.rangevector b.page_count phys = rw (rv, pc) v.mapped in
    let (c, ec, ct, cu) =
      check_lem k phys a.page_number a.time b m calm good pos (omega (arith, pc)) in
    (b, c, eb, ec, ct, cu)

-- Preparing for reading, where the first page on the disk is good and has a time other than 0, there are
-- one page or more and no transfer fails, succeeds with the content and the time of that page, and marks
-- it on the disk as not used: preparing again ends with the positive ENODATA, so the data is read once.
pub prepare4read-prepare4read :
    (k : Machine) (phys : ℕ → ℕ) (a : Accessor)
    → Mapped k a.rangevector a.page_count phys
    → 0 < a.page_count
    → a.page_count ≤ 2 ^ 32
    → a.device.results ≡ []
    → check_page k 0 (a.device.pages (phys 0)) ≡ success
    → 0 < (a.device.pages (phys 0)).time.tv_sec
    → (b : Accessor) × (c : Accessor) × (prepare4read k a ≡ (success, b))
      × (b.page.content ≡ (a.device.pages (phys 0)).content)
      × (b.time ≡ (a.device.pages (phys 0)).time)
      × (prepare4read k b ≡ (pos_enodata, c))
unfolding prepare4read stamp
prepare4read-prepare4read k phys a m some_pages few calm good pos =
    let start : Accessor = record a { page_number = 0; page_offset = 0 } in
    let pg : Page = a.device.pages (phys 0) in
    let a' : Accessor = record start {
      page = pg;
      device = record a.device { results = [] };
      time = pg.time;
    } in
    let stamped : Page = stamp k time_zero a' in
    let d : Disk = written_disk k (phys 0) stamped a'.device in
    let b : Accessor = record a' { page = stamped; device = d } in
    let used : pg.time.tv_sec == 0 ≡ false = ground arith in
    let again : (b.device.pages (phys 0)) ≡ stamped =
      written_disk_same k phys 0 stamped a'.device in
    let good' : check_page k 0 (b.device.pages (phys 0)) ≡ success =
      ap (check_page k 0) again ∙ check_page-stamp k time_zero a' (omega arith) in
    let unused : (b.device.pages (phys 0)).time.tv_sec == 0 ≡ true =
      ap (λ (p : Page). p.time.tv_sec == 0) again in
    let b' : Accessor = record b {
      page = b.device.pages (phys 0);
      device = record d { results = [] };
    } in
    (
      b,
      record b' { time = b'.page.time },
      rw (read_page_lem k phys start m some_pages calm, good, used)
          (write_page_lem k phys (some time_zero) a' m some_pages refl),
      refl,
      refl,
      rw (read_page_lem k phys b m some_pages refl, good', unused) refl,
    )
