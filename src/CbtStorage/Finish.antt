-- ===== src/CbtStorage/Finish.antt =====
-- `cbt_storage_write_finish`, and what `cbt_storage_check` and `cbt_storage_prepare4read` say of the
-- pages that it left.
use mathlib.Core.Path.{subst}
use veeamsnap.Prelude.{
  ℕ, zero, suc, ◌+◌, ◌-◌, ◌^◌, ◌%◌, ◌<◌, ◌≤◌, ◌≡◌, refl, ◌∙◌, true, false, none, some, [], ◌++◌,
  success, ◌==◌, if◌then◌else◌, ltb, leb, arith, replicate,
}
use veeamsnap.CbtStorage.{
  Machine, Page, Time, time_zero, Disk, Accessor, stamp, write_empty, write_finish,
}
use veeamsnap.CbtStorage.Pages.{
  Mapped, Good, IsValid, written_disk, written_disk-Good, write_page_lem,
}
use veeamsnap.CbtStorage.Portion.{written, written-suc, written-written_disk}

-- The pages from `at` on are empty and marked as not used; those before are as they were.
write_empty_lem :
    (k : Machine) (phys : ℕ → ℕ) (left : ℕ) (a : Accessor) (t : Time) (j n : ℕ)
    → Mapped k a.rangevector a.page_count phys
    → a.page_count ≤ 2 ^ 32
    → a.device.results ≡ []
    → a.page_number + left ≡ a.page_count
    → j < a.page_count
    → (j < a.page_number → Good k phys a.device t j)
    → n ≤ a.page_number
    → (b : Accessor) × (write_empty k left a ≡ (success, b))
      × (b.page_number ≡ a.page_count)
      × Good k phys b.device (if ltb j a.page_number then t else time_zero) j
      × (written phys b.device n ≡ written phys a.device n)
      × (b.device.results ≡ [])
      × (b.rangevector ≡ a.rangevector)
      × (b.page_count ≡ a.page_count)
unfolding write_empty
write_empty_lem k phys zero a t j n m few calm e lt old below =
    let before : ltb j a.page_number ≡ true = ground arith in
    (a, refl, omega arith, rw before (old (omega arith)), refl, calm, refl, refl)
write_empty_lem k phys (suc left) a t j n m few calm e lt old below =
    let a' : Accessor = record a { page = record a.page { number = a.page_number % 2 ^ 32 } } in
    let pg : Page = stamp k time_zero a' in
    let d : Disk = written_disk k (phys a.page_number) pg a.device in
    let b : Accessor = record a { page = pg; device = d; page_number = a.page_number + 1 } in
    let t' : Time = if j == a.page_number then time_zero else t in
    let (c, ec, nc, gc, wc, cc', rc, pc) =
      write_empty_lem k phys left b t' j n m few refl (omega arith) lt
        (λ h.
          written_disk-Good k phys time_zero t a' j m (omega arith) few lt
            (λ ne. old (omega arith)))
        (omega arith) in
    let time_is : (if ltb j (a.page_number + 1) then t' else time_zero)
        ≡ (if ltb j a.page_number then t else time_zero) =
      ground arith in
    (
      c,
      rw (write_page_lem k phys (some time_zero) a' m (omega arith) calm) ec,
      nc,
      subst (λ (q : Time). Good k phys c.device q j) time_is gc,
      wc
          ∙ written-written_disk k phys a.rangevector a.page_count n a.page_number pg a.device m
              (omega arith) below,
      cc',
      rc,
      pc,
    )

-- `cbt_storage_write_finish` of a stream whose position is inside a page, where no transfer fails: it
-- succeeds and ends past the last page; every page on the disk passes the checks; those up to the
-- current one have the time marker of the accessor, and the others that of a page not used; and the
-- data of the pages up to the current one is what stood on the disk, with the page of the accessor.
pub write_finish_lem :
    (k : Machine) (phys : ℕ → ℕ) (a : Accessor) (j : ℕ)
    → IsValid k phys a
    → a.page_number < a.page_count
    → j < a.page_count
    → (b : Accessor) × (write_finish k a ≡ (success, b))
      × (b.page_number ≡ a.page_count)
      × Good k phys b.device (if leb j a.page_number then a.time else time_zero) j
      × (written phys b.device (suc a.page_number)
          ≡ written phys a.device a.page_number ++ a.page.content)
      × (b.device.results ≡ [])
      × (b.rangevector ≡ a.rangevector)
      × (b.page_count ≡ a.page_count)
unfolding write_finish stamp
write_finish_lem k phys a j v lt hj =
    let pg : Page = stamp k a.time a in
    let d : Disk = written_disk k (phys a.page_number) pg a.device in
    let b : Accessor = record a {
      page = record pg { content = replicate k.page_data_size 0 };
      device = d;
      page_number = a.page_number + 1;
      page_offset = 0;
    } in
    let not_last : a.page_number == a.page_count ≡ false = ground arith in
    let t' : Time = if j == a.page_number then a.time else a.time in
    let (c, ec, nc, gc, wc, cc', rc, pc) =
      write_empty_lem k phys (a.page_count - (a.page_number + 1)) b t' j (suc a.page_number)
        v.mapped v.few refl (omega arith) hj
        (λ h.
          written_disk-Good k phys a.time a.time a j v.mapped lt v.few hj
            (λ ne. v.stamped j (omega arith)))
        (omega arith) in
    let time_is : (if ltb j (a.page_number + 1) then t' else time_zero)
        ≡ (if leb j a.page_number then a.time else time_zero) =
      ground arith in
    (
      c,
      rw (not_last, write_page_lem k phys none a v.mapped lt v.calm) ec,
      nc,
      subst (λ (q : Time). Good k phys c.device q j) time_is gc,
      wc ∙ written-suc k phys a.rangevector a.page_count a.page_number pg a.device v.mapped lt,
      cc',
      rc,
      pc,
    )
