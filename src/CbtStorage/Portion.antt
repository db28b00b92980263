-- ===== src/CbtStorage/Portion.antt =====
-- The stream of bytes on the pages, and what one round of `cbt_storage_write` adds to it.
use mathlib.Core.Path.{ap₂, subst}
use mathlib.Core.List.{append_assoc, append-nil}
use veeamsnap.Prelude.{
  take-all, ℕ, zero, suc, ◌+◌, ◌-◌, ◌*◌, ◌<◌, ◌≤◌, ◌≡◌, refl, sym, ap, ◌∙◌, Bool, true, false, none,
  List, [], ◌++◌, success, ◌==◌, if◌then◌else◌, length, take, Bool-cases, inl, inr, arith,
  length-take,
}
use veeamsnap.RangeVector.{RangeVector}
use veeamsnap.CbtStorage.{
  Machine, Page, Time, Disk, Accessor, stamp, flush, can_be_write, put_bytes,
}
use veeamsnap.CbtStorage.Pages.{
  Mapped, Good, IsValid, written_disk-Good, written_disk, written_disk_same, written_disk_other,
  write_page_lem,
}
use veeamsnap.CbtStorage.Splice.{length-splice, take-splice}

pub written : (ℕ → ℕ) → Disk → ℕ → List ℕ
written phys d zero = []
written phys d (suc n) = written phys d n ++ (d.pages (phys n)).content

-- The bytes up to the position of the accessor.
pub stream : (ℕ → ℕ) → Accessor → List ℕ
stream phys a = written phys a.device a.page_number ++ take a.page_offset a.page.content

-- The bytes that can still be written.
abbrev pub room : Machine → Accessor → ℕ
room k a = (a.page_count - a.page_number) * k.page_data_size - a.page_offset

-- Writing a page leaves the pages before it.
pub written-written_disk :
    (k : Machine) (phys : ℕ → ℕ) (rv : RangeVector) (count n at : ℕ) (pg : Page) (d : Disk)
    → Mapped k rv count phys
    → at < count
    → n ≤ at
    → written phys (written_disk k (phys at) pg d) n ≡ written phys d n
unfolding written
written-written_disk k phys rv count zero at pg d m lt h = refl
written-written_disk k phys rv count (suc n) at pg d m lt h =
    ap₂ ◌++◌ (written-written_disk k phys rv count n at pg d m lt (omega arith)) (
      ap (λ (p : Page). p.content)
        (written_disk_other k phys rv count n at pg d m (omega arith) lt (λ e. omega arith)))

-- The bytes before the next page, once the current page is written.
pub written-suc :
    (k : Machine) (phys : ℕ → ℕ) (rv : RangeVector) (count at : ℕ) (pg : Page) (d : Disk)
    → Mapped k rv count phys
    → at < count
    → written phys (written_disk k (phys at) pg d) (suc at) ≡ written phys d at ++ pg.content
unfolding written
written-suc k phys rv count at pg d m lt =
    ap₂ ◌++◌ (written-written_disk k phys rv count at at pg d m lt (omega arith))
      (ap (λ (p : Page). p.content) (written_disk_same k phys at pg d))

one_page_less : (c n s : ℕ) → n < c → (c - n) * s ≡ (c - (n + 1)) * s + s
one_page_less c n s lt = let e : c - n ≡ suc (c - (n + 1)) = omega arith in rw e (grind arith)

-- A step of the writing that has put `bytes` at the end of the stream.
abbrev pub Adds : Machine → (ℕ → ℕ) → Accessor → List ℕ → Accessor → Type 0
Adds k phys a bytes b =
    IsValid k phys b
    × (stream phys b ≡ stream phys a ++ bytes)
    × (room k b + length bytes ≡ room k a)
    × (b.time ≡ a.time)

if_same : (b : Bool) (t : Time) → (if b then t else t) ≡ t
if_same true t = refl
if_same false t = refl

pub flush_lem :
    (k : Machine) (phys : ℕ → ℕ) (a : Accessor)
    → IsValid k phys a
    → a.page_number < a.page_count
    → (b : Accessor) × (flush k a ≡ (success, b))
      × Adds k phys a [] b
      × (b.page_offset < k.page_data_size)
      × (b.page_count ≡ a.page_count)
unfolding flush stream stamp
flush_lem k phys a v lt = elim (Bool-cases (a.page_offset == k.page_data_size)) [
  | inl e ↦
      let pg : Page = stamp k a.time a in
      let d : Disk = written_disk k (phys a.page_number) pg a.device in
      let b : Accessor = record a {
        page = pg;
        device = d;
        page_number = a.page_number + 1;
        page_offset = 0;
      } in
      let whole : take a.page_offset a.page.content ≡ a.page.content =
        take-all a.page_offset a.page.content (ground (arith, v.full)) in
      (
        b,
        rw (e, write_page_lem k phys none a v.mapped lt v.calm) refl,
        (
          record {
            mapped = v.mapped;
            few = v.few;
            full = v.full;
            has_data = v.has_data;
            within = omega arith;
            to_end = omega arith;
            calm = refl;
            stamped = λ j h.
                subst (λ (t : Time). Good k phys d t j) (if_same (j == a.page_number) a.time)
                  (written_disk-Good k phys a.time a.time a j v.mapped lt v.few (omega arith)
                    (λ ne. v.stamped j (omega arith)));
          },
          (ap₂ ◌++◌
                (ap (written phys d)
                    (let q : a.page_number + 1 ≡ suc a.page_number = omega arith in q)
                  ∙ written-suc k phys a.rangevector a.page_count a.page_number pg a.device v.mapped
                      lt)
                refl
              ∙ append-nil (written phys a.device a.page_number ++ a.page.content)
              ∙ sym (
                  append-nil (stream phys a)
                  ∙ ap (λ (l : List ℕ). written phys a.device a.page_number ++ l) whole)),
          ground (arith, one_page_less a.page_count a.page_number k.page_data_size lt),
          refl,
        ),
        v.has_data,
        refl,
      )
  | inr e ↦
      (a, rw e refl, (v, sym (append-nil _), omega arith, refl), ground (arith, v.within), refl)
]

pub put_bytes_lem :
    (k : Machine) (phys : ℕ → ℕ) (src : List ℕ) (a : Accessor)
    → IsValid k phys a
    → a.page_number < a.page_count
    → Adds k phys a (take (can_be_write k src a) src) (put_bytes k src a)
unfolding put_bytes stream
put_bytes_lem k phys src a v lt =
    let n : ℕ = can_be_write k src a in
    let len : length (take n src) ≡ n = omega (arith, length-take n src) in
    (
      record {
        mapped = v.mapped;
        few = v.few;
        full =
            length-splice a.page.content a.page_offset (take n src)
              (omega (arith, v.full, v.within))
            ∙ v.full;
        has_data = v.has_data;
        within = omega (arith, v.within);
        to_end = v.to_end;
        calm = v.calm;
        stamped = v.stamped;
      },
      ap (λ (l : List ℕ). written phys a.device a.page_number ++ l)
            (take-splice a.page.content a.page_offset (take n src) (a.page_offset + n)
              (omega (arith, v.full, v.within)) (omega arith))
          ∙ sym (
              append_assoc (written phys a.device a.page_number) (take a.page_offset a.page.content)
                (take n src)),
      omega (arith, v.within, one_page_less a.page_count a.page_number k.page_data_size lt),
      refl,
    )
