-- ===== src/CbtMap/Size.antt =====
-- The size of the table of cbt_map.c: how large a block is, how many there are, and the pages.
use native.Mathlib.Nat.{
  one-le-pow, pow-le-pow_right, add-sub_cancel, mul-le-mul_left, div-add-mod, mod-lt,
}
use veeamsnap.Prelude.{
  ℕ, zero, suc, ◌+◌, ◌-◌, ◌*◌, ◌/◌, ◌%◌, ◌^◌, ◌<◌, ◌≤◌, ◌≡◌, refl, inl, inr, ◌⊎◌, Option, none,
  some, ltb, ltb→lt, ◌==◌, ==_iff, ◌∙◌, sym, List, Memory, if◌then◌else◌, Bool-cases, arith,
}
use veeamsnap.Prelude.Word.{word, add64, sub64}
use veeamsnap.PageArray.{
  PageArray, Counters, page_size, pg_cnt, page_array_alloc, page_array_memset,
}
use veeamsnap.PageArray.Items.{byte}
use veeamsnap.PageArray.Alloc.{
  page_array_alloc-balance, pages_got, byte_get-memset, page_array_free_lem, byte-memset,
  held_pages,
}
use veeamsnap.CbtMap.{
  CbtMap, count_by_shift, maximum_count, check_size, map_size_of, pages_of, allocate, allocated,
  free_map,
}
use veeamsnap.CbtMap.Table.{Holds}

-- A quotient is above m when its dividend reaches the m + 1st multiple.
ltb-div : (t b m : ℕ) → 0 < b → ltb m (t / b) ≡ ltb (b * m + b) (t + 1)
ltb-div t b m pos = elim (Bool-cases (ltb m (t / b))) [
  | inl more ↦ ground (arith, mul-le-mul_left {m = suc m} {n = t / b} b, div-add-mod t b)
  | inr less ↦ ground (arith, mul-le-mul_left {m = t / b} {n = m} b, div-add-mod t b, mod-lt t pos)
]

-- Rounding up counts no more than m blocks when m of them cover the capacity.
ceiling : (c b m : ℕ) → 0 < b → c + b < word → ltb m (sub64 (add64 c b) 1 / b) ≡ ltb (b * m) c
ceiling c b m pos h = ground (arith, ltb-div (sub64 (add64 c b) 1) b m pos)

-- The blocks of a degree are too many exactly when the capacity is larger than 2 ^ 28 of them.
too_many :
    (shift capacity : ℕ)
    → capacity < 2 ^ 63
    → shift ≤ 35
    → ltb maximum_count (count_by_shift capacity shift) ≡ ltb (2 ^ shift * maximum_count) capacity
unfolding count_by_shift
too_many shift capacity h le =
    ceiling capacity (2 ^ shift) maximum_count (one-le-pow shift 2 (omega arith))
      (omega (arith, pow-le-pow_right {n = 2} (omega arith) le))

-- `cbt_map_check_size` returns: the degree s is the least from the one asked for on with which the
-- table has at most 2 ^ 28 blocks, for a capacity below 2 ^ 63 and a degree of at most 35.
pub check_size_lem :
    (rounds shift capacity : ℕ)
    → capacity < 2 ^ 63
    → shift ≤ 35
    → 36 ≤ rounds + shift
    → (s : ℕ) × (check_size rounds shift capacity ≡ some s)
      × (shift ≤ s)
      × (s ≤ 35)
      × (capacity ≤ 2 ^ s * maximum_count)
      × ((s ≡ shift) ⊎ (2 ^ (s - 1) * maximum_count < capacity))
unfolding check_size
check_size_lem zero shift capacity h le enough = absurd (omega arith)
check_size_lem (suc rounds) shift capacity h le enough =
    elim (Bool-cases (ltb maximum_count (count_by_shift capacity shift))) [
      | inl more ↦
          let full : 2 ^ shift * maximum_count < capacity =
            ltb→lt (2 ^ shift * maximum_count) capacity
              (sym (too_many shift capacity h le) ∙ more) in
          let small : shift ≤ 34 =
            ground (arith, full, h, pow-le-pow_right {n = 2} (omega arith) {i = 35} {j = shift}) in
          let rest =
            check_size_lem rounds (shift + 1) capacity h (omega (arith, small)) (omega arith) in
          let last : (rest.0 ≡ shift) ⊎ (2 ^ (rest.0 - 1) * maximum_count < capacity) =
            elim rest.5 [ inl e ↦ inr (rw (e, add-sub_cancel) full) | inr k ↦ inr k ] in
          (rest.0, rw more rest.1, omega (arith, rest.2), rest.3, rest.4, last)
      | inr less ↦ (
        shift,
        rw less refl,
        omega arith,
        le,
        ground (arith, less, too_many shift capacity h le),
        inl refl,
      )
    ]

ceiling_bounds :
    (c b : ℕ)
    → 0 < b
    → let n = if c % b == 0 then c / b else c / b + 1 in (c ≤ n * b) × (n * b < c + b)
ceiling_bounds c b pos = elim (Bool-cases (c % b == 0)) [
  | inl e ↦ rw e (
    ground (arith, div-add-mod c b, mod-lt c pos, ==_iff (c % b) 0),
    ground (arith, div-add-mod c b, mod-lt c pos),
  )
  | inr e ↦ rw e (
    ground (arith, div-add-mod c b, mod-lt c pos),
    ground (arith, div-add-mod c b, mod-lt c pos, e),
  )
]

-- The blocks of the table cover the device, and are the fewest that do.
pub map_size_of_lem :
    (degree capacity : ℕ)
    → (capacity ≤ map_size_of degree capacity * 2 ^ degree)
      × (map_size_of degree capacity * 2 ^ degree < capacity + 2 ^ degree)
unfolding map_size_of
map_size_of_lem degree capacity =
    ceiling_bounds capacity (2 ^ degree) (one-le-pow degree 2 (omega arith))

-- The pages of a table have room for its bytes, and are the fewest that have.
pub pages_of_lem : (n : ℕ) → (n ≤ page_size * pages_of n) × (page_size * pages_of n < n + page_size)
unfolding pages_of
pages_of_lem n = ground arith

-- What a new table is: both of its maps have room for its blocks, in as many pages, and are zero; the
-- first interval is 1.
pub record IsFresh (uuid degree capacity : ℕ) (m : CbtMap) : Type 0 where
  pub degree_is : m.sect_in_block_degree ≡ degree
  pub capacity_is : m.device_capacity ≡ capacity
  pub size_is : m.map_size ≡ map_size_of degree capacity
  pub write_holds : Holds m.map_size m.write_map
  pub read_holds : Holds m.map_size m.read_map
  pub same_pages : pg_cnt m.read_map ≡ pg_cnt m.write_map
  pub write_zero : (j : ℕ) → byte m.write_map j ≡ 0
  pub read_zero : (j : ℕ) → byte m.read_map j ≡ 0
  pub active_is : m.snap_number_active ≡ 1
  pub previous_is : m.snap_number_previous ≡ 0
  pub generation_is : m.generation_active ≡ uuid
  pub generation_previous_is : m.generation_previous ≡ uuid

abbrev pub IsFreshOrNone : ℕ → ℕ → ℕ → Option CbtMap → Type 0
IsFreshOrNone uuid degree capacity none = Unit
IsFreshOrNone uuid degree capacity (some m) = IsFresh uuid degree capacity m

-- The pages that the two maps hold.
abbrev pub pages_held : Option CbtMap → ℕ
pages_held none = 0
pages_held (some m) = pg_cnt m.read_map + pg_cnt m.write_map

zeroed :
    (n k : ℕ) (arr : PageArray ℕ)
    → n ≤ page_size * k
    → pg_cnt arr ≡ k
    → Holds n (page_array_memset arr 0)
      × ((j : ℕ) → byte (page_array_memset arr 0) j ≡ 0)
      × (pg_cnt (page_array_memset arr 0) ≡ k)
zeroed n k arr h e =
    let whole = byte_get-memset arr 0 0 in
    (
      record { paged = whole.0; covers = ground (arith, h, e, whole.1) },
      (λ j. byte-memset arr 0 j ∙ ground arith),
      whole.1 ∙ e,
    )

allocated_lem :
    (uuid degree capacity k : ℕ) (read write : Option (PageArray ℕ)) (c : Counters)
    → map_size_of degree capacity ≤ page_size * k
    → ((arr : PageArray ℕ) → read ≡ some arr → pg_cnt arr ≡ k)
    → ((arr : PageArray ℕ) → write ≡ some arr → pg_cnt arr ≡ k)
    → let r = allocated degree capacity uuid read write c in
      IsFreshOrNone uuid degree capacity r.0
      × (r.1.page_alloc_count ≡ c.page_alloc_count)
      × (r.1.page_free_count + pages_held r.0
          ≡ c.page_free_count + held_pages read + held_pages write)
unfolding allocated free_map
allocated_lem uuid degree capacity k (some read) (some write) c h e e' =
    let n = map_size_of degree capacity in
    let r = zeroed n k read h (e read refl) in
    let w = zeroed n k write h (e' write refl) in
    (
      record {
        degree_is = refl;
        capacity_is = refl;
        size_is = refl;
        write_holds = w.0;
        read_holds = r.0;
        same_pages = r.2 ∙ sym w.2;
        write_zero = w.1;
        read_zero = r.1;
        active_is = refl;
        previous_is = refl;
        generation_is = refl;
        generation_previous_is = refl;
      },
      refl,
      ground (arith, r.2, w.2, e read refl, e' write refl),
    )
allocated_lem uuid degree capacity k none none c h e e' = (tt, refl, omega arith)
allocated_lem uuid degree capacity k (some read) none c h e e' =
    (tt, (page_array_free_lem read c).1, ground (arith, page_array_free_lem read c))
allocated_lem uuid degree capacity k none (some write) c h e e' =
    (tt, (page_array_free_lem write c).1, ground (arith, page_array_free_lem write c))

-- `cbt_map_allocate`, its caller's clean-up included: a table is fresh, and the pages in use grow by
-- the pages of its maps, by none where there is no table.
pub allocate_lem :
    (junk : List ℕ) (uuid degree capacity : ℕ) (c : Counters) (mem : Memory)
    → let r = allocate junk uuid degree capacity c mem in
      IsFreshOrNone uuid degree capacity r.0.0
      × (r.0.1.page_alloc_count + c.page_free_count
          ≡ c.page_alloc_count + r.0.1.page_free_count + pages_held r.0.0)
unfolding allocate
allocate_lem junk uuid degree capacity c mem =
    let k : ℕ = pages_of (map_size_of degree capacity) in
    let first = page_array_alloc junk k c mem in
    let second = page_array_alloc junk k first.1 first.2 in
    let a =
      allocated_lem uuid degree capacity k first.0 second.0 second.1
        (pages_of_lem (map_size_of degree capacity)).0 (pages_got junk k c mem)
        (pages_got junk k first.1 first.2) in
    (
      a.0,
      ground (
        arith,
        a.1,
        a.2,
        page_array_alloc-balance junk k c mem,
        page_array_alloc-balance junk k first.1 first.2,
      ),
    )
