-- ===== src/PageArray.antt =====
-- source/page_array.c: arrays kept in pages of 4096 bytes. A page is the list of its items, bytes or
-- 64-bit pointers; `pg_cnt` is the number of the pages.
pub mod Items
pub mod Alloc
pub mod Copying
mod Tests
use veeamsnap.Prelude.{
  ℕ, zero, suc, ◌+◌, ◌-◌, ◌*◌, ◌/◌, ◌%◌, ◌^◌, Bool, true, false, Option, none, some, List, [], ◌∷◌,
  ltb, leb, ◌==◌, if◌then◌else◌, length, get_or, set, replicate, take, drop, ◌++◌, min, Status,
  success, enodata, ealready, Memory, alloc,
}

-- PAGE_SIZE, and POINTERS_IN_PAGE
abbrev pub page_size : ℕ
page_size = 4096

abbrev pub pointers_in_page : ℕ
pointers_in_page = 512

-- `page_array_t`
pub record PageArray (A : Type 0) : Type 0 where
  pub pg : List (List A)

module _ {A : Type 0} where
  abbrev pub pg_cnt : PageArray A → ℕ
  pg_cnt arr = length arr.pg

  abbrev pub page_at : PageArray A → ℕ → List A
  page_at arr page_inx = get_or arr.pg page_inx []

  abbrev pub put_page : PageArray A → ℕ → List A → PageArray A
  put_page arr page_inx page = record { pg = set arr.pg page_inx page }

  -- The loop of the copies out of an array, over the pages that follow: the bytes, and their number.
  pub copy_out : List (List A) → ℕ → ℕ × List A
  copy_out [] left = (0, [])
  copy_out (page ∷ pages) left =
      let page_len : ℕ = min page_size left in
      let rest = copy_out pages (left - page_len) in
      if left == 0 then (0, []) else (page_len + rest.0, take page_len page ++ rest.1)

  -- `page_array_pages2mem`, with what it writes to `dst`
  pub pages2mem : ℕ → PageArray A → ℕ → ℕ × List A
  pages2mem arr_ofs arr len =
      let page_inx : ℕ = arr_ofs / page_size in
      let unordered : ℕ = arr_ofs % page_size in
      let page_len : ℕ = min (page_size - unordered) len in
      let rest = copy_out (drop (page_inx + 1) arr.pg) (len - page_len) in
      (page_len + rest.0, take page_len (drop unordered (page_at arr page_inx)) ++ rest.1)

  -- `page_array_ptr_get`, over the item that an unwritten place has
  unfoldable pub ptr_get : A → PageArray A → ℕ → Status × Option A
  ptr_get null arr inx =
      let page_inx : ℕ = inx / pointers_in_page in
      if leb (pg_cnt arr) page_inx
      then (enodata, none)
      else (success, some (get_or (page_at arr page_inx) (inx % pointers_in_page) null))

  -- `page_array_ptr_set`
  unfoldable pub ptr_set : PageArray A → ℕ → A → Status × PageArray A
  ptr_set arr inx value =
      let page_inx : ℕ = inx / pointers_in_page in
      if leb (pg_cnt arr) page_inx then (enodata, arr) else (
        success,
        put_page arr page_inx (set (page_at arr page_inx) (inx % pointers_in_page) value),
      )

  -- `page_array_memset`, for a value that fills an item
  unfoldable pub fill : ℕ → List (List A) → A → List (List A)
  fill per_page [] value = []
  fill per_page (page ∷ pages) value = replicate per_page value ∷ fill per_page pages value

  -- `page_array_memcpy`: as many pages as both have
  pub copy_pages : List (List A) → List (List A) → List (List A)
  copy_pages [] src = []
  copy_pages (page ∷ dst) [] = page ∷ dst
  copy_pages (page ∷ dst) (page' ∷ src) = page' ∷ copy_pages dst src

  pub page_array_memcpy : PageArray A → PageArray A → PageArray A
  page_array_memcpy dst src = record { pg = copy_pages dst.pg src.pg }

-- `page_array_byte_get`
pub byte_get : PageArray ℕ → ℕ → Status × Option ℕ
byte_get arr inx =
    let page_inx : ℕ = inx / page_size in
    if leb (pg_cnt arr) page_inx
    then (enodata, none)
    else (success, some (get_or (page_at arr page_inx) (inx % page_size) 0))

-- `page_array_byte_set`
pub byte_set : PageArray ℕ → ℕ → ℕ → Status × PageArray ℕ
byte_set arr inx value =
    let page_inx : ℕ = inx / page_size in
    if leb (pg_cnt arr) page_inx
    then (enodata, arr)
    else (success, put_page arr page_inx (set (page_at arr page_inx) (inx % page_size) value))

pub page_array_memset : PageArray ℕ → ℕ → PageArray ℕ
page_array_memset arr value = record { pg = fill page_size arr.pg value }

-- The four counters of the pages and arrays that were allocated and freed.
pub record Counters : Type 0 where
  pub page_alloc_count : ℕ
  pub page_free_count : ℕ
  pub page_array_alloc_count : ℕ
  pub page_array_free_count : ℕ

-- The loop of `page_array_alloc`: the pages got, and whether all were. What a page holds at first is
-- the kernel's.
pub alloc_pages :
    {A : Type 0} → List A → ℕ → Counters → Memory → (Bool × List (List A)) × Counters × Memory
alloc_pages junk zero c mem = ((true, []), c, mem)
alloc_pages junk (suc n) c mem =
    let (granted, mem') = alloc mem in
    let rest = alloc_pages junk n (record c { page_alloc_count = c.page_alloc_count + 1 }) mem' in
    if granted then ((rest.0.0, junk ∷ rest.0.1), rest.1, rest.2) else ((false, []), c, mem')

-- `page_array_free`, of an array that is not NULL
pub page_array_free : {A : Type 0} → PageArray A → Counters → Counters
page_array_free arr c = record c {
  page_free_count = c.page_free_count + pg_cnt arr;
  page_array_free_count = c.page_array_free_count + 1;
}

-- The end of `page_array_alloc`: where a page was refused the others are freed.
pub finish_alloc :
    {A : Type 0}
    → (Bool × List (List A)) × Counters × Memory
    → Option (PageArray A) × Counters × Memory
finish_alloc ((got_all, pages), c, mem) =
    let c' = record c { page_array_alloc_count = c.page_array_alloc_count + 1 } in
    if got_all
    then (some (record { pg = pages }), c', mem)
    else (none, page_array_free (record { pg = pages }) c', mem)

-- `page_array_alloc`
pub page_array_alloc :
    {A : Type 0} → List A → ℕ → Counters → Memory → Option (PageArray A) × Counters × Memory
page_array_alloc junk count c mem =
    let (granted, mem') = alloc mem in
    if granted then finish_alloc (alloc_pages junk count c mem') else (none, c, mem')

-- `page_count_calc`
unfoldable pub page_count_calc : ℕ → ℕ
page_count_calc buffer_size =
    if buffer_size % page_size == 0 then buffer_size / page_size else buffer_size / page_size + 1

-- `page_array_bit_get`: bit `inx & 7` of byte `inx / 8`
pub bit_get : PageArray ℕ → ℕ → Status × Option Bool
bit_get arr inx = elim (byte_get arr (inx / 8)).1 [
  | none ↦ (enodata, none)
  | some v ↦ (success, some (v / 2 ^ (inx % 8) % 2 == 1))
]

-- `page_array_bit_set`
pub bit_set : PageArray ℕ → ℕ → Bool → Status × PageArray ℕ
bit_set arr inx value =
    let byte_inx : ℕ = inx / 8 in
    let page_inx : ℕ = byte_inx / page_size in
    let mask : ℕ = 2 ^ (inx % 8) in
    let v : ℕ = get_or (page_at arr page_inx) (byte_inx % page_size) 0 in
    let is_one : Bool = v / mask % 2 == 1 in
    let put : ℕ → PageArray ℕ =
      λ (b : ℕ). put_page arr page_inx (set (page_at arr page_inx) (byte_inx % page_size) b) in
    if leb (pg_cnt arr) page_inx
    then (enodata, arr)
    else if value
    then (if is_one then (ealready, arr) else (success, put (v + mask)))
    else (if is_one then (success, put (v - mask)) else (ealready, arr))
