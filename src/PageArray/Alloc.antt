-- ===== src/PageArray/Alloc.antt =====
-- `page_array_alloc` of page_array.c under every run of the allocator, and the two whole-array writes.
use veeamsnap.Prelude.{
  ℕ, zero, suc, ◌+◌, ◌*◌, ◌/◌, ◌%◌, ◌<◌, ◌≤◌, ◌≡◌, ◌⊎◌, inl, inr, refl, sym, ap, ◌∙◌, false, Option,
  none, some, List, [], ◌∷◌, ltb, if◌then◌else◌, length, get_or, replicate, length-replicate,
  Memory, alloc, success, enodata, arith,
}
use veeamsnap.PageArray.{
  PageArray, Counters, page_size, pg_cnt, fill, page_array_memset, copy_pages, page_array_memcpy,
  alloc_pages, finish_alloc, page_array_free, page_array_alloc, byte_get, ptr_get, pointers_in_page,
  page_count_calc,
}
use veeamsnap.PageArray.Items.{Paged, item, byte}

alloc_pages-got :
    {A : Type 0} (junk : List A) (n : ℕ) (c : Counters) (mem : Memory)
    → let r = alloc_pages junk n c mem in
      (r.1 ≡ record c { page_alloc_count = c.page_alloc_count + length r.0.1 })
      × ((r.0.0 ≡ false) ⊎ (r.0.1 ≡ replicate n junk))
unfolding alloc_pages
alloc_pages-got junk zero c mem = (
  ap (λ (t : ℕ). record c { page_alloc_count = t }) {x = c.page_alloc_count} (omega arith),
  inr refl,
)
alloc_pages-got junk (suc n) c mem = ground (
  arith,
  alloc_pages-got junk n (record c { page_alloc_count = c.page_alloc_count + 1 }) (alloc mem).1,
)

-- The pages that a result of the allocation holds, and its arrays.
abbrev pub held_pages : {A : Type 0} → Option (PageArray A) → ℕ
held_pages none = 0
held_pages (some arr) = pg_cnt arr

abbrev pub held_arrays : {A : Type 0} → Option (PageArray A) → ℕ
held_arrays none = 0
held_arrays (some arr) = 1

-- An allocation gives the pages asked for or nothing, and what it does not give it has freed: the
-- pages and arrays in use grow by those of the result.
pub page_array_alloc-balance :
    {A : Type 0} (junk : List A) (count : ℕ) (c : Counters) (mem : Memory)
    → let r = page_array_alloc junk count c mem in
      ((r.0 ≡ none) ⊎ (r.0 ≡ some (record { pg = replicate count junk })))
      × (r.1.page_alloc_count + c.page_free_count
          ≡ c.page_alloc_count + r.1.page_free_count + held_pages r.0)
      × (r.1.page_array_alloc_count + c.page_array_free_count
          ≡ c.page_array_alloc_count + r.1.page_array_free_count + held_arrays r.0)
unfolding page_array_alloc finish_alloc page_array_free
page_array_alloc-balance junk count c mem =
    ground (arith, alloc_pages-got junk count c (alloc mem).1)

pub length-fill :
    {A : Type 0} (n : ℕ) (pages : List (List A)) (v : A) → length (fill n pages v) ≡ length pages
unfolding fill
length-fill n [] v = refl
length-fill n (page ∷ pages) v = ap suc (length-fill n pages v)

pub fill-Paged :
    {A : Type 0} (n : ℕ) (pages : List (List A)) (v : A) → Paged n (record { pg = fill n pages v })
unfolding fill
fill-Paged n [] v = tt
fill-Paged n (page ∷ pages) v = (length-replicate n v, fill-Paged n pages v)

fill-page :
    {A : Type 0} (n k i : ℕ) (v null : A) (pages : List (List A))
    → k < length pages
    → i < n
    → get_or (get_or (fill n pages v) k []) i null ≡ v
unfolding fill
fill-page n k i v null [] h lt = absurd (omega arith)
fill-page n zero i v null (page ∷ pages) h lt = within n i v null lt
  where
    within : {A : Type 0} (n i : ℕ) (v null : A) → i < n → get_or (replicate n v) i null ≡ v
    within zero i v null lt = absurd (omega arith)
    within (suc n) zero v null lt = refl
    within (suc n) (suc i) v null lt = within n i v null (omega arith)
fill-page n (suc k) i v null (page ∷ pages) h lt = fill-page n k i v null pages (omega arith) lt

-- After a `memset` the pages are whole, as many as before, and every byte of them has the value; past
-- them there is none.
pub byte_get-memset :
    (arr : PageArray ℕ) (v i : ℕ)
    → Paged page_size (page_array_memset arr v)
      × (pg_cnt (page_array_memset arr v) ≡ pg_cnt arr)
      × (byte_get (page_array_memset arr v) i
          ≡ (if ltb i (page_size * pg_cnt arr) then (success, some v) else (enodata, none)))
unfolding page_array_memset byte_get
byte_get-memset arr v i = (
  fill-Paged page_size arr.pg v,
  length-fill page_size arr.pg v,
  ground (
    arith,
    length-fill page_size arr.pg v,
    fill-page page_size (i / page_size) (i % page_size) v 0 arr.pg,
  ),
)

copy_pages-all :
    {A : Type 0} (dst src : List (List A)) → length dst ≡ length src → copy_pages dst src ≡ src
unfolding copy_pages
copy_pages-all [] [] h = refl
copy_pages-all [] (page ∷ src) h = absurd (omega arith)
copy_pages-all (page ∷ dst) [] h = absurd (omega arith)
copy_pages-all (page ∷ dst) (page' ∷ src) h = ap (◌∷◌ page') (copy_pages-all dst src (omega arith))

-- A `memcpy` between arrays of as many pages makes the first a copy of the second.
pub page_array_memcpy-all :
    {A : Type 0} (dst src : PageArray A) → pg_cnt dst ≡ pg_cnt src → page_array_memcpy dst src ≡ src
unfolding page_array_memcpy
page_array_memcpy-all dst src h = ap (λ p. record { pg = p }) (copy_pages-all dst.pg src.pg h)

get_or-beyond : {A : Type 0} (xs : List A) (i : ℕ) (d : A) → length xs ≤ i → get_or xs i d ≡ d
get_or-beyond [] i d h = refl
get_or-beyond (x ∷ xs) zero d h = absurd (omega arith)
get_or-beyond (x ∷ xs) (suc i) d h = get_or-beyond xs i d (omega arith)

pub byte-memset :
    (arr : PageArray ℕ) (v i : ℕ)
    → byte (page_array_memset arr v) i ≡ (if ltb i (page_size * pg_cnt arr) then v else 0)
unfolding page_array_memset byte item
byte-memset arr v i = ground (
  arith,
  length-fill page_size arr.pg v,
  fill-page page_size (i / page_size) (i % page_size) v 0 arr.pg,
  get_or-beyond (fill page_size arr.pg v) (i / page_size) [],
)

pub page_array_free_lem :
    {A : Type 0} (arr : PageArray A) (c : Counters)
    → ((page_array_free arr c).page_free_count ≡ c.page_free_count + pg_cnt arr)
      × ((page_array_free arr c).page_alloc_count ≡ c.page_alloc_count)
unfolding page_array_free
page_array_free_lem arr c = (refl, refl)

-- A `memset` of the pointers.
pub ptr_get-fill :
    {A : Type 0} (null : A) (arr : PageArray A) (v : A) (i : ℕ)
    → i < pointers_in_page * pg_cnt arr
    → (ptr_get null (record { pg = fill pointers_in_page arr.pg v }) i).1 ≡ some v
unfolding ptr_get
ptr_get-fill null arr v i h = ground (
  arith,
  h,
  length-fill pointers_in_page arr.pg v,
  fill-page pointers_in_page (i / pointers_in_page) (i % pointers_in_page) v null arr.pg,
)

-- `page_count_calc` gives the fewest pages that have room for the bytes.
pub page_count_calc_lem :
    (n : ℕ) → (n ≤ page_size * page_count_calc n) × (page_size * page_count_calc n < n + page_size)
unfolding page_count_calc
page_count_calc_lem n = ground arith

-- The array that an allocation gave has the pages asked for.
pub pages_got :
    {A : Type 0} (junk : List A) (k : ℕ) (c : Counters) (mem : Memory) (arr : PageArray A)
    → (page_array_alloc junk k c mem).0 ≡ some arr
    → pg_cnt arr ≡ k
pages_got junk k c mem arr e = elim (page_array_alloc-balance junk k c mem).0 [
  | inl nothing ↦ absurd (ground (arith, nothing, e))
  | inr got ↦ ap held_pages (sym e ∙ got) ∙ length-replicate k junk
]
