-- ===== src/PageArray/Items.antt =====
-- Reading and writing the items of page_array.c.
use native.Mathlib.Nat.{div-add-mod, mod-lt}
use veeamsnap.Prelude.{
  ℕ, ◌*◌, ◌/◌, ◌%◌, ◌<◌, ◌≤◌, ◌≡◌, ap, ◌∙◌, true, false, none, some, [], ltb, ◌==◌, if◌then◌else◌,
  length, get_or, get_or-set, length-set, All, All-get_or, All-set, set, is_success, success,
  enodata, arith, ◌&&◌,
}
use veeamsnap.PageArray.{
  PageArray, page_size, pointers_in_page, pg_cnt, page_at, put_page, ptr_get, ptr_set, byte_get,
  byte_set,
}

-- Every page has its items.
abbrev pub Paged : {A : Type 0} → ℕ → PageArray A → Type 0
Paged per_page arr = All (λ page. length page ≡ per_page) arr.pg

-- The place of an index: its page and its position there.
pub same_place :
    (per_page i j : ℕ)
    → (if i / per_page == j / per_page
        then (if i % per_page == j % per_page then true else false)
        else false)
      ≡ (i == j)
same_place per_page i j = ground (
  arith,
  div-add-mod i per_page,
  div-add-mod j per_page,
  ap (λ (t : ℕ). per_page * t) {x = i / per_page} {y = j / per_page},
)

unfoldable pub item : {A : Type 0} → A → ℕ → PageArray A → ℕ → A
item null per_page arr i = get_or (page_at arr (i / per_page)) (i % per_page) null

pub put : {A : Type 0} → ℕ → PageArray A → ℕ → A → PageArray A
put per_page arr i v =
    put_page arr (i / per_page) (set (page_at arr (i / per_page)) (i % per_page) v)

module _ {A : Type 0} (null : A) (per_page : ℕ) (positive : 0 < per_page) where
  page_at-length :
      (arr : PageArray A) (k : ℕ)
      → Paged per_page arr
      → k < pg_cnt arr
      → length (page_at arr k) ≡ per_page
  page_at-length arr k ok h = All-get_or (λ page. length page ≡ per_page) arr.pg k [] ok h

  pub put-Paged :
      (arr : PageArray A) (i : ℕ) (v : A)
      → Paged per_page arr
      → i / per_page < pg_cnt arr
      → Paged per_page (put per_page arr i v)
  unfolding put
  put-Paged arr i v ok h =
      All-set (λ page. length page ≡ per_page) arr.pg (i / per_page) _ ok
        (length-set (page_at arr (i / per_page)) (i % per_page) v
          ∙ page_at-length arr (i / per_page) ok h)

  pub item-put :
      (arr : PageArray A) (i j : ℕ) (v : A)
      → Paged per_page arr
      → i / per_page < pg_cnt arr
      → item null per_page (put per_page arr i v) j
        ≡ (if i == j then v else item null per_page arr j)
  unfolding item put
  item-put arr i j v ok h = ground (
    arith,
    get_or-set arr.pg (i / per_page) (j / per_page)
        (set (page_at arr (i / per_page)) (i % per_page) v) [],
    get_or-set (page_at arr (i / per_page)) (i % per_page) (j % per_page) v null,
    page_at-length arr (i / per_page) ok h,
    mod-lt i positive,
    same_place per_page i j,
  )

-- A byte written is read back, and every other byte as before; past the pages nothing is written.
pub byte_get-byte_set :
    (arr : PageArray ℕ) (i j v : ℕ)
    → Paged page_size arr
    → let r = byte_set arr i v in
      Paged page_size r.1
      × (r.0 ≡ (if ltb i (page_size * pg_cnt arr) then success else enodata))
      × (pg_cnt r.1 ≡ pg_cnt arr)
      × (byte_get r.1 j ≡ (if is_success r.0 && i == j then (success, some v) else byte_get arr j))
unfolding byte_get byte_set item put
byte_get-byte_set arr i j v ok = ground (
  arith,
  put-Paged 0 page_size (omega arith) arr i v ok,
  item-put 0 page_size (omega arith) arr i j v ok,
  length-set arr.pg (i / page_size) (set (page_at arr (i / page_size)) (i % page_size) v),
)

-- A pointer written is read back, and every other pointer as before; past the pages nothing is
-- written.
pub ptr_get-ptr_set :
    {A : Type 0} (null : A) (arr : PageArray A) (i j : ℕ) (v : A)
    → Paged pointers_in_page arr
    → let r = ptr_set arr i v in
      Paged pointers_in_page r.1
      × (r.0 ≡ (if ltb i (pointers_in_page * pg_cnt arr) then success else enodata))
      × (pg_cnt r.1 ≡ pg_cnt arr)
      × (ptr_get null r.1 j
          ≡ (if is_success r.0 && i == j then (success, some v) else ptr_get null arr j))
unfolding ptr_get ptr_set item put
ptr_get-ptr_set null arr i j v ok = ground (
  arith,
  put-Paged null pointers_in_page (omega arith) arr i v ok,
  item-put null pointers_in_page (omega arith) arr i j v ok,
  length-set arr.pg (i / pointers_in_page)
      (set (page_at arr (i / pointers_in_page)) (i % pointers_in_page) v),
)

-- The byte at an index, 0 past the pages.
unfoldable pub byte : PageArray ℕ → ℕ → ℕ
byte arr i = item 0 page_size arr i

pub byte_get-byte :
    (arr : PageArray ℕ) (i : ℕ)
    → byte_get arr i
      ≡ (if ltb i (page_size * pg_cnt arr) then (success, some (byte arr i)) else (enodata, none))
unfolding byte_get byte item
byte_get-byte arr i = ground arith

pub byte_set-in :
    (arr : PageArray ℕ) (i j v : ℕ)
    → Paged page_size arr
    → i < page_size * pg_cnt arr
    → let r = byte_set arr i v in
      (r.0 ≡ success)
      × Paged page_size r.1
      × (pg_cnt r.1 ≡ pg_cnt arr)
      × (byte r.1 j ≡ (if i == j then v else byte arr j))
unfolding byte_set byte item put
byte_set-in arr i j v ok h = ground (
  arith,
  put-Paged 0 page_size (omega arith) arr i v ok,
  item-put 0 page_size (omega arith) arr i j v ok,
  length-set arr.pg (i / page_size) (set (page_at arr (i / page_size)) (i % page_size) v),
)

pub ptr_get-item :
    {A : Type 0} (null : A) (arr : PageArray A) (i : ℕ)
    → i < pointers_in_page * pg_cnt arr
    → ptr_get null arr i ≡ (success, some (item null pointers_in_page arr i))
unfolding ptr_get item
ptr_get-item null arr i h = ground arith

pub ptr_get-beyond :
    {A : Type 0} (null : A) (arr : PageArray A) (i : ℕ)
    → pointers_in_page * pg_cnt arr ≤ i
    → ptr_get null arr i ≡ (enodata, none)
unfolding ptr_get
ptr_get-beyond null arr i h = ground arith
