-- ===== src/BlkDescrArray/Life.antt =====
-- The beginning and the end of a map of blk_descr_array.c: `init`, `reset` and `done`.
use veeamsnap.Prelude.{
  ℕ, zero, suc, ◌+◌, ◌-◌, ◌*◌, ◌/◌, ◌%◌, ◌<◌, ◌≤◌, ◌≡◌, inl, inr, refl, sym, ap, ◌∙◌, ◌&&◌, ◌||◌,
  Option, none, some, List, ltb, ltb→lt, leb, ◌==◌, ==_iff, if◌then◌else◌, Bool-cases, einval,
  enodata, Memory, arith,
}
use veeamsnap.Prelude.Word.{word}
use veeamsnap.PageArray.{
  PageArray, Counters, pg_cnt, ptr_get, pointers_in_page, fill, page_count_calc, page_array_alloc,
}
use veeamsnap.PageArray.Items.{Paged, ptr_get-ptr_set, ptr_get-item, ptr_get-beyond}
use veeamsnap.PageArray.Alloc.{
  length-fill, fill-Paged, ptr_get-fill, page_array_alloc-balance, page_array_free_lem, held_pages,
  page_count_calc_lem, pages_got,
}
use veeamsnap.BlkDescrArray.{
  Group, Header, group_length, read_slot, slot_at, get, reset_slot, reset_loop, reset, done, built,
  init, group_count_of,
}
use veeamsnap.BlkDescrArray.Laws.{IsValid}

module _ {V : Type 0} (null : V) where
  reset_slot_lem :
      (groups : PageArray (Option (Group V))) (k k' : ℕ) (slot : Option (Option (Group V)))
      → Paged pointers_in_page groups
      → (ptr_get none groups k).1 ≡ slot
      → k < pointers_in_page * pg_cnt groups
      → let r = reset_slot null groups k slot in
        Paged pointers_in_page r.0
        × (pg_cnt r.0 ≡ pg_cnt groups)
        × ((ptr_get none r.0 k').1 ≡ (if k == k' then some none else (ptr_get none groups k').1))
  unfolding reset_slot
  reset_slot_lem groups k k' none ok e inside =
      absurd (ground (arith, e, ptr_get-item none groups k inside))
  reset_slot_lem groups k k' (some none) ok e inside = (
    ok,
    refl,
    elim (Bool-cases (k == k')) [
      | inl y ↦ rw y (ap (λ (x : ℕ). (ptr_get none groups x).1) (sym ((==_iff k k').0 y)) ∙ e)
      | inr n ↦ rw n refl
    ],
  )
  reset_slot_lem groups k k' (some (some g)) ok e inside =
      let set = ptr_get-ptr_set none groups k k' none ok in
      (set.0, set.2, ground (arith, set, inside))

  reset_loop_lem :
      (left k k' : ℕ) (groups : PageArray (Option (Group V)))
      → Paged pointers_in_page groups
      → k + left ≤ pointers_in_page * pg_cnt groups
      → let r = reset_loop null left k groups in
        Paged pointers_in_page r.0
        × (pg_cnt r.0 ≡ pg_cnt groups)
        × ((ptr_get none r.0 k').1
            ≡ (if leb k k' && ltb k' (k + left) then some none else (ptr_get none groups k').1))
  unfolding reset_loop
  reset_loop_lem zero k k' groups ok h = (ok, refl, ground arith)
  reset_loop_lem (suc left) k k' groups ok h =
      let one = reset_slot_lem groups k k' (ptr_get none groups k).1 ok refl (omega arith) in
      let rest =
        reset_loop_lem left (k + 1) k' (reset_slot null groups k (ptr_get none groups k).1).0 one.0
          (omega (arith, h, one.1)) in
      (rest.0, rest.1 ∙ one.1, ground (arith, one.2, rest.2))

  read_slot-absent : (i : ℕ) → read_slot null (some none) i ≡ (enodata, none)
  unfolding read_slot
  read_slot-absent i = refl

  -- Where every slot of the range is empty, every block of it reads as absent.
  get-empty :
      (h : Header V) (j : ℕ)
      → ((k : ℕ) → k < h.group_count → slot_at null h k ≡ some none)
      → h.last - h.first < group_length * h.group_count
      → get null h j ≡ (if leb h.first j && leb j h.last then (enodata, none) else (einval, none))
  unfolding get
  get-empty h j empty enough = elim (Bool-cases (ltb j h.first || ltb h.last j)) [
    | inl out ↦ rw out (ground (arith, out))
    | inr within ↦ rw within (
        ap (λ s. read_slot null s ((j - h.first) % group_length))
          (empty ((j - h.first) / group_length) (ground (arith, within, enough)))
        ∙ ground (arith, within, read_slot-absent ((j - h.first) % group_length)))
  ]

  -- After a reset no block of the range has a descriptor, and the map is well formed.
  pub reset_lem :
      (h : Header V) (j : ℕ)
      → IsValid h
      → IsValid (reset null h)
        × (get null (reset null h) j
            ≡ (if leb h.first j && leb j h.last then (enodata, none) else (einval, none)))
  unfolding reset
  reset_lem h j v =
      let loop = λ (k : ℕ).
        reset_loop_lem h.group_count 0 k h.groups v.paged (omega (arith, v.pages_enough)) in
      (
        record {
          paged = (loop 0).0;
          ordered = v.ordered;
          groups_enough = v.groups_enough;
          pages_enough = omega (arith, v.pages_enough, (loop 0).1);
          slots_valid = λ k. elim (Bool-cases (leb 0 k && ltb k (0 + h.group_count))) [
            | inl y ↦ rw (loop k).2 (rw y tt)
            | inr n ↦ rw (loop k).2 (rw n (v.slots_valid k))
          ];
        },
        get-empty (reset null h) j (λ k lt. ground (arith, (loop k).2, lt)) v.groups_enough,
      )

  -- `blk_descr_array_done` of a well-formed map frees as many pages as its array has, and takes none.
  pub done_lem :
      (h : Header V) (c : Counters)
      → IsValid h
      → ((done null h c).page_free_count ≡ c.page_free_count + pg_cnt h.groups)
        × ((done null h c).page_alloc_count ≡ c.page_alloc_count)
  unfolding done reset
  done_lem h c v =
      let freed = page_array_free_lem (reset null h).groups c in
      (
        ground (
          arith,
          freed,
          reset_loop_lem h.group_count 0 0 h.groups v.paged (omega (arith, v.pages_enough)),
        ),
        freed.1,
      )

  -- A new map is well formed, and no block of its range has a descriptor.
  abbrev pub IsNewOrNone : ℕ → ℕ → Option (Header V) → Type 0
  IsNewOrNone first last none = Unit
  IsNewOrNone first last (some h) =
      IsValid h
      × ((j : ℕ)
          → get null h j ≡ (if leb first j && leb j last then (enodata, none) else (einval, none)))

  abbrev pub pages_held : Option (Header V) → ℕ
  pages_held none = 0
  pages_held (some h) = pg_cnt h.groups

  built_lem :
      (first last : ℕ) (groups : Option (PageArray (Option (Group V))))
      → first ≤ last
      → last + 1 < word
      → ((arr : PageArray (Option (Group V)))
          → groups ≡ some arr
          → pg_cnt arr ≡ page_count_calc (group_count_of first last * 8))
      → IsNewOrNone first last (built null first last groups)
        × (pages_held (built null first last groups) ≡ held_pages groups)
  unfolding built group_count_of
  built_lem first last none le small pages = (tt, refl)
  built_lem first last (some groups) le small pages =
      let h : Header V = record {
        first = first;
        last = last;
        groups = record { pg = fill pointers_in_page groups.pg none };
        group_count = group_count_of first last;
      } in
      let same : pg_cnt h.groups ≡ pg_cnt groups = length-fill pointers_in_page groups.pg none in
      let enough : last - first < group_length * h.group_count = ground (arith, le, small) in
      let bytes = (page_count_calc_lem (h.group_count * 8)).0 in
      let paged : h.group_count ≤ pointers_in_page * pg_cnt groups =
        omega (arith, bytes, pages groups refl) in
      let empty : (k : ℕ) → k < pointers_in_page * pg_cnt groups → slot_at null h k ≡ some none =
        λ k lt. ptr_get-fill none groups none k lt in
      (
        (
          record {
            paged = fill-Paged pointers_in_page groups.pg none;
            ordered = le;
            groups_enough = enough;
            pages_enough = omega (arith, same, paged);
            slots_valid = λ k. elim (Bool-cases (ltb k (pointers_in_page * pg_cnt groups))) [
              | inl y ↦ rw (empty k (ltb→lt k (pointers_in_page * pg_cnt groups) y)) tt
              | inr n ↦ rw (ptr_get-beyond none h.groups k (ground (arith, n, same))) tt
            ];
          },
          λ j. get-empty h j (λ k lt. empty k (omega (arith, lt, paged))) enough,
        ),
        same,
      )

  -- The map that an initialisation builds over an array of pages.
  abbrev pub fresh : ℕ → ℕ → PageArray (Option (Group V)) → Header V
  fresh first last groups = record {
    first = first;
    last = last;
    groups = record { pg = fill pointers_in_page groups.pg none };
    group_count = group_count_of first last;
  }

  pub fresh_lem :
      (first last : ℕ) (groups : PageArray (Option (Group V)))
      → first ≤ last
      → last + 1 < word
      → pg_cnt groups ≡ page_count_calc (group_count_of first last * 8)
      → IsNewOrNone first last (some (fresh first last groups))
  unfolding built
  fresh_lem first last groups le small pages =
      (built_lem first last (some groups) le small (λ arr e. ap held_pages (sym e) ∙ pages)).0

  -- `blk_descr_array_init` of the blocks first to last, where first is no more than last and last + 1 fits
  -- in 64 bits: a map is new, and the pages in use grow by those that it holds, by none where there is
  -- no map.
  pub init_lem :
      (junk : List (Option (Group V))) (first last : ℕ) (c : Counters) (mem : Memory)
      → first ≤ last
      → last + 1 < word
      → let r = init null junk first last c mem in
        IsNewOrNone first last r.0
        × (r.1.page_alloc_count + c.page_free_count
            ≡ c.page_alloc_count + r.1.page_free_count + pages_held r.0)
  unfolding init
  init_lem junk first last c mem le small =
      let n : ℕ = page_count_calc (group_count_of first last * 8) in
      let made =
        built_lem first last (page_array_alloc junk n c mem).0 le small (pages_got junk n c mem) in
      (made.0, ground (arith, made.1, page_array_alloc-balance junk n c mem))
