-- ===== src/BlkDescrArray/Tests.antt =====
-- Runs of blk_descr_array.c.
use veeamsnap.Prelude.{
  ℕ, ◌+◌, ◌≡◌, refl, ◌&&◌, ◌||◌, true, Option, none, some, [], ◌∷◌, leb, ◌==◌, if◌then◌else◌,
  replicate, success, einval, enomem, is_success, alloc, arith,
}
use veeamsnap.PageArray.{PageArray, Counters, fill, pointers_in_page, page_count_calc}
use veeamsnap.BlkDescrArray.{Group, Header, group_of, slot_at, get, set_value, init, group_count_of}
use veeamsnap.BlkDescrArray.Laws.{IsValid, holds_group, get-set_value}
use veeamsnap.BlkDescrArray.Life.{fresh_lem, IsNewOrNone, pages_held, init_lem}

abbrev pointers : PageArray (Option (Group ℕ))
pointers = record { pg = replicate pointers_in_page none ∷ [] }

-- The blocks 100 to 700, in 3 groups.
abbrev header : Header ℕ
header = record {
  first = 100;
  last = 700;
  groups = record { pg = fill pointers_in_page pointers.pg none };
  group_count = 3;
}

abbrev counters : Counters
counters = record {
  page_alloc_count = 3;
  page_free_count = 1;
  page_array_alloc_count = 1;
  page_array_free_count = 1;
}

header-IsValid : IsValid header
unfolding group_count_of page_count_calc
header-IsValid = (fresh_lem 0 100 700 pointers (omega arith) (omega arith) refl).0

get-set_value_example :
    let r = set_value 0 header 400 9 [] in
    IsValid r.1
    × (r.0 ≡ (
        if leb 100 400 && leb 400 700
        then (if holds_group (slot_at 0 header (group_of 0 header 400)) || (alloc []).0
            then success
            else enomem)
        else einval))
    × (get 0 r.1 400
        ≡ (if is_success r.0 && 400 == 400 then (success, some 9) else get 0 header 400))
get-set_value_example = get-set_value 0 header 400 400 9 [] header-IsValid

init_lem_example :
    let r = init {V = ℕ} 0 [] 100 700 counters (true ∷ true ∷ []) in
    IsNewOrNone 0 100 700 r.0
    × (r.1.page_alloc_count + 1 ≡ 3 + r.1.page_free_count + pages_held 0 r.0)
init_lem_example = init_lem 0 [] 100 700 counters (true ∷ true ∷ []) (omega arith) (omega arith)
