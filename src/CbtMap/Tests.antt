-- ===== src/CbtMap/Tests.antt =====
-- Runs of cbt_map.c.
use veeamsnap.Prelude.{
  ℕ, ◌+◌, ◌-◌, ◌*◌, ◌^◌, ◌<◌, ◌≤◌, ◌≡◌, ◌⊎◌, inl, refl, true, false, some, List, [], ◌∷◌, replicate,
  length-replicate, arith,
}
use veeamsnap.PageArray.{PageArray, Counters, page_size, pg_cnt}
use veeamsnap.PageArray.Items.{byte}
use veeamsnap.CbtMap.{
  CbtMap, check_size, maximum_count, map_size_of, pages_of, allocate, set_blocks, set_range,
  set_changed,
}
use veeamsnap.CbtMap.Table.{Holds}
use veeamsnap.CbtMap.Size.{check_size_lem, pages_of_lem, allocate_lem, IsFreshOrNone, pages_held}
use veeamsnap.CbtMap.History.{
  IsValid, Past, Tells, Event, switched, changed, both, OccurAll, apply_all, remember_all, history,
}

abbrev counters : Counters
counters = record {
  page_alloc_count = 0;
  page_free_count = 0;
  page_array_alloc_count = 0;
  page_array_free_count = 0;
}

abbrev map : PageArray ℕ
map = record { pg = replicate page_size 0 ∷ [] }

-- 10 blocks of 2 ^ 7 sectors, the last one not whole.
abbrev table : CbtMap
table = record {
  sect_in_block_degree = 7;
  device_capacity = 1200;
  map_size = 10;
  read_map = map;
  write_map = map;
  snap_number_active = 1;
  snap_number_previous = 0;
  generation_active = 77;
  generation_previous = 77;
  active = true;
  state_changed_sectors = 0;
  state_dirty_sectors = 0;
}

map-Holds : Holds 10 map
map-Holds = record { paged = (length-replicate {A = ℕ} page_size 0, tt); covers = omega arith }

table-IsValid : IsValid table
table-IsValid = record {
  write_holds = map-Holds;
  read_holds = map-Holds;
  same_pages = refl;
  no_wrap = omega arith;
  covered = omega arith;
  active_from_1 = omega arith;
  active_to_255 = omega arith;
  previous_to_255 = omega arith;
  generation_kept = inl refl;
}

check_size_lem_example :
    (s : ℕ) × (check_size 40 7 (2 ^ 40) ≡ some s)
    × (7 ≤ s)
    × (s ≤ 35)
    × (2 ^ 40 ≤ 2 ^ s * maximum_count)
    × ((s ≡ 7) ⊎ (2 ^ (s - 1) * maximum_count < 2 ^ 40))
check_size_lem_example = check_size_lem 40 7 (2 ^ 40) (omega arith) (omega arith) (omega arith)

pages_of_lem_example :
    (4097 ≤ page_size * pages_of 4097) × (page_size * pages_of 4097 < 4097 + page_size)
pages_of_lem_example = pages_of_lem 4097

-- The second table is refused.
allocate_lem_example :
    let r = allocate [] 5 7 1200 counters (true ∷ true ∷ false ∷ []) in
    IsFreshOrNone 5 7 1200 r.0.0
    × (r.0.1.page_alloc_count + counters.page_free_count
        ≡ counters.page_alloc_count + r.0.1.page_free_count + pages_held r.0.0)
allocate_lem_example = allocate_lem [] 5 7 1200 counters (true ∷ true ∷ false ∷ [])

abbrev events : List Event
events = changed 1100 100 ∷ switched 5 ∷ both 0 10 ∷ switched 6 ∷ []

abbrev past : Past
past = record {
  interval = 1;
  generation = 77;
  written = 0;
  snap_interval = 0;
  snap_generation = 77;
  snap_written = 0;
}

-- Block 9 was written in the first interval.
remembered : (remember_all 7 9 events past).snap_written ≡ 1
unfolding remember_all veeamsnap.CbtMap.History.remember
remembered = refl

zero_at_9 : byte map 9 ≡ 0
unfolding byte veeamsnap.PageArray.Items.item
zero_at_9 = refl

tells : Tells 9 table past
tells = record {
  interval_is = refl;
  generation_is = refl;
  written_is = zero_at_9;
  snap_interval_is = refl;
  snap_generation_is = refl;
  snap_written_is = zero_at_9;
  written_by_now = omega arith;
  snap_written_by_then = omega arith;
}

history_example :
    IsValid (apply_all events table)
    × Tells 9 (apply_all events table) (remember_all 7 9 events past)
history_example =
    history 9 events table past
      ((omega arith, omega arith), (tt, ((omega arith, omega arith), (tt, tt)))) table-IsValid tells
