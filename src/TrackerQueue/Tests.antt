-- ===== src/TrackerQueue/Tests.antt =====
-- Runs of tracker_queue.c.
use veeamsnap.Prelude.{ℕ, ◌+◌, ◌≡◌, refl, [], arith}
use veeamsnap.TrackerQueue.{tracking, Registry, find, find_and_get, get_ref, insert_disk, put}
use veeamsnap.TrackerQueue.System.{
  System, search, insert, release, search_step, insert_step, put_step, start, Reach, here, next,
}
use veeamsnap.TrackerQueue.Reachable.{TableOf, Reach-TableOf}
use veeamsnap.TrackerQueue.Race.{raced_lem}

abbrev native : ℕ → ℕ
native d = d + 1

-- A search of the disk 5, its insertion, a second search, and one reference put.
abbrev searched : System
searched = search_step 5 (start native)

abbrev inserted : System
inserted = insert_step 5 100 searched

abbrev shared : System
shared = search_step 5 inserted

abbrev one_left : System
one_left = put_step 100 shared

abbrev none_left : System
none_left = put_step 100 one_left

one_left_reached : Reach native one_left
unfolding search_step insert_step find_and_get find get_ref insert_disk
one_left_reached =
    next
      (next
        (next (next here (search (start native) 5)) (insert searched 5 100 (omega arith) refl tt))
        (search inserted 5))
      (release shared 100 (omega arith))

Reach-TableOf_example : TableOf native one_left 5 (find 5 one_left.registry.container)
Reach-TableOf_example = Reach-TableOf one_left_reached 5

none_left_reached : Reach native none_left
unfolding search_step insert_step find_and_get find get_ref insert_disk put_step
none_left_reached = next one_left_reached (release one_left 100 (omega arith))

none_held : none_left.held ≡ []
unfolding search_step insert_step find_and_get find get_ref insert_disk put_step
none_held = refl

abbrev untracked : Registry
untracked = (start native).registry

raced_lem_example :
    let r' = put 101 (put 100 (insert_disk 5 101 (insert_disk 5 100 untracked))) in
    (r'.container ≡ []) × (r'.fops 5 ≡ tracking 100)
raced_lem_example = raced_lem untracked 5 100 101 (λ e. omega arith) tt tt
