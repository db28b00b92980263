-- ===== src/CbtMap/History.antt =====
-- The table of cbt_map.c over the life of a device: what a byte says of the past.
use veeamsnap.Prelude.{
  ℕ, ◌+◌, ◌*◌, ◌%◌, ◌^◌, ◌<◌, ◌≤◌, ◌≡◌, ◌⊎◌, inl, inr, refl, sym, ap, ◌∙◌, List, [], ◌∷◌, ◌==◌,
  Bool-cases, if◌then◌else◌, arith,
}
use mathlib.Core.Path.{subst}
use veeamsnap.Prelude.Word.{word}
use veeamsnap.PageArray.{PageArray, pg_cnt, page_array_memset}
use veeamsnap.PageArray.Items.{byte}
use veeamsnap.PageArray.Alloc.{byte_get-memset, byte-memset, page_array_memcpy-all}
use veeamsnap.CbtMap.{CbtMap, switch, set_changed, set_both}
use veeamsnap.CbtMap.Table.{Holds, touches, set_range-mark}

-- A table that covers its device, in the interval that it counts.
pub record IsValid (m : CbtMap) : Type 0 where
  pub write_holds : Holds m.map_size m.write_map
  pub read_holds : Holds m.map_size m.read_map
  pub same_pages : pg_cnt m.read_map ≡ pg_cnt m.write_map
  pub no_wrap : m.device_capacity < word
  pub covered : m.device_capacity ≤ m.map_size * 2 ^ m.sect_in_block_degree
  pub active_from_1 : 1 ≤ m.snap_number_active
  pub active_to_255 : m.snap_number_active ≤ 255
  pub previous_to_255 : m.snap_number_previous ≤ 255
  pub generation_kept : (m.snap_number_active ≡ 1) ⊎ (m.generation_previous ≡ m.generation_active)

-- What is known of one block: the interval now and the interval of the snapshot, each with its
-- generation and the number of the last interval of that generation in which the block was written, 0
-- for none.
pub record Past : Type 0 where
  pub interval : ℕ
  pub generation : ℕ
  pub written : ℕ
  pub snap_interval : ℕ
  pub snap_generation : ℕ
  pub snap_written : ℕ

pub data Event : Type 0 where
  switched : ℕ → Event
  changed : ℕ → ℕ → Event
  both : ℕ → ℕ → Event

-- The operation of an event.
pub apply : Event → CbtMap → CbtMap
apply (switched uuid) m = switch uuid m
apply (changed sector_start sector_cnt) m = (set_changed m sector_start sector_cnt).1
apply (both sector_start sector_cnt) m = (set_both m sector_start sector_cnt).1

-- What an event means for the block j.
unfoldable pub remember : ℕ → ℕ → Event → Past → Past
remember degree j (switched uuid) p = record {
  interval = if p.interval == 255 then 1 else p.interval + 1;
  generation = if p.interval == 255 then uuid else p.generation;
  written = if p.interval == 255 then 0 else p.written;
  snap_interval = p.interval;
  snap_generation = p.generation;
  snap_written = p.written;
}
remember degree j (changed sector_start sector_cnt) p = record p {
  written = if touches degree sector_start sector_cnt j then p.interval else p.written;
}
remember degree j (both sector_start sector_cnt) p = record p {
  written = if touches degree sector_start sector_cnt j then p.interval else p.written;
  snap_written =
      if touches degree sector_start sector_cnt j then p.snap_interval else p.snap_written;
}

-- The table tells the past of the block j.
pub record Tells (j : ℕ) (m : CbtMap) (p : Past) : Type 0 where
  pub interval_is : m.snap_number_active ≡ p.interval
  pub generation_is : m.generation_active ≡ p.generation
  pub written_is : byte m.write_map j ≡ p.written
  pub snap_interval_is : m.snap_number_previous ≡ p.snap_interval
  pub snap_generation_is : m.generation_previous ≡ p.snap_generation
  pub snap_written_is : byte m.read_map j ≡ p.snap_written
  pub written_by_now : p.written ≤ p.interval
  pub snap_written_by_then : p.snap_written ≤ p.snap_interval

-- An event of the device: its sectors are in it.
abbrev pub Occurs : ℕ → Event → Type 0
Occurs capacity (switched uuid) = Unit
Occurs capacity (changed sector_start sector_cnt) =
    (0 < sector_cnt) × (sector_start + sector_cnt ≤ capacity)
Occurs capacity (both sector_start sector_cnt) =
    (0 < sector_cnt) × (sector_start + sector_cnt ≤ capacity)

-- Nothing but the table and its numbers changes.
abbrev pub SameDevice : CbtMap → CbtMap → Type 0
SameDevice m m' =
    (m'.sect_in_block_degree ≡ m.sect_in_block_degree) × (m'.device_capacity ≡ m.device_capacity)

-- The fields after a switch.
switch-fields :
    (uuid : ℕ) (m : CbtMap)
    → pg_cnt m.read_map ≡ pg_cnt m.write_map
    → let m' = switch uuid m in
      let wraps = m.snap_number_active + 1 == 256 in
      (m'.read_map ≡ m.write_map)
      × (m'.write_map ≡ (if wraps then page_array_memset m.write_map 0 else m.write_map))
      × (m'.snap_number_active ≡ (if wraps then 1 else m.snap_number_active + 1))
      × (m'.snap_number_previous ≡ m.snap_number_active)
      × (m'.generation_active ≡ (if wraps then uuid else m.generation_active))
      × (m'.generation_previous
          ≡ (if m.snap_number_active == 1 then m.generation_active else m.generation_previous))
      × (m'.map_size ≡ m.map_size)
      × SameDevice m m'
unfolding switch
switch-fields uuid m e = elim (Bool-cases (m.snap_number_active + 1 == 256)) [
  | inl y ↦ rw y (
    page_array_memcpy-all m.read_map m.write_map e,
    refl,
    refl,
    refl,
    refl,
    refl,
    refl,
    (refl, refl),
  )
  | inr n ↦ rw n (
    page_array_memcpy-all m.read_map m.write_map e,
    refl,
    refl,
    refl,
    refl,
    refl,
    refl,
    (refl, refl),
  )
]

switch-write_map :
    (uuid : ℕ) (m : CbtMap)
    → IsValid m
    → let m' = switch uuid m in
      Holds m'.map_size m'.write_map × (pg_cnt m'.write_map ≡ pg_cnt m.write_map)
switch-write_map uuid m v =
    let f = switch-fields uuid m v.same_pages in
    let whole = byte_get-memset m.write_map 0 0 in
    elim (Bool-cases (m.snap_number_active + 1 == 256)) [
      | inl y ↦
          let e : (switch uuid m).write_map ≡ page_array_memset m.write_map 0 = f.1 ∙ rw y refl in
          (
            rw (e, f.6)
                (record { paged = whole.0; covers = ground (arith, whole.1, v.write_holds) }),
            ap (λ (a : PageArray ℕ). pg_cnt a) e ∙ whole.1,
          )
      | inr n ↦
          let e : (switch uuid m).write_map ≡ m.write_map = f.1 ∙ rw n refl in
          (rw (e, f.6) v.write_holds, ap (λ (a : PageArray ℕ). pg_cnt a) e)
    ]

-- A switch keeps the table well formed.
switch-IsValid : (uuid : ℕ) (m : CbtMap) → IsValid m → IsValid (switch uuid m)
switch-IsValid uuid m v =
    let f = switch-fields uuid m v.same_pages in
    let write = switch-write_map uuid m v in
    record {
      write_holds = write.0;
      read_holds = rw (f.0, f.6) v.write_holds;
      same_pages = ap (λ (a : PageArray ℕ). pg_cnt a) f.0 ∙ sym write.1;
      no_wrap = rw f.7.1 v.no_wrap;
      covered = rw (f.7.0, f.7.1, f.6) v.covered;
      active_from_1 = ground (arith, f.2, v.active_from_1);
      active_to_255 = ground (arith, f.2, v.active_to_255);
      previous_to_255 = ground (arith, f.3, v.active_to_255);
      generation_kept = ground (arith, f.2, f.4, f.5, v);
    }

apply-step :
    (j : ℕ) (e : Event) (m : CbtMap) (p : Past)
    → Occurs m.device_capacity e
    → IsValid m
    → Tells j m p
    → IsValid (apply e m)
      × Tells j (apply e m) (remember m.sect_in_block_degree j e p)
      × SameDevice m (apply e m)
unfolding apply remember set_changed set_both
apply-step j (switched uuid) m p o v t =
    let f = switch-fields uuid m v.same_pages in
    let zeros = byte-memset m.write_map 0 j in
    (
      switch-IsValid uuid m v,
      record {
        interval_is = ground (arith, f.2, t);
        generation_is = ground (arith, f.4, t);
        written_is = ap (λ (a : PageArray ℕ). byte a j) f.1 ∙ ground (arith, zeros, t);
        snap_interval_is = f.3 ∙ t.interval_is;
        snap_generation_is = ground (arith, f.5, t, v.generation_kept);
        snap_written_is = ap (λ (a : PageArray ℕ). byte a j) f.0 ∙ t.written_is;
        written_by_now = ground (arith, t);
        snap_written_by_then = t.written_by_now;
      },
      f.7,
    )
apply-step j (changed sector_start sector_cnt) m p o v t =
    let w =
      set_range-mark m sector_start sector_cnt (m.snap_number_active % 256) j m.write_map
        v.write_holds v.no_wrap v.covered o.0 o.1 in
    (
      record {
        write_holds = w.1;
        read_holds = v.read_holds;
        same_pages = v.same_pages ∙ sym w.3;
        no_wrap = v.no_wrap;
        covered = v.covered;
        active_from_1 = v.active_from_1;
        active_to_255 = v.active_to_255;
        previous_to_255 = v.previous_to_255;
        generation_kept = v.generation_kept;
      },
      record {
        interval_is = t.interval_is;
        generation_is = t.generation_is;
        written_is = w.2 ∙ ground (arith, t, v.active_to_255);
        snap_interval_is = t.snap_interval_is;
        snap_generation_is = t.snap_generation_is;
        snap_written_is = t.snap_written_is;
        written_by_now = ground (arith, t);
        snap_written_by_then = t.snap_written_by_then;
      },
      (refl, refl),
    )
apply-step j (both sector_start sector_cnt) m p o v t =
    let w =
      set_range-mark m sector_start sector_cnt (m.snap_number_active % 256) j m.write_map
        v.write_holds v.no_wrap v.covered o.0 o.1 in
    let r =
      set_range-mark m sector_start sector_cnt (m.snap_number_previous % 256) j m.read_map
        v.read_holds v.no_wrap v.covered o.0 o.1 in
    rw w.0 (
      record {
        write_holds = w.1;
        read_holds = r.1;
        same_pages = r.3 ∙ v.same_pages ∙ sym w.3;
        no_wrap = v.no_wrap;
        covered = v.covered;
        active_from_1 = v.active_from_1;
        active_to_255 = v.active_to_255;
        previous_to_255 = v.previous_to_255;
        generation_kept = v.generation_kept;
      },
      record {
        interval_is = t.interval_is;
        generation_is = t.generation_is;
        written_is = w.2 ∙ ground (arith, t, v.active_to_255);
        snap_interval_is = t.snap_interval_is;
        snap_generation_is = t.snap_generation_is;
        snap_written_is = r.2 ∙ ground (arith, t, v.previous_to_255);
        written_by_now = ground (arith, t);
        snap_written_by_then = ground (arith, t);
      },
      (refl, refl),
    )

-- The events of a device, each in it.
abbrev pub OccurAll : ℕ → List Event → Type 0
OccurAll capacity [] = Unit
OccurAll capacity (e ∷ events) = Occurs capacity e × OccurAll capacity events

pub apply_all : List Event → CbtMap → CbtMap
apply_all [] m = m
apply_all (e ∷ events) m = apply_all events (apply e m)

unfoldable pub remember_all : ℕ → ℕ → List Event → Past → Past
remember_all degree j [] p = p
remember_all degree j (e ∷ events) p = remember_all degree j events (remember degree j e p)

-- From a well-formed table that tells the past of a block, any run of switches and of writes in the
-- device, changed or both, leaves a well-formed table that tells the block's past after the run: the
-- bytes are the intervals of the last writes, and the generations those of the intervals.
pub history :
    (j : ℕ) (events : List Event) (m : CbtMap) (p : Past)
    → OccurAll m.device_capacity events
    → IsValid m
    → Tells j m p
    → IsValid (apply_all events m)
      × Tells j (apply_all events m) (remember_all m.sect_in_block_degree j events p)
unfolding apply_all remember_all
history j [] m p o v t = (v, t)
history j (e ∷ events) m p o v t =
    let step = apply-step j e m p o.0 v t in
    let rest =
      history j events (apply e m) (remember m.sect_in_block_degree j e p) (rw step.2.1 o.1) step.0
        step.1 in
    (
      rest.0,
      subst
          (λ (d : ℕ).
            Tells j (apply_all events (apply e m))
              (remember_all d j events (remember m.sect_in_block_degree j e p)))
          step.2.0 rest.1,
    )
