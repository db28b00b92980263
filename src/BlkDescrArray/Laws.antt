-- ===== src/BlkDescrArray/Laws.antt =====
-- What the map of blk_descr_array.c keeps: a descriptor set at a block is found there, and only there.
use veeamsnap.Prelude.{
  ℕ, ◌-◌, ◌*◌, ◌/◌, ◌%◌, ◌<◌, ◌≤◌, ◌≡◌, inl, inr, refl, sym, ap, ◌∙◌, Bool, true, false, ◌&&◌, ◌||◌,
  Option, none, some, ltb, leb, ◌==◌, ==_iff, if◌then◌else◌, Bool-cases, length, get_or-set,
  length-set, length-replicate, get_or-replicate, Status, success, einval, enomem, is_success,
  Memory, alloc, arith, count, count-set, count-replicate,
}
use mathlib.Core.Path.{subst}
use veeamsnap.PageArray.{pg_cnt, ptr_get, ptr_set, pointers_in_page}
use veeamsnap.PageArray.Items.{Paged, same_place, ptr_get-item, ptr_get-ptr_set}
use veeamsnap.BlkDescrArray.{
  Group, Header, group_length, new_group, write_group, read_slot, group_of, slot_at, get, put_group,
  write_slot, set_value,
}

-- A group has its 256 places, and counts its bits.
pub record GroupIsValid {V : Type 0} (g : Group V) : Type 0 where
  pub bits : length g.bitmap ≡ group_length
  pub places : length g.values ≡ group_length
  pub counts : g.cnt ≡ count (λ (b : Bool). b) g.bitmap

abbrev pub SlotIsValid : {V : Type 0} → Option (Option (Group V)) → Type 0
SlotIsValid none = Unit
SlotIsValid (some none) = Unit
SlotIsValid (some (some g)) = GroupIsValid g

abbrev pub holds_group : {V : Type 0} → Option (Option (Group V)) → Bool
holds_group (some (some g)) = true
holds_group _ = false

-- The pages have a pointer for each group, the groups a place for each block.
pub record IsValid {V : Type 0} (h : Header V) : Type 0 where
  pub paged : Paged pointers_in_page h.groups
  pub ordered : h.first ≤ h.last
  pub groups_enough : h.last - h.first < group_length * h.group_count
  pub pages_enough : h.group_count ≤ pointers_in_page * pg_cnt h.groups
  pub slots_valid : (k : ℕ) → SlotIsValid (ptr_get none h.groups k).1

module _ {V : Type 0} (null : V) where
  new_group-IsValid : GroupIsValid (new_group null)
  unfolding new_group
  new_group-IsValid = record {
    bits = length-replicate {A = Bool} group_length false;
    places = length-replicate group_length null;
    counts = sym (count-replicate (λ (b : Bool). b) group_length false);
  }

  write_group-IsValid :
      (g : Group V) (i : ℕ) (v : V)
      → i < group_length
      → GroupIsValid g
      → GroupIsValid (write_group null g i v)
  unfolding write_group
  write_group-IsValid g i v h ok = record {
    bits = length-set g.bitmap i true ∙ ok.bits;
    places = length-set g.values i v ∙ ok.places;
    counts = ground (arith, ok, count-set (λ (b : Bool). b) g.bitmap i true false);
  }

  -- Reading the slot of a group just written.
  read_slot-write_group :
      (g : Group V) (i j : ℕ) (v : V)
      → i < group_length
      → GroupIsValid g
      → read_slot null (some (some (write_group null g i v))) j
        ≡ (if i == j then (success, some v) else read_slot null (some (some g)) j)
  unfolding read_slot write_group
  read_slot-write_group g i j v h ok =
      ground (arith, ok, get_or-set g.bitmap i j true false, get_or-set g.values i j v null)

  read_slot-new_group :
      (j : ℕ) → read_slot null (some (some (new_group null))) j ≡ read_slot null (some none) j
  unfolding read_slot new_group
  read_slot-new_group j = ground (arith, get_or-replicate {A = Bool} group_length false j)

  module _ (h : Header V) (v : IsValid h) (k : ℕ)
      (inside : k < pointers_in_page * pg_cnt h.groups) where
    -- Writing the group of a slot.
    put_group-slot_at :
        (g : Group V) (k' : ℕ)
        → slot_at null (put_group null h k g) k'
          ≡ (if k == k' then some (some g) else slot_at null h k')
    put_group-slot_at g k' = ground (arith, ptr_get-ptr_set none h.groups k k' (some g) v.paged)

    put_group-IsValid : (g : Group V) → GroupIsValid g → IsValid (put_group null h k g)
    put_group-IsValid g ok = record {
      paged = (ptr_get-ptr_set none h.groups k 0 (some g) v.paged).0;
      ordered = v.ordered;
      groups_enough = v.groups_enough;
      pages_enough =
          ground (arith, v.pages_enough, (ptr_get-ptr_set none h.groups k 0 (some g) v.paged).2);
      slots_valid = λ k'. elim (Bool-cases (k == k')) [
        | inl y ↦ rw (put_group-slot_at g k', y) ok
        | inr n ↦ rw (put_group-slot_at g k', n) (v.slots_valid k')
      ];
    }

    -- The reads after a group was written at one place, where the slot read as `base` before.
    read_slot-put_group :
        (base : Group V) (i : ℕ) (value : V)
        → ((j : ℕ) → read_slot null (slot_at null h k) j ≡ read_slot null (some (some base)) j)
        → GroupIsValid base
        → i < group_length
        → (k' j : ℕ)
        → read_slot null (slot_at null (put_group null h k (write_group null base i value)) k') j
          ≡ (if k == k' && i == j
              then (success, some value)
              else read_slot null (slot_at null h k') j)
    read_slot-put_group base i value before ok lt k' j =
        ap (λ s. read_slot null s j) (put_group-slot_at (write_group null base i value) k')
        ∙ elim (Bool-cases (k == k')) [
          | inl y ↦ rw y (
              read_slot-write_group base i j value lt ok
              ∙ ap (λ (t : Status × Option V). if i == j then (success, some value) else t)
                  (sym (before j)
                    ∙ ap (λ (x : ℕ). read_slot null (slot_at null h x) j) ((==_iff k k').0 y)))
          | inr n ↦ rw n refl
        ]

    -- What `blk_descr_array_set` does from the pointer on: the block of the place is found, the
    -- others as before.
    write_slot_lem :
        (slot : Option (Option (Group V))) (i : ℕ) (value : V) (mem : Memory)
        → slot_at null h k ≡ slot
        → i < group_length
        → let r = write_slot null h k slot i value mem in
          IsValid r.1
          × (r.0 ≡ (if holds_group slot || (alloc mem).0 then success else enomem))
          × (r.1.first ≡ h.first)
          × (r.1.last ≡ h.last)
          × ((k' j : ℕ)
              → read_slot null (slot_at null r.1 k') j ≡ (
                  if is_success r.0 && k == k' && i == j
                  then (success, some value)
                  else read_slot null (slot_at null h k') j))
    unfolding write_slot
    write_slot_lem none i value mem e lt =
        absurd (ground (arith, e, ptr_get-item none h.groups k inside))
    write_slot_lem (some (some g)) i value mem e lt =
        let ok : GroupIsValid g = subst SlotIsValid e (v.slots_valid k) in
        (
          put_group-IsValid (write_group null g i value) (write_group-IsValid g i value lt ok),
          refl,
          refl,
          refl,
          read_slot-put_group g i value (λ j. ap (λ s. read_slot null s j) e) ok lt,
        )
    write_slot_lem (some none) i value mem e lt = elim (Bool-cases (alloc mem).0) [
      | inl granted ↦ rw granted (
          rw set_ok (
            put_group-IsValid (write_group null (new_group null) i value)
                (write_group-IsValid (new_group null) i value lt new_group-IsValid),
            refl,
            refl,
            refl,
            read_slot-put_group (new_group null) i value
                (λ j. ap (λ s. read_slot null s j) e ∙ sym (read_slot-new_group j))
                new_group-IsValid lt,
          ))
      | inr refused ↦ rw refused (v, refl, refl, refl, λ k' j. refl)
    ]
      where
        set_ok : (ptr_set h.groups k (some (new_group null))).0 ≡ success
        set_ok =
            ground
              (arith, inside, ptr_get-ptr_set none h.groups k k (some (new_group null)) v.paged)

  -- `get` over the bounds.
  abbrev get_from : ℕ → ℕ → Header V → ℕ → Status × Option V
  get_from first last h j =
      if ltb j first || ltb last j
      then (einval, none)
      else read_slot null (slot_at null h ((j - first) / group_length)) ((j - first) % group_length)

  get-placed :
      (h r : Header V) (ok : Bool) (i j : ℕ) (value : V)
      → leb h.first i && leb i h.last ≡ true
      → r.first ≡ h.first
      → r.last ≡ h.last
      → ((k' j : ℕ)
          → read_slot null (slot_at null r k') j ≡ (
              if ok && group_of null h i == k' && (i - h.first) % group_length == j
              then (success, some value)
              else read_slot null (slot_at null h k') j))
      → get null r j ≡ (if ok && i == j then (success, some value) else get null h j)
  unfolding get
  get-placed h r ok i j value inside e1 e2 reads =
      ap (λ (x : ℕ). get_from x r.last r j) e1
      ∙ ap (λ (x : ℕ). get_from h.first x r j) e2
      ∙ elim (Bool-cases (ltb j h.first || ltb h.last j)) [
        | inl out ↦ rw out (ground (arith, inside, out))
        | inr within ↦ rw within (
            reads (group_of null h j) ((j - h.first) % group_length)
            ∙ ap
                (λ (b : Bool).
                  if b
                  then (success, some value)
                  else read_slot null (slot_at null h (group_of null h j))
                      ((j - h.first) % group_length))
                (ground
                  (arith, inside, within, same_place group_length (i - h.first) (j - h.first))))
      ]

  -- In a well-formed map, `blk_descr_array_set` and then `blk_descr_array_get`, for any two blocks: a descriptor set is
  -- found at its block, every other block is as before, and so are all where the set fails. It fails
  -- outside of the range, and where a new group is refused.
  pub get-set_value :
      (h : Header V) (i j : ℕ) (value : V) (mem : Memory)
      → IsValid h
      → let r = set_value null h i value mem in
        IsValid r.1
        × (r.0 ≡ (
            if leb h.first i && leb i h.last
            then (if holds_group (slot_at null h (group_of null h i)) || (alloc mem).0
                then success
                else enomem)
            else einval))
        × (get null r.1 j
            ≡ (if is_success r.0 && i == j then (success, some value) else get null h j))
  unfolding set_value
  get-set_value h i j value mem v = elim (Bool-cases (leb h.first i && leb i h.last)) [
    | inl y ↦
        let k : ℕ = group_of null h i in
        let inside : k < pointers_in_page * pg_cnt h.groups =
          ground (arith, y, v.groups_enough, v.pages_enough) in
        let w =
          write_slot_lem h v k inside (slot_at null h k) ((i - h.first) % group_length) value mem
            refl (omega arith) in
        let r = write_slot null h k (slot_at null h k) ((i - h.first) % group_length) value mem in
        rw y (w.0, w.1, get-placed h r.1 (is_success r.0) i j value y w.2 w.3 w.4)
    | inr n ↦ rw n (v, refl, refl)
  ]
