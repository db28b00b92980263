-- ===== src/SnapdataCollect/Marks.antt =====
-- Which bits the collector sets for the sectors of a segment.
use veeamsnap.Prelude.{
  ℕ, zero, suc, ◌+◌, ◌-◌, ◌*◌, ◌/◌, ◌≤◌, ◌≡◌, ◌≢◌, ◌⊎◌, refl, sym, ap, ◌∙◌, Bool, true, false,
  Option, some, List, ◌==◌, ==_iff, ◌||◌, ◌&&◌, ltb, leb, if◌then◌else◌, Bool-cases, inl, inr,
  Status, success, ealready, enomem, is_success, Memory, arith,
}
use veeamsnap.SparseBitmap.Bitmap.{set_bit, get_bit}
use veeamsnap.SparseBitmap.Bitmap.Laws.{
  IsValid, InWindow, set_bit-result, set_bit-get_bit, set_bit-window,
}
use veeamsnap.SnapdataCollect.{
  Collector, BioVec, is_magic, map_loop, mark_sector, mark_loop, collect_bvec,
}

whole : (p : ℕ) → (512 * p) / 512 ≡ p
whole p = omega arith

-- The bits of the sectors p, p + 1, ... p + n - 1 of the page.
map_loop_lem :
    (hit : ℕ → Bool) (n p : ℕ) (m : ℕ → Bool) (s : ℕ)
    → map_loop hit n (512 * p) m s
      ≡ (if leb p s && ltb s (p + n) then hit (512 * s) || m s else m s)
unfolding map_loop
map_loop_lem hit zero p m s = ground arith
map_loop_lem hit (suc n) p m s =
    let m' : ℕ → Bool = λ t. if t == 512 * p / 512 then hit (512 * p) || m t else m t in
    let at : m' s ≡ (if s == p then hit (512 * p) || m s else m s) =
      ap (λ (q : ℕ). if s == q then hit (512 * p) || m s else m s) (whole p) in
    let next : 512 * p + 512 ≡ 512 * (p + 1) = omega arith in
    ap (λ (b : ℕ). map_loop hit n b m' s) next
    ∙ map_loop_lem hit n (p + 1) m' s
    ∙ ap (λ (q : Bool). if leb (p + 1) s && ltb s (p + 1 + n) then hit (512 * s) || q else q) at
    ∙ elim (Bool-cases (s == p)) [
      | inl y ↦
          let same : 512 * s ≡ 512 * p = ground arith in
          let out : (leb (p + 1) s && ltb s (p + 1 + n)) ≡ false = ground arith in
          let in_range : (leb p s && ltb s (p + suc n)) ≡ true = ground arith in
          rw (y, out, in_range) (ap (λ (o : ℕ). hit o || m s) (sym same))
      | inr z ↦
          let shift : (leb (p + 1) s && ltb s (p + 1 + n)) ≡ (leb p s && ltb s (p + suc n)) =
            ground arith in
          rw (z, shift) refl
    ]

-- What a round leaves: a valid bitmap of the same window, in which the sector is marked if its bit is in
-- the map, and the others are as before; or the end of the loop, for want of memory.
abbrev Marked : Bool → ℕ → Collector → Bool × Status × Collector × Memory → Type 0
Marked is_hit index c r =
    IsValid r.2.changes_sparse
    × (r.2.changes_sparse.start_index ≡ c.changes_sparse.start_index)
    × (r.2.changes_sparse.length ≡ c.changes_sparse.length)
    × ((((r.0 ≡ true)
          × ((j : ℕ)
              → InWindow c.changes_sparse j
              → get_bit r.2.changes_sparse j ≡ (
                  if is_hit && index == j
                  then (success, some true)
                  else get_bit c.changes_sparse j))))
        ⊎ ((r.0 ≡ false) × (r.1 ≡ enomem)))

mark_sector_lem :
    (m : ℕ → Bool) (ofs s : ℕ) (res : Status) (c : Collector) (mem : Memory)
    → IsValid c.changes_sparse
    → InWindow c.changes_sparse (ofs + s)
    → Marked (m s) (ofs + s) c (mark_sector m ofs s res c mem)
unfolding mark_sector
mark_sector_lem m ofs s res c mem v h =
    let o = set_bit-result c.changes_sparse (ofs + s) mem v h in
    let w = set_bit-window c.changes_sparse (ofs + s) true mem in
    let bits = set_bit-get_bit c.changes_sparse (ofs + s) mem v h in
    let shown : (st : Status)
        → (set_bit c.changes_sparse (ofs + s) true mem).0 ≡ st
        → (j : ℕ)
        → (if is_success (set_bit c.changes_sparse (ofs + s) true mem).0 && ofs + s == j
            then (success, some true)
            else get_bit c.changes_sparse j)
          ≡ (if is_success st && ofs + s == j
              then (success, some true)
              else get_bit c.changes_sparse j) =
      λ st e j.
        ap
          (λ (q : Status).
            if is_success q && ofs + s == j
            then (success, some true)
            else get_bit c.changes_sparse j)
          e in
    let already : get_bit c.changes_sparse (ofs + s) ≡ (success, some true)
        → (j : ℕ)
        → get_bit c.changes_sparse j
          ≡ (if ofs + s == j then (success, some true) else get_bit c.changes_sparse j) =
      λ was j. elim (Bool-cases (ofs + s == j)) [
        | inl y ↦
            rw y (ap (λ (q : ℕ). get_bit c.changes_sparse q) (sym ((==_iff (ofs + s) j).0 y)) ∙ was)
        | inr n ↦ rw n refl
      ] in
    elim (Bool-cases (m s)) [
      | inr n ↦ rw n (v, refl, refl, inl (refl, λ j hj. refl))
      | inl y ↦ elim o.1 [
        | inl e ↦ rw (y, e) (o.0, w.0, w.1, inr (refl, refl))
        | inr (inl (e, was)) ↦
            rw (y, e) (o.0, w.0, w.1, inl (refl, λ j hj. bits j hj ∙ shown success e j))
        | inr (inr (e, was)) ↦
            rw (y, e)
              (o.0, w.0, w.1, inl (refl, λ j hj. bits j hj ∙ shown ealready e j ∙ already was j))
      ]
    ]

module _ (m : ℕ → Bool) (n ofs p : ℕ) (res : Status) (c : Collector) (mem : Memory) where
  abbrev round : Bool × Status × Collector × Memory
  round = mark_sector m ofs p res c mem

  loop_round : mark_loop m (suc n) ofs (512 * p) res c mem ≡ (
      let rest = mark_loop m n ofs (512 * (p + 1)) round.1 round.2 round.3 in
      if round.0 then rest else (round.1, round.2, round.3))
  unfolding mark_loop
  loop_round =
      let next : 512 * p + 512 ≡ 512 * (p + 1) = omega arith in
      ap
        (λ (q : ℕ).
          let r = mark_sector m ofs q res c mem in
          let rest = mark_loop m n ofs (512 * p + 512) r.1 r.2 r.3 in
          if r.0 then rest else (r.1, r.2, r.3))
        (whole p)
      ∙ ap
          (λ (b : ℕ).
            let rest = mark_loop m n ofs b round.1 round.2 round.3 in
            if round.0 then rest else (round.1, round.2, round.3))
          next

-- Whether the sector of an index is one of the n from p on, with its bit in the map.
abbrev among : (ℕ → Bool) → ℕ → ℕ → ℕ → ℕ → Bool
among m ofs p n j = leb (ofs + p) j && ltb j (ofs + p + n) && m (j - ofs)

-- The first sector, or one of those behind it.
among_first :
    (m : ℕ → Bool) (n ofs p j : ℕ) (g : Status × Option Bool)
    → (if among m ofs (p + 1) n j
        then (success, some true)
        else (if m p && ofs + p == j then (success, some true) else g))
      ≡ (if among m ofs p (suc n) j then (success, some true) else g)
among_first m n ofs p j g = elim (Bool-cases (ofs + p == j)) [
  | inl y ↦
      let at : j - ofs ≡ p = ground arith in
      let behind : (leb (ofs + (p + 1)) j && ltb j (ofs + (p + 1) + n)) ≡ false = ground arith in
      let in_range : (leb (ofs + p) j && ltb j (ofs + p + suc n)) ≡ true = ground arith in
      rw (behind, in_range, at, y)
        (elim (Bool-cases (m p)) [ inl h ↦ rw h refl | inr h ↦ rw h refl ])
  | inr z ↦
      let shift : (leb (ofs + (p + 1)) j && ltb j (ofs + (p + 1) + n))
          ≡ (leb (ofs + p) j && ltb j (ofs + p + suc n)) =
        ground arith in
      rw (z, shift) (elim (Bool-cases (m p)) [ inl h ↦ rw h refl | inr h ↦ rw h refl ])
]

mark_loop_lem :
    (m : ℕ → Bool) (n ofs p : ℕ) (res : Status) (c : Collector) (mem : Memory)
    → IsValid c.changes_sparse
    → c.changes_sparse.start_index ≤ ofs + p
    → ofs + p + n ≤ c.changes_sparse.start_index + c.changes_sparse.length
    → (mark_loop m n ofs (512 * p) res c mem).0 ≢ enomem
    → (j : ℕ) → InWindow c.changes_sparse j
    → get_bit (mark_loop m n ofs (512 * p) res c mem).1.changes_sparse j
      ≡ (if among m ofs p n j then (success, some true) else get_bit c.changes_sparse j)
unfolding mark_loop
mark_loop_lem m zero ofs p res c mem v lo hi ok j hj =
    let none_among : among m ofs p 0 j ≡ false = ground arith in rw none_among refl
mark_loop_lem m (suc n) ofs p res c mem v lo hi ok j hj =
    let r = mark_sector m ofs p res c mem in
    let (v', start, len, outcome) = mark_sector_lem m ofs p res c mem v (lo, omega (arith, hi)) in
    let ended : Bool → Status × Collector × Memory =
      λ q. if q then mark_loop m n ofs (512 * (p + 1)) r.1 r.2 r.3 else (r.1, r.2, r.3) in
    elim outcome [
      | inl (goes, bits) ↦
          let whole_loop : mark_loop m (suc n) ofs (512 * p) res c mem
              ≡ mark_loop m n ofs (512 * (p + 1)) r.1 r.2 r.3 =
            loop_round m n ofs p res c mem ∙ ap ended goes in
          let rest =
            mark_loop_lem m n ofs (p + 1) r.1 r.2 r.3 v' (omega (arith, lo, start))
              (omega (arith, hi, start, len))
              (λ e. ok (ap (λ (q : Status × Collector × Memory). q.0) whole_loop ∙ e)) j
              (omega (arith, hj, start), omega (arith, hj, start, len)) in
          ap (λ (q : Status × Collector × Memory). get_bit q.1.changes_sparse j) whole_loop
          ∙ rest
          ∙ ap
              (λ (g : Status × Option Bool).
                if among m ofs (p + 1) n j then (success, some true) else g)
              (bits j hj)
          ∙ among_first m n ofs p j (get_bit c.changes_sparse j)
      | inr (stops, e) ↦ absurd (
          ok (
            ap (λ (q : Status × Collector × Memory). q.0)
              (loop_round m n ofs p res c mem ∙ ap ended stops)
            ∙ e))
    ]

-- A segment of n sectors at the q-th sector of its page
abbrev pub segment : List ℕ → ℕ → ℕ → BioVec
segment page q n = record { bv_page = page; bv_len = 512 * n; bv_offset = 512 * q }

-- What the second loop makes of it.
abbrev pub marking : Collector → ℕ → List ℕ → ℕ → ℕ → Memory → Status × Collector × Memory
marking c ofs page q n mem =
    mark_loop (map_loop (is_magic c.magic_buff page) n (512 * q) (λ s. false)) n ofs (512 * q)
      success c mem

collect_bvec-marking :
    (c : Collector) (ofs : ℕ) (page : List ℕ) (q n : ℕ) (mem : Memory)
    → n ≤ 64
    → collect_bvec c ofs (segment page q n) mem
      ≡ (success, (marking c ofs page q n mem).1, (marking c ofs page q n mem).2)
unfolding collect_bvec
collect_bvec-marking c ofs page q n mem h =
    let rounds : (512 * n + 511) / 512 ≡ n = omega arith in
    let fits : ltb 64 (512 * n / 512) ≡ false = ground arith in rw (fits, rounds) refl

among_magic :
    (hit : ℕ → Bool) (n ofs q j : ℕ)
    → among (map_loop hit n (512 * q) (λ s. false)) ofs q n j
      ≡ (leb (ofs + q) j && ltb j (ofs + q + n) && hit (512 * (j - ofs)))
among_magic hit n ofs q j =
    ap (λ (b : Bool). leb (ofs + q) j && ltb j (ofs + q + n) && b)
      (map_loop_lem hit n q (λ s. false) (j - ofs))
    ∙ elim (Bool-cases (leb (ofs + q) j && ltb j (ofs + q + n))) [
      | inr z ↦ rw z refl
      | inl y ↦
          let here : (leb q (j - ofs) && ltb (j - ofs) (q + n)) ≡ true = ground arith in
          rw (y, here)
            (elim (Bool-cases (hit (512 * (j - ofs)))) [ inl h ↦ rw h refl | inr h ↦ rw h refl ])
    ]

-- `_snapdata_collect_bvec` of a segment of n sectors, 64 at most, that stands at the q-th sector of its page,
-- where its indices are in the window of a valid bitmap and no bit is refused for want of memory: it
-- succeeds, and an index reads as marked if it is one of the n from `ofs` + q on and the sector of the page
-- at its distance from `ofs` begins with the magic text, and as before otherwise. So the i-th sector of the
-- segment is marked at `ofs` + q + i, which is its own index only where q is 0.
pub collect_bvec_lem :
    (c : Collector) (ofs : ℕ) (page : List ℕ) (q n : ℕ) (mem : Memory)
    → IsValid c.changes_sparse
    → c.changes_sparse.start_index ≤ ofs + q
    → ofs + q + n ≤ c.changes_sparse.start_index + c.changes_sparse.length
    → n ≤ 64
    → (marking c ofs page q n mem).0 ≢ enomem
    → (j : ℕ) → InWindow c.changes_sparse j
    → let r = collect_bvec c ofs (segment page q n) mem in
      (r.0 ≡ success)
      × (get_bit r.1.changes_sparse j ≡ (
          if leb (ofs + q) j && ltb j (ofs + q + n) && is_magic c.magic_buff page (512 * (j - ofs))
          then (success, some true)
          else get_bit c.changes_sparse j))
collect_bvec_lem c ofs page q n mem v lo hi few ok j hj =
    let hit : ℕ → Bool = is_magic c.magic_buff page in
    let m : ℕ → Bool = map_loop hit n (512 * q) (λ s. false) in
    let same = collect_bvec-marking c ofs page q n mem few in
    (
      ap (λ (r : Status × Collector × Memory). r.0) same,
      ap (λ (r : Status × Collector × Memory). get_bit r.1.changes_sparse j) same
          ∙ mark_loop_lem m n ofs q success c mem v lo hi ok j hj
          ∙ ap (λ (b : Bool). if b then (success, some true) else get_bit c.changes_sparse j)
              (among_magic hit n ofs q j),
    )
