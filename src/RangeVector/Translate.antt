-- ===== src/RangeVector/Translate.antt =====
-- `rangevector_v2p`: the translation of an offset into the ranges to a sector of the device.
use veeamsnap.Prelude.{
  ℕ, ◌+◌, ◌-◌, ◌<◌, ◌≤◌, ◌≡◌, sym, ap, ◌∙◌, inl, inr, none, some, List, [], ◌∷◌, ltb, Bool-cases,
  min, success, enodata, arith, take, drop,
}
use veeamsnap.Prelude.Word.{add64, word, add64_exact}
use veeamsnap.Range.{Range, run, sectors, total, sectors_window, sectors_past}
use veeamsnap.RangeVector.{RangeVector, V2p, v2p_el, v2p_els, v2p, v2p_result, v2p_start}

abbrev pub NoWrap : List Range → Type 0
NoWrap [] = Unit
NoWrap (rg ∷ rgs) = (rg.ofs + rg.cnt < word) × NoWrap rgs

-- A range that ends at or before the offset is passed over.
v2p_el_skip :
    (rg : Range) (rgs : List Range) (off len : ℕ) (s : V2p)
    → s.virt_left + rg.cnt < word
    → s.virt_left + rg.cnt ≤ off
    → v2p_el off len (rg ∷ rgs) s
      ≡ v2p_el off len rgs (record s { virt_left = s.virt_left + rg.cnt })
unfolding v2p_el
v2p_el_skip rg rgs off len s h le = ground (arith, add64_exact s.virt_left rg.cnt)

-- A range that holds the offset.
v2p_el_here :
    (rg : Range) (rgs : List Range) (off len : ℕ) (s : V2p)
    → s.virt_left ≤ off
    → off < s.virt_left + rg.cnt
    → s.virt_left + rg.cnt < word
    → (v2p_el off len (rg ∷ rgs) s).hit
      ≡ some (add64 rg.ofs (off - s.virt_left), min len (s.virt_left + rg.cnt - off))
unfolding v2p_el
v2p_el_here rg rgs off len s lo hi h = ground (arith, add64_exact s.virt_left rg.cnt)

-- One element, from `virt_left` on: the sectors of the hit are those of the ranges.
v2p_el_hit :
    (rgs : List Range) (off len : ℕ) (s : V2p)
    → NoWrap rgs
    → s.virt_left + total rgs < word
    → s.virt_left ≤ off
    → off < s.virt_left + total rgs
    → (p : ℕ) × (n : ℕ) × ((v2p_el off len rgs s).hit ≡ some (p, n))
      × (n ≤ len)
      × (min 1 len ≤ n)
      × (take n (drop (off - s.virt_left) (sectors rgs)) ≡ run p n)
unfolding v2p_el
v2p_el_hit [] off len s w h lo hi = absurd (omega arith)
v2p_el_hit (rg ∷ rgs) off len s w h lo hi = elim (Bool-cases (ltb off (s.virt_left + rg.cnt))) [
  | inl e ↦ (
    rg.ofs + (off - s.virt_left),
    min len (s.virt_left + rg.cnt - off),
    ground (arith, add64_exact s.virt_left rg.cnt),
    omega arith,
    ground arith,
    sectors_window rg rgs (off - s.virt_left) (min len (s.virt_left + rg.cnt - off)) (ground arith),
  )
  | inr e ↦
      let past : s.virt_left + rg.cnt ≤ off = ground arith in
      let ih =
        v2p_el_hit rgs off len (record s { virt_left = s.virt_left + rg.cnt }) w.1 (omega arith)
          past (omega arith) in
      let diff : off - s.virt_left - rg.cnt ≡ off - (s.virt_left + rg.cnt) = omega arith in
      (
        ih.0,
        ih.1,
        ap (λ r. r.hit) (v2p_el_skip rg rgs off len s (omega arith) past) ∙ ih.2,
        ih.3,
        ih.4,
        ap (take ih.1) (
              sectors_past rg rgs (off - s.virt_left) (omega arith)
              ∙ ap (λ (t : ℕ). drop t (sectors rgs)) diff)
            ∙ ih.5,
      )
]

-- One element whose ranges end at or before the offset.
v2p_el_miss :
    (rgs : List Range) (off len : ℕ) (s : V2p)
    → s.virt_left + total rgs < word
    → s.virt_left + total rgs ≤ off
    → v2p_el off len rgs s ≡ record s { virt_left = s.virt_left + total rgs }
unfolding v2p_el
v2p_el_miss [] off len s h hi =
    ap (λ (t : ℕ). record s { virt_left = t }) {x = s.virt_left} (omega arith)
v2p_el_miss (rg ∷ rgs) off len s h hi =
    v2p_el_skip rg rgs off len s (omega arith) (omega arith)
    ∙ v2p_el_miss rgs off len (record s { virt_left = s.virt_left + rg.cnt }) (omega arith)
        (omega arith)
    ∙ ap (λ (t : ℕ). record s { virt_left = t }) (omega arith)

-- A vector of one element, whose ranges do not wrap: an offset inside them translates to a run of
-- at most `len` sectors, none only for a length of 0, and they are the sectors of the ranges there.
pub v2p-sectors :
    (v : RangeVector) (el : List Range) (off len : ℕ)
    → v.els ≡ el ∷ []
    → NoWrap el
    → total el < word
    → off < total el
    → (p : ℕ) × (n : ℕ) × (v2p v off len ≡ (success, some (p, n)))
      × (n ≤ len)
      × (min 1 len ≤ n)
      × (take n (drop off (sectors el)) ≡ run p n)
unfolding v2p v2p_els v2p_result
v2p-sectors v el off len one w h lt =
    let hit = v2p_el_hit el off len v2p_start w (omega arith) (omega arith) (omega arith) in
    let zero_ofs : off - 0 ≡ off = omega arith in
    (
      hit.0,
      hit.1,
      ap (λ els. v2p_result (v2p_els off len els v2p_start).hit) one ∙ ap v2p_result hit.2,
      hit.3,
      hit.4,
      ap (λ (t : ℕ). take hit.1 (drop t (sectors el))) (sym zero_ofs) ∙ hit.5,
    )

-- In a vector of one element, an offset at or past the end of the ranges, whose sizes do not add up to
-- a wrap, is refused.
pub v2p_outside :
    (v : RangeVector) (el : List Range) (off len : ℕ)
    → v.els ≡ el ∷ []
    → total el < word
    → total el ≤ off
    → v2p v off len ≡ (enodata, none)
unfolding v2p v2p_els v2p_result
v2p_outside v el off len one h le =
    ap (λ els. v2p_result (v2p_els off len els v2p_start).hit) one
    ∙ ap (λ s. v2p_result s.hit) (v2p_el_miss el off len v2p_start (omega arith) (omega arith))

-- A hit in an element does not end the loop over the elements: where the first range of the next
-- element is longer than the hit's distance from the start of its range, the result is overwritten
-- by a sector of that range.
pub v2p_overwritten :
    (v : RangeVector) (el rgs : List Range) (rg : Range) (off len : ℕ) (s : V2p)
    → v.els ≡ el ∷ (rg ∷ rgs) ∷ []
    → v2p_el off len el v2p_start ≡ s
    → s.virt_left ≤ off
    → off < s.virt_left + rg.cnt
    → s.virt_left + rg.cnt < word
    → v2p v off len
      ≡ (success, some (add64 rg.ofs (off - s.virt_left), min len (s.virt_left + rg.cnt - off)))
unfolding v2p v2p_els v2p_result
v2p_overwritten v el rgs rg off len s two first lo hi h =
    ap (λ els. v2p_result (v2p_els off len els v2p_start).hit) two
    ∙ ap (λ r. v2p_result (v2p_el off len (rg ∷ rgs) r).hit) first
    ∙ ap v2p_result (v2p_el_here rg rgs off len s lo hi h)
