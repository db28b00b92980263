-- ===== src/CbtStorage/Reading.antt =====
-- `cbt_storage_read`: inside a page, and over its end.
use veeamsnap.Prelude.{
  ℕ, zero, suc, ◌+◌, ◌-◌, ◌<◌, ◌≤◌, ◌≡◌, refl, ap, ◌∙◌, true, false, some, List, [], ◌∷◌, ◌++◌,
  Status, success, ◌==◌, if◌then◌else◌, length, Bool-cases, inl, inr, arith, take, drop,
  length-take,
}
use veeamsnap.CbtStorage.{
  Machine, Accessor, read_page, check_page, read, read_loop, next_page, get_bytes, can_be_read,
  splice,
}
use veeamsnap.CbtStorage.Pages.{Mapped, read_page_lem}

-- The position after a page is complete is the start of the next.
abbrev pub Position : Machine → ℕ → ℕ → Accessor → Type 0
Position k number offset b =
    (b.page_number ≡ (if offset == k.page_data_size then number + 1 else number))
    × (b.page_offset ≡ (if offset == k.page_data_size then 0 else offset))

next_page_full :
    (k : Machine) (a : Accessor)
    → a.page_offset == k.page_data_size ≡ true
    → next_page k a ≡ record a { page_number = a.page_number + 1; page_offset = 0 }
unfolding next_page
next_page_full k a e = rw e refl

next_page_same :
    (k : Machine) (a : Accessor) → a.page_offset == k.page_data_size ≡ false → next_page k a ≡ a
unfolding next_page
next_page_same k a e = rw e refl

-- Every page on the disk passes the checks, and no transfer fails.
pub record Readable (k : Machine) (phys : ℕ → ℕ) (a : Accessor) : Type 0 where
  pub mapped : Mapped k a.rangevector a.page_count phys
  pub calm : a.device.results ≡ []
  pub good : (j : ℕ) → j < a.page_count → check_page k j (a.device.pages (phys j)) ≡ success

-- The accessor with the page that it stands at.
abbrev loaded : (ℕ → ℕ) → Accessor → Accessor
loaded phys a = record a {
  page = a.device.pages (phys a.page_number);
  device = record a.device { results = [] };
}

loaded_lem :
    (k : Machine) (phys : ℕ → ℕ) (a : Accessor)
    → Readable k phys a
    → a.page_number < a.page_count
    → read_page k a ≡ (success, loaded phys a)
loaded_lem k phys a r lt =
    read_page_lem k phys a r.mapped lt r.calm
    ∙ ap (λ (s : Status). (s, loaded phys a)) (r.good a.page_number lt)

-- The last round: nothing is left to be copied.
read_done_at :
    (k : Machine) (phys : ℕ → ℕ) (fuel : ℕ) (dst : List ℕ) (a c : Accessor)
    → next_page k a ≡ c
    → Readable k phys c
    → c.page_number ≤ c.page_count
    → (b : Accessor) × (read_loop k (suc fuel) 0 dst a ≡ some (success, dst, b))
      × (b.page_number ≡ c.page_number)
      × (b.page_offset ≡ c.page_offset)
unfolding read_loop
read_done_at k phys fuel dst a c e r le = elim (Bool-cases (c.page_number == c.page_count)) [
  | inl last ↦ (c, rw (e, last) refl, refl, refl)
  | inr more ↦ (loaded phys c, rw (e, more, loaded_lem k phys c r (ground arith)) refl, refl, refl)
]

read_done_lem :
    (k : Machine) (phys : ℕ → ℕ) (fuel : ℕ) (dst : List ℕ) (a : Accessor)
    → 0 < fuel
    → Readable k phys a
    → a.page_number < a.page_count
    → (b : Accessor) × (read_loop k fuel 0 dst a ≡ some (success, dst, b))
      × Position k a.page_number a.page_offset b
read_done_lem k phys zero dst a h r lt = absurd (omega arith)
read_done_lem k phys (suc fuel) dst a h r lt =
    elim (Bool-cases (a.page_offset == k.page_data_size)) [
      | inl e ↦
          let (b, eb, bn, bo) =
            read_done_at k phys fuel dst a
              (record a { page_number = a.page_number + 1; page_offset = 0 }) (next_page_full k a e)
              (record { mapped = r.mapped; calm = r.calm; good = r.good }) (omega arith) in
          (b, eb, rw e (bn, bo))
      | inr e ↦
          let (b, eb, bn, bo) =
            read_done_at k phys fuel dst a a (next_page_same k a e) r (omega arith) in
          (b, eb, rw e (bn, bo))
    ]

-- A read of bytes that all stand in the current page, where no transfer fails and the pages are good:
-- they are copied to the buffer, and the position moves past them, at the end of the page to the next.
pub read-inside :
    (k : Machine) (phys : ℕ → ℕ) (sz : ℕ) (dst : List ℕ) (a : Accessor)
    → Readable k phys a
    → a.page_number < a.page_count
    → a.page_offset + sz ≤ k.page_data_size
    → (b : Accessor) × (read k sz dst a
        ≡ some (success, splice dst 0 (take sz (drop a.page_offset a.page.content)), b))
      × Position k a.page_number (a.page_offset + sz) b
unfolding read get_bytes
read-inside k phys sz dst a r lt h =
    let n : can_be_read k sz a ≡ sz = omega arith in
    let left : sz - sz ≡ 0 = omega arith in
    let not_last : a.page_number == a.page_count ≡ false = ground arith in
    let dst' : List ℕ = splice dst 0 (take sz (drop a.page_offset a.page.content)) in
    let a' : Accessor = record a { page_offset = a.page_offset + sz } in
    let e : read k sz dst a ≡ read_loop k (suc (suc sz)) 0 dst' a' = rw (not_last, n, left) refl in
    let (b, eb, pos) =
      read_done_lem k phys (suc (suc sz)) dst' a' (omega arith)
        (record { mapped = r.mapped; calm = r.calm; good = r.good }) lt in
    (b, e ∙ eb, pos)

take-splice_zero :
    (m : ℕ) (dst bytes : List ℕ) → m ≡ length bytes → take m (splice dst 0 bytes) ≡ bytes
take-splice_zero m dst bytes e =
    let c : (bs rest : List ℕ) → take (length bs) (bs ++ rest) ≡ bs = front in
    rw e (c bytes (drop (0 + length bytes) dst))
  where
    front : (bs rest : List ℕ) → take (length bs) (bs ++ rest) ≡ bs
    front [] rest = refl
    front (x ∷ bs) rest = ap (◌∷◌ x) (front bs rest)

-- Where a read takes the rest of the current page and m bytes of the next one, m from 1 to a page's
-- bytes, no transfer fails and the pages are good: the m bytes of the next page are copied to the start of
-- the buffer, over those of the current page.
pub read-across :
    (k : Machine) (phys : ℕ → ℕ) (m : ℕ) (dst : List ℕ) (a : Accessor)
    → Readable k phys a
    → a.page_number + 1 < a.page_count
    → a.page_offset ≤ k.page_data_size
    → 0 < m
    → m ≤ k.page_data_size
    → length (a.device.pages (phys (a.page_number + 1))).content ≡ k.page_data_size
    → (dst' : List ℕ) × (b : Accessor) × (read k (k.page_data_size - a.page_offset + m) dst a
        ≡ some (success, dst', b))
      × (take m dst' ≡ take m (a.device.pages (phys (a.page_number + 1))).content)
      × Position k (a.page_number + 1) m b
unfolding read get_bytes read_loop
read-across k phys m dst a r lt h pos few full =
    let rest : ℕ = k.page_data_size - a.page_offset in
    let sz : ℕ = rest + m in
    let n : can_be_read k sz a ≡ rest = omega arith in
    let left : sz - rest ≡ m = omega arith in
    let not_last : a.page_number == a.page_count ≡ false = ground arith in
    let a1 : Accessor = record a { page_offset = a.page_offset + rest } in
    let c : Accessor = record a { page_number = a.page_number + 1; page_offset = 0 } in
    let c' : Accessor = loaded phys c in
    let at_end : a1.page_offset == k.page_data_size ≡ true = ground arith in
    let not_last' : c.page_number == c.page_count ≡ false = ground arith in
    let n' : can_be_read k m c' ≡ m = omega arith in
    let none_left : m - m ≡ 0 = omega arith in
    let some_left : m == 0 ≡ false = ground arith in
    let page : List ℕ = c'.page.content in
    let dst1 : List ℕ = splice dst 0 (take rest (drop a.page_offset a.page.content)) in
    let dst2 : List ℕ = splice dst1 0 (take m page) in
    let a2 : Accessor = record c' { page_offset = m } in
    let r1 : Readable k phys c = record { mapped = r.mapped; calm = r.calm; good = r.good } in
    let zero_add : 0 + m ≡ m = omega arith in
    let e : read k sz dst a ≡ read_loop k (suc sz) 0 dst2 a2 =
      rw
        (
          not_last,
          n,
          left,
          next_page_full k a1 at_end,
          not_last',
          loaded_lem k phys c r1 lt,
          some_left,
          n',
          none_left,
          zero_add,
        )
        refl in
    let (b, eb, p) =
      read_done_lem k phys (suc sz) dst2 a2 (omega arith)
        (record { mapped = r.mapped; calm = refl; good = r.good }) lt in
    (dst2, b, e ∙ eb, take-splice_zero m dst1 (take m page) (omega (arith, length-take m page)), p)
