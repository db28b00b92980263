-- ===== src/BlkDeferred/Portion.antt =====
-- `_blk_deferred_submit_pages`: what one bio takes of a run of sectors.
use mathlib.Core.Path.{ap₂}
use mathlib.Core.List.{append-nil}
use veeamsnap.Prelude.{
  ℕ, zero, suc, some, some_inj, List, ◌+◌, ◌-◌, ◌*◌, ◌/◌, ◌%◌, ◌<◌, ◌≤◌, ◌≡◌, ◌⊎◌, refl, sym, ap,
  ◌∙◌, true, false, [], ◌∷◌, ◌++◌, ltb, leb, ◌==◌, min, Memory, alloc, Bool-cases, inl, inr, arith,
}
use veeamsnap.BlkDeferred.{
  Transfer, segment, Bios, BioVec, bio_transfer, bio_size, add_pages, submit_portion,
}

pub segment-append :
    (m n ofs arr_ofs : ℕ)
    → segment ofs arr_ofs m ++ segment (ofs + m) (arr_ofs + m) n ≡ segment ofs arr_ofs (m + n)
segment-append zero n ofs arr_ofs =
    ap₂ (λ (o a : ℕ). segment o a n) (let e : ofs + 0 ≡ ofs = omega arith in e) (omega arith)
    ∙ ap (segment ofs arr_ofs) (let e : n ≡ zero + n = omega arith in e)
segment-append (suc m) n ofs arr_ofs =
    let e : suc m + n ≡ suc (m + n) = omega arith in
    rw e (
      ap (λ (t : Transfer). (ofs, arr_ofs) ∷ t)
        (ap (λ (t : Transfer). segment (ofs + 1) (arr_ofs + 1) m ++ t)
            (ap₂ (λ (o a : ℕ). segment o a n) (omega arith) (omega arith))
          ∙ segment-append m n (ofs + 1) (arr_ofs + 1)))

-- A run, and one that goes on where it ends, or is empty.
joined :
    (o a len next n : ℕ)
    → (next ≡ a + len) ⊎ (n ≡ 0)
    → segment o a len ++ segment (o + len) next n ≡ segment o a (len + n)
joined o a len next n (inl e) = rw e (segment-append len n o a)
joined o a len next n (inr e) =
    let z : len + 0 ≡ len = omega arith in rw (e, z) (append-nil (segment o a len))

-- What the pages after the first transfer: a run from the start of the first of them on.
add_pages_lem :
    (spp left page process size : ℕ) (adds : Memory) (o : ℕ)
    → process ≤ size
    → let r = add_pages spp left page process size adds in
      (process ≤ r.0)
      × (r.0 ≤ size)
      × (bio_transfer spp o r.1 ≡ segment o (page * spp) (r.0 - process))
unfolding add_pages bio_transfer
add_pages_lem spp zero page process size adds o h =
    let e : process - process ≡ 0 = omega arith in (omega arith, h, rw e refl)
add_pages_lem spp (suc left) page process size adds o h =
    let stay : process - process ≡ 0 = omega arith in
    elim (Bool-cases (ltb process size)) [
      | inr full ↦ rw full (omega arith, h, rw stay refl)
      | inl more ↦ elim (Bool-cases (alloc adds).0) [
        | inr refused ↦ rw (more, refused) (omega arith, h, rw stay refl)
        | inl granted ↦
            let len : ℕ = min spp (size - process) in
            let ih =
              add_pages_lem spp left (page + 1) (process + len) size (alloc adds).1 (o + len)
                (ground arith) in
            let n : ℕ = (add_pages spp left (page + 1) (process + len) size (alloc adds).1).0 in
            rw (more, granted)
              (
                omega (arith, ih.0),
                ih.1,
                let next : ((page + 1) * spp ≡ page * spp + len) ⊎ (n - (process + len) ≡ 0) =
                      elim (Bool-cases (leb spp (size - process))) [
                        | inl whole ↦ inl (let q : len ≡ spp = ground arith in rw q (grind arith))
                        | inr last ↦ inr (ground (arith, ih.1))
                      ] in
                    let zero_add : page * spp + 0 ≡ page * spp = omega arith in
                    rw (ih.2, zero_add)
                      (joined o (page * spp) len ((page + 1) * spp) (n - (process + len)) next
                        ∙ ap (segment o (page * spp)) (omega (arith, ih.0))),
              )
      ]
    ]

-- No refusal, and pages enough: all is added.
add_pages-all :
    (spp left page process size : ℕ)
    → process ≤ size
    → size ≤ process + left * spp
    → (add_pages spp left page process size []).0 ≡ size
unfolding add_pages
add_pages-all spp zero page process size h enough = omega arith
add_pages-all spp (suc left) page process size h enough = elim (Bool-cases (ltb process size)) [
  | inr full ↦ rw full (ground arith)
  | inl more ↦
      let len : ℕ = min spp (size - process) in
      let room : suc left * spp ≡ left * spp + spp = grind arith in
      rw more (
        add_pages-all spp left (page + 1) (process + len) size (ground arith) (omega (arith, room)))
]

bio_size-le : (spp size : ℕ) (allocs : Memory) → 0 < spp → (bio_size spp size allocs).0 ≤ size
unfolding bio_size
bio_size-le spp size [] pos = omega arith
bio_size-le spp size (true ∷ allocs) pos = omega arith
bio_size-le spp size (false ∷ allocs) pos =
    let half : ℕ = size / 2 / spp * spp in
    let le : half ≤ size = grind arith in
    elim (Bool-cases (half == 0)) [
      | inl y ↦ rw y (omega arith)
      | inr n ↦ rw n (omega (arith, bio_size-le spp half allocs pos, le))
    ]

page_in : (spp arr_ofs pg_cnt : ℕ) → 0 < spp → arr_ofs < pg_cnt * spp → arr_ofs / spp < pg_cnt
page_in spp arr_ofs pg_cnt pos h = grind arith

-- A portion that the array holds is a run of no more than the size, and is what was added to what was
-- sent.
pub submit_portion_lem :
    (spp arr_ofs pg_cnt ofs size : ℕ) (io : Bios)
    → 0 < spp
    → arr_ofs + size ≤ pg_cnt * spp
    → (n : ℕ) × (io' : Bios) × (submit_portion spp arr_ofs pg_cnt ofs size io ≡ some (n, io'))
      × (n ≤ size)
      × (io'.sent ≡ io.sent ++ segment ofs arr_ofs n)
unfolding submit_portion bio_transfer
submit_portion_lem spp arr_ofs pg_cnt ofs size io pos room =
    let b = bio_size spp size io.allocs in
    let le = bio_size-le spp size io.allocs pos in
    let page : ℕ = arr_ofs / spp in
    let unordered : ℕ = arr_ofs % spp in
    let len : ℕ = min (spp - unordered) b.0 in
    let added = alloc io.adds in
    let r = add_pages spp (pg_cnt - (page + 1)) (page + 1) len b.0 added.1 in
    let pages =
      add_pages_lem spp (pg_cnt - (page + 1)) (page + 1) len b.0 added.1 (ofs + len)
        (ground arith) in
    let here : page * spp + unordered ≡ arr_ofs = grind arith in
    let inside : unordered < spp = grind arith in
    elim (Bool-cases (b.0 == 0)) [
      | inl empty ↦
          (0, record io { allocs = b.1 }, rw empty refl, omega arith, sym (append-nil io.sent))
      | inr sized ↦
          let some_size : 0 < size = ground (arith, le, sized) in
          let there : leb pg_cnt page ≡ false =
            ground (arith, page_in spp arr_ofs pg_cnt pos (omega (arith, some_size, room))) in
          elim (Bool-cases added.0) [
            | inr refused ↦ (
              0,
              record io { allocs = b.1; adds = added.1 },
              rw (sized, there, refused) refl,
              omega arith,
              sym (append-nil io.sent),
            )
            | inl granted ↦
                let next : ((page + 1) * spp ≡ arr_ofs + len) ⊎ (r.0 - len ≡ 0) =
                  elim (Bool-cases (leb (spp - unordered) b.0)) [
                    | inl whole ↦ inl (
                        let q : len ≡ spp - unordered = ground arith in
                        let p : (page + 1) * spp ≡ page * spp + spp = grind arith in
                        omega (arith, q, p, here, inside))
                    | inr last ↦ inr (ground (arith, pages.1))
                  ] in
                (
                  r.0,
                  record {
                    allocs = b.1;
                    adds = r.2;
                    sent =
                        io.sent
                        ++ bio_transfer spp ofs
                            (record { page = page; len = len; offset = unordered } ∷ r.1);
                  },
                  rw (sized, there, granted) refl,
                  omega (arith, pages.1, le),
                  ap (λ (t : Transfer). io.sent ++ t)
                      (ap₂ (λ (x : ℕ) (t : Transfer). segment ofs x len ++ t) here pages.2
                        ∙ joined ofs arr_ofs len ((page + 1) * spp) (r.0 - len) next
                        ∙ ap (segment ofs arr_ofs) (omega (arith, pages.0))),
                )
          ]
    ]

-- The kernel refuses nothing from now on.
abbrev pub Calm : Bios → Type 0
Calm io = (io.allocs ≡ []) × (io.adds ≡ [])

add_pages-calm : (spp left page process size : ℕ) → (add_pages spp left page process size []).2 ≡ []
unfolding add_pages
add_pages-calm spp zero page process size = refl
add_pages-calm spp (suc left) page process size = elim (Bool-cases (ltb process size)) [
  | inr full ↦ rw full refl
  | inl more ↦
      rw more (add_pages-calm spp left (page + 1) (process + min spp (size - process)) size)
]

pages_left :
    (spp page pg_cnt : ℕ)
    → page < pg_cnt
    → (pg_cnt - (page + 1)) * spp + page * spp + spp ≡ pg_cnt * spp
pages_left spp page pg_cnt h =
    let n : ℕ = pg_cnt - (page + 1) in
    let e : pg_cnt ≡ n + page + 1 = omega arith in
    let f : (n + page + 1) * spp ≡ n * spp + page * spp + spp = grind arith in
    sym (ap (λ (q : ℕ). q * spp) e ∙ f)

pub submit_portion-all :
    (spp arr_ofs pg_cnt ofs size : ℕ) (io : Bios)
    → 0 < spp
    → 0 < size
    → arr_ofs + size ≤ pg_cnt * spp
    → Calm io
    → (io' : Bios) × (submit_portion spp arr_ofs pg_cnt ofs size io ≡ some (size, io'))
      × (io'.sent ≡ io.sent ++ segment ofs arr_ofs size)
      × Calm io'
unfolding submit_portion bio_size
submit_portion-all spp arr_ofs pg_cnt ofs size io pos some_size inside calm =
    let page : ℕ = arr_ofs / spp in
    let unordered : ℕ = arr_ofs % spp in
    let len : ℕ = min (spp - unordered) size in
    let here : page * spp + unordered ≡ arr_ofs = grind arith in
    let held = page_in spp arr_ofs pg_cnt pos (omega arith) in
    let left = pages_left spp page pg_cnt held in
    let sized : size == 0 ≡ false = ground arith in
    let there : leb pg_cnt page ≡ false = ground (arith, held) in
    let r = add_pages spp (pg_cnt - (page + 1)) (page + 1) len size [] in
    let vecs : List BioVec = record { page = page; len = len; offset = unordered } ∷ r.1 in
    let after : Bios = record {
      allocs = [];
      adds = r.2;
      sent = io.sent ++ bio_transfer spp ofs vecs;
    } in
    let shape : submit_portion spp arr_ofs pg_cnt ofs size io ≡ some (r.0, after) =
      rw (calm.0, calm.1, sized, there) refl in
    let (n, io', e, le, sent) = submit_portion_lem spp arr_ofs pg_cnt ofs size io pos inside in
    let same : (n, io') ≡ (r.0, after) = some_inj (sym e ∙ shape) in
    let all : n ≡ size =
      ap (λ (q : ℕ × Bios). q.0) same
      ∙ add_pages-all spp (pg_cnt - (page + 1)) (page + 1) len size (omega arith)
          (omega (arith, here, left)) in
    (
      io',
      e ∙ ap (λ (q : ℕ). some (q, io')) all,
      sent ∙ ap (λ (q : ℕ). io.sent ++ segment ofs arr_ofs q) all,
      (
        ap (λ (q : ℕ × Bios). q.1.allocs) same,
        ap (λ (q : ℕ × Bios). q.1.adds) same
            ∙ add_pages-calm spp (pg_cnt - (page + 1)) (page + 1) len size,
      ),
    )
