-- ===== src/SnapstoreDevice/Requests.antt =====
-- The loop of `snapstore_device_prepare_requests`, block by block.
use veeamsnap.Prelude.{
  ℕ, zero, suc, ◌+◌, ◌≡◌, ◌&&◌, refl, sym, ap, ◌∙◌, inl, inr, Bool, true, false, Option, none, some,
  ltb, leb, ◌==◌, ==_iff, if◌then◌else◌, Bool-cases, Status, success, is_success, Memory, alloc,
  arith,
}
use mathlib.Core.Path.{subst}
use veeamsnap.BlkDescrPool.{pool_take}
use veeamsnap.BlkDescrArray.{get, set_value}
use veeamsnap.BlkDescrArray.Laws.{IsValid, get-set_value}
use veeamsnap.Snapstore.{Target, no_store}
use veeamsnap.SnapstoreDevice.{
  Device, CopyRequest, Prep, get_empty_block, is_block_stored, add_dio, store_descr, add_request,
  prepare_loop,
}

abbrev pub found_at : Device → ℕ → Status × Option Target
found_at dev j = get no_store dev.store_block_map j

-- The addition to the request leaves the device alone.
pub add_dio-dev : (dio : ℕ × Target) (p : Prep) → (add_dio dio p).1.dev ≡ p.dev
unfolding add_dio
add_dio-dev dio p = go p.dev p.dio_copy_req p.mem
  where
    go :
        (dev : Device) (req : Option CopyRequest) (mem : Memory)
        → (add_dio dio (record { dev = dev; dio_copy_req = req; mem = mem })).1.dev ≡ dev
    go dev none mem = elim (Bool-cases (alloc mem).0) [
      | inl made ↦ elim (Bool-cases (alloc (alloc mem).1).0) [
        | inl granted ↦ rw (made, granted) refl
        | inr refused ↦ rw (made, refused) refl
      ]
      | inr refused ↦ rw refused refl
    ]
    go dev (some dios) mem = elim (Bool-cases (alloc mem).0) [
      | inl granted ↦ rw granted refl
      | inr refused ↦ rw refused refl
    ]

-- One block: only its own entry can change, and where the call succeeds it has one.
abbrev pub Adds : ℕ → ℕ → Device → Status → Device → Type 0
Adds inx j dev res dev' =
    IsValid dev'.store_block_map
    × ((inx == j ≡ false) → found_at dev' j ≡ found_at dev j)
    × ((res ≡ success) → is_block_stored dev' inx ≡ true)
    × (dev'.corrupted ≡ dev.corrupted)

pub store_descr_lem :
    (inx j : ℕ) (got : Option Target) (p : Prep)
    → IsValid p.dev.store_block_map
    → Adds inx j p.dev (store_descr inx got p).0 (store_descr inx got p).1.dev
unfolding store_descr is_block_stored
store_descr_lem inx j none p v = (v, λ n. refl, λ e. absurd (ground (arith, e)), refl)
store_descr_lem inx j (some t) p v =
    let map = p.dev.store_block_map in
    let r = set_value no_store map inx t p.mem in
    let p' : Prep = record p { dev = record p.dev { store_block_map = r.1 }; mem = r.2 } in
    let at_j = get-set_value no_store map inx j t p.mem v in
    let at_inx = get-set_value no_store map inx inx t p.mem v in
    let other : (inx == j ≡ false) → found_at p'.dev j ≡ found_at p.dev j = λ n.
      let miss : is_success r.0 && inx == j ≡ false = ground (arith, n) in
      at_j.2 ∙ ap (λ (b : Bool). if b then (success, some t) else get no_store map j) miss in
    elim (Bool-cases (is_success r.0)) [
      | inl y ↦
          let hit : is_success r.0 && inx == inx ≡ true = ground (arith, y) in
          let stored : is_block_stored p'.dev inx ≡ true =
            ap (λ q. is_success q.0)
              (at_inx.2
                ∙ ap (λ (b : Bool). if b then (success, some t) else get no_store map inx) hit) in
          let e : store_descr inx (some t) p ≡ add_dio (inx, t) p' = rw y refl in
          subst (λ (q : Status × Prep). Adds inx j p.dev q.0 q.1.dev) (sym e)
            (subst (λ (d : Device). Adds inx j p.dev (add_dio (inx, t) p').0 d)
              (sym (add_dio-dev (inx, t) p')) (at_j.0, other, λ ok. stored, refl))
      | inr n ↦
          let e : store_descr inx (some t) p ≡ (r.0, p') = rw n refl in
          subst (λ (q : Status × Prep). Adds inx j p.dev q.0 q.1.dev) (sym e)
            (at_j.0, other, λ ok. absurd (ground (arith, n, ok)), refl)
    ]

-- Taking a block from the pool leaves the map alone.
pub get_empty_block_lem :
    (dev : Device)
    → ((get_empty_block dev).1.store_block_map ≡ dev.store_block_map)
      × ((get_empty_block dev).1.corrupted ≡ dev.corrupted)
unfolding get_empty_block
get_empty_block_lem dev = elim (Bool-cases (dev.overflowed == 0)) [
  | inl y ↦
      let e = ap chosen y in
      (
        ap (λ (q : Option Target × Device). q.1.store_block_map) e,
        ap (λ (q : Option Target × Device). q.1.corrupted) e,
      )
  | inr n ↦
      let e = ap chosen n in
      (
        ap (λ (q : Option Target × Device). q.1.store_block_map) e,
        ap (λ (q : Option Target × Device). q.1.corrupted) e,
      )
]
  where
    chosen : Bool → Option Target × Device
    chosen b =
        let r = pool_take dev.pool in
        if b
        then (r.0, record dev { pool = r.1; overflowed = elim r.0 [ none ↦ 1 | some _ ↦ 0 ] })
        else (none, dev)

pub add_request_lem :
    (inx j : ℕ) (p : Prep)
    → IsValid p.dev.store_block_map
    → Adds inx j p.dev (add_request inx p).0 (add_request inx p).1.dev
unfolding add_request
add_request_lem inx j p v =
    let taken = get_empty_block_lem p.dev in
    let one =
      store_descr_lem inx j (get_empty_block p.dev).0 (record p { dev = (get_empty_block p.dev).1 })
        (subst IsValid (sym taken.0) v) in
    (one.0, λ n. one.1 n ∙ ap (λ map. get no_store map j) taken.0, one.2, one.3 ∙ taken.1)

pub success_of : (s : Status) → is_success s ≡ true → s ≡ success
success_of s e = ground (arith, e)

pub stored_at :
    (dev : Device) (i j : ℕ) → i == j ≡ true → is_block_stored dev i ≡ is_block_stored dev j
stored_at dev i j e = ap (is_block_stored dev) ((==_iff i j).0 e)

pub stored_by :
    (dev dev' : Device) (j : ℕ)
    → found_at dev' j ≡ found_at dev j
    → is_block_stored dev' j ≡ is_block_stored dev j
unfolding is_block_stored
stored_by dev dev' j e = ap (λ (q : Status × Option Target). is_success q.0) e

-- The loop over `left` blocks from `inx` on: what a block has, it keeps; a block out of the range is as
-- before; and where the loop succeeds every block of the range is stored.
pub prepare_loop_lem :
    (left inx j : ℕ) (p : Prep)
    → IsValid p.dev.store_block_map
    → let r = prepare_loop left inx p in
      IsValid r.1.dev.store_block_map
      × ((is_block_stored p.dev j ≡ true) → found_at r.1.dev j ≡ found_at p.dev j)
      × ((leb inx j && ltb j (inx + left) ≡ false) → found_at r.1.dev j ≡ found_at p.dev j)
      × ((r.0 ≡ success)
          → (leb inx j && ltb j (inx + left) ≡ true)
          → is_block_stored r.1.dev j ≡ true)
      × (r.1.dev.corrupted ≡ p.dev.corrupted)
unfolding prepare_loop
prepare_loop_lem zero inx j p v =
    (v, λ e. refl, λ e. refl, λ ok e. absurd (ground (arith, e)), refl)
prepare_loop_lem (suc left) inx j p v = elim (Bool-cases (is_block_stored p.dev inx)) [
  | inl y ↦
      let rest = prepare_loop_lem left (inx + 1) j p v in
      rw y (
        rest.0,
        rest.1,
        λ out. rest.2 (ground (arith, out)),
        λ ok within. elim (Bool-cases (inx == j)) [
          | inl same ↦
              let had : is_block_stored p.dev j ≡ true = sym (stored_at p.dev inx j same) ∙ y in
              stored_by p.dev (prepare_loop left (inx + 1) p).1.dev j (rest.1 had) ∙ had
          | inr other ↦ rest.3 ok (ground (arith, within, other))
        ],
        rest.4,
      )
  | inr n ↦
      let one = add_request_lem inx j p v in
      let p' : Prep = (add_request inx p).1 in
      let apart : is_block_stored p.dev j ≡ true → inx == j ≡ false = λ had.
        elim (Bool-cases (inx == j)) [
          | inl same ↦ absurd (ground (arith, n, had, stored_at p.dev inx j same))
          | inr other ↦ other
        ] in
      elim (Bool-cases (is_success (add_request inx p).0)) [
        | inl ok ↦
            let rest = prepare_loop_lem left (inx + 1) j p' one.0 in
            rw (n, ok)
              (
                rest.0,
                λ had.
                    rest.1 (stored_by p.dev p'.dev j (one.1 (apart had)) ∙ had) ∙ one.1 (apart had),
                λ out. rest.2 (ground (arith, out)) ∙ one.1 (ground (arith, out)),
                λ all within. elim (Bool-cases (inx == j)) [
                  | inl same ↦
                      let has : is_block_stored p'.dev j ≡ true =
                        sym (stored_at p'.dev inx j same)
                        ∙ one.2 (success_of (add_request inx p).0 ok) in
                      stored_by p'.dev (prepare_loop left (inx + 1) p').1.dev j (rest.1 has) ∙ has
                  | inr other ↦ rest.3 all (ground (arith, within, other))
                ],
                rest.4 ∙ one.3,
              )
        | inr bad ↦
            rw (n, bad)
              (
                one.0,
                λ had. one.1 (apart had),
                λ out. one.1 (ground (arith, out)),
                λ all. absurd (ground (arith, bad, all)),
                one.3,
              )
      ]
]
