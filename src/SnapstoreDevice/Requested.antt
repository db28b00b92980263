-- ===== src/SnapstoreDevice/Requested.antt =====
-- The request that `snapstore_device_prepare_requests` makes: the blocks that are to be copied.
use veeamsnap.Prelude.{
  ℕ, zero, suc, ◌+◌, ◌-◌, ◌≡◌, ◌⊎◌, ◌&&◌, refl, sym, ap, ◌∙◌, inl, inr, Bool, true, false, Option,
  none, some, [], ◌∷◌, ◌++◌, ltb, leb, ◌==◌, ==_iff, if◌then◌else◌, Bool-cases, Status, is_success,
  Memory, alloc, arith,
}
use veeamsnap.Range.{Range}
use veeamsnap.BlkDescrArray.{set_value}
use veeamsnap.BlkDescrArray.Laws.{IsValid}
use veeamsnap.Snapstore.{Target, no_store}
use veeamsnap.SnapstoreDevice.{
  Device, CopyRequest, Prep, get_empty_block, is_block_stored, add_dio, store_descr, add_request,
  prepare_loop, prepare_requests, first_block, last_block, blocks_of,
}
use veeamsnap.SnapstoreDevice.Requests.{add_request_lem, stored_at, stored_by}
use veeamsnap.SnapstoreDevice.Prepare.{in_range}

-- The block j is one of those to copy.
abbrev pub has : CopyRequest → ℕ → Bool
has [] j = false
has (dio ∷ dios) j = if dio.0 == j then true else has dios j

abbrev pub requested : Prep → ℕ → Bool
requested p j = has (blocks_of p.dio_copy_req) j

has-last : (dios : CopyRequest) (dio : ℕ × Target) → has (dios ++ dio ∷ []) dio.0 ≡ true
has-last [] dio = let same : dio.0 == dio.0 ≡ true = (==_iff dio.0 dio.0).1 refl in rw same refl
has-last (x ∷ dios) dio = elim (Bool-cases (x.0 == dio.0)) [
  | inl y ↦ rw y refl
  | inr n ↦ rw n (has-last dios dio)
]

has-append :
    (dios : CopyRequest) (dio : ℕ × Target) (j : ℕ)
    → has dios j ≡ true
    → has (dios ++ dio ∷ []) j ≡ true
has-append [] dio j h = absurd (ground (arith, h))
has-append (x ∷ dios) dio j h = elim (Bool-cases (x.0 == j)) [
  | inl y ↦ rw y refl
  | inr n ↦ rw n (has-append dios dio j (sym (rw n refl) ∙ h))
]

-- What was to be copied still is, and so is the block inx where the call succeeds.
abbrev Requests : ℕ → ℕ → Prep → Status → Prep → Type 0
Requests inx j p res p' =
    ((requested p j ≡ true) → requested p' j ≡ true)
    × ((is_success res ≡ true) → requested p' inx ≡ true)

add_dio-Requests :
    (dio : ℕ × Target) (j : ℕ) (p : Prep) → Requests dio.0 j p (add_dio dio p).0 (add_dio dio p).1
unfolding add_dio blocks_of
add_dio-Requests dio j p = go p.dev p.dio_copy_req p.mem
  where
    go :
        (dev : Device) (req : Option CopyRequest) (mem : Memory)
        → let p : Prep = record { dev = dev; dio_copy_req = req; mem = mem } in
          Requests dio.0 j p (add_dio dio p).0 (add_dio dio p).1
    go dev none mem = elim (Bool-cases (alloc mem).0) [
      | inl made ↦ elim (Bool-cases (alloc (alloc mem).1).0) [
        | inl granted ↦ rw (made, granted) (λ h. absurd (ground (arith, h)), λ ok. has-last [] dio)
        | inr refused ↦ rw (made, refused) (λ h. h, λ ok. absurd (ground (arith, ok)))
      ]
      | inr refused ↦ rw refused (λ h. h, λ ok. absurd (ground (arith, ok)))
    ]
    go dev (some dios) mem = elim (Bool-cases (alloc mem).0) [
      | inl granted ↦ rw granted (λ h. has-append dios dio j h, λ ok. has-last dios dio)
      | inr refused ↦ rw refused (λ h. h, λ ok. absurd (ground (arith, ok)))
    ]

store_descr-Requests :
    (inx j : ℕ) (got : Option Target) (p : Prep)
    → Requests inx j p (store_descr inx got p).0 (store_descr inx got p).1
unfolding store_descr
store_descr-Requests inx j none p = (λ h. h, λ ok. absurd (ground (arith, ok)))
store_descr-Requests inx j (some t) p =
    let r = set_value no_store p.dev.store_block_map inx t p.mem in
    let p' : Prep = record p { dev = record p.dev { store_block_map = r.1 }; mem = r.2 } in
    elim (Bool-cases (is_success r.0)) [
      | inl y ↦ rw y (add_dio-Requests (inx, t) j p')
      | inr n ↦ rw n (λ h. h, λ ok. absurd (ground (arith, ok, n)))
    ]

add_request-Requests :
    (inx j : ℕ) (p : Prep) → Requests inx j p (add_request inx p).0 (add_request inx p).1
unfolding add_request
add_request-Requests inx j p =
    store_descr-Requests inx j (get_empty_block p.dev).0
      (record p { dev = (get_empty_block p.dev).1 })

-- A block that is stored was so, or is to be copied.
abbrev pub Covered : ℕ → Device → Prep → Type 0
Covered j dev p = (is_block_stored dev j ≡ true) ⊎ (requested p j ≡ true)

-- The loop over `left` blocks from `inx` on: where it succeeds, each block of the range was stored before, or
-- is to be copied.
prepare_loop_requests :
    (left inx j : ℕ) (p : Prep)
    → IsValid p.dev.store_block_map
    → let r = prepare_loop left inx p in
      ((requested p j ≡ true) → requested r.1 j ≡ true)
      × ((is_success r.0 ≡ true) → (leb inx j && ltb j (inx + left) ≡ true) → Covered j p.dev r.1)
unfolding prepare_loop
prepare_loop_requests zero inx j p v = (λ h. h, λ ok e. absurd (ground (arith, e)))
prepare_loop_requests (suc left) inx j p v = elim (Bool-cases (is_block_stored p.dev inx)) [
  | inl y ↦
      let rest = prepare_loop_requests left (inx + 1) j p v in
      rw y (
        rest.0,
        λ ok within. elim (Bool-cases (inx == j)) [
          | inl same ↦ inl (sym (stored_at p.dev inx j same) ∙ y)
          | inr other ↦ rest.1 ok (ground (arith, within, other))
        ],
      )
  | inr n ↦
      let p' : Prep = (add_request inx p).1 in
      let one = add_request-Requests inx j p in
      let adds = add_request_lem inx j p v in
      elim (Bool-cases (is_success (add_request inx p).0)) [
        | inl done ↦
            let rest = prepare_loop_requests left (inx + 1) j p' adds.0 in
            rw (n, done)
              (
                λ h. rest.0 (one.0 h),
                λ ok within. elim (Bool-cases (inx == j)) [
                  | inl same ↦
                      inr (rest.0 (ap (requested p') (sym ((==_iff inx j).0 same)) ∙ one.1 done))
                  | inr other ↦ elim (rest.1 ok (ground (arith, within, other))) [
                    | inl had ↦ inl (sym (stored_by p.dev p'.dev j (adds.1 other)) ∙ had)
                    | inr now ↦ inr now
                  ]
                ],
              )
        | inr bad ↦ rw (n, bad) (one.0, λ ok. absurd (ground (arith, ok, bad)))
      ]
]

-- `snapstore_device_prepare_requests`, where it succeeds.
pub prepare_requests_covers :
    (blk j : ℕ) (rg : Range) (p : Prep)
    → IsValid p.dev.store_block_map
    → let r = prepare_requests blk rg p in
      (is_success r.0 ≡ true)
      → ((requested p j ≡ true) → requested r.1 j ≡ true)
        × ((in_range blk rg j ≡ true) → Covered j p.dev r.1)
unfolding prepare_requests
prepare_requests_covers blk j rg p v =
    let fb : ℕ = first_block blk rg in
    let lb : ℕ = last_block blk rg in
    let r = prepare_loop (lb + 1 - fb) fb p in
    let all = prepare_loop_requests (lb + 1 - fb) fb j p v in
    let same_range : leb fb j && ltb j (fb + (lb + 1 - fb)) ≡ in_range blk rg j = ground arith in
    elim (Bool-cases (is_success r.0)) [
      | inl ok ↦ rw ok (λ e. (all.0, λ within. all.1 ok (same_range ∙ within)))
      | inr bad ↦ rw bad (λ e. absurd (ground (arith, e, bad)))
    ]
