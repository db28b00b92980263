-- ===== src/SnapstoreDevice/Prepare.antt =====
-- What `snapstore_device_prepare_requests` does to the map: a block that is stored keeps its
-- descriptor, and the blocks of the range get one.
use veeamsnap.Prelude.{
  ℕ, ◌+◌, ◌-◌, ◌≡◌, ◌⊎◌, ◌&&◌, not, refl, sym, ap, ◌∙◌, inl, inr, Bool, true, false, Option, none,
  some, ltb, leb, if◌then◌else◌, Bool-cases, Status, success, is_success, Memory, arith,
}
use mathlib.Core.Path.{subst}
use veeamsnap.Range.{Range}
use veeamsnap.BlkDescrArray.{Header, get}
use veeamsnap.BlkDescrArray.Laws.{IsValid}
use veeamsnap.Snapstore.{Target, no_store}
use veeamsnap.SnapstoreDevice.{
  Device, CopyRequest, Prep, is_block_stored, prepare_loop, set_corrupted, first_block, last_block,
  prepare_requests, copy_blocks, copy_on_write,
}
use veeamsnap.SnapstoreDevice.Requests.{success_of, prepare_loop_lem}

pub set_corrupted_lem :
    (dev : Device) (err : Status)
    → dev.corrupted ≡ false
    → ((set_corrupted dev err).store_block_map ≡ dev.store_block_map)
      × ((set_corrupted dev err).corrupted ≡ true)
unfolding set_corrupted
set_corrupted_lem dev err e = (
  ap (λ (d : Device). d.store_block_map) (ap chosen e),
  ap (λ (d : Device). d.corrupted) (ap chosen e),
)
  where
    chosen : Bool → Device
    chosen b =
        if b then dev else record dev { req_failed_cnt = 0; corrupted = true; err_code = err }

-- A block of the blocks that a range touches.
abbrev pub in_range : ℕ → Range → ℕ → Bool
in_range blk rg j = leb (first_block blk rg) j && leb j (last_block blk rg)

-- The entry of the block j is the one that it had, or the block is one of the range that had none;
-- and the block of the range has one, where all went well.
abbrev pub Prepared : ℕ → Range → ℕ → Device → Status → Device → Type 0
Prepared blk rg j dev res dev' =
    IsValid dev'.store_block_map
    × ((get no_store dev'.store_block_map j ≡ get no_store dev.store_block_map j)
        ⊎ ((is_block_stored dev j ≡ false) × (in_range blk rg j ≡ true)))
    × ((is_success res ≡ false) ⊎ ((in_range blk rg j ≡ false) ⊎ (is_block_stored dev' j ≡ true)))

loop-Prepared :
    (blk j : ℕ) (rg : Range) (p : Prep)
    → IsValid p.dev.store_block_map
    → let r = prepare_loop (last_block blk rg + 1 - first_block blk rg) (first_block blk rg) p in
      Prepared blk rg j p.dev r.0 r.1.dev × (r.1.dev.corrupted ≡ p.dev.corrupted)
loop-Prepared blk j rg p v =
    let fb : ℕ = first_block blk rg in
    let lb : ℕ = last_block blk rg in
    let all = prepare_loop_lem (lb + 1 - fb) fb j p v in
    let res = (prepare_loop (lb + 1 - fb) fb p).0 in
    let same_range : leb fb j && ltb j (fb + (lb + 1 - fb)) ≡ in_range blk rg j = ground arith in
    (
      (
        all.0,
        elim (Bool-cases (in_range blk rg j)) [
          | inl within ↦ elim (Bool-cases (is_block_stored p.dev j)) [
            | inl had ↦ inl (all.1 had)
            | inr had_not ↦ inr (had_not, within)
          ]
          | inr out ↦ inl (all.2 (same_range ∙ out))
        ],
        elim (Bool-cases (is_success res)) [
          | inl ok ↦ elim (Bool-cases (in_range blk rg j)) [
            | inl within ↦ inr (inr (all.3 (success_of res ok) (same_range ∙ within)))
            | inr out ↦ inr (inl out)
          ]
          | inr bad ↦ inl bad
        ],
      ),
      all.4,
    )

-- `snapstore_device_prepare_requests` on a device that is not corrupted and whose map is well formed,
-- for any block j: the map stays well formed; a block that
-- is stored keeps its descriptor, and so does every block out of the range; after a success every
-- block of the range is stored; after a failure, and only then, the device is corrupted.
pub prepare_requests_lem :
    (blk j : ℕ) (rg : Range) (p : Prep)
    → IsValid p.dev.store_block_map
    → p.dev.corrupted ≡ false
    → let r = prepare_requests blk rg p in
      Prepared blk rg j p.dev r.0 r.1.dev × (r.1.dev.corrupted ≡ not (is_success r.0))
unfolding prepare_requests is_block_stored
prepare_requests_lem blk j rg p v sound =
    let r = prepare_loop (last_block blk rg + 1 - first_block blk rg) (first_block blk rg) p in
    let looped = loop-Prepared blk j rg p v in
    elim (Bool-cases (is_success r.0)) [
      | inl ok ↦
          let e : prepare_requests blk rg p ≡ r = rw ok refl in
          subst
            (λ (q : Status × Prep).
              Prepared blk rg j p.dev q.0 q.1.dev × (q.1.dev.corrupted ≡ not (is_success q.0)))
            (sym e) (looped.0, looped.1 ∙ sound ∙ ap not (sym ok))
      | inr bad ↦
          let e : prepare_requests blk rg p
              ≡ (r.0, record r.1 { dev = set_corrupted r.1.dev r.0 }) =
            rw bad refl in
          let marked = set_corrupted_lem r.1.dev r.0 (looped.1 ∙ sound) in
          subst
            (λ (q : Status × Prep).
              Prepared blk rg j p.dev q.0 q.1.dev × (q.1.dev.corrupted ≡ not (is_success q.0)))
            (sym e)
            (
              subst
                  (λ (map : Header Target).
                    IsValid map
                    × ((get no_store map j ≡ get no_store p.dev.store_block_map j)
                        ⊎ ((is_block_stored p.dev j ≡ false) × (in_range blk rg j ≡ true)))
                    × ((is_success r.0 ≡ false)
                        ⊎ ((in_range blk rg j ≡ false)
                            ⊎ (is_success (get no_store map j).0 ≡ true))))
                  (sym marked.0) looped.0,
              marked.1 ∙ ap not (sym bad),
            )
    ]

copy_blocks-unread :
    (read_res store_res : Status) (p : Prep) (req : CopyRequest)
    → p.dio_copy_req ≡ some req
    → is_success read_res ≡ false
    → ((copy_blocks read_res store_res (success, p)).0 ≡ read_res)
      × ((copy_blocks read_res store_res (success, p)).1 ≡ p.dev)
unfolding copy_blocks
copy_blocks-unread read_res store_res p req made bad =
    let e =
      ap
        (λ (o : Option CopyRequest).
          copy_blocks read_res store_res
            (success, record { dev = p.dev; dio_copy_req = o; mem = p.mem }))
        made in
    (ap (λ q. q.0) e ∙ rw bad refl, ap (λ q. q.1) e ∙ rw bad refl)

-- A failed read of the original: where the preparation made a request, and the read ends with an
-- error, the copy ends with that error and the device is not corrupted, although every block of the
-- range now has a descriptor.
pub copy_on_write_unread :
    (blk j : ℕ) (read_res store_res : Status) (rg : Range) (dev : Device) (mem : Memory) (p : Prep)
    (req : CopyRequest)
    → IsValid dev.store_block_map
    → dev.corrupted ≡ false
    → prepare_requests blk rg (record { dev = dev; dio_copy_req = none; mem = mem }) ≡ (success, p)
    → p.dio_copy_req ≡ some req
    → is_success read_res ≡ false
    → let r = copy_on_write blk read_res store_res rg dev mem in
      (r.0 ≡ read_res)
      × (r.1.corrupted ≡ false)
      × ((in_range blk rg j ≡ false) ⊎ (is_block_stored r.1 j ≡ true))
unfolding copy_on_write
copy_on_write_unread blk j read_res store_res rg dev mem p req v sound prepared made bad =
    let start : Prep = record { dev = dev; dio_copy_req = none; mem = mem } in
    let all =
      subst
        (λ (q : Status × Prep).
          Prepared blk rg j dev q.0 q.1.dev × (q.1.dev.corrupted ≡ not (is_success q.0)))
        prepared (prepare_requests_lem blk j rg start v sound) in
    let copied = ap (copy_blocks read_res store_res) prepared in
    let ended = copy_blocks-unread read_res store_res p req made bad in
    (
      ap (λ q. q.0) copied ∙ ended.0,
      ap (λ q. q.1.corrupted) copied ∙ ap (λ (d : Device). d.corrupted) ended.1 ∙ all.1,
      elim all.0.2 [
        | inl failed ↦ absurd (ground (arith, failed))
        | inr (inl out) ↦ inl out
        | inr (inr has) ↦ inr (
            ap (λ q. is_block_stored q.1 j) copied
            ∙ ap (λ (d : Device). is_block_stored d j) ended.1
            ∙ has)
      ],
    )
