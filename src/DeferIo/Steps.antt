-- ===== src/DeferIo/Steps.antt =====
-- The preparation of one request by the thread: which blocks its bio needs, and which it asks to copy.
use veeamsnap.Prelude.{
  ℕ, ◌≡◌, ◌⊎◌, refl, sym, ◌∙◌, true, false, List, [], ◌∷◌, not, All, Bool-cases, inl, inr, arith,
  Status, is_success,
}
use veeamsnap.BlkDescrArray.Laws.{IsValid}
use veeamsnap.SnapstoreDevice.{
  Device, CopyRequest, Prep, is_corrupted, is_block_stored, prepare_requests, blocks_of,
}
use veeamsnap.SnapstoreDevice.Requests.{stored_by}
use veeamsnap.SnapstoreDevice.Prepare.{in_range, prepare_requests_lem}
use veeamsnap.SnapstoreDevice.Requested.{has, requested, Covered, prepare_requests_covers}
use veeamsnap.SnapstoreDevice.Copied.{not_corrupted}
use veeamsnap.DeferIo.{OriginalRequest, prepare_one}

-- The request does not write to the block j, or the block was stored on the device, or it is one of the
-- blocks that are copied.
abbrev pub Saved : ℕ → ℕ → Device → CopyRequest → OriginalRequest → Type 0
Saved blk j dev dios req =
    (req.is_write_bio ≡ false)
    ⊎ ((in_range blk req.sect j ≡ false) ⊎ ((is_block_stored dev j ≡ true) ⊎ (has dios j ≡ true)))

-- More blocks are copied.
Saved-more :
    (blk j : ℕ) (dev : Device) (dios dios' : CopyRequest) (req : OriginalRequest)
    → (has dios j ≡ true → has dios' j ≡ true)
    → Saved blk j dev dios req
    → Saved blk j dev dios' req
Saved-more blk j dev dios dios' req k (inl r) = inl r
Saved-more blk j dev dios dios' req k (inr (inl o)) = inr (inl o)
Saved-more blk j dev dios dios' req k (inr (inr (inl s))) = inr (inr (inl s))
Saved-more blk j dev dios dios' req k (inr (inr (inr c))) = inr (inr (inr (k c)))

pub All-Saved :
    (blk j : ℕ) (dev : Device) (dios dios' : CopyRequest) (reqs : List OriginalRequest)
    → (has dios j ≡ true → has dios' j ≡ true)
    → All (Saved blk j dev dios) reqs
    → All (Saved blk j dev dios') reqs
All-Saved blk j dev dios dios' [] k h = tt
All-Saved blk j dev dios dios' (req ∷ reqs) k h =
    (Saved-more blk j dev dios dios' req k h.0, All-Saved blk j dev dios dios' reqs k h.1)

-- What a step that succeeds does to the copy request, from a device that is not corrupted.
abbrev pub StepSaves : ℕ → ℕ → OriginalRequest → Prep → Prep → Type 0
StepSaves blk j req p p' =
    ((requested p j ≡ true) → requested p' j ≡ true)
    × ((is_block_stored p'.dev j ≡ true) → Covered j p.dev p')
    × Saved blk j p.dev (blocks_of p'.dio_copy_req) req

abbrev pub StepOk : ℕ → ℕ → OriginalRequest → Prep → Status → Prep → Type 0
StepOk blk j req p res p' =
    IsValid p'.dev.store_block_map
    × (p'.dev.corrupted ≡ not (is_success res))
    × ((is_success res ≡ false) ⊎ StepSaves blk j req p p')

-- The preparation of a write.
write-StepOk :
    (blk j : ℕ) (req : OriginalRequest) (p : Prep)
    → IsValid p.dev.store_block_map
    → p.dev.corrupted ≡ false
    → let r = prepare_requests blk req.sect p in StepOk blk j req p r.0 r.1
write-StepOk blk j req p v sound =
    let r = prepare_requests blk req.sect p in
    let all = prepare_requests_lem blk j req.sect p v sound in
    (
      all.0.0,
      all.1,
      elim (Bool-cases (is_success r.0)) [
        | inr bad ↦ inl bad
        | inl ok ↦
            let covers = prepare_requests_covers blk j req.sect p v ok in
            inr (
              covers.0,
              λ h. elim all.0.1 [
                | inl same ↦ inl (sym (stored_by p.dev r.1.dev j same) ∙ h)
                | inr fresh ↦ covers.1 fresh.1
              ],
              elim (Bool-cases (in_range blk req.sect j)) [
                | inr out ↦ inr (inl out)
                | inl within ↦ inr (inr (covers.1 within))
              ],
            )
      ],
    )

pub prepare_one_lem :
    (blk j : ℕ) (req : OriginalRequest) (p : Prep)
    → IsValid p.dev.store_block_map
    → p.dev.corrupted ≡ false
    → let r = prepare_one blk false req p in StepOk blk j req p r.0 r.2
unfolding prepare_one
prepare_one_lem blk j req p v sound =
    let c : is_corrupted p.dev ≡ (false, p.dev) = not_corrupted p.dev sound in
    elim (Bool-cases req.is_write_bio) [
      | inr reads ↦ rw (c, reads) (v, sound, inr (λ h. h, λ h. inl h, inl refl))
      | inl writes ↦
          let same : Prep = record { dev = p.dev; dio_copy_req = p.dio_copy_req; mem = p.mem } in
          let w = write-StepOk blk j req same v sound in
          rw (c, writes)
            (
              w.0,
              w.1,
              elim w.2 [
                | inl bad ↦ inl bad
                | inr s ↦ inr (
                  s.0,
                  s.1,
                  elim s.2 [ inl reads ↦ absurd (ground (arith, reads, writes)) | inr o ↦ inr o ],
                )
              ],
            )
    ]

-- The step from the device at the start.
pub from_start :
    (blk j : ℕ) (start : Device) (req : OriginalRequest) (p p' : Prep)
    → ((is_block_stored p.dev j ≡ true) → Covered j start p)
    → StepSaves blk j req p p'
    → ((is_block_stored p'.dev j ≡ true) → Covered j start p')
      × Saved blk j start (blocks_of p'.dio_copy_req) req
from_start blk j start req p p' inv s =
    let lift : Covered j p.dev p' → Covered j start p' = λ c. elim c [
      | inr now ↦ inr now
      | inl had ↦ elim (inv had) [ inl old ↦ inl old | inr asked ↦ inr (s.0 asked) ]
    ] in
    (
      λ h. lift (s.1 h),
      elim s.2 [
        | inl reads ↦ inl reads
        | inr (inl out) ↦ inr (inl out)
        | inr (inr c) ↦ inr (inr (lift c))
      ],
    )
