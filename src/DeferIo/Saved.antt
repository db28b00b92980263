-- ===== src/DeferIo/Saved.antt =====
-- Copy before write: a round of the thread, from the blocks that it copies to the bios that it sends on.
use mathlib.Core.Path.{subst}
use mathlib.Core.List.{append_assoc, map}
use veeamsnap.Prelude.{
  ℕ, ◌+◌, ◌≡◌, ◌⊎◌, refl, sym, ap, ◌∙◌, Bool, true, false, none, List, [], ◌∷◌, ◌++◌, ◌&&◌, not,
  ltb, All, Bool-cases, inl, inr, arith, is_success,
}
use veeamsnap.BlkDescrArray.Laws.{IsValid}
use veeamsnap.SnapstoreDevice.{Device, CopyRequest, Prep, is_block_stored, blocks_of}
use veeamsnap.SnapstoreDevice.Requested.{Covered}
use veeamsnap.SnapstoreDevice.Copied.{copy_blocks-ends, copy_blocks-unprepared}
use veeamsnap.DeferIo.{
  OriginalRequest, block_copied, bio_sent, DeferIo, request_length, request_sectors_count, Moved,
  prepare_one, copy_prepare, Turn, round,
}
use veeamsnap.DeferIo.Steps.{Saved, All-Saved, StepSaves, prepare_one_lem, from_start}
use veeamsnap.DeferIo.Round.{
  finish_lem, copy_prepare_fifo, moved_of, copied_of, done_of, before_finish,
}

All-snoc :
    (P : OriginalRequest → Type 0) (reqs : List OriginalRequest) (req : OriginalRequest)
    → All P reqs
    → P req
    → All P (reqs ++ req ∷ [])
All-snoc P [] req h p = (p, tt)
All-snoc P (x ∷ reqs) req h p = (h.0, All-snoc P reqs req h.1 p)

-- What the loop leaves: the device is corrupted, after a failure, or all that was moved is saved by what
-- was stored at the start and what is to be copied.
abbrev LoopOk : ℕ → ℕ → Device → Moved → Type 0
LoopOk blk j start m =
    ((m.prep.dev.corrupted ≡ true) × (is_success m.res ≡ false))
    ⊎ ((m.prep.dev.corrupted ≡ false)
        × (is_success m.res ≡ true)
        × All (Saved blk j start (blocks_of m.prep.dio_copy_req)) m.in_process)

copy_prepare-Saved :
    (blk j : ℕ) (start : Device) (queue : List OriginalRequest) (n sectors : ℕ)
    (moved : List OriginalRequest) (p : Prep)
    → IsValid p.dev.store_block_map
    → p.dev.corrupted ≡ false
    → ((is_block_stored p.dev j ≡ true) → Covered j start p)
    → All (Saved blk j start (blocks_of p.dio_copy_req)) moved
    → LoopOk blk j start (copy_prepare blk [] queue n sectors moved p)
unfolding copy_prepare
copy_prepare-Saved blk j start [] n sectors moved p v sound inv saved = inr (sound, refl, saved)
copy_prepare-Saved blk j start (req ∷ reqs) n sectors moved p v sound inv saved =
    let r = prepare_one blk false req p in
    let one = prepare_one_lem blk j req p v sound in
    elim (Bool-cases (ltb n request_length && ltb sectors request_sectors_count)) [
      | inr full ↦ rw full (inr (sound, refl, saved))
      | inl more ↦ elim (Bool-cases (is_success r.0)) [
        | inr bad ↦ rw (more, bad) (inl (one.1 ∙ ap not bad, bad))
        | inl ok ↦
            let saves : StepSaves blk j req p r.2 = elim one.2 [
              | inl bad ↦ absurd (ground (arith, ok, bad))
              | inr s ↦ s
            ] in
            let (inv', now) = from_start blk j start req p r.2 inv saves in
            let dios : CopyRequest = blocks_of r.2.dio_copy_req in
            rw (more, ok)
              (copy_prepare-Saved blk j start reqs (n + 1) (sectors + r.1) (moved ++ req ∷ []) r.2
                one.0 (one.1 ∙ ap not ok) inv'
                (All-snoc (Saved blk j start dios) moved req
                  (All-Saved blk j start (blocks_of p.dio_copy_req) dios moved saves.0 saved) now))
      ]
    ]

-- A round in which the thread is not asked to stop, on a device that is not corrupted and whose map is
-- well formed, whatever fails: it copies blocks, and then sends on the front of the queue, in its order.
-- Then the device is corrupted, or the read of the original failed, or of each bio sent on that writes
-- data, each block j that it touches was stored before the round or is one of those that were read
-- and stored before the first of the bios was sent on.
pub round-Saved :
    (blk j : ℕ) (turn : Turn) (d : DeferIo)
    → turn.stops ≡ []
    → IsValid d.snapstore_device.store_block_map
    → d.snapstore_device.corrupted ≡ false
    → let d' = round blk turn d in
      (taken : List OriginalRequest) × (dios : CopyRequest) × (d'.sent ≡ d.sent ++ taken)
      × (taken ++ d'.dio_queue ≡ d.dio_queue)
      × (d'.trace ≡ d.trace ++ (map block_copied dios ++ map bio_sent taken))
      × ((d'.snapstore_device.corrupted ≡ true)
          ⊎ ((is_success turn.read_res ≡ false) ⊎ All (Saved blk j d.snapstore_device dios) taken))
unfolding round
round-Saved blk j turn d goes_on v sound =
    let dev : Device = d.snapstore_device in
    let p : Prep = record { dev = dev; dio_copy_req = none; mem = turn.mem } in
    let m : Moved = moved_of blk turn d in
    let fifo = copy_prepare_fifo blk turn.stops d.dio_queue 0 0 [] p in
    let f = finish_lem m.in_process (before_finish blk turn d) in
    let dios : CopyRequest = done_of turn m in
    let loop : LoopOk blk j dev m =
      subst (λ (s : List Bool). LoopOk blk j dev (copy_prepare blk s d.dio_queue 0 0 [] p))
        (sym goes_on) (copy_prepare-Saved blk j dev d.dio_queue 0 0 [] p v sound (λ h. inl h) tt) in
    (
      m.in_process,
      dios,
      f.0,
      ap (λ (l : List OriginalRequest). m.in_process ++ l) f.1 ∙ fifo.0,
      f.4 ∙ append_assoc d.trace (map block_copied dios) (map bio_sent m.in_process),
      subst
          (λ (e : Device).
            (e.corrupted ≡ true)
            ⊎ ((is_success turn.read_res ≡ false) ⊎ All (Saved blk j dev dios) m.in_process))
          (sym f.2) (ended blk j turn dev m loop),
    )
  where
    ended :
        (blk j : ℕ) (turn : Turn) (dev : Device) (m : Moved)
        → LoopOk blk j dev m
        → ((copied_of turn m).1.corrupted ≡ true)
          ⊎ ((is_success turn.read_res ≡ false)
              ⊎ All (Saved blk j dev (done_of turn m)) m.in_process)
    ended blk j turn dev m (inl (bad, failed)) = inl (
        ap (λ (e : Device). e.corrupted)
          (copy_blocks-unprepared turn.read_res turn.store_res m.res m.prep failed)
        ∙ bad)
    ended blk j turn dev m (inr (good, ok, saved)) =
        elim (copy_blocks-ends turn.read_res turn.store_res m.res m.prep good ok) [
          | inl whole ↦
              let all : done_of turn m ≡ blocks_of m.prep.dio_copy_req = rw whole refl in
              inr (
                inr (
                  subst (λ (l : CopyRequest). All (Saved blk j dev l) m.in_process) (sym all)
                    saved))
          | inr (inl unread) ↦ inr (inl unread)
          | inr (inr bad) ↦ inl bad
        ]
