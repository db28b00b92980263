-- ===== src/DeferIo/Round.antt =====
-- A round of the thread: what it moves is the front of the queue, all of it is sent on in its order, and
-- what it sends on was prepared.
use mathlib.Core.Path.{subst}
use mathlib.Core.List.{append_assoc, append-nil, map}
use veeamsnap.Prelude.{
  ℕ, ◌+◌, ◌≤◌, ◌≡◌, refl, sym, ap, ◌∙◌, Bool, none, List, [], ◌∷◌, ◌++◌, if◌then◌else◌, ◌&&◌, ltb,
  length, Bool-cases, inl, inr, arith, Status, is_success,
}
use veeamsnap.SnapstoreDevice.{Device, CopyRequest, Prep, blocks_of, copy_blocks, Fate}
use veeamsnap.DeferIo.{
  OriginalRequest, block_copied, bio_sent, DeferIo, Moved, finish_one, finish, request_length,
  request_sectors_count, prepare_one, next_stop, copy_prepare, Turn, round,
}

pub finish_lem :
    (reqs : List OriginalRequest) (d : DeferIo)
    → ((finish reqs d).sent ≡ d.sent ++ reqs)
      × ((finish reqs d).dio_queue ≡ d.dio_queue)
      × ((finish reqs d).snapstore_device ≡ d.snapstore_device)
      × ((finish reqs d).queue_active ≡ d.queue_active)
      × ((finish reqs d).trace ≡ d.trace ++ map bio_sent reqs)
unfolding finish finish_one
finish_lem [] d = (sym (append-nil d.sent), refl, refl, refl, sym (append-nil d.trace))
finish_lem (req ∷ reqs) d =
    let ih = finish_lem reqs (finish_one req d) in
    (
      ih.0 ∙ append_assoc d.sent (req ∷ []) reqs,
      ih.1,
      ih.2,
      ih.3,
      ih.4 ∙ append_assoc d.trace (bio_sent req ∷ []) (map bio_sent reqs),
    )

-- Nothing is lost or put out of order, and no more is left than there was.
pub copy_prepare_fifo :
    (blk : ℕ) (stops : List Bool) (queue : List OriginalRequest) (n sectors : ℕ)
    (moved : List OriginalRequest) (p : Prep)
    → let m = copy_prepare blk stops queue n sectors moved p in
      (m.in_process ++ m.left ≡ moved ++ queue) × (length m.left ≤ length queue)
unfolding copy_prepare
copy_prepare_fifo blk stops [] n sectors moved p = (refl, omega arith)
copy_prepare_fifo blk stops (req ∷ reqs) n sectors moved p =
    let s = next_stop stops in
    let r = prepare_one blk s.0 req p in
    let ih = copy_prepare_fifo blk s.1 reqs (n + 1) (sectors + r.1) (moved ++ req ∷ []) r.2 in
    elim (Bool-cases (ltb n request_length && ltb sectors request_sectors_count)) [
      | inr full ↦ rw full (refl, omega arith)
      | inl more ↦ elim (Bool-cases (is_success r.0)) [
        | inr bad ↦ rw (more, bad) (append_assoc moved (req ∷ []) reqs, omega arith)
        | inl ok ↦ rw (more, ok) (ih.0 ∙ append_assoc moved (req ∷ []) reqs, omega (arith, ih.1))
      ]
    ]

-- A round takes something from a queue that is not empty.
copy_prepare_progress :
    (blk : ℕ) (stops : List Bool) (req : OriginalRequest) (reqs : List OriginalRequest) (p : Prep)
    → length (copy_prepare blk stops (req ∷ reqs) 0 0 [] p).left ≤ length reqs
unfolding copy_prepare
copy_prepare_progress blk stops req reqs p =
    let s = next_stop stops in
    let r = prepare_one blk s.0 req p in
    elim (Bool-cases (is_success r.0)) [
      | inr bad ↦ rw bad (omega arith)
      | inl ok ↦ rw ok (copy_prepare_fifo blk s.1 reqs (0 + 1) (0 + r.1) ([] ++ req ∷ []) r.2).1
    ]

-- What `_defer_io_finish` is given in a round: the blocks copied, and the state.
abbrev pub moved_of : ℕ → Turn → DeferIo → Moved
moved_of blk turn d =
    copy_prepare blk turn.stops d.dio_queue 0 0 []
      (record { dev = d.snapstore_device; dio_copy_req = none; mem = turn.mem })

abbrev pub copied_of : Turn → Moved → Status × Device × Fate
copied_of turn m = copy_blocks turn.read_res turn.store_res (m.res, m.prep)

abbrev pub done_of : Turn → Moved → CopyRequest
done_of turn m = if is_success (copied_of turn m).0 then blocks_of m.prep.dio_copy_req else []

abbrev pub before_finish : ℕ → Turn → DeferIo → DeferIo
before_finish blk turn d =
    let m = moved_of blk turn d in
    record d {
      dio_queue = m.left;
      snapstore_device = (copied_of turn m).1;
      trace = d.trace ++ map block_copied (done_of turn m);
    }

-- A round sends the front of the queue on, in its order; the rest is left.
pub round_fifo :
    (blk : ℕ) (turn : Turn) (d : DeferIo)
    → (taken : List OriginalRequest) × ((round blk turn d).sent ≡ d.sent ++ taken)
      × (taken ++ (round blk turn d).dio_queue ≡ d.dio_queue)
unfolding round
round_fifo blk turn d =
    let p : Prep = record { dev = d.snapstore_device; dio_copy_req = none; mem = turn.mem } in
    let m = copy_prepare blk turn.stops d.dio_queue 0 0 [] p in
    let fifo = copy_prepare_fifo blk turn.stops d.dio_queue 0 0 [] p in
    let f = finish_lem m.in_process (before_finish blk turn d) in
    (m.in_process, f.0, ap (λ (l : List OriginalRequest). m.in_process ++ l) f.1 ∙ fifo.0)

pub round_progress :
    (blk : ℕ) (turn : Turn) (d : DeferIo) (req : OriginalRequest) (reqs : List OriginalRequest)
    → d.dio_queue ≡ req ∷ reqs
    → length (round blk turn d).dio_queue ≤ length reqs
unfolding round
round_progress blk turn d req reqs e =
    let p : Prep = record { dev = d.snapstore_device; dio_copy_req = none; mem = turn.mem } in
    let m = copy_prepare blk turn.stops d.dio_queue 0 0 [] p in
    let f = finish_lem m.in_process (before_finish blk turn d) in
    let g : length m.left ≤ length reqs =
      subst
        (λ (q : List OriginalRequest).
          length (copy_prepare blk turn.stops q 0 0 [] p).left ≤ length reqs)
        (sym e) (copy_prepare_progress blk turn.stops req reqs p) in
    omega (arith, g, ap (length {A = OriginalRequest}) f.1)
