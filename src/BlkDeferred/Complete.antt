-- ===== src/BlkDeferred/Complete.antt =====
-- The completion of the bios of a request, in the order in which they end, and what the waiter sees.
use veeamsnap.Prelude.{
  ℕ, ◌+◌, ◌<◌, ◌≤◌, ◌≡◌, refl, ap, ◌∙◌, true, false, none, some, List, [], ◌∷◌, ◌==◌, if◌then◌else◌,
  All, Bool, Bool-cases, inl, inr, arith, Status, success, edeadlk, is_success, take,
}
use veeamsnap.BlkDeferred.{
  Request, waiting_skip, complete_count, complete_result, complete_steps, run_steps, complete,
  request_wait,
}

-- The sectors and the status of each bio.
abbrev pub Endings : Type 0
Endings = List (ℕ × Status)

abbrev pub ended : Endings → ℕ
ended [] = 0
ended (p ∷ ps) = p.0 + ended ps

-- `blk_deferred_bio_endio` of one bio after the other.
abbrev pub complete_all : Endings → Request → Request
complete_all [] req = req
complete_all (p ∷ ps) req = complete_all ps (complete p.0 p.1 req)

-- The status of the last bio that failed, or the one that was there.
abbrev pub last_failure : Endings → Status → Status
last_failure [] s = s
last_failure (p ∷ ps) s = last_failure ps (if is_success p.1 then s else p.1)

complete_lem :
    (n : ℕ) (s : Status) (req : Request)
    → ((complete n s req).sect_len ≡ req.sect_len)
      × ((complete n s req).sect_processed ≡ req.sect_processed + n)
      × ((complete n s req).completed
          ≡ (if req.sect_len == req.sect_processed + n then true else req.completed))
      × ((complete n s req).result ≡ (if is_success s then req.result else s))
unfolding complete complete_steps run_steps complete_count complete_result
complete_lem n s req = elim (Bool-cases (is_success s)) [
  | inl y ↦ rw y (refl, refl, refl, refl)
  | inr f ↦ rw f (refl, refl, refl, refl)
]

complete_all_lem :
    (ps : Endings) (req : Request)
    → req.completed ≡ (req.sect_len == req.sect_processed)
    → All (λ p. 0 < p.0) ps
    → req.sect_processed + ended ps ≤ req.sect_len
    → ((complete_all ps req).completed ≡ (req.sect_len == req.sect_processed + ended ps))
      × ((complete_all ps req).result ≡ last_failure ps req.result)
      × ((complete_all ps req).sect_processed ≡ req.sect_processed + ended ps)
      × ((complete_all ps req).sect_len ≡ req.sect_len)
complete_all_lem [] req c pos le =
    let e : req.sect_processed + 0 ≡ req.sect_processed = omega arith in rw e (c, refl, refl, refl)
complete_all_lem (p ∷ ps) req c pos le =
    let one = complete_lem p.0 p.1 req in
    let req' : Request = complete p.0 p.1 req in
    let c' : req'.completed ≡ (req'.sect_len == req'.sect_processed) =
      ground (arith, one.0, one.1, one.2, c, pos.0, le) in
    let ih = complete_all_lem ps req' c' pos.1 (omega (arith, one.0, one.1)) in
    (
      ground (arith, ih.0, one.0, one.1),
      ih.1 ∙ ap (last_failure ps) one.3,
      omega (arith, ih.2, one.1),
      omega (arith, ih.3, one.0),
    )

-- After `blk_deferred_request_waiting_skip`, where each bio has a sector or more and they do not exceed
-- the request, in whatever order the bios end: where the sectors of those that ended are all of the
-- request, the waiter returns the status of the last bio that failed, or the result that stood in the
-- request where none did, also if its time is out; before that, it goes on waiting while its time is not
-- out, and returns EDEADLK once it is.
pub request_wait-complete_all :
    (timeout : Bool) (ps : Endings) (req : Request)
    → All (λ p. 0 < p.0) ps
    → 0 < req.sect_len
    → ended ps ≤ req.sect_len
    → request_wait timeout (complete_all ps (waiting_skip req)) ≡ (
        if req.sect_len == ended ps
        then some (last_failure ps req.result)
        else if timeout
        then some edeadlk
        else none)
unfolding request_wait waiting_skip
request_wait-complete_all timeout ps req pos some_len le =
    let fresh : false ≡ (req.sect_len == 0) = ground arith in
    let all = complete_all_lem ps (waiting_skip req) fresh pos (omega arith) in
    let z : 0 + ended ps ≡ ended ps = omega arith in
    let done : (complete_all ps (waiting_skip req)).completed ≡ (req.sect_len == ended ps) =
      all.0 ∙ ap (λ (q : ℕ). req.sect_len == q) z in
    elim (Bool-cases (req.sect_len == ended ps)) [
      | inl y ↦ rw (done, y) (ap some all.1)
      | inr n ↦ rw (done, n) refl
    ]

-- `blk_deferred_complete` wakes the waiter before it keeps the result: where each bio has a sector or
-- more, they make up the request, all but the last succeeded and the last one fails, a waiter that looks
-- after the first of the steps that it makes for the last one returns SUCCESS, and one that looks after
-- all of them returns the failure.
pub request_wait_early :
    (ps : Endings) (n : ℕ) (s : Status) (req : Request)
    → All (λ p. 0 < p.0) ps
    → 0 < n
    → ended ps + n ≡ req.sect_len
    → last_failure ps req.result ≡ success
    → is_success s ≡ false
    → let before = complete_all ps (waiting_skip req) in
      (request_wait false (run_steps (take 1 (complete_steps n s)) before) ≡ some success)
      × (request_wait false (complete n s before) ≡ some s)
unfolding request_wait waiting_skip complete_count complete complete_steps run_steps complete_result
request_wait_early ps n s req pos some_n total none_failed failed =
    let fresh : false ≡ (req.sect_len == 0) = ground arith in
    let before = complete_all ps (waiting_skip req) in
    let all = complete_all_lem ps (waiting_skip req) fresh pos (omega arith) in
    let last : before.sect_len == before.sect_processed + n ≡ true = ground (arith, all.2, all.3) in
    (rw last (ap some (all.1 ∙ none_failed)), rw (failed, last) refl)
