-- ===== src/DeferIo/Routing.antt =====
-- `tracking_make_request` and `defer_io_redirect_bio`: where a bio goes.
use mathlib.Core.Path.{subst}
use veeamsnap.Prelude.{
  ◌≡◌, ◌⊎◌, refl, sym, ap, ◌&&◌, not, Bool, true, false, List, [], ◌∷◌, ◌++◌, if◌then◌else◌,
  Bool-cases, inl, inr, success, is_success, Memory, alloc,
}
use veeamsnap.SnapstoreDevice.{is_corrupted}
use veeamsnap.DeferIo.{OriginalRequest, bio_sent, DeferIo, mark, cut, redirect_bio, make_request}

-- The bio as it is queued: cut at the end of the device, with its tracker.
abbrev pub as_queued : OriginalRequest → DeferIo → OriginalRequest
as_queued bio d = record bio { sect = cut d.tracker.capacity bio.sect; tracked = true }

-- The tests of `defer_io_redirect_bio`: the device is not corrupted, the allocator grants the request, and
-- the queue is open.
abbrev pub accepts : Memory → DeferIo → Bool
accepts mem d = not (is_corrupted d.snapstore_device).0 && (alloc mem).0 && d.queue_active

redirect_bio_lem :
    (req : OriginalRequest) (mem : Memory) (d : DeferIo)
    → let r = redirect_bio req mem d in
      ((r.0 ≡ success)
        × (r.1.dio_queue ≡ d.dio_queue ++ req ∷ [])
        × (r.1.sent ≡ d.sent)
        × (r.1.tracker ≡ d.tracker)
        × (accepts mem d ≡ true))
      ⊎ ((is_success r.0 ≡ false)
          × (r.1.dio_queue ≡ d.dio_queue)
          × (r.1.sent ≡ d.sent)
          × (r.1.tracker ≡ d.tracker)
          × (accepts mem d ≡ false))
unfolding redirect_bio
redirect_bio_lem req mem d = elim (Bool-cases (is_corrupted d.snapstore_device).0) [
  | inl bad ↦ inr (rw bad (refl, refl, refl, refl, refl))
  | inr good ↦ elim (Bool-cases (alloc mem).0) [
    | inr refused ↦ inr (rw (good, refused) (refl, refl, refl, refl, refl))
    | inl granted ↦ elim (Bool-cases d.queue_active) [
      | inl open_queue ↦ inl (rw (good, granted, open_queue) (refl, refl, refl, refl, refl))
      | inr closed ↦ inr (rw (good, granted, closed) (refl, refl, refl, refl, refl))
    ]
  ]
]

-- The four ways through the tests.
abbrev route : Bool → Bool → Bool → DeferIo → DeferIo → DeferIo → DeferIo → DeferIo
route own captured ok a b c e = if own then a else if captured then (if ok then b else c) else e

route_own :
    (own captured ok : Bool) (a b c e : DeferIo) → own ≡ true → route own captured ok a b c e ≡ a
route_own own captured ok a b c e h = rw h refl

route_free :
    (own captured ok : Bool) (a b c e : DeferIo)
    → own ≡ false
    → captured ≡ false
    → route own captured ok a b c e ≡ e
route_free own captured ok a b c e h k = rw (h, k) refl

route_held :
    (own captured ok : Bool) (a b c e : DeferIo)
    → own ≡ false
    → captured ≡ true
    → ok ≡ true
    → route own captured ok a b c e ≡ b
route_held own captured ok a b c e h k l = rw (h, k, l) refl

route_refused :
    (own captured ok : Bool) (a b c e : DeferIo)
    → own ≡ false
    → captured ≡ true
    → ok ≡ false
    → route own captured ok a b c e ≡ c
route_refused own captured ok a b c e h k l = rw (h, k, l) refl

-- The bio was queued, not marked and not sent.
abbrev pub Queued : OriginalRequest → DeferIo → DeferIo → Type 0
Queued req d d' =
    (d'.dio_queue ≡ d.dio_queue ++ req ∷ []) × (d'.sent ≡ d.sent) × (d'.tracker ≡ d.tracker)

-- The bio was sent on, after its write was marked, and not queued.
abbrev pub Sent : OriginalRequest → DeferIo → DeferIo → Type 0
Sent req d d' =
    (d'.dio_queue ≡ d.dio_queue)
    × (d'.sent ≡ d.sent ++ req ∷ [])
    × (d'.tracker ≡ mark req d.tracker)

-- The bio is another's, the device is captured, and the bio is accepted for the queue.
abbrev pub is_deferred : Bool → Memory → DeferIo → Bool
is_deferred own mem d = not own && d.tracker.captured && accepts mem d

-- `tracking_make_request` queues a bio of a tracked device, cut at the end of the device, exactly where it
-- is not one of the module's own, the device is captured, its snapshot is not corrupted, the allocator
-- grants the request and the queue is open; it then neither marks it nor sends it on. In all other
-- cases it does not queue the bio, marks its write and sends it on: cut in the same way, but the module's
-- own as they are.
pub make_request_lem :
    (own : Bool) (bio : OriginalRequest) (mem : Memory) (d : DeferIo)
    → let d' = make_request own bio mem d in
      ((is_deferred own mem d ≡ true) × Queued (as_queued bio d) d d')
      ⊎ ((is_deferred own mem d ≡ false)
          × Sent (if own then record bio { tracked = true } else as_queued bio d) d d')
unfolding make_request
make_request_lem own bio mem d =
    let req : OriginalRequest = as_queued bio d in
    let r = redirect_bio req mem d in
    let low = λ (q : OriginalRequest) (e : DeferIo). record e {
      tracker = mark q e.tracker;
      sent = e.sent ++ q ∷ [];
      trace = e.trace ++ bio_sent q ∷ [];
    } in
    let mine : OriginalRequest = record bio { tracked = true } in
    let Goes : DeferIo → Type 0 = λ d'.
      ((is_deferred own mem d ≡ true) × Queued req d d')
      ⊎ ((is_deferred own mem d ≡ false) × Sent (if own then mine else req) d d') in
    elim (Bool-cases own) [
      | inl is_own ↦ inr (
          let e : make_request own bio mem d ≡ low mine d =
            route_own own d.tracker.captured (is_success r.0) (low mine d) r.1 (low req r.1)
              (low req d) is_own in
          let q : (if own then mine else req) ≡ mine = rw is_own refl in
          (
            rw is_own refl,
            subst (λ (x : OriginalRequest). Sent x d (make_request own bio mem d)) (sym q)
                (subst (Sent mine d) (sym e) (refl, refl, refl)),
          ))
      | inr other ↦
          let q : (if own then mine else req) ≡ req = rw other refl in
          elim (Bool-cases d.tracker.captured) [
            | inr free ↦
                let e : make_request own bio mem d ≡ low req d =
                  route_free own d.tracker.captured (is_success r.0) (low mine d) r.1 (low req r.1)
                    (low req d) other free in
                inr (
                  rw (other, free) refl,
                  subst (λ (x : OriginalRequest). Sent x d (make_request own bio mem d)) (sym q)
                      (subst (Sent req d) (sym e) (refl, refl, refl)),
                )
            | inl held ↦ elim (redirect_bio_lem req mem d) [
              | inl (ok, dq, s, t, acc) ↦
                  let e : make_request own bio mem d ≡ r.1 =
                    route_held own d.tracker.captured (is_success r.0) (low mine d) r.1
                      (low req r.1) (low req d) other held (ap is_success ok) in
                  inl (rw (other, held) acc, subst (Queued req d) (sym e) (dq, s, t))
              | inr (bad, dq, s, t, acc) ↦
                  let e : make_request own bio mem d ≡ low req r.1 =
                    route_refused own d.tracker.captured (is_success r.0) (low mine d) r.1
                      (low req r.1) (low req d) other held bad in
                  inr (
                    rw (other, held) acc,
                    subst (λ (x : OriginalRequest). Sent x d (make_request own bio mem d)) (sym q)
                        (subst (Sent req d) (sym e) (
                          dq,
                          ap (λ (l : List OriginalRequest). l ++ req ∷ []) s,
                          ap (mark req) t,
                        )),
                  )
            ]
          ]
    ]
