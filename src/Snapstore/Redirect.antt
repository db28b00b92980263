-- ===== src/Snapstore/Redirect.antt =====
-- The sectors that a redirected request reads or writes.
use mathlib.Core.Path.{subst, ap₂}
use mathlib.Core.List.{append_assoc, append-nil}
use veeamsnap.Prelude.{
  ℕ, ◌+◌, ◌-◌, ◌%◌, ◌≤◌, ◌≡◌, refl, sym, ap, ◌∙◌, inl, inr, Bool, true, false, List, [], ◌∷◌, ◌++◌,
  ltb, leb, Bool-cases, min, take, drop, success, arith,
}
use veeamsnap.Range.{Range, run}
use veeamsnap.Snapstore.{
  Direction, read, write, Part, Io, answer, redirect_part, count_written, redirect_ranges,
  on_device, Target, file, multidev, no_store, redirect,
}
use veeamsnap.Snapstore.Sectors.{
  dev_run, device_sectors, block_size, device_side, request_side, dev_run-past, device_side-append,
  request_side-append, window_split, run-join,
}

-- The calls of a run that all succeeded, from `io` on: the devices' sectors and the request's.
pub record Sent (dir : Direction) (io io' : Io) (devices : List (ℕ × ℕ)) (request : List ℕ)
    : Type 0 where
  pub device_is : device_side io'.parts ≡ device_side io.parts ++ devices
  pub request_is : request_side io'.parts ≡ request_side io.parts ++ request
  pub answers_left : io'.answers ≡ []

Sent-nothing :
    (dir : Direction) (io : Io) (xs : List (ℕ × ℕ)) (a k : ℕ)
    → io.answers ≡ []
    → k ≡ 0
    → Sent dir io io (take k xs) (run a k)
Sent-nothing dir io xs a k none_left e = record {
  device_is =
      sym (append-nil (device_side io.parts))
      ∙ ap (λ (n : ℕ). device_side io.parts ++ take n xs) (sym e);
  request_is =
      sym (append-nil (request_side io.parts))
      ∙ ap (λ (n : ℕ). request_side io.parts ++ run a n) (sym e);
  answers_left = none_left;
}

-- One call more, and what it leaves.
Sent-one :
    (dir : Direction) (part : Part) (io io' : Io) (devices : List (ℕ × ℕ)) (request : List ℕ)
    → io.answers ≡ []
    → Sent dir (count_written dir part.len (redirect_part part io).1) io' devices request
    → Sent dir io io'
        (dev_run part.blk_dev part.pos part.len ++ devices)
        (run part.rq_ofs part.len ++ request)
unfolding redirect_part count_written
Sent-one dir part io io' devices request none_left s = record {
  device_is =
      s.device_is
      ∙ ap (λ ps. device_side ps ++ devices) (parts_after dir part io)
      ∙ ap (λ xs. xs ++ devices)
          (device_side-append io.parts (part ∷ [])
            ∙ ap (◌++◌ (device_side io.parts))
                (append-nil (dev_run part.blk_dev part.pos part.len)))
      ∙ append_assoc (device_side io.parts) (dev_run part.blk_dev part.pos part.len) devices;
  request_is =
      s.request_is
      ∙ ap (λ ps. request_side ps ++ request) (parts_after dir part io)
      ∙ ap (λ xs. xs ++ request)
          (request_side-append io.parts (part ∷ [])
            ∙ ap (◌++◌ (request_side io.parts)) (append-nil (run part.rq_ofs part.len)))
      ∙ append_assoc (request_side io.parts) (run part.rq_ofs part.len) request;
  answers_left = s.answers_left;
}
  where
    parts_after :
        (dir : Direction) (part : Part) (io : Io)
        → (count_written dir part.len (redirect_part part io).1).parts ≡ io.parts ++ part ∷ []
    parts_after read part io = refl
    parts_after write part io = refl

answered :
    (dir : Direction) (part : Part) (io : Io)
    → io.answers ≡ []
    → ((redirect_part part io).0 ≡ success)
      × ((count_written dir part.len (redirect_part part io).1).answers ≡ [])
unfolding redirect_part count_written answer
answered read part io e = (ap (λ left. (answer left).0) e, ap (λ left. (answer left).1) e)
answered write part io e = (ap (λ left. (answer left).0) e, ap (λ left. (answer left).1) e)

-- No call fails: the calls of the loop, from the place reached on.
redirect_ranges-Sent :
    (dir : Direction) (rq_ofs rq_count : ℕ) (rgs : List (ℕ × Range)) (cur bo : ℕ) (io : Io)
    → io.answers ≡ []
    → cur ≤ rq_count
    → bo + (rq_count - cur) ≤ block_size rgs
    → let r = redirect_ranges dir rq_ofs rq_count rgs cur bo io in
      (r.0 ≡ success)
      × Sent dir io r.1
          (take (rq_count - cur) (drop bo (device_sectors rgs)))
          (run (rq_ofs + cur) (rq_count - cur))
unfolding redirect_ranges
redirect_ranges-Sent dir rq_ofs rq_count [] cur bo io none_left le fits = (
  refl,
  Sent-nothing dir io (drop bo []) (rq_ofs + cur) (rq_count - cur) none_left (omega (arith, fits)),
)
redirect_ranges-Sent dir rq_ofs rq_count ((dev, rg) ∷ rgs) cur bo io none_left le fits =
    elim (Bool-cases (leb rq_count cur)) [
      | inl full ↦ rw full (
        refl,
        Sent-nothing dir io (drop bo (device_sectors ((dev, rg) ∷ rgs))) (rq_ofs + cur)
            (rq_count - cur) none_left (ground (arith, full)),
      )
      | inr more ↦ elim (Bool-cases (ltb bo rg.cnt)) [
        | inl here ↦
            let len : ℕ = min (rg.cnt - bo) (rq_count - cur) in
            let part : Part = record {
              direction = dir;
              blk_dev = dev;
              pos = rg.ofs + bo;
              rq_ofs = rq_ofs + cur;
              len = len;
            } in
            let a = answered dir part io none_left in
            let rest =
              redirect_ranges-Sent dir rq_ofs rq_count rgs (cur + len) 0
                (count_written dir len (redirect_part part io).1) a.1 (omega (arith, le))
                (ground (arith, here, fits, more)) in
            let rest_count : rq_count - (cur + len) ≡ (rq_count - cur) - len = omega (arith, le) in
            let shift : rq_ofs + (cur + len) ≡ rq_ofs + cur + len = omega arith in
            let devices : dev_run dev (rg.ofs + bo) len
                  ++ take (rq_count - (cur + len)) (device_sectors rgs)
                ≡ take (rq_count - cur) (drop bo (device_sectors ((dev, rg) ∷ rgs))) =
              ap (λ (k : ℕ). dev_run dev (rg.ofs + bo) len ++ take k (device_sectors rgs))
                rest_count
              ∙ window_split dev rg.ofs rg.cnt bo (rq_count - cur) (device_sectors rgs)
                  (ground (arith, here)) in
            let request : run (rq_ofs + cur) len
                  ++ run (rq_ofs + (cur + len)) (rq_count - (cur + len))
                ≡ run (rq_ofs + cur) (rq_count - cur) =
              ap₂ (λ (b k : ℕ). run (rq_ofs + cur) len ++ run b k) shift rest_count
              ∙ run-join (rq_ofs + cur) (rq_count - cur) len (omega arith) in
            let next =
              redirect_ranges dir rq_ofs rq_count rgs (cur + len) 0
                (count_written dir len (redirect_part part io).1) in
            rw (more, here, a.0)
              (
                rest.0,
                subst (λ xs. Sent dir io next.1 xs (run (rq_ofs + cur) (rq_count - cur))) devices
                    (subst
                      (λ xs.
                        Sent dir io next.1
                          (dev_run dev (rg.ofs + bo) len
                            ++ take (rq_count - (cur + len)) (device_sectors rgs))
                          xs)
                      request (Sent-one dir part io next.1 _ _ none_left rest.1)),
              )
        | inr past ↦
            let skip =
              redirect_ranges-Sent dir rq_ofs rq_count rgs cur (bo - rg.cnt) io none_left le
                (ground (arith, past, fits)) in
            rw (more, past)
              (
                skip.0,
                subst
                    (λ xs.
                      Sent dir io (redirect_ranges dir rq_ofs rq_count rgs cur (bo - rg.cnt) io).1
                        (take (rq_count - cur) xs) (run (rq_ofs + cur) (rq_count - cur)))
                    (sym (
                      dev_run-past dev rg.ofs rg.cnt bo (device_sectors rgs)
                        (ground (arith, past))))
                    skip.1,
              )
      ]
    ]

ranges-sent :
    (blk : ℕ) (dir : Direction) (rgs : List (ℕ × Range)) (target_pos rq_ofs rq_count : ℕ) (io : Io)
    → io.answers ≡ []
    → target_pos % blk + rq_count ≤ block_size rgs
    → let r = redirect_ranges dir rq_ofs rq_count rgs 0 (target_pos % blk) io in
      (r.0 ≡ success)
      × (device_side r.1.parts
          ≡ device_side io.parts ++ take rq_count (drop (target_pos % blk) (device_sectors rgs)))
      × (request_side r.1.parts ≡ request_side io.parts ++ run rq_ofs rq_count)
      × (r.1.answers ≡ [])
ranges-sent blk dir rgs target_pos rq_ofs rq_count io none_left fits =
    let zero_less : rq_count - 0 ≡ rq_count = omega arith in
    let start : rq_ofs + 0 ≡ rq_ofs = omega arith in
    let sent =
      redirect_ranges-Sent dir rq_ofs rq_count rgs 0 (target_pos % blk) io none_left (omega arith)
        (omega (arith, fits)) in
    (
      sent.0,
      sent.1.device_is
          ∙ ap
              (λ (k : ℕ).
                device_side io.parts ++ take k (drop (target_pos % blk) (device_sectors rgs)))
              zero_less,
      sent.1.request_is ∙ ap₂ (λ (a k : ℕ). request_side io.parts ++ run a k) start zero_less,
      sent.1.answers_left,
    )

-- The ranges of the block, each with its device.
abbrev pub ranges_of : Target → List (ℕ × Range)
ranges_of (file dev rgs) = on_device dev rgs
ranges_of (multidev rgs) = rgs
ranges_of no_store = []

abbrev pub has_store : Target → Bool
has_store no_store = false
has_store _ = true

-- A request inside a block of a store on devices, no call of which fails: the calls address, in order,
-- exactly the request's sectors from `rq_ofs` on, and the block's sectors from the place of
-- `target_pos` in the block on.
pub redirect-sent :
    (blk : ℕ) (dir : Direction) (target : Target) (target_pos rq_ofs rq_count : ℕ) (io : Io)
    → has_store target ≡ true
    → io.answers ≡ []
    → target_pos % blk + rq_count ≤ block_size (ranges_of target)
    → let r = redirect blk dir target target_pos rq_ofs rq_count io in
      (r.0 ≡ success)
      × (device_side r.1.parts
          ≡ device_side io.parts
            ++ take rq_count (drop (target_pos % blk) (device_sectors (ranges_of target))))
      × (request_side r.1.parts ≡ request_side io.parts ++ run rq_ofs rq_count)
      × (r.1.answers ≡ [])
unfolding redirect
redirect-sent blk dir (file dev rgs) target_pos rq_ofs rq_count io store none_left fits =
    ranges-sent blk dir (on_device dev rgs) target_pos rq_ofs rq_count io none_left fits
redirect-sent blk dir (multidev rgs) target_pos rq_ofs rq_count io store none_left fits =
    ranges-sent blk dir rgs target_pos rq_ofs rq_count io none_left fits
redirect-sent blk dir no_store target_pos rq_ofs rq_count io store none_left fits =
    absurd (ground (arith, store))

-- One call that does not fail.
pub redirect_part_lem :
    (part : Part) (io : Io)
    → io.answers ≡ []
    → let r = redirect_part part io in
      (r.0 ≡ success)
      × (device_side r.1.parts ≡ device_side io.parts ++ dev_run part.blk_dev part.pos part.len)
      × (request_side r.1.parts ≡ request_side io.parts ++ run part.rq_ofs part.len)
      × (r.1.answers ≡ [])
unfolding redirect_part answer
redirect_part_lem part io e = (
  ap (λ left. (answer left).0) e,
  device_side-append io.parts (part ∷ [])
      ∙ ap (◌++◌ (device_side io.parts)) (append-nil (dev_run part.blk_dev part.pos part.len)),
  request_side-append io.parts (part ∷ [])
      ∙ ap (◌++◌ (request_side io.parts)) (append-nil (run part.rq_ofs part.len)),
  ap (λ left. (answer left).1) e,
)
