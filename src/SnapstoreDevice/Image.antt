-- ===== src/SnapstoreDevice/Image.antt =====
-- What a read of the snapshot is made of: every sector of it comes from the stored block, or from the
-- device.
use mathlib.Core.Path.{subst}
use mathlib.Core.List.{append_assoc}
use native.Mathlib.Nat.{mul-add-mod_self_left, mod-eq_of_lt, div-add-mod, mod-lt, le-div_iff_mul-le}
use veeamsnap.Prelude.{
  ℕ, zero, suc, ◌+◌, ◌-◌, ◌*◌, ◌%◌, ◌/◌, ◌<◌, ◌≤◌, ◌≡◌, refl, sym, ap, ◌∙◌, Bool, true, false,
  Option, none, some, [], ◌++◌, ◌==◌, if◌then◌else◌, take, drop, Status, success, einval, enomem,
  enodata, ealready, efault, eio, edeadlk, ebusy, enodev, enosys, pos_enodata, arith,
}
use veeamsnap.Prelude.Word.{word, add64, sub64}
use veeamsnap.Range.{Range, run}
use veeamsnap.BlkDescrArray.{Header, get}
use veeamsnap.Snapstore.{Target, no_store, read, Part, Io}
use veeamsnap.Snapstore.Sectors.{device_sectors, block_size, device_side, request_side, run-join}
use veeamsnap.Snapstore.Redirect.{ranges_of, redirect-sent, redirect_part_lem}
use veeamsnap.SnapstoreDevice.{
  Device, serve, blk_ofs_count, serve_loop, serve_all, is_corrupted, first_block, last_block,
  device_read,
}
use veeamsnap.SnapstoreDevice.Source.{
  source, sector_source, map_run, readable, dev_run-map_run, map_run-cong, map_run-join,
  length-device_sectors, window, block_of,
}

-- What a step of a read that did not fail has sent.
abbrev Served : (ℕ → ℕ × ℕ) → ℕ → ℕ → ℕ → Io → Status × Io → Type 0
Served f pos rq_ofs n io r =
    (r.0 ≡ success)
    × (device_side r.1.parts ≡ device_side io.parts ++ map_run f pos n)
    × (request_side r.1.parts ≡ request_side io.parts ++ run rq_ofs n)
    × (r.1.answers ≡ [])

-- The part of a request that falls into one block.
serve_lem :
    (blk orig q k rq_ofs n : ℕ) (got : Status × Option Target) (io : Io)
    → readable blk got ≡ true
    → 0 < n
    → k + n ≤ blk
    → io.answers ≡ []
    → Served
        (source blk orig got)
        (blk * q + k)
        rq_ofs
        n
        io
        (serve blk read orig none got (blk * q + k) rq_ofs n io)
unfolding serve
serve_lem blk orig q k rq_ofs n (success, some t) io ok pos h e =
    let place : (blk * q + k) % blk ≡ k =
      mul-add-mod_self_left blk q k ∙ mod-eq_of_lt (omega arith) in
    let whole : block_size (ranges_of t) ≡ blk = ground (arith, ok) in
    let sent =
      redirect-sent blk read t (blk * q + k) rq_ofs n io (ground (arith, ok)) e
        (omega (arith, place, whole, h)) in
    (
      sent.0,
      sent.1
          ∙ ap (λ xs. device_side io.parts ++ xs)
              (ap (λ (i : ℕ). take n (drop i (device_sectors (ranges_of t)))) place
                ∙ window blk orig q k n (device_sectors (ranges_of t))
                    (length-device_sectors (ranges_of t) ∙ whole) h),
      sent.2,
      sent.3,
    )
serve_lem blk orig q k rq_ofs n (enodata, t) io ok pos h e =
    let part : Part = record {
      direction = read;
      blk_dev = orig;
      pos = blk * q + k;
      rq_ofs = rq_ofs;
      len = n;
    } in
    let sent = redirect_part_lem part io e in
    (
      sent.0,
      sent.1 ∙ ap (◌++◌ (device_side io.parts)) (dev_run-map_run orig (blk * q + k) n),
      sent.2,
      sent.3,
    )
serve_lem blk orig q k rq_ofs n (success, none) io ok pos h e = absurd (ground (arith, ok))
serve_lem blk orig q k rq_ofs n (einval, t) io ok pos h e = absurd (ground (arith, ok))
serve_lem blk orig q k rq_ofs n (enomem, t) io ok pos h e = absurd (ground (arith, ok))
serve_lem blk orig q k rq_ofs n (ealready, t) io ok pos h e = absurd (ground (arith, ok))
serve_lem blk orig q k rq_ofs n (efault, t) io ok pos h e = absurd (ground (arith, ok))
serve_lem blk orig q k rq_ofs n (eio, t) io ok pos h e = absurd (ground (arith, ok))
serve_lem blk orig q k rq_ofs n (edeadlk, t) io ok pos h e = absurd (ground (arith, ok))
serve_lem blk orig q k rq_ofs n (ebusy, t) io ok pos h e = absurd (ground (arith, ok))
serve_lem blk orig q k rq_ofs n (enodev, t) io ok pos h e = absurd (ground (arith, ok))
serve_lem blk orig q k rq_ofs n (enosys, t) io ok pos h e = absurd (ground (arith, ok))
serve_lem blk orig q k rq_ofs n (pos_enodata, t) io ok pos h e = absurd (ground (arith, ok))

-- The same, at a sector of the block.
serve_at :
    (blk orig bi a rq_ofs n : ℕ) (map : Header Target) (io : Io)
    → readable blk (get no_store map bi) ≡ true
    → 0 < n
    → bi * blk ≤ a
    → a + n ≤ (bi + 1) * blk
    → io.answers ≡ []
    → Served
        (sector_source blk orig map)
        a
        rq_ofs
        n
        io
        (serve blk read orig none (get no_store map bi) a rq_ofs n io)
serve_at blk orig bi a rq_ofs n map io ok pos lo hi e =
    let got = get no_store map bi in
    let k : ℕ = a - blk * bi in
    let split : blk * bi + k ≡ a = omega (arith, lo) in
    let one =
      subst
        (λ (p : ℕ).
          Served (source blk orig got) p rq_ofs n io (serve blk read orig none got p rq_ofs n io))
        split (serve_lem blk orig bi k rq_ofs n got io ok pos (omega (arith, lo, hi)) e) in
    let same : map_run (source blk orig got) a n ≡ map_run (sector_source blk orig map) a n =
      map_run-cong (source blk orig got) (sector_source blk orig map) a n (λ s from to.
        ap (λ (i : ℕ). source blk orig (get no_store map i) s)
          (sym (block_of blk bi s (omega (arith, lo, from)) (omega (arith, hi, to))))) in
    (one.0, one.1 ∙ ap (◌++◌ (device_side io.parts)) same, one.2, one.3)

-- Two steps, one after the other.
Served-join :
    (f : ℕ → ℕ × ℕ) (a rq_ofs n m : ℕ) (io io' : Io) (r : Status × Io)
    → m ≤ n
    → device_side io'.parts ≡ device_side io.parts ++ map_run f a m
    → request_side io'.parts ≡ request_side io.parts ++ run rq_ofs m
    → Served f (a + m) (rq_ofs + m) (n - m) io' r
    → Served f a rq_ofs n io r
Served-join f a rq_ofs n m io io' r le dev req rest = (
  rest.0,
  rest.1
      ∙ ap (λ xs. xs ++ map_run f (a + m) (n - m)) dev
      ∙ append_assoc (device_side io.parts) (map_run f a m) (map_run f (a + m) (n - m))
      ∙ ap (◌++◌ (device_side io.parts)) (map_run-join f a n m le),
  rest.2
      ∙ ap (λ xs. xs ++ run (rq_ofs + m) (n - m)) req
      ∙ append_assoc (request_side io.parts) (run rq_ofs m) (run (rq_ofs + m) (n - m))
      ∙ ap (◌++◌ (request_side io.parts)) (run-join rq_ofs n m le),
  rest.3,
)

-- The loop from a block on: `left` blocks more are left after it.
serve_loop_lem :
    (left blk orig bi start : ℕ) (map : Header Target) (rg : Range) (io : Io)
    → ((i : ℕ) → bi ≤ i → i ≤ bi + left → readable blk (get no_store map i) ≡ true)
    → start < rg.cnt
    → bi * blk ≤ rg.ofs + start
    → rg.ofs + start < (bi + 1) * blk
    → (bi + left) * blk < rg.ofs + rg.cnt
    → rg.ofs + rg.cnt ≤ (bi + left + 1) * blk
    → io.answers ≡ []
    → Served
        (sector_source blk orig map)
        (rg.ofs + start)
        start
        (rg.cnt - start)
        io
        (serve_loop blk read orig none map rg (suc left) bi start io)
unfolding serve_loop
serve_loop_lem zero blk orig bi start map rg io ok lt lo hi more end e =
    let count : ℕ = blk_ofs_count blk rg bi start in
    let all : count ≡ rg.cnt - start = omega (arith, end, lt) in
    let one =
      serve_at blk orig bi (rg.ofs + start) start count map io (ok bi (omega arith) (omega arith))
        (omega (arith, all, lt)) lo (omega (arith, hi, lt)) e in
    rw one.0 (
      subst
        (λ (n : ℕ). Served (sector_source blk orig map) (rg.ofs + start) start n io (
          success,
          (serve blk read orig none (get no_store map bi) (rg.ofs + start) start count io).1,
        ))
        all (refl, one.1, one.2, one.3))
serve_loop_lem (suc left) blk orig bi start map rg io ok lt lo hi more end e =
    let count : ℕ = blk_ofs_count blk rg bi start in
    let to_end : rg.ofs + start + count ≡ (bi + 1) * blk = omega (arith, more, hi, lt) in
    let one =
      serve_at blk orig bi (rg.ofs + start) start count map io (ok bi (omega arith) (omega arith))
        (omega (arith, to_end, hi)) lo (omega (arith, to_end)) e in
    let io' : Io =
      (serve blk read orig none (get no_store map bi) (rg.ofs + start) start count io).1 in
    let a : ℕ = rg.ofs + start in
    let rest =
      serve_loop_lem left blk orig (bi + 1) (start + count) map rg io'
        (λ i from to. ok i (omega (arith, from)) (omega (arith, to))) (omega (arith, to_end, more))
        (omega (arith, to_end)) (omega (arith, to_end, hi)) (omega (arith, more))
        (omega (arith, end)) one.3 in
    let there : rg.ofs + (start + count) ≡ a + count = omega arith in
    let fewer : rg.cnt - (start + count) ≡ rg.cnt - start - count = omega arith in
    let f = sector_source blk orig map in
    let r = serve_loop blk read orig none map rg (suc left) (bi + 1) (start + count) io' in
    let first : serve_loop blk read orig none map rg (suc (suc left)) bi start io ≡ r =
      rw one.0 refl in
    subst (λ q. Served f a start (rg.cnt - start) io q) (sym first)
      (Served-join f a start (rg.cnt - start) count io io' r (omega arith) one.1 one.2 (
        subst (λ (n : ℕ). Served f (a + count) (start + count) n io' r) fewer
          (subst (λ (p : ℕ). Served f p (start + count) (rg.cnt - (start + count)) io' r) there
            rest)))

serve_all_lem :
    (blk orig : ℕ) (rg : Range) (dev : Device) (io : Io)
    → 0 < blk
    → 0 < rg.cnt
    → rg.ofs + rg.cnt ≤ word
    → ((i : ℕ)
        → first_block blk rg ≤ i
        → i ≤ last_block blk rg
        → readable blk (get no_store dev.store_block_map i) ≡ true)
    → io.answers ≡ []
    → Served
        (sector_source blk orig dev.store_block_map)
        rg.ofs
        0
        rg.cnt
        io
        (serve_all blk read orig none dev rg io)
serve_all_lem blk orig rg dev io pos some_cnt short ok e =
    let fb : ℕ = first_block blk rg in
    let end : sub64 (add64 rg.ofs rg.cnt) 1 ≡ rg.ofs + rg.cnt - 1 = omega arith in
    let lb : ℕ = (rg.ofs + rg.cnt - 1) / blk in
    let is_lb : last_block blk rg ≡ lb = ap (λ (q : ℕ). q / blk) end in
    let k : ℕ = lb - fb in
    let lower = div-add-mod rg.ofs blk in
    let lower_lt = mod-lt rg.ofs pos in
    let upper = div-add-mod (rg.ofs + rg.cnt - 1) blk in
    let upper_lt = mod-lt (rg.ofs + rg.cnt - 1) pos in
    let ordered : fb ≤ lb =
      (le-div_iff_mul-le {k = blk} {x = fb} {y = rg.ofs + rg.cnt - 1} pos).1
        (omega (arith, lower, some_cnt)) in
    let up_to : fb + k ≡ lb = omega (arith, ordered) in
    let here : (fb + k) * blk ≡ lb * blk = ap (λ (t : ℕ). t * blk) up_to in
    let loop =
      serve_loop_lem k blk orig fb 0 dev.store_block_map rg io
        (λ i from to. ok i from (omega (arith, to, up_to, is_lb))) some_cnt (omega (arith, lower))
        (omega (arith, lower, lower_lt)) (omega (arith, here, upper, some_cnt))
        (omega (arith, here, upper, upper_lt)) e in
    let rounds : suc k ≡ last_block blk rg + 1 - fb = omega (arith, ordered, is_lb) in
    let start : rg.ofs + 0 ≡ rg.ofs = omega arith in
    let count : rg.cnt - 0 ≡ rg.cnt = omega arith in
    let f = sector_source blk orig dev.store_block_map in
    subst
      (λ (n : ℕ).
        Served f rg.ofs 0 rg.cnt io
          (serve_loop blk read orig none dev.store_block_map rg n fb 0 io))
      rounds
      (subst
        (λ (n : ℕ).
          Served f rg.ofs 0 n io
            (serve_loop blk read orig none dev.store_block_map rg (suc k) fb 0 io))
        count
        (subst
          (λ (p : ℕ).
            Served f p 0 (rg.cnt - 0) io
              (serve_loop blk read orig none dev.store_block_map rg (suc k) fb 0 io))
          start loop))

-- A read, of one sector or more and up to a sector of 64 bits, of a snapshot that is not corrupted,
-- where the parameter `zerosnapdata` is 0, every block of the range is stored whole or not stored,
-- and no call fails: the calls address, in order, each sector of the request once, and with it the
-- sector of the stored block where the block is stored, the sector of the device where it is not.
pub device_read_lem :
    (blk orig : ℕ) (rg : Range) (dev : Device) (io : Io)
    → 0 < blk
    → 0 < rg.cnt
    → rg.ofs + rg.cnt ≤ word
    → dev.corrupted ≡ false
    → ((i : ℕ)
        → first_block blk rg ≤ i
        → i ≤ last_block blk rg
        → readable blk (get no_store dev.store_block_map i) ≡ true)
    → io.answers ≡ []
    → let r = device_read blk orig none rg dev io in
      (r.0 ≡ success)
      × (r.1 ≡ dev)
      × (device_side r.2.parts
          ≡ device_side io.parts
            ++ map_run (sector_source blk orig dev.store_block_map) rg.ofs rg.cnt)
      × (request_side r.2.parts ≡ request_side io.parts ++ run 0 rg.cnt)
unfolding device_read is_corrupted
device_read_lem blk orig rg dev io pos some_cnt short sound ok e =
    let all = serve_all_lem blk orig rg dev io pos some_cnt short ok e in
    let r = serve_all blk read orig none dev rg io in
    let not_corrupted : is_corrupted dev ≡ (false, dev) =
      ap
        (λ b.
          if b
          then (true, record dev { req_failed_cnt = dev.req_failed_cnt + 1 })
          else (false, dev))
        sound in
    let not_empty : (rg.cnt == 0) ≡ false = ground (arith, some_cnt) in
    let result : device_read blk orig none rg dev io ≡ (r.0, dev, r.1) =
      ap
        (λ (c : Bool × Device).
          if c.0
          then (enodata, c.1, io)
          else if rg.cnt == 0
          then (success, dev, io)
          else (r.0, dev, r.1))
        not_corrupted
      ∙ ap (λ (b : Bool). if b then (success, dev, io) else (r.0, dev, r.1)) not_empty in
    (
      ap (λ q. q.0) result ∙ all.0,
      ap (λ q. q.1) result,
      ap (λ q. device_side q.2.parts) result ∙ all.1,
      ap (λ q. request_side q.2.parts) result ∙ all.2,
    )
