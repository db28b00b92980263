-- ===== src/BlkDeferred/Copy.antt =====
-- The copy of a block: read from the original device into its pages, and stored in the ranges of its
-- descriptor.
use mathlib.Core.Path.{ap₂, subst}
use mathlib.Core.Option
use mathlib.Core.List.{append_assoc, append-nil}
use veeamsnap.Prelude.{
  some_inj, ℕ, zero, suc, ◌+◌, ◌*◌, ◌<◌, ◌≤◌, ◌≡◌, refl, sym, ap, ◌∙◌, true, Option, some, List, [],
  ◌∷◌, ◌++◌, ◌==◌, ==_iff, length, get_or, get_elem?, All, arith, Status, success, enodata,
}
use veeamsnap.Range.{Range, run, sectors, total, length-run, length-sectors}
use veeamsnap.BlkDeferred.{
  Transfer, segment, Bios, Deferred, Request, read_loop, read_original, store_ranges, store_file,
}
use veeamsnap.BlkDeferred.Portion.{Calm}
use veeamsnap.BlkDeferred.Submit.{submit_pages-all}
use veeamsnap.BlkDeferred.Segments.{
  fill, spill, paired, segment-paired, paired-append, Apart, fill-segment, spill-paired,
}

-- Every range has a sector.
abbrev pub NoEmpty : List Range → Type 0
NoEmpty rgs = All (λ rg. 0 < rg.cnt) rgs

store_ranges_lem :
    (spp pg_cnt : ℕ) (rgs : List Range) (p : ℕ) (io : Bios)
    → 0 < spp
    → NoEmpty rgs
    → p + total rgs ≤ pg_cnt * spp
    → Calm io
    → (io' : Bios) × (store_ranges spp pg_cnt rgs p io ≡ some io')
      × (io'.sent ≡ io.sent ++ paired (sectors rgs) p)
      × Calm io'
unfolding store_ranges paired
store_ranges_lem spp pg_cnt [] p io pos ne inside calm = (io, refl, sym (append-nil io.sent), calm)
store_ranges_lem spp pg_cnt (rg ∷ rgs) p io pos ne inside calm =
    let (io1, e1, s1, c1) =
      submit_pages-all spp p pg_cnt rg.ofs rg.cnt io pos ne.0 (omega arith) calm in
    let (io2, e2, s2, c2) =
      store_ranges_lem spp pg_cnt rgs (p + rg.cnt) io1 pos ne.1 (omega arith) c1 in
    let same : rg.cnt == rg.cnt ≡ true = (==_iff rg.cnt rg.cnt).1 refl in
    let len : p + length (run rg.ofs rg.cnt) ≡ p + rg.cnt =
      ap (λ (q : ℕ). p + q) (length-run rg.ofs rg.cnt) in
    (
      io2,
      rw (e1, store_ranges) (rw same e2),
      s2
          ∙ ap (λ (t : Transfer). t ++ paired (sectors rgs) (p + rg.cnt)) s1
          ∙ append_assoc io.sent (segment rg.ofs p rg.cnt) (paired (sectors rgs) (p + rg.cnt))
          ∙ ap (λ (t : Transfer). io.sent ++ t)
              (ap₂ ◌++◌ (segment-paired rg.cnt rg.ofs p) (ap (paired (sectors rgs)) (sym len))
                ∙ sym (paired-append (run rg.ofs rg.cnt) (sectors rgs) p)),
      c2,
    )

abbrev pub read_status : List Deferred → Status → Status
read_status [] res = res
read_status (dio ∷ dios) res = success

read_status-success : (dios : List Deferred) → read_status dios success ≡ success
read_status-success [] = refl
read_status-success (dio ∷ dios) = refl

-- The reads of a request, where the kernel refuses nothing.
abbrev reads : List Deferred → List Transfer
reads [] = []
reads (dio ∷ dios) = segment dio.sect.ofs 0 dio.sect.cnt ∷ reads dios

-- The writes that store it.
abbrev writes : List Deferred → List Transfer
writes [] = []
writes (dio ∷ dios) = paired (sectors dio.descr) 0 ∷ writes dios

-- A block whose pages hold it, and whose ranges have room for it.
abbrev pub Fits : ℕ → Deferred → Type 0
Fits spp dio =
    (0 < dio.sect.cnt)
    × (dio.sect.cnt ≤ dio.pg_cnt * spp)
    × (total dio.descr ≡ dio.sect.cnt)
    × NoEmpty dio.descr
    × Apart (sectors dio.descr)

read_loop_lem :
    (spp : ℕ) (dios : List Deferred) (res : Status) (io : Bios)
    → 0 < spp
    → All (Fits spp) dios
    → Calm io
    → (io' : Bios) × (read_loop spp dios res io ≡ some (read_status dios res, reads dios, io'))
      × Calm io'
unfolding read_loop
read_loop_lem spp [] res io pos fits calm = (io, refl, calm)
read_loop_lem spp (dio ∷ dios) res io pos fits calm =
    let (io1, e1, s1, c1) =
      submit_pages-all spp 0 dio.pg_cnt dio.sect.ofs dio.sect.cnt (record io { sent = [] }) pos
        fits.0.0 (omega (arith, fits.0.1)) calm in
    let (io2, e2, c2) = read_loop_lem spp dios success io1 pos fits.1 c1 in
    let same : dio.sect.cnt == dio.sect.cnt ≡ true = (==_iff dio.sect.cnt dio.sect.cnt).1 refl in
    (
      io2,
      rw (e1, read_loop)
          (rw (same, e2)
            (rw s1
              (ap (λ (q : Status). some (q, reads (dio ∷ dios), io2)) (read_status-success dios)))),
      c2,
    )

store_file_lem :
    (spp : ℕ) (dios : List Deferred) (io : Bios)
    → 0 < spp
    → All (Fits spp) dios
    → Calm io
    → (io' : Bios) × (store_file spp dios io ≡ some (writes dios, io')) × Calm io'
unfolding store_file
store_file_lem spp [] io pos fits calm = (io, refl, calm)
store_file_lem spp (dio ∷ dios) io pos fits calm =
    let (io1, e1, s1, c1) =
      store_ranges_lem spp dio.pg_cnt dio.descr 0 (record io { sent = [] }) pos fits.0.3
        (omega (arith, fits.0.1, fits.0.2)) calm in
    let (io2, e2, c2) = store_file_lem spp dios io1 pos fits.1 c1 in
    (io2, rw (e1, store_file) (rw (e2, s1) refl), c2)

some_dios :
    (dios : List Deferred) (k : ℕ) (dio : Deferred)
    → get_elem? dios k ≡ some dio
    → read_status dios enodata ≡ success
some_dios [] k dio h = absurd (cc h)
some_dios (x ∷ dios) k dio h = refl

reads-at :
    (dios : List Deferred) (k : ℕ) (dio : Deferred)
    → get_elem? dios k ≡ some dio
    → get_elem? (reads dios) k ≡ some (segment dio.sect.ofs 0 dio.sect.cnt)
reads-at [] k dio h = absurd (cc h)
reads-at (x ∷ dios) zero dio h =
    ap (λ (o : Option Deferred). Option.map (λ (d : Deferred). segment d.sect.ofs 0 d.sect.cnt) o) h
reads-at (x ∷ dios) (suc k) dio h = reads-at dios k dio h

writes-at :
    (dios : List Deferred) (k : ℕ) (dio : Deferred)
    → get_elem? dios k ≡ some dio
    → get_elem? (writes dios) k ≡ some (paired (sectors dio.descr) 0)
writes-at [] k dio h = absurd (cc h)
writes-at (x ∷ dios) zero dio h =
    ap (λ (o : Option Deferred). Option.map (λ (d : Deferred). paired (sectors d.descr) 0) o) h
writes-at (x ∷ dios) (suc k) dio h = writes-at dios k dio h

Fits-at :
    (spp : ℕ) (dios : List Deferred) (k : ℕ) (dio : Deferred)
    → All (Fits spp) dios
    → get_elem? dios k ≡ some dio
    → Fits spp dio
Fits-at spp [] k dio all h = absurd (cc h)
Fits-at spp (x ∷ dios) zero dio all h = subst (Fits spp) (some_inj h) all.0
Fits-at spp (x ∷ dios) (suc k) dio all h = Fits-at spp dios k dio all.1 h

copied :
    (spp i : ℕ) (dio : Deferred) (orig buff store : ℕ → ℕ)
    → Fits spp dio
    → i < dio.sect.cnt
    → spill
        (paired (sectors dio.descr) 0)
        (fill (segment dio.sect.ofs 0 dio.sect.cnt) orig buff)
        store
        (get_or (sectors dio.descr) i 0)
      ≡ orig (dio.sect.ofs + i)
copied spp i dio orig buff store f h =
    spill-paired (sectors dio.descr) 0 i (fill (segment dio.sect.ofs 0 dio.sect.cnt) orig buff)
      store f.4 (omega (arith, f.2, length-sectors dio.descr))
    ∙ fill-segment dio.sect.cnt dio.sect.ofs 0 i orig buff h

-- A request of one block or more is read from the original device and stored, where the kernel refuses
-- nothing, each block's pages hold it, and its ranges are not empty, have its size together and no
-- sector twice: both are submitted, with SUCCESS, and for the k-th block, what its read and then its
-- write leave in the i-th sector of its ranges is what the original has in the i-th sector of the block.
pub read_original-store_file :
    (spp : ℕ) (req : Request) (io : Bios) (k i : ℕ) (dio : Deferred) (orig buff store : ℕ → ℕ)
    → 0 < spp
    → All (Fits spp) req.dios
    → Calm io
    → get_elem? req.dios k ≡ some dio
    → i < dio.sect.cnt
    → (rs : List Transfer) × (io1 : Bios) × (ws : List Transfer) × (io2 : Bios) × (read_original spp
          req io
        ≡ some (success, rs, io1))
      × (store_file spp req.dios io1 ≡ some (ws, io2))
      × (t : Transfer) × (u : Transfer) × (get_elem? rs k ≡ some t)
      × (get_elem? ws k ≡ some u)
      × (spill u (fill t orig buff) store (get_or (sectors dio.descr) i 0)
          ≡ orig (dio.sect.ofs + i))
unfolding read_original
read_original-store_file spp req io k i dio orig buff store pos fits calm at h =
    let (io1, e1, c1) = read_loop_lem spp req.dios enodata io pos fits calm in
    let (io2, e2, c2) = store_file_lem spp req.dios io1 pos fits c1 in
    (
      reads req.dios,
      io1,
      writes req.dios,
      io2,
      e1 ∙ ap (λ (q : Status). some (q, reads req.dios, io1)) (some_dios req.dios k dio at),
      e2,
      segment dio.sect.ofs 0 dio.sect.cnt,
      paired (sectors dio.descr) 0,
      reads-at req.dios k dio at,
      writes-at req.dios k dio at,
      copied spp i dio orig buff store (Fits-at spp req.dios k dio fits at) h,
    )
