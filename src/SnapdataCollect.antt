-- ===== src/SnapdataCollect.antt =====
-- source/snapdata_collect.c, as built with SNAPDATA_SPARSE_CHANGES: a collector looks at the sectors that
-- are written to its device, and marks in a sparse bitmap those that begin with a magic text.
pub mod Marks
mod Tests
use veeamsnap.Prelude.{
  ℕ, zero, suc, ◌+◌, ◌-◌, ◌*◌, ◌/◌, Bool, true, false, List, [], ◌∷◌, ltb, ◌==◌, ◌||◌, min,
  if◌then◌else◌, length, take, drop, Status, success, einval, ealready, is_success, Memory,
}
use veeamsnap.CbtStorage.{same_bytes}
use veeamsnap.SparseBitmap.Bitmap.{Bitmap, set_bit}

-- `snapdata_collector_t`, with the first sector of its device; `magic_size` is the length of the text.
pub record Collector : Type 0 where
  pub device_start : ℕ
  pub magic_buff : List ℕ
  pub changes_sparse : Bitmap
  pub collected_size : ℕ
  pub already_set_size : ℕ
  pub fail_code : Status

-- `struct bio_vec`, with the bytes of its page
pub record BioVec : Type 0 where
  pub bv_page : List ℕ
  pub bv_len : ℕ
  pub bv_offset : ℕ

-- The comparison of a sector of the page with the magic text.
pub is_magic : List ℕ → List ℕ → ℕ → Bool
is_magic magic_buff mem buff_ofs =
    let compare_len : ℕ = min 512 (length magic_buff) in
    same_bytes (take compare_len (drop buff_ofs mem)) (take compare_len magic_buff)

-- The first loop of `_snapdata_collect_bvec`, with the bits of `sectors_map`: one round for each 512 bytes
-- or part of them. A page of 4096 bytes has 8 sectors, so no bit of the 64 is shifted out.
pub map_loop : (ℕ → Bool) → ℕ → ℕ → (ℕ → Bool) → ℕ → Bool
map_loop hit zero buff_ofs sectors_map = sectors_map
map_loop hit (suc n) buff_ofs sectors_map =
    map_loop hit n (buff_ofs + 512)
      (λ s. if s == buff_ofs / 512 then hit buff_ofs || sectors_map s else sectors_map s)

-- A round of the second loop, of a sector of the page: whether the loop goes on, and `res`.
pub mark_sector :
    (ℕ → Bool) → ℕ → ℕ → Status → Collector → Memory → Bool × Status × Collector × Memory
mark_sector sectors_map ofs buff_ofs_sect res c mem =
    let (set_res, changes, mem') = set_bit c.changes_sparse (ofs + buff_ofs_sect) true mem in
    let c' : Collector = record c { changes_sparse = changes } in
    if sectors_map buff_ofs_sect
    then elim set_res [
      | success ↦ (true, success, record c' { collected_size = c.collected_size + 512 }, mem')
      | ealready ↦ (true, ealready, record c' { already_set_size = c.already_set_size + 512 }, mem')
      | e ↦ (false, e, c', mem')
    ]
    else (true, res, c, mem)

-- The second loop, with its result
pub mark_loop : (ℕ → Bool) → ℕ → ℕ → ℕ → Status → Collector → Memory → Status × Collector × Memory
mark_loop sectors_map zero ofs buff_ofs res c mem = (res, c, mem)
mark_loop sectors_map (suc n) ofs buff_ofs res c mem =
    let r = mark_sector sectors_map ofs (buff_ofs / 512) res c mem in
    let rest = mark_loop sectors_map n ofs (buff_ofs + 512) r.1 r.2 r.3 in
    if r.0 then rest else (r.1, r.2, r.3)

-- `_snapdata_collect_bvec`: the result of the second loop is not returned.
pub collect_bvec : Collector → ℕ → BioVec → Memory → Status × Collector × Memory
collect_bvec c ofs bvec mem =
    let rounds : ℕ = (bvec.bv_len + 511) / 512 in
    let sectors_map : ℕ → Bool =
      map_loop (is_magic c.magic_buff bvec.bv_page) rounds bvec.bv_offset (λ s. false) in
    let r = mark_loop sectors_map rounds ofs bvec.bv_offset success c mem in
    if ltb 64 (bvec.bv_len / 512) then (einval, c, mem) else (success, r.1, r.2)

-- The loop of `snapdata_collect_Process` over the segments of a bio
pub process_loop : ℕ → List BioVec → Collector → Memory → Collector × Memory
process_loop ofs [] c mem = (c, mem)
process_loop ofs (bvec ∷ bvecs) c mem =
    let (err, c', mem') = collect_bvec c ofs bvec mem in
    let rest = process_loop (ofs + bvec.bv_len / 512) bvecs c' mem' in
    if is_success err then rest else (record c' { fail_code = err }, mem')

-- `snapdata_collect_Process` of a bio at a sector of the disk
pub process : Bool → ℕ → List BioVec → Collector → Memory → Collector × Memory
process is_read bio_sector bvecs c mem =
    let processed = process_loop (bio_sector - c.device_start) bvecs c mem in
    if is_read then (c, mem) else if is_success c.fail_code then processed else (c, mem)
