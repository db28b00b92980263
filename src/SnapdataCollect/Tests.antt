-- ===== src/SnapdataCollect/Tests.antt =====
-- A write that the collector looks at.
use veeamsnap.Prelude.{
  ℕ, ◌+◌, ◌/◌, ◌≡◌, ◌≢◌, refl, Bool, true, false, some, List, [], ◌∷◌, ◌++◌, ◌&&◌, ltb, leb,
  if◌then◌else◌, replicate, success, enomem, Memory, arith,
}
use veeamsnap.SparseBitmap.Bitmap.{get_bit, set_bit}
use veeamsnap.SparseBitmap.Bitmap.Laws.{blank, blank-IsValid, blank_leaf-granted}
use veeamsnap.CbtStorage.{same_bytes}
use veeamsnap.SnapdataCollect.{Collector, is_magic, map_loop, mark_loop, mark_sector, collect_bvec}
use veeamsnap.SnapdataCollect.Marks.{segment, marking, collect_bvec_lem}

-- A device of 64 sectors.
abbrev collector : Collector
collector = record {
  device_start = 0;
  magic_buff = b'v' ∷ b'm' ∷ [];
  changes_sparse = blank 0 64 0;
  collected_size = 0;
  already_set_size = 0;
  fail_code = success;
}

-- A page of which the second sector begins with the text.
abbrev page : List ℕ
page = replicate 512 0 ++ b'v' ∷ b'm' ∷ replicate 510 0

mark_one :
    (m : ℕ → Bool) (ofs p : ℕ) (c : Collector) (mem : Memory)
    → (set_bit c.changes_sparse (ofs + p / 512) true mem).0 ≢ enomem
    → (mark_loop m 1 ofs p success c mem).0 ≢ enomem
unfolding mark_loop mark_sector
mark_one m ofs p c mem h e = ground (arith, h, e)

granted : (marking collector 20 page 1 1 []).0 ≢ enomem
granted =
    mark_one (map_loop (is_magic collector.magic_buff page) 1 512 (λ s. false)) 20 512 collector []
      (blank_leaf-granted 0 64 21 [])

-- The text is found where it stands.
found : is_magic collector.magic_buff (replicate 4 0 ++ b'v' ∷ b'm' ∷ b'x' ∷ []) 4 ≡ true
unfolding is_magic same_bytes
found = refl

collect_bvec_lem_example :
    let r = collect_bvec collector 20 (segment page 1 1) [] in
    (r.0 ≡ success)
    × (get_bit r.1.changes_sparse 21 ≡ (
        if leb 21 21 && ltb 21 22 && is_magic collector.magic_buff page 512
        then (success, some true)
        else get_bit collector.changes_sparse 21))
collect_bvec_lem_example =
    collect_bvec_lem collector 20 page 1 1 [] (blank-IsValid 0 64 0 (omega arith) (omega arith))
      (omega arith) (omega arith) (omega arith) granted 21 (omega arith, omega arith)
