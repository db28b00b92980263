-- ===== src/CbtStorage/Tests.antt =====
-- Runs of cbt_storage.c on pages of four bytes.
use veeamsnap.Prelude.{
  ℕ, zero, suc, ◌+◌, ◌-◌, ◌*◌, ◌/◌, ◌<◌, ◌≡◌, refl, some, List, [], ◌∷◌, success, if◌then◌else◌,
  take, length, leb, arith,
}
use veeamsnap.RangeVector.{RangeVector, v2p, v2p_el, v2p_els, v2p_result}
use veeamsnap.CbtStorage.{
  Machine, Page, Time, Disk, Accessor, storage_magic, write, write_finish, check, check_page,
  page_crc, same_bytes, read,
}
use veeamsnap.CbtStorage.Pages.{Mapped, IsValid}
use veeamsnap.CbtStorage.Stream.{Written, write_lem}
use veeamsnap.CbtStorage.Check.{write_finish-check}
use veeamsnap.CbtStorage.Reading.{Readable, Position, read-across}

abbrev machine : Machine
machine = record {
  sectors_in_page = 8;
  page_data_size = 4;
  crc32 = λ number time bytes. number + time.tv_sec + length bytes;
  overlay = λ o ofs old new. new;
}

-- Three pages in one range.
abbrev vector : RangeVector
vector = record { els = (record { ofs = 100; cnt = 24 } ∷ []) ∷ []; blocks_cnt = 1 }

abbrev place : ℕ → ℕ
place n = 100 + 8 * n

abbrev now : Time
now = record { tv_sec = 7; tv_nsec = 1 }

abbrev page_of : ℕ → List ℕ → Page
page_of number bytes = record {
  magic = storage_magic;
  crc = number + 7 + length bytes;
  number = number;
  time = now;
  content = bytes;
}

-- The pages that were written at the time 7.
abbrev disk : Disk
disk = record {
  pages =
      λ o. page_of ((o - 100) / 8) (if leb 108 o then 5 ∷ 6 ∷ 7 ∷ 8 ∷ [] else 1 ∷ 2 ∷ 3 ∷ 4 ∷ []);
  results = [];
}

-- At the second byte of the first page.
abbrev accessor : Accessor
accessor = record {
  device = disk;
  rangevector = vector;
  page = page_of 0 (1 ∷ 2 ∷ 3 ∷ 4 ∷ []);
  page_count = 3;
  page_number = 0;
  used_page_count = 3;
  page_offset = 1;
  time = now;
}

mapped_at : (n : ℕ) → n < 3 → v2p vector (n * 8) 8 ≡ (success, some (place n, 8))
unfolding v2p v2p_el v2p_els v2p_result
mapped_at zero h = refl
mapped_at (suc zero) h = refl
mapped_at (suc (suc zero)) h = refl
mapped_at (suc (suc (suc n))) h = absurd (omega arith)

accessor-Mapped : Mapped machine vector 3 place
accessor-Mapped = record {
  at = mapped_at;
  apart = λ m n hm hn ne. ground arith;
  some_sectors = omega arith;
}

accessor-IsValid : IsValid machine place accessor
accessor-IsValid = record {
  mapped = accessor-Mapped;
  few = omega arith;
  full = refl;
  has_data = omega arith;
  within = omega arith;
  to_end = omega arith;
  calm = refl;
  stamped = λ j h. absurd (omega arith);
}

page_good : (j : ℕ) → j < 3 → check_page machine j (disk.pages (place j)) ≡ success
unfolding check_page same_bytes page_crc
page_good zero h = refl
page_good (suc zero) h = refl
page_good (suc (suc zero)) h = refl
page_good (suc (suc (suc n))) h = absurd (omega arith)

accessor-Readable : Readable machine place accessor
accessor-Readable = record { mapped = accessor-Mapped; calm = refl; good = page_good }

-- Six bytes from the second byte of the first page on.
write_lem_example :
    Written machine place
      (11 ∷ 12 ∷ 13 ∷ 14 ∷ 15 ∷ 16 ∷ [])
      accessor
      (write machine (11 ∷ 12 ∷ 13 ∷ 14 ∷ 15 ∷ 16 ∷ []) accessor)
write_lem_example =
    write_lem machine place (11 ∷ 12 ∷ 13 ∷ 14 ∷ 15 ∷ 16 ∷ []) accessor accessor-IsValid
      (omega arith) (omega arith) (omega arith)

write_finish-check_example :
    (b : Accessor) × (c : Accessor) × (write_finish machine accessor ≡ (success, b))
    × (check machine b ≡ (success, c))
    × (c.time ≡ now)
    × (c.used_page_count ≡ 1)
write_finish-check_example =
    write_finish-check machine place accessor accessor-IsValid (omega arith) (omega arith)

read-across_example :
    (dst' : List ℕ) × (b : Accessor) × (read machine 5 (0 ∷ 0 ∷ 0 ∷ 0 ∷ 0 ∷ []) accessor
      ≡ some (success, dst', b))
    × (take 2 dst' ≡ 5 ∷ 6 ∷ [])
    × Position machine 1 2 b
read-across_example =
    read-across machine place 2 (0 ∷ 0 ∷ 0 ∷ 0 ∷ 0 ∷ []) accessor accessor-Readable (omega arith)
      (omega arith) (omega arith) (omega arith) refl
