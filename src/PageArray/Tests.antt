-- ===== src/PageArray/Tests.antt =====
-- Runs of page_array.c.
use veeamsnap.Prelude.{
  arith, length-replicate, take, drop, min, ◌*◌, ◌-◌, ℕ, ◌≡◌, refl, true, false, none, List, [],
  ◌∷◌, replicate, length-replicate,
}
use veeamsnap.PageArray.Copying.{contents, pages2mem_lem}
use veeamsnap.PageArray.{
  pages2mem, page_size, PageArray, Counters, page_size, pointers_in_page, pg_cnt, byte_get,
  byte_set, ptr_get, ptr_set, page_array_memset, page_array_memcpy, page_array_alloc,
  page_count_calc,
}
use veeamsnap.PageArray.Items.{Paged}

abbrev page : List ℕ
page = replicate page_size 7

abbrev array : PageArray ℕ
array = record { pg = page ∷ page ∷ [] }

array-Paged : Paged page_size array
array-Paged = (length-replicate {A = ℕ} page_size 7, (length-replicate {A = ℕ} page_size 7, tt))

abbrev counters : Counters
counters = record {
  page_alloc_count = 4;
  page_free_count = 1;
  page_array_alloc_count = 2;
  page_array_free_count = 1;
}

refused : (page_array_alloc {A = ℕ} [] 3 counters (true ∷ true ∷ false ∷ [])).0 ≡ none
unfolding page_array_alloc veeamsnap.PageArray.finish_alloc veeamsnap.PageArray.alloc_pages
refused = refl

-- A copy over the border of two pages.
pages2mem_lem_example :
    pages2mem 4000 array 200
    ≡ (min 200 (page_size * pg_cnt array - 4000), take 200 (drop 4000 (contents array.pg)))
pages2mem_lem_example = pages2mem_lem array 4000 200 array-Paged (omega arith)
