-- ===== src/PageArray/Copying.antt =====
-- Copies out of an array of pages: the pages read as one run of bytes.
use mathlib.Core.Path.{ap₂}
use veeamsnap.Prelude.{
  ℕ, zero, suc, ◌+◌, ◌-◌, ◌*◌, ◌/◌, ◌%◌, ◌<◌, ◌≤◌, ◌≡◌, refl, sym, ap, ◌∙◌, List, [], ◌∷◌, ◌++◌,
  ◌==◌, Bool-cases, inl, inr, length, get_or, All, take, drop, min, arith,
}
use veeamsnap.PageArray.{PageArray, page_size, pg_cnt, page_at, copy_out, pages2mem}

module _ {A : Type 0} where
  -- The bytes of the pages, one after the other
  abbrev pub contents : List (List A) → List A
  contents [] = []
  contents (page ∷ pages) = page ++ contents pages

  abbrev pub Whole : List A → Type 0
  Whole page = length page ≡ page_size

  take_over :
      (n m r : ℕ) (xs ys : List A)
      → m ≡ min (length xs) n
      → r ≡ n - length xs
      → take n (xs ++ ys) ≡ take m xs ++ take r ys
  take_over zero m r xs ys e f =
      let no_m : m ≡ 0 = omega (arith, e) in
      let no_r : r ≡ 0 = omega (arith, f) in rw (no_m, no_r) refl
  take_over (suc n) m r [] ys e f =
      let no_m : m ≡ 0 = omega (arith, e) in
      let all_r : r ≡ suc n = omega (arith, f) in rw (no_m, all_r) refl
  take_over (suc n) m r (x ∷ xs) ys e f =
      let one_more : suc (m - 1) ≡ m = omega (arith, e) in
      ap (◌∷◌ x) (take_over n (m - 1) r xs ys (omega (arith, e)) (omega (arith, f)))
      ∙ ap (λ (i : ℕ). take i (x ∷ xs) ++ take r ys) one_more

  take_none : (n : ℕ) → take {A = A} n [] ≡ []
  take_none zero = refl
  take_none (suc n) = refl

  drop_inside : (u : ℕ) (xs ys : List A) → u ≤ length xs → drop u (xs ++ ys) ≡ drop u xs ++ ys
  drop_inside zero xs ys h = refl
  drop_inside (suc u) [] ys h = absurd (omega arith)
  drop_inside (suc u) (x ∷ xs) ys h = drop_inside u xs ys (omega arith)

  drop_past : (n m : ℕ) (xs ys : List A) → m ≡ length xs + n → drop m (xs ++ ys) ≡ drop n ys
  drop_past n m [] ys e = ap (λ (i : ℕ). drop i ys) (omega (arith, e))
  drop_past n m (x ∷ xs) ys e =
      let one_more : m ≡ suc (m - 1) = omega (arith, e) in
      ap (λ (i : ℕ). drop i (x ∷ xs ++ ys)) one_more ∙ drop_past n (m - 1) xs ys (omega (arith, e))

  copy_out_lem :
      (pages : List (List A)) (left : ℕ)
      → All Whole pages
      → copy_out pages left ≡ (min left (page_size * length pages), take left (contents pages))
  unfolding copy_out
  copy_out_lem [] left h =
      ap₂ (λ (n : ℕ) (xs : List A). (n, xs)) (omega arith) (sym (take_none left))
  copy_out_lem (page ∷ pages) left h =
      let m : ℕ = min page_size left in
      let rest = copy_out_lem pages (left - m) h.1 in
      elim (Bool-cases (left == 0)) [
        | inl y ↦
            let none_left : left ≡ 0 = ground arith in
            rw y (
              ap₂ (λ (n : ℕ) (xs : List A). (n, xs)) (omega (arith, none_left))
                (ap (λ (i : ℕ). take i (page ++ contents pages)) (sym none_left)))
        | inr z ↦ rw z (
            ap₂ (λ (n : ℕ) (xs : List A). (n, xs))
              (ap (λ (r : ℕ × List A). m + r.0) rest ∙ omega arith)
              (ap (λ (r : ℕ × List A). take m page ++ r.1) rest
                ∙ sym (
                    take_over left m (left - m) page (contents pages) (omega (arith, h.0))
                      (omega (arith, h.0)))))
      ]

  -- The pages from the q-th on
  drop_pages :
      (q u : ℕ) (pages : List (List A))
      → All Whole pages
      → q < length pages
      → u ≤ page_size
      → drop (page_size * q + u) (contents pages)
        ≡ drop u (get_or pages q []) ++ contents (drop (q + 1) pages)
  drop_pages q u [] h lt le = absurd (omega arith)
  drop_pages zero u (page ∷ pages) h lt le =
      ap (λ (i : ℕ). drop i (page ++ contents pages)) (omega arith)
      ∙ drop_inside u page (contents pages) (omega (arith, h.0))
  drop_pages (suc q) u (page ∷ pages) h lt le =
      let next : suc q + 1 ≡ suc (q + 1) = omega arith in
      drop_past (page_size * q + u) (page_size * suc q + u) page (contents pages)
        (omega (arith, h.0))
      ∙ drop_pages q u pages h.1 (omega arith) le
      ∙ ap (λ (i : ℕ). drop u (get_or pages q []) ++ contents (drop i (page ∷ pages))) (sym next)

  page_at-Whole :
      (q : ℕ) (pages : List (List A))
      → All Whole pages
      → q < length pages
      → length (get_or pages q []) ≡ page_size
  page_at-Whole q [] h lt = absurd (omega arith)
  page_at-Whole zero (page ∷ pages) h lt = h.0
  page_at-Whole (suc q) (page ∷ pages) h lt = page_at-Whole q pages h.1 (omega arith)

  All-drop : (q : ℕ) (pages : List (List A)) → All Whole pages → All Whole (drop q pages)
  All-drop zero pages h = h
  All-drop (suc q) [] h = h
  All-drop (suc q) (page ∷ pages) h = All-drop q pages h.1

  length-drop : (q : ℕ) (pages : List (List A)) → length (drop q pages) ≡ length pages - q
  length-drop zero pages = omega arith
  length-drop (suc q) [] = omega arith
  length-drop (suc q) (page ∷ pages) = length-drop q pages ∙ omega arith

  length-drop_items : (u : ℕ) (xs : List A) → length (drop u xs) ≡ length xs - u
  length-drop_items zero xs = omega arith
  length-drop_items (suc u) [] = omega arith
  length-drop_items (suc u) (x ∷ xs) = length-drop_items u xs ∙ omega arith

  -- `page_array_pages2mem` from a place in an array of whole pages: it copies as many bytes as were asked for,
  -- or those up to the end of the array where that are fewer, and says how many; they are the bytes of
  -- the pages, taken as one run, from the place on.
  pub pages2mem_lem :
      (arr : PageArray A) (arr_ofs len : ℕ)
      → All Whole arr.pg
      → arr_ofs < page_size * pg_cnt arr
      → pages2mem arr_ofs arr len
        ≡ (min len (page_size * pg_cnt arr - arr_ofs), take len (drop arr_ofs (contents arr.pg)))
  unfolding pages2mem
  pages2mem_lem arr arr_ofs len h lt =
      let q : ℕ = arr_ofs / page_size in
      let u : ℕ = arr_ofs % page_size in
      let place : arr_ofs ≡ page_size * q + u = omega arith in
      let inside : u ≤ page_size = omega arith in
      let there : q < length arr.pg = omega (arith, lt) in
      let page : List A = page_at arr q in
      let after : List (List A) = drop (q + 1) arr.pg in
      let m : ℕ = min (page_size - u) len in
      let rest = copy_out_lem after (len - m) (All-drop (q + 1) arr.pg h) in
      let page_left : length (drop u page) ≡ page_size - u =
        length-drop_items u page ∙ ap (λ (n : ℕ). n - u) (page_at-Whole q arr.pg h there) in
      let run : drop arr_ofs (contents arr.pg) ≡ drop u page ++ contents after =
        ap (λ (i : ℕ). drop i (contents arr.pg)) place ∙ drop_pages q u arr.pg h there inside in
      ap₂ (λ (n : ℕ) (xs : List A). (n, xs))
        (ap (λ (r : ℕ × List A). m + r.0) rest
          ∙ omega (arith, place, inside, there, length-drop (q + 1) arr.pg))
        (ap (λ (r : ℕ × List A). take m (drop u page) ++ r.1) rest
          ∙ sym (
              take_over len m (len - m) (drop u page) (contents after) (omega (arith, page_left))
                (omega (arith, page_left)))
          ∙ ap (take len) (sym run))
