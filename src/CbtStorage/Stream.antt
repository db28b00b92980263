-- ===== src/CbtStorage/Stream.antt =====
-- `cbt_storage_write` adds its bytes to the end of the stream.
use mathlib.Core.List.{append_assoc}
use veeamsnap.Prelude.{
  ℕ, zero, suc, ◌+◌, ◌-◌, ◌<◌, ◌≡◌, refl, sym, ap, ◌∙◌, true, false, Option, some, List, [], ◌∷◌,
  ◌++◌, Status, success, enodata, ◌==◌, if◌then◌else◌, leb, length, take, drop, Bool-cases, inl,
  inr, arith, length-append, length-take, length-drop,
}
use veeamsnap.CbtStorage.{Machine, Accessor, can_be_write, put_bytes, write_loop, write}
use veeamsnap.CbtStorage.Pages.{IsValid}
use veeamsnap.CbtStorage.Splice.{take-take-drop}
use veeamsnap.CbtStorage.Portion.{stream, room, Adds, flush_lem, put_bytes_lem}

Adds-trans :
    (k : Machine) (phys : ℕ → ℕ) (a b c : Accessor) (xs ys : List ℕ)
    → Adds k phys a xs b
    → Adds k phys b ys c
    → Adds k phys a (xs ++ ys) c
Adds-trans k phys a b c xs ys p q = (
  q.0,
  q.1 ∙ ap (λ (l : List ℕ). l ++ ys) p.1 ∙ append_assoc (stream phys a) xs ys,
  omega (arith, p.2, q.2, length-append xs ys),
  q.3 ∙ p.3,
)

nil_of_length : (xs : List ℕ) → length xs ≡ 0 → xs ≡ []
nil_of_length [] h = refl
nil_of_length (x ∷ xs) h = absurd (omega arith)

-- What a write of `src` leaves, with the position inside a page.
abbrev pub Written : Machine → (ℕ → ℕ) → List ℕ → Accessor → Option (Status × Accessor) → Type 0
Written k phys src a r =
    (b : Accessor) × (r ≡ some (if leb (length src) (room k a) then success else enodata, b))
    × (stream phys b ≡ stream phys a ++ take (room k a) src)
    × IsValid k phys b
    × (b.page_offset < k.page_data_size)
    × (room k b + length (take (room k a) src) ≡ room k a)
    × (b.time ≡ a.time)

no_room : (k : Machine) (b : Accessor) → b.page_number == b.page_count ≡ true → room k b ≡ 0
no_room k b last = let z : b.page_count - b.page_number ≡ 0 = ground arith in rw z (omega arith)

put_bytes-pages :
    (k : Machine) (src : List ℕ) (a : Accessor)
    → a.page_number < a.page_count
    → (put_bytes k src a).page_number < (put_bytes k src a).page_count
unfolding put_bytes
put_bytes-pages k src a lt = lt

starts :
    (k : Machine) (src : List ℕ) (a : Accessor)
    → a.page_offset < k.page_data_size
    → 0 < length src
    → can_be_write k src a == 0 ≡ false
starts k src a h l = ground arith

write_loop_lem :
    (k : Machine) (phys : ℕ → ℕ) (fuel : ℕ) (src : List ℕ) (a : Accessor)
    → IsValid k phys a
    → a.page_number < a.page_count
    → length src < fuel
    → Written k phys src a (write_loop k fuel src a)
unfolding write_loop
write_loop_lem k phys zero src a v lt h = absurd (omega arith)
write_loop_lem k phys (suc fuel) src a v lt h =
    let (b, e, fl, inside, pc) = flush_lem k phys a v lt in
    let kept : room k b ≡ room k a = omega (arith, fl.2) in
    elim (Bool-cases (b.page_number == b.page_count)) [
      | inl last ↦
          let z : room k a ≡ 0 = sym kept ∙ no_room k b last in
          (
            b,
            rw (e, last) (ground (arith, z)),
            rw z fl.1,
            fl.0,
            inside,
            rw z (omega (arith, kept, z)),
            fl.3,
          )
      | inr more ↦ elim (Bool-cases (length src == 0)) [
        | inl done ↦
            let none_left : take (room k a) src ≡ [] =
              nil_of_length (take (room k a) src) (ground (arith, length-take (room k a) src)) in
            (
              b,
              rw (e, more, done) (ground arith),
              rw none_left fl.1,
              fl.0,
              inside,
              rw none_left (omega (arith, kept)),
              fl.3,
            )
        | inr left ↦
            let n : ℕ = can_be_write k src b in
            let some_src : 0 < length src = ground arith in
            let lt' : b.page_number < b.page_count = ground (arith, fl.0.to_end) in
            let put = put_bytes_lem k phys src b fl.0 lt' in
            let c = put_bytes k src b in
            let (d, ed, ds, dv, di, dr, dt) =
              write_loop_lem k phys fuel (drop n src) c put.0 (put_bytes-pages k src b lt')
                (omega (arith, length-drop n src)) in
            let len : length (take n src) ≡ n = omega (arith, length-take n src) in
            let both : n + room k c ≡ room k a = omega (arith, put.2, kept, len) in
            let bytes : take n src ++ take (room k c) (drop n src) ≡ take (room k a) src =
              take-take-drop n (room k c) src ∙ ap (λ (i : ℕ). take i src) both in
            let all =
              Adds-trans k phys a c d (take n src) (take (room k c) (drop n src))
                (Adds-trans k phys a b c [] (take n src) fl put) (dv, ds, dr, dt) in
            (
              d,
              rw (e, more, left, starts k src b inside some_src)
                  (ed ∙ ap (λ (s : Status). some (s, d)) (ground (arith, both, length-drop n src))),
              all.1 ∙ ap (λ (l : List ℕ). stream phys a ++ l) bytes,
              dv,
              di,
              rw (← bytes) all.2,
              all.3,
            )
      ]
    ]

-- `cbt_storage_write` of one byte or more, at a position inside a page that is not past the last, where
-- no transfer fails: it returns; as many of the bytes as there is room for are added to the end of the
-- stream; the result is SUCCESS where that is all of them, and ENODATA otherwise; the position is again
-- inside a page, and the time marker is as before.
pub write_lem :
    (k : Machine) (phys : ℕ → ℕ) (src : List ℕ) (a : Accessor)
    → IsValid k phys a
    → a.page_number < a.page_count
    → a.page_offset < k.page_data_size
    → 0 < length src
    → Written k phys src a (write k src a)
unfolding write
write_lem k phys src a v lt inside some_src =
    let n : ℕ = can_be_write k src a in
    let not_last : a.page_number == a.page_count ≡ false = ground arith in
    let put = put_bytes_lem k phys src a v lt in
    let c = put_bytes k src a in
    let (d, ed, ds, dv, di, dr, dt) =
      write_loop_lem k phys (suc (length src)) (drop n src) c put.0 (put_bytes-pages k src a lt)
        (omega (arith, length-drop n src)) in
    let len : length (take n src) ≡ n = omega (arith, length-take n src) in
    let both : n + room k c ≡ room k a = omega (arith, put.2, len) in
    let bytes : take n src ++ take (room k c) (drop n src) ≡ take (room k a) src =
      take-take-drop n (room k c) src ∙ ap (λ (i : ℕ). take i src) both in
    let all =
      Adds-trans k phys a c d (take n src) (take (room k c) (drop n src)) put (dv, ds, dr, dt) in
    (
      d,
      rw (not_last, starts k src a inside some_src)
          (ed ∙ ap (λ (s : Status). some (s, d)) (ground (arith, both, length-drop n src))),
      all.1 ∙ ap (λ (l : List ℕ). stream phys a ++ l) bytes,
      dv,
      di,
      rw (← bytes) all.2,
      all.3,
    )
